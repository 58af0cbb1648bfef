-- ===== src/Venue/Closures.antt =====
-- Closures of trading days by request: backend/app/calendar_overrides.py.
pub mod Revoked
mod Examples
use cresta.Base.{
  ℕ, suc, ◌+◌, Bool, true, false, not, ◌&&◌, ◌||◌, Option, none, some, List, [], ◌∷◌, ◌++◌, Result,
  returns, raises, raise_if, ◌>>=◌, ◌>>◌, ltb, leb, ◌==◌, if◌then◌else◌, length,
}
use cresta.Base.Tables.{save_row}
use cresta.Emergency.{Text, strip}
use cresta.Venue.Dates.{Date, ordinal, seoul_date}
use cresta.Venue.Calendar.{CalendarOverride, active_calendar_override}

pub data ClosureError : Type 0 where
  calendar_override_date_out_of_range calendar_override_reason_invalid : ClosureError
  calendar_override_source_invalid calendar_override_already_active : ClosureError
  calendar_override_not_found : ClosureError
  integrity_error : ClosureError

pub data ClosureAction : Type 0 where
  market_calendar_override_created market_calendar_override_revoked : ClosureAction

-- the actor, the action and the target of an `AuditLog`
pub record ClosureLog : Type 0 where
  pub actor_id : ℕ
  pub action : ClosureAction
  pub target : ℕ

-- the rows, the log, newest first, and what `uuid7` returns next
pub record Closures : Type 0 where
  pub rows : List CalendarOverride
  pub audit : List ClosureLog
  pub next_id : ℕ

pub record ClosureRequest : Type 0 where
  pub user : ℕ
  pub market_date : Date
  pub reason : Text
  pub source_reference : Text
  pub now : ℕ

-- `not minimum <= len(text) <= maximum`
abbrev pub is_not_sized : ℕ → ℕ → Text → Bool
is_not_sized minimum maximum text = not (leb minimum (length text) && leb (length text) maximum)

-- the dates of which a closure cannot be made; dates are ordered as their ordinals are
unfoldable pub is_out_of_range : Date → Date → Bool
is_out_of_range current d =
    ltb (ordinal d) (ordinal current) || ltb (ordinal current + 730) (ordinal d)

abbrev pub is_active_closure : Option CalendarOverride → Bool
is_active_closure none = false
is_active_closure (some o) = true

abbrev pub new_closure : ClosureRequest → ℕ → CalendarOverride
new_closure r id = record {
  id = id;
  market_date = r.market_date;
  active = true;
  reason = strip r.reason;
  source_reference = strip r.source_reference;
  created_by = r.user;
  revoked_by = none;
  revoked_at = none;
}

abbrev pub insert_closure : ClosureRequest → Closures → CalendarOverride × Closures
insert_closure r db =
    let item = new_closure r db.next_id in
    (
      item,
      record {
        rows = db.rows ++ item ∷ [];
        audit =
            record {
              actor_id = r.user;
              action = market_calendar_override_created;
              target = item.id;
            }
            ∷ db.audit;
        next_id = suc db.next_id;
      },
    )

-- `create_calendar_override`: it reads the first rows, and its flush meets the second, where the
-- index of the active dates refuses a second active row of a date
unfoldable pub create_calendar_override :
    ClosureRequest → Closures → Closures → Result ClosureError (CalendarOverride × Closures)
unfolding is_out_of_range
create_calendar_override r seen db = do
  raise_if (is_out_of_range (seoul_date r.now) r.market_date) calendar_override_date_out_of_range
  raise_if (is_not_sized 5 200 (strip r.reason)) calendar_override_reason_invalid
  raise_if (is_not_sized 3 200 (strip r.source_reference)) calendar_override_source_invalid
  raise_if (is_active_closure (active_calendar_override seen.rows r.market_date))
      calendar_override_already_active
  raise_if (is_active_closure (active_calendar_override db.rows r.market_date)) integrity_error
  returns (insert_closure r db)

unfoldable pub find_active : ℕ → List CalendarOverride → Option CalendarOverride
find_active id [] = none
find_active id (o ∷ os) = if o.id == id && o.active then some o else find_active id os

abbrev pub revoked : ℕ → ℕ → CalendarOverride → CalendarOverride
revoked user now item = record item {
  active = false;
  revoked_by = some user;
  revoked_at = some now;
}

abbrev pub save_closure : CalendarOverride → List CalendarOverride → List CalendarOverride
save_closure item rows = save_row (λ (o : CalendarOverride). o.id) item rows

abbrev pub revoke_row :
    ℕ → ℕ → Closures → Option CalendarOverride → Result ClosureError (CalendarOverride × Closures)
revoke_row user now db none = raises calendar_override_not_found
revoke_row user now db (some item) = returns (
  revoked user now item,
  record db {
    rows = save_closure (revoked user now item) db.rows;
    audit =
        record { actor_id = user; action = market_calendar_override_revoked; target = item.id }
        ∷ db.audit;
  },
)

-- `revoke_calendar_override`
unfoldable pub revoke_calendar_override :
    ℕ → ℕ → ℕ → Closures → Result ClosureError (CalendarOverride × Closures)
unfolding find_active
revoke_calendar_override user id now db = revoke_row user now db (find_active id db.rows)
