-- ===== src/Venue/Closures/Revoked.antt =====
-- What the closures of backend/app/calendar_overrides.py do to trading days, and their revocation.
use cresta.Base.{
  ℕ, ◌≡◌, ◌&&◌, refl, ap, ◌∙◌, true, false, Option, none, some, List, [], ◌∷◌, ◌++◌, returns,
  if◌then◌else◌, arith,
}
use cresta.Base.Tables.{find_row, save_row, save_row-append}
use cresta.Venue.Dates.{Date, same_date}
use cresta.Venue.Calendar.{
  Holidays, CalendarOverride, TradingDay, day_closed, operational_closure, active_calendar_override,
  resolve_trading_day,
}
use cresta.Venue.Closures.{
  Closures, ClosureRequest, is_active_closure, create_calendar_override, find_active, revoked,
  revoke_row, revoke_calendar_override,
}

abbrev pub find_closure : ℕ → List CalendarOverride → Option CalendarOverride
find_closure id rows = find_row (λ (o : CalendarOverride). o.id) id rows

-- a row that is added last is found where none was
active-append :
    (rows : List CalendarOverride) (o : CalendarOverride) (d : Date)
    → active_calendar_override (rows ++ o ∷ []) d ≡ elim (active_calendar_override rows d) [
      | none ↦ if same_date o.market_date d && o.active then some o else none
      | some x ↦ some x
    ]
unfolding active_calendar_override
active-append [] o d = refl
active-append (x ∷ rows) o d = ground (arith, active-append rows o d)

find_active-append :
    (rows : List CalendarOverride) (o : CalendarOverride)
    → find_closure o.id rows ≡ none
    → o.active ≡ true
    → find_active o.id (rows ++ o ∷ []) ≡ some o
unfolding find_active find_row
find_active-append [] o free is = ground arith
find_active-append (x ∷ rows) o free is = ground (arith, find_active-append rows o)

-- what a successful creation has met and leaves
create-parts :
    (r : ClosureRequest) (seen db after : Closures) (item : CalendarOverride)
    → create_calendar_override r seen db ≡ returns (item, after)
    → (is_active_closure (active_calendar_override db.rows r.market_date) ≡ false)
      × (item.market_date ≡ r.market_date)
      × (item.active ≡ true)
      × (after.rows ≡ db.rows ++ item ∷ [])
unfolding create_calendar_override
create-parts r seen db after item e = ground arith

abbrev pub closed_by : CalendarOverride → TradingDay
closed_by item = record {
  status = day_closed;
  reason = operational_closure;
  override_id = some item.id;
}

same_date-lookup :
    (rows : List CalendarOverride) (c d : Date)
    → same_date c d ≡ true
    → active_calendar_override rows c ≡ active_calendar_override rows d
unfolding active_calendar_override
same_date-lookup [] c d same = refl
same_date-lookup (x ∷ rows) c d same = ground (arith, same_date-lookup rows c d same)

closed_after :
    (holidays : Holidays) (rows : List CalendarOverride) (item : CalendarOverride) (d : Date)
    → is_active_closure (active_calendar_override rows item.market_date) ≡ false
    → item.active ≡ true
    → resolve_trading_day holidays (rows ++ item ∷ []) d ≡ (
        if same_date item.market_date d
        then closed_by item
        else resolve_trading_day holidays rows d)
unfolding resolve_trading_day
closed_after holidays rows item d free is =
    let added = active-append rows item d in
    let same = same_date-lookup rows item.market_date d in ground arith

reopened_after :
    (holidays : Holidays) (rows : List CalendarOverride) (item : CalendarOverride) (d : Date)
    → item.active ≡ false
    → resolve_trading_day holidays (rows ++ item ∷ []) d ≡ resolve_trading_day holidays rows d
unfolding resolve_trading_day
reopened_after holidays rows item d is = let added = active-append rows item d in ground arith

revoke-returns :
    (user now : ℕ) (rows : List CalendarOverride) (item : CalendarOverride) (db : Closures)
    → db.rows ≡ rows ++ item ∷ []
    → find_closure item.id rows ≡ none
    → item.active ≡ true
    → (last : Closures) × (revoke_calendar_override user item.id now db
        ≡ returns (revoked user now item, last))
      × (last.rows ≡ rows ++ revoked user now item ∷ [])
unfolding revoke_calendar_override
revoke-returns user now rows item db are free is = (
  _,
  ap (λ o. revoke_row user now db o)
      (ap (λ t. find_active item.id t) are ∙ find_active-append rows item free is),
  ap (λ t. save_row (λ (o : CalendarOverride). o.id) (revoked user now item) t) are
      ∙ save_row-append (λ (o : CalendarOverride). o.id) item (revoked user now item) rows free
          refl,
)

-- A closure that is created closes its date, and no other date changes; its revocation succeeds and
-- leads every date back to what it was.
pub revoke_calendar_override-reopens :
    (holidays : Holidays) (r : ClosureRequest) (seen db after : Closures) (item : CalendarOverride)
    (user now : ℕ) (d : Date)
    → create_calendar_override r seen db ≡ returns (item, after)
    → find_closure item.id db.rows ≡ none
    → (resolve_trading_day holidays after.rows d ≡ (
        if same_date item.market_date d
        then closed_by item
        else resolve_trading_day holidays db.rows d))
      × ((last : Closures) × (revoke_calendar_override user item.id now after
            ≡ returns (revoked user now item, last))
          × (resolve_trading_day holidays last.rows d ≡ resolve_trading_day holidays db.rows d))
revoke_calendar_override-reopens holidays r seen db after item user now d e free =
    let (no_other, is_dated, is, are) = create-parts r seen db after item e in
    let unclosed =
      ap (λ date. is_active_closure (active_calendar_override db.rows date)) is_dated ∙ no_other in
    let (last, done, left) = revoke-returns user now db.rows item after are free is in
    (
      ap (λ t. resolve_trading_day holidays t d) are
          ∙ closed_after holidays db.rows item d unclosed is,
      (
        last,
        done,
        ap (λ t. resolve_trading_day holidays t d) left
            ∙ reopened_after holidays db.rows (revoked user now item) d refl,
      ),
    )
