-- ===== src/Venue/Closures/Examples.antt =====
-- A closure of a March Tuesday, and the theorem on its revocation there.
use cresta.Base.{◌≡◌, refl, false, some, [], ◌∷◌, returns, raises}
use cresta.Base.Tables.{find_row}
use cresta.Emergency.{strip}
use cresta.Venue.Dates.{Date, seoul_date, date_of_day, ordinal}
use cresta.Venue.Calendar.{
  Holidays, CalendarOverride, active_calendar_override, resolve_trading_day,
}
use cresta.Venue.Closures.{
  Closures, ClosureRequest, insert_closure, create_calendar_override, revoked,
  revoke_calendar_override, calendar_override_already_active, integrity_error,
  calendar_override_date_out_of_range,
}
use cresta.Venue.Closures.Revoked.{closed_by, revoke_calendar_override-reopens}

-- every weekday is open
abbrev holidays : Holidays
holidays y = some (λ d. false)

abbrev tuesday : Date
tuesday = record { year = 2026; month = 3; day = 3 }

-- made on the second of March
abbrev request : ClosureRequest
request = record {
  user = 7;
  market_date = tuesday;
  reason = 32 ∷ 104 ∷ 97 ∷ 108 ∷ 116 ∷ 115 ∷ 10 ∷ [];
  source_reference = 75 ∷ 82 ∷ 88 ∷ [];
  now = 1_772_409_600_000_000;
}

abbrev no_closures : Closures
no_closures = record { rows = []; audit = []; next_id = 5 }

abbrev item : CalendarOverride
item = (insert_closure request no_closures).0

abbrev closed : Closures
closed = (insert_closure request no_closures).1

closing : create_calendar_override request no_closures no_closures ≡ returns (item, closed)
unfolding create_calendar_override strip seoul_date date_of_day ordinal active_calendar_override
closing = refl

-- a second closure of the date is refused, but one that has not seen the first meets the index
closing_twice :
    (create_calendar_override request closed closed ≡ raises calendar_override_already_active)
    × (create_calendar_override request no_closures closed ≡ raises integrity_error)
unfolding create_calendar_override strip seoul_date date_of_day ordinal active_calendar_override
closing_twice = (refl, refl)

-- the past is out of range
closing_late :
    create_calendar_override
      (record request { now = 1_772_582_400_000_000 })
      no_closures
      no_closures
    ≡ raises calendar_override_date_out_of_range
unfolding create_calendar_override seoul_date date_of_day ordinal
closing_late = refl

revoke_calendar_override-reopens_example :
    (resolve_trading_day holidays closed.rows tuesday ≡ closed_by item)
    × ((last : Closures) × (revoke_calendar_override 8 5 100 closed
          ≡ returns (revoked 8 100 item, last))
        × (resolve_trading_day holidays last.rows tuesday
            ≡ resolve_trading_day holidays [] tuesday))
unfolding find_row
revoke_calendar_override-reopens_example =
    revoke_calendar_override-reopens holidays request no_closures no_closures closed item 8 100
      tuesday closing refl
