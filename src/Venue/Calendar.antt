-- ===== src/Venue/Calendar.antt =====
-- Trading days of KRX: backend/app/market_calendar.py.
use cresta.Base.{
  ℕ, zero, suc, Bool, ◌&&◌, ◌||◌, Option, none, some, leb, ◌==◌, if◌then◌else◌, List, [], ◌∷◌,
}
use cresta.Venue.Dates.{Date, weekday, previous_day, same_date, seoul_date}

-- What the package `holidays` answers for a year; `none` is an exception.
abbrev pub Holidays : Type 0
Holidays = ℕ → Option (Date → Bool)

-- no trading on a weekend or a public holiday
unfoldable pub is_closed : (Date → Bool) → Date → Bool
is_closed public_holidays d = leb 5 (weekday d) || public_holidays d

-- the loop of `_year_end_closure`, with a bound on its rounds; `none` if they do not suffice
unfoldable pub last_open : (Date → Bool) → ℕ → Date → Option Date
last_open public_holidays zero d = none
last_open public_holidays (suc rounds) d =
    let earlier = last_open public_holidays rounds (previous_day d) in
    if is_closed public_holidays d then earlier else some d

-- `_year_end_closure`; a year has at most 366 days
unfoldable pub year_end_closure : Holidays → ℕ → Option Date
unfolding last_open
year_end_closure holidays year = elim (holidays year) [
  | none ↦ none
  | some public_holidays ↦
      last_open public_holidays 366 (record { year = year; month = 12; day = 31 })
]

pub data DayStatus : Type 0 where
  day_open day_closed day_unknown : DayStatus

pub data DayReason : Type 0 where
  weekend labor_day public_holiday year_end weekday_open calendar_unavailable operational_closure :
      DayReason

pub record TradingDay : Type 0 where
  pub status : DayStatus
  pub reason : DayReason
  pub override_id : Option ℕ

abbrev pub decided : DayStatus → DayReason → TradingDay
decided status reason = record { status = status; reason = reason; override_id = none }

-- the rules from the public holidays on; an exception leads to UNKNOWN
unfoldable pub evaluate_holidays : Holidays → Date → TradingDay
evaluate_holidays holidays d = elim (holidays d.year) [
  | none ↦ decided day_unknown calendar_unavailable
  | some public_holidays ↦
      if public_holidays d
      then decided day_closed public_holiday
      else elim (year_end_closure holidays d.year) [
        | none ↦ decided day_unknown calendar_unavailable
        | some closure ↦
            if same_date d closure
            then decided day_closed year_end
            else decided day_open weekday_open
      ]
]

-- `evaluate_krx_trading_day`
unfoldable pub evaluate_krx_trading_day : Holidays → Date → TradingDay
unfolding evaluate_holidays
evaluate_krx_trading_day holidays d =
    if leb 5 (weekday d)
    then decided day_closed weekend
    else if d.month == 5 && d.day == 1
    then decided day_closed labor_day
    else evaluate_holidays holidays d

-- `_trading_day` of backend/app/venue_selection.py
unfoldable pub trading_day : Holidays → ℕ → TradingDay
trading_day holidays now = evaluate_krx_trading_day holidays (seoul_date now)

-- `MarketCalendarOverride`; a text is the list of its code points
pub record CalendarOverride : Type 0 where
  pub id : ℕ
  pub market_date : Date
  pub active : Bool
  pub reason : List ℕ
  pub source_reference : List ℕ
  pub created_by : ℕ
  pub revoked_by : Option ℕ
  pub revoked_at : Option ℕ

-- `active_calendar_override` of backend/app/calendar_overrides.py
unfoldable pub active_calendar_override : List CalendarOverride → Date → Option CalendarOverride
active_calendar_override [] d = none
active_calendar_override (o ∷ os) d =
    if same_date o.market_date d && o.active then some o else active_calendar_override os d

-- `resolve_trading_day` of backend/app/calendar_overrides.py
unfoldable pub resolve_trading_day : Holidays → List CalendarOverride → Date → TradingDay
resolve_trading_day holidays overrides d = elim (active_calendar_override overrides d) [
  | none ↦ evaluate_krx_trading_day holidays d
  | some o ↦ record { status = day_closed; reason = operational_closure; override_id = some o.id }
]
