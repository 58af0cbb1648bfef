-- ===== src/Venue/Openings.antt =====
-- What an open trading day is known of (backend/app/market_calendar.py and
-- backend/app/calendar_overrides.py).
use cresta.Base.{
  ℕ, zero, suc, ◌<◌, ◌≡◌, inl, inr, Bool, true, false, ◌&&◌, none, some, arith, leb, ◌==◌,
  Bool-cases, subst, List,
}
use cresta.Venue.Dates.{Date, weekday, previous_day, same_date}
use cresta.Venue.Calendar.{
  Holidays, CalendarOverride, is_closed, last_open, year_end_closure, evaluate_holidays,
  evaluate_krx_trading_day, active_calendar_override, resolve_trading_day, day_open,
}

-- the day that is `n` days earlier
unfoldable pub back : ℕ → Date → Date
back zero d = d
back (suc n) d = back n (previous_day d)

-- `n` days are closed, from one on and backwards
abbrev pub AreClosed : (Date → Bool) → ℕ → Date → Type 0
AreClosed h zero d = Unit
AreClosed h (suc n) d = (is_closed h d ≡ true) × AreClosed h n (previous_day d)

-- The loop finds the last day that is not closed: all days after it are, and it comes within the
-- bound.
pub last_open_lem :
    (h : Date → Bool) (rounds : ℕ) (d r : Date)
    → last_open h rounds d ≡ some r
    → (n : ℕ) × (n < rounds) × (r ≡ back n d) × (is_closed h r ≡ false) × AreClosed h n d
unfolding last_open back
last_open_lem h zero d r e = cc
last_open_lem h (suc rounds) d r e = elim (Bool-cases (is_closed h d)) [
  | inl closed ↦
      let (n, lt, same, is_open, later) =
        last_open_lem h rounds (previous_day d) r (ground arith) in
      (suc n, omega arith, same, is_open, (closed, later))
  | inr open_day ↦ (0, omega arith, ground arith, ground arith, tt)
]

-- If some day within the bound is not closed, the loop finds one.
pub last_open_total :
    (h : Date → Bool) (rounds : ℕ) (d : Date) (n : ℕ)
    → n < rounds
    → is_closed h (back n d) ≡ false
    → (r : Date) × (last_open h rounds d ≡ some r)
unfolding last_open back
last_open_total h zero d n lt e = elim lt [ ]
last_open_total h (suc rounds) d zero lt e = (d, rw e)
last_open_total h (suc rounds) d (suc n) lt e = elim (Bool-cases (is_closed h d)) [
  | inl closed ↦ rw closed (last_open_total h rounds (previous_day d) n (omega arith) e)
  | inr open_day ↦ (d, rw open_day)
]

abbrev pub december_31 : ℕ → Date
december_31 year = record { year = year; month = 12; day = 31 }

is_closed-false :
    (h : Date → Bool) (d : Date) → leb 5 (weekday d) ≡ false → h d ≡ false → is_closed h d ≡ false
unfolding is_closed
is_closed-false h d weekday no_holiday = rw weekday no_holiday

closure_of :
    (holidays : Holidays) (year : ℕ) (h : Date → Bool) (closure : Date)
    → holidays year ≡ some h
    → year_end_closure holidays year ≡ some closure
    → last_open h 366 (december_31 year) ≡ some closure
unfolding year_end_closure
closure_of holidays year h closure known e =
    subst (λ o. elim o [ none ↦ none | some h ↦ last_open h 366 (december_31 year) ] ≡ some closure)
      known e

holidays_open :
    (holidays : Holidays) (d : Date)
    → (evaluate_holidays holidays d).status ≡ day_open
    → (h : Date → Bool) × (closure : Date) × (holidays d.year ≡ some h)
      × (h d ≡ false)
      × (year_end_closure holidays d.year ≡ some closure)
      × (same_date d closure ≡ false)
unfolding evaluate_holidays
holidays_open holidays d e = ground arith

evaluate_open :
    (holidays : Holidays) (d : Date)
    → (evaluate_krx_trading_day holidays d).status ≡ day_open
    → (leb 5 (weekday d) ≡ false)
      × ((d.month == 5 && d.day == 1) ≡ false)
      × ((evaluate_holidays holidays d).status ≡ day_open)
unfolding evaluate_krx_trading_day
evaluate_open holidays d e = ground arith

without_override :
    (holidays : Holidays) (overrides : List CalendarOverride) (d : Date)
    → (resolve_trading_day holidays overrides d).status ≡ day_open
    → (active_calendar_override overrides d ≡ none)
      × ((evaluate_krx_trading_day holidays d).status ≡ day_open)
unfolding resolve_trading_day
without_override holidays overrides d e = ground arith

-- A day that resolves as OPEN has no active override; the holidays of its year are known; it is no
-- weekend, no public holiday and not the first of May; and it is not the last day of its year that
-- is neither weekend nor holiday: that day is `n` days before the year's end, all days after it
-- are closed, and the day at hand is another.
pub resolve_trading_day_open :
    (holidays : Holidays) (overrides : List CalendarOverride) (d : Date)
    → (resolve_trading_day holidays overrides d).status ≡ day_open
    → (active_calendar_override overrides d ≡ none)
      × ((d.month == 5 && d.day == 1) ≡ false)
      × (h : Date → Bool) × (n : ℕ) × (holidays d.year ≡ some h)
      × (is_closed h d ≡ false)
      × (is_closed h (back n (december_31 d.year)) ≡ false)
      × AreClosed h n (december_31 d.year)
      × (same_date d (back n (december_31 d.year)) ≡ false)
resolve_trading_day_open holidays overrides d e =
    let (none_active, plain) = without_override holidays overrides d e in
    let (weekday, may, rest) = evaluate_open holidays d plain in
    let (h, closure, known, no_holiday, found, other) = holidays_open holidays d rest in
    let (n, _, same, last, later) =
      last_open_lem h 366 (december_31 d.year) closure
        (closure_of holidays d.year h closure known found) in
    (
      none_active,
      may,
      h,
      n,
      known,
      is_closed-false h d weekday no_holiday,
      subst (λ x. is_closed h x ≡ false) same last,
      later,
      subst (λ x. same_date d x ≡ false) same other,
    )
