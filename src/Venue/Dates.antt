-- ===== src/Venue/Dates.antt =====
-- Dates of Python's `datetime`, as backend/app/market_calendar.py and
-- backend/app/venue_selection.py use them.
use cresta.Base.{
  ℕ, zero, suc, ◌+◌, ◌-◌, ◌*◌, ◌/◌, ◌%◌, Bool, not, ◌&&◌, ◌||◌, ltb, ◌==◌, if◌then◌else◌,
}

pub record Date : Type 0 where
  pub year : ℕ
  pub month : ℕ
  pub day : ℕ

abbrev pub is_leap : ℕ → Bool
is_leap y = y % 4 == 0 && (not (y % 100 == 0) || y % 400 == 0)

-- days of a month
abbrev pub month_days : ℕ → ℕ → ℕ
month_days y m =
    if m == 2
    then if is_leap y then 29 else 28
    else if m == 4 || (m == 6 || (m == 9 || m == 11))
    then 30
    else 31

-- days of the year's first `m` months
unfoldable pub days_before : ℕ → ℕ → ℕ
days_before y zero = 0
days_before y (suc m) = days_before y m + month_days y (suc m)

-- `date.toordinal()`
unfoldable pub ordinal : Date → ℕ
unfolding days_before
ordinal d =
    let y = d.year - 1 in
    365 * y + y / 4 + y / 400 - y / 100 + days_before d.year (d.month - 1) + d.day

-- `date.weekday()`: Monday is 0
unfoldable pub weekday : Date → ℕ
unfolding ordinal
weekday d = (ordinal d + 6) % 7

-- `d - timedelta(days=1)`
unfoldable pub previous_day : Date → Date
previous_day d =
    if ltb 1 d.day
    then record d { day = d.day - 1 }
    else if ltb 1 d.month
    then record d { month = d.month - 1; day = month_days d.year (d.month - 1) }
    else record { year = d.year - 1; month = 12; day = 31 }

abbrev pub same_date : Date → Date → Bool
same_date a b = a.year == b.year && (a.month == b.month && a.day == b.day)

-- the date of a day counted from the first of January 1970, by the Gregorian calendar
unfoldable pub date_of_day : ℕ → Date
date_of_day days =
    let z = days + 719_468 in
    let in_era = z % 146_097 in
    let year_of_era = (in_era - in_era / 1460 + in_era / 36_524 - in_era / 146_096) / 365 in
    let in_year = in_era - (365 * year_of_era + year_of_era / 4 - year_of_era / 100) in
    let from_march = (5 * in_year + 2) / 153 in
    let y = year_of_era + z / 146_097 * 400 in
    let d = in_year - (153 * from_march + 2) / 5 + 1 in
    if ltb from_march 10
    then record { year = y; month = from_march + 3; day = d }
    else record { year = y + 1; month = from_march - 9; day = d }

-- `now.astimezone(KST).date()` of a time in microseconds of the epoch
unfoldable pub seoul_date : ℕ → Date
unfolding date_of_day
seoul_date now = date_of_day ((now + 9 * 3_600_000_000) / 86_400_000_000)
