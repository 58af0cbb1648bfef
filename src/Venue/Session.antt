-- ===== src/Venue/Session.antt =====
-- The sessions of a trading day by the local time: `classify_session` of
-- backend/app/venue_selection.py.
use cresta.Base.{
  ℕ, ◌+◌, ◌*◌, ◌%◌, ◌≤◌, ◌<◌, ◌≡◌, ◌⊎◌, ◌≢◌, inl, inr, refl, Bool, ◌&&◌, arith, leb, ltb,
  if◌then◌else◌,
}
use cresta.Venue.Calendar.{DayStatus, day_open, day_closed, day_unknown, TradingDay}

pub data Session : Type 0 where
  closed nxt_pre krx_opening_auction krx_only dual_continuous : Session
  krx_closing_auction nxt_after_auction nxt_after : Session

-- a time of day in microseconds
abbrev pub clock : ℕ → ℕ → ℕ → ℕ
clock hours minutes seconds = ((hours * 60 + minutes) * 60 + seconds) * 1_000_000

-- the time of day in Seoul at a time stamp: nine hours ahead of UTC, in microseconds of the epoch
abbrev pub seoul_time : ℕ → ℕ
seoul_time now = (now + clock 9 0 0) % clock 24 0 0

abbrev pub within : ℕ → ℕ → ℕ → Bool
within from to t = leb from t && ltb t to

-- the tests on the time of an open day
unfoldable pub session_at : ℕ → Session
session_at t =
    if within (clock 8 0 0) (clock 8 50 0) t
    then nxt_pre
    else if within (clock 8 50 0) (clock 9 0 0) t
    then krx_opening_auction
    else if within (clock 9 0 0) (clock 9 0 30) t
    then krx_only
    else if within (clock 9 0 30) (clock 15 20 0) t
    then dual_continuous
    else if within (clock 15 20 0) (clock 15 30 0) t
    then krx_closing_auction
    else if within (clock 15 30 0) (clock 15 40 0) t
    then nxt_after_auction
    else if within (clock 15 40 0) (clock 20 0 0) t
    then nxt_after
    else closed

abbrev pub when_open : DayStatus → Session → Session
when_open day_open s = s
when_open _ s = closed

-- `classify_session`, on the trading day of `now`
unfoldable pub classify_session : ℕ → TradingDay → Session
unfolding session_at
classify_session now day = when_open day.status (session_at (seoul_time now))

-- The hours of each session, as half-open intervals of the time of day.
abbrev pub HoursOf : Session → ℕ → Type 0
HoursOf nxt_pre t = (clock 8 0 0 ≤ t) × (t < clock 8 50 0)
HoursOf krx_opening_auction t = (clock 8 50 0 ≤ t) × (t < clock 9 0 0)
HoursOf krx_only t = (clock 9 0 0 ≤ t) × (t < clock 9 0 30)
HoursOf dual_continuous t = (clock 9 0 30 ≤ t) × (t < clock 15 20 0)
HoursOf krx_closing_auction t = (clock 15 20 0 ≤ t) × (t < clock 15 30 0)
HoursOf nxt_after_auction t = (clock 15 30 0 ≤ t) × (t < clock 15 40 0)
HoursOf nxt_after t = (clock 15 40 0 ≤ t) × (t < clock 20 0 0)
HoursOf closed t = (t < clock 8 0 0) ⊎ (clock 20 0 0 ≤ t)

session_at-hours : (t : ℕ) → HoursOf (session_at t) t
unfolding session_at
session_at-hours t = ground arith

when_open_lem :
    (status : DayStatus) (s : Session) (t : ℕ)
    → HoursOf s t
    → ((status ≡ day_open) × HoursOf (when_open status s) t)
      ⊎ ((status ≢ day_open) × (when_open status s ≡ closed))
when_open_lem day_open s t hours = inl (refl, hours)
when_open_lem day_closed s t hours = inr (λ e. cc, refl)
when_open_lem day_unknown s t hours = inr (λ e. cc, refl)

-- On an open day the session of a time is the one whose hours it falls into, and CLOSED from
-- eight in the evening to eight in the morning; on any other day the session is CLOSED.
pub classify_session_hours :
    (now : ℕ) (day : TradingDay)
    → ((day.status ≡ day_open) × HoursOf (classify_session now day) (seoul_time now))
      ⊎ ((day.status ≢ day_open) × (classify_session now day ≡ closed))
unfolding classify_session
classify_session_hours now day =
    when_open_lem day.status (session_at (seoul_time now)) (seoul_time now)
      (session_at-hours (seoul_time now))

-- on a day that is not open the session is CLOSED
pub unopened_session :
    (now : ℕ) (day : TradingDay) → day.status ≢ day_open → classify_session now day ≡ closed
unopened_session now day other = elim (classify_session_hours now day) [
  | inl (open_day, _) ↦ absurd (other open_day)
  | inr (_, e) ↦ e
]
