-- ===== src/Guard/Closures.antt =====
-- The rules of a sale and the operational closures (backend/app/decision_execution.py and
-- backend/app/calendar_overrides.py).
use cresta.Base.{
  ℕ, ◌≡◌, ◌≤◌, ◌<◌, ◌↔◌, refl, Bool, true, false, some, List, [], ◌∷◌, arith, str_eq, any, not,
  ◌&&◌, ap, ◌∙◌,
}
use cresta.Venue.Calendar.{
  Holidays, CalendarOverride, active_calendar_override, resolve_trading_day, trading_day,
  TradingDay, day_open, day_closed,
}
use cresta.Venue.Dates.{Date, seoul_date}
use cresta.Venue.Session.{session_at, classify_session, seoul_time, clock}
use cresta.Guard.Rules.{Decision, Rule, Code, market_session_tradable, blocked}
use cresta.Guard.Sell.{SellPlan, SellContext, Expected, sell_guard_rules, is_tradable}

closed_by :
    (holidays : Holidays) (overrides : List CalendarOverride) (o : CalendarOverride) (d : Date)
    → active_calendar_override overrides d ≡ some o
    → (resolve_trading_day holidays overrides d).status ≡ day_closed
unfolding resolve_trading_day
closed_by holidays overrides o d active = ground arith

abbrev pub is_session_code : Code → Bool
is_session_code market_session_tradable = true
is_session_code _ = false

any-blocked :
    (test : Code → Bool) (rules : List Rule)
    → any test (blocked rules) ≡ any (λ (r : Rule). test r.code && not r.passed) rules
unfolding blocked
any-blocked test [] = refl
any-blocked test (r ∷ rs) = ground (arith, any-blocked test rs)

-- the one rule of a sale with the code
session_rule :
    (c : SellContext) (d : Decision) (plan : SellPlan) (e : Expected)
    → any is_session_code (blocked (sell_guard_rules c d plan e))
      ≡ not (is_tradable d.market (classify_session c.now (trading_day c.holidays c.now)))
unfolding sell_guard_rules
session_rule c d plan e =
    let all = any-blocked is_session_code (sell_guard_rules c d plan e) in ground arith

-- the continuous trading of KRX
abbrev pub IsContinuous : ℕ → Type 0
IsContinuous t = (clock 9 0 0 ≤ t) × (t < clock 15 20 0)

tradable-hours :
    (now : ℕ) (day : TradingDay)
    → (is_tradable "KRX" (classify_session now day) ≡ true)
      ↔ ((day.status ≡ day_open) × IsContinuous (seoul_time now))
unfolding classify_session is_tradable session_at str_eq
tradable-hours now day = ground arith

-- On a day that an active closure covers, the trading day that regards closures is CLOSED, but the
-- session rule of a sale on KRX does not regard them: it is among the rules that block exactly
-- unless the holiday rules leave the day open and it is between 9:00 and 15:20 in Seoul.
pub closed_day-is_tradable :
    (overrides : List CalendarOverride) (o : CalendarOverride) (c : SellContext) (d : Decision)
    (plan : SellPlan) (e : Expected)
    → active_calendar_override overrides (seoul_date c.now) ≡ some o
    → d.market ≡ "KRX"
    → ((resolve_trading_day c.holidays overrides (seoul_date c.now)).status ≡ day_closed)
      × ((any is_session_code (blocked (sell_guard_rules c d plan e)) ≡ false)
          ↔ (((trading_day c.holidays c.now).status ≡ day_open) × IsContinuous (seoul_time c.now)))
closed_day-is_tradable overrides o c d plan e active on_krx =
    let day = trading_day c.holidays c.now in
    let hours = tradable-hours c.now day in
    let rule : any is_session_code (blocked (sell_guard_rules c d plan e))
        ≡ not (is_tradable "KRX" (classify_session c.now day)) =
      session_rule c d plan e
      ∙ ap (λ market. not (is_tradable market (classify_session c.now day))) on_krx in
    (
      closed_by c.holidays overrides o (seoul_date c.now) active,
      (λ clear. hours.0 (ground arith), λ within_hours. rule ∙ ap not (hours.1 within_hours)),
    )
