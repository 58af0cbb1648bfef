-- ===== src/Guard/Sound.antt =====
-- What the rules of a sale ensure when none is blocked (backend/app/decision_execution.py).
use cresta.Base.{
  ℕ, ◌≤◌, ◌<◌, ◌≡◌, ◌≢◌, ◌⊎◌, inl, inr, refl, Bool, true, false, ◌&&◌, Option, none, some, List, [],
  ◌∷◌, String, arith, ltb,
}
use cresta.Paper.Rows.{TradingOrder, Position, open_position}
use cresta.Paper.Store.{reserved_quantity, find_position, find_gate}
use cresta.Paper.Create.{is_mock}
use cresta.Venue.Calendar.{TradingDay, DayStatus, day_closed, day_unknown, trading_day, day_open}
use cresta.Venue.Session.{closed, classify_session, unopened_session}
use cresta.Venue.Quote.{MarketSnapshot, given_positive}
use cresta.Guard.Rules.{Decision, Rule, blocked, blocked-first, find_stream, is_gate_ready}
use cresta.Guard.Sell.{
  account, SellPlan, sell_plan, SellContext, Expected, sell_guard_rules, has_active_symbol_order,
  asked_quantity, on_position, is_open, is_fresh, is_tradable, sellable_managed_quantity,
}
use cresta.Guard.Available.{inactive-reserved_quantity}

-- all tests of the rules hold
abbrev pub AllPassed : List Rule → Type 0
AllPassed [] = Unit
AllPassed (r ∷ rs) = (r.passed ≡ true) × AllPassed rs

pub unblocked-AllPassed : (rs : List Rule) → blocked rs ≡ [] → AllPassed rs
unblocked-AllPassed [] h = tt
unblocked-AllPassed (r ∷ rs) h =
    let (passed, rest) = blocked-first r rs h in (passed, unblocked-AllPassed rs rest)

-- a test on the position that holds names the position
on_position_lem :
    (test : Position → Bool) (o : Option Position)
    → on_position test o ≡ true
    → (p : Position) × (o ≡ some p) × (test p ≡ true)
on_position_lem test none h = cc
on_position_lem test (some p) h = (p, refl, h)

-- What a sale that no rule blocks is known of.
pub record IsSafeSale (c : SellContext) (d : Decision) (plan : SellPlan) (quantity : ℕ)
    : Type 0 where
  pub mock_only : is_mock c.settings ≡ true
  pub in_time : c.now ≤ d.valid_until
  pub position : Position
  pub found : plan.position ≡ some position
  pub is_held : (position.state ≡ open_position) × (0 < position.quantity)
  pub idle_symbol : has_active_symbol_order d.symbol c.orders ≡ false
  pub at_least_one : 1 ≤ quantity
  pub available : quantity ≤ plan.sellable_quantity
  pub gate_ready : is_gate_ready (find_gate account c.gates) ≡ true
  pub fresh :
      is_fresh plan.snapshot (find_stream d.market d.symbol c.streams) c.now c.quote_stale_seconds
      ≡ true
  pub priced : given_positive plan.price ≡ true
  pub tradable : is_tradable d.market (classify_session c.now (trading_day c.holidays c.now)) ≡ true

passed-IsSafeSale :
    (c : SellContext) (d : Decision) (plan : SellPlan) (e : Expected)
    → AllPassed (sell_guard_rules c d plan e)
    → IsSafeSale c d plan (asked_quantity e.requested_quantity plan.quantity)
unfolding sell_guard_rules
passed-IsSafeSale c d plan e
      (
        mock,
        (
          time,
          (
            held,
            (
              _,
              (_, (_, (_, (idle, (one, (enough, (gate, (_, (fresh, (priced, (tradable, _))))))))))),
            ),
          ),
        ),
      ) =
    let (p, found, test) =
      on_position_lem (λ p. is_open p.state && ltb 0 p.quantity) plan.position held in
    record {
      mock_only = mock;
      in_time = ground arith;
      position = p;
      found = found;
      is_held = ground arith;
      idle_symbol = ground arith;
      at_least_one = ground arith;
      available = ground arith;
      gate_ready = gate;
      fresh = fresh;
      priced = priced;
      tradable = tradable;
    }

-- no market trades in the CLOSED session
closed_untradable : (market : String) → is_tradable market closed ≡ false
unfolding is_tradable
closed_untradable market = ground arith

DayStatus-cases : (s : DayStatus) → (s ≡ day_open) ⊎ (s ≢ day_open)
DayStatus-cases day_open = inl refl
DayStatus-cases day_closed = inr (λ e. cc)
DayStatus-cases day_unknown = inr (λ e. cc)

tradable_day :
    (market : String) (now : ℕ) (day : TradingDay)
    → is_tradable market (classify_session now day) ≡ true
    → day.status ≡ day_open
tradable_day market now day h = elim (DayStatus-cases day.status) [
  | inl open_day ↦ open_day
  | inr other ↦
      let none_open = unopened_session now day other in let refused = closed_untradable market in cc
]

sellable_bounds :
    (orders : List TradingOrder) (p : Position)
    → (sellable_managed_quantity orders (some p) ≤ p.managed_quantity)
      × (sellable_managed_quantity orders (some p) ≤ p.available_quantity)
unfolding sellable_managed_quantity
sellable_bounds orders p = omega arith

plan_position :
    (orders : List TradingOrder) (positions : List Position) (d : Decision)
    (snapshot : Option MarketSnapshot) (p : Position)
    → (sell_plan orders positions d snapshot).position ≡ some p
    → find_position account d.symbol positions ≡ some p
unfolding sell_plan
plan_position orders positions d snapshot p e = e

plan_sellable :
    (orders : List TradingOrder) (positions : List Position) (d : Decision)
    (snapshot : Option MarketSnapshot) (p : Position)
    → find_position account d.symbol positions ≡ some p
    → (sell_plan orders positions d snapshot).sellable_quantity
      ≡ sellable_managed_quantity orders (some p)
unfolding sell_plan
plan_sellable orders positions d snapshot p e = rw e

-- If no rule blocks a planned sale, of the planned or of a requested quantity, there is an open
-- position of the account and the symbol whose managed and available shares both cover the sale,
-- no active sell of the symbol holds any back, the quantity is at least one, the broker's gate is
-- READY, the decision has not expired, and the day is a trading day by the holiday rules.
pub sell_guard_rules_safe :
    (c : SellContext) (d : Decision) (positions : List Position) (snapshot : Option MarketSnapshot)
    (e : Expected)
    → blocked (sell_guard_rules c d (sell_plan c.orders positions d snapshot) e) ≡ []
    → (p : Position) × (find_position account d.symbol positions ≡ some p)
      × (p.state ≡ open_position)
      × (reserved_quantity account d.symbol c.orders ≡ 0)
      × (1 ≤ asked_quantity e.requested_quantity (sell_plan c.orders positions d snapshot).quantity)
      × (asked_quantity e.requested_quantity (sell_plan c.orders positions d snapshot).quantity
          ≤ p.managed_quantity)
      × (asked_quantity e.requested_quantity (sell_plan c.orders positions d snapshot).quantity
          ≤ p.available_quantity)
      × (is_gate_ready (find_gate account c.gates) ≡ true)
      × (c.now ≤ d.valid_until)
      × ((trading_day c.holidays c.now).status ≡ day_open)
sell_guard_rules_safe c d positions snapshot e h =
    let plan = sell_plan c.orders positions d snapshot in
    let safe = passed-IsSafeSale c d plan e (unblocked-AllPassed (sell_guard_rules c d plan e) h) in
    let found = plan_position c.orders positions d snapshot safe.position safe.found in
    let (managed, free) = sellable_bounds c.orders safe.position in
    let sellable = plan_sellable c.orders positions d snapshot safe.position found in
    let enough = safe.available in
    (
      safe.position,
      found,
      safe.is_held.0,
      inactive-reserved_quantity d.symbol c.orders safe.idle_symbol,
      safe.at_least_one,
      omega arith,
      omega arith,
      safe.gate_ready,
      safe.in_time,
      tradable_day d.market c.now (trading_day c.holidays c.now) safe.tradable,
    )
