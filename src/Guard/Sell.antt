-- ===== src/Guard/Sell.antt =====
-- The plan and the rules of a sale: `_sell_ratio`, `_sellable_managed_quantity`, `_sell_plan` and
-- `_sell_guard_rules` of backend/app/decision_execution.py.
use cresta.Base.{
  ℕ, ◌-◌, ◌*◌, ◌/◌, ◌^◌, Bool, true, false, not, ◌&&◌, Option, none, some, List, [], ◌∷◌, String,
  str_eq, ltb, leb, ◌==◌, if◌then◌else◌, min,
}
use cresta.Base.Int.{ℤ}
use cresta.Decimal.{Decimal}
use cresta.Paper.Rows.{
  TradingOrder, Position, PositionState, open_position, closed_position, TradingGate,
  gate_reconciling,
}
use cresta.Paper.Store.{reserves_position, reserved_quantity, find_position, find_gate, is_for}
use cresta.Paper.Rows.{Settings}
use cresta.Paper.Create.{is_mock}
use cresta.Venue.Calendar.{Holidays, trading_day}
use cresta.Venue.Session.{Session, krx_only, dual_continuous, nxt_pre, nxt_after, classify_session}
use cresta.Venue.Quote.{MarketSnapshot, given_positive}
use cresta.Guard.Rules.{
  partial_sell, full_sell, Decision, Stream, find_stream, Rule, rule, is_current, is_gate_ready,
  environment_not_mock, decision_expired, position_found, position_id_match, position_version_match,
  position_managed_quantity_positive, sell_ratio_valid, no_active_or_unknown_order,
  quantity_below_one, sell_quantity_available, broker_ready, not_reconciling, market_data_fresh,
  marketable_sell_price_available, market_session_tradable,
}

-- `ACCOUNT_ALIAS`
abbrev pub account : String
account = "KIWOOM_MOCK_PRIMARY"

-- `Decimal("0.01") <= ratio <= Decimal("1.0")`
abbrev pub is_ratio : Decimal → Bool
is_ratio r =
    not (r.negative && ltb 0 r.coeff)
    && (leb (10 ^ r.scale) (r.coeff * 100) && leb r.coeff (10 ^ r.scale))

abbrev pub ratio_of : Option Decimal → Option Decimal
ratio_of none = none
ratio_of (some r) = if is_ratio r then some r else none

-- `_sell_ratio`
unfoldable pub sell_ratio : Decision → Option Decimal
sell_ratio d = elim d.action [ partial_sell ↦ ratio_of d.core_sell_ratio | _ ↦ none ]

-- `_sellable_managed_quantity`
unfoldable pub sellable_managed_quantity : List TradingOrder → Option Position → ℕ
sellable_managed_quantity orders none = 0
sellable_managed_quantity orders (some p) =
    min p.managed_quantity p.available_quantity - reserved_quantity p.account_alias p.symbol orders

-- `_has_active_symbol_order`
unfoldable pub has_active_symbol_order : String → List TradingOrder → Bool
has_active_symbol_order symbol [] = false
has_active_symbol_order symbol (o ∷ os) =
    if is_for account symbol o && reserves_position o.status
    then true
    else has_active_symbol_order symbol os

-- the whole shares of a ratio of the quantity, rounded down
abbrev pub part_of : ℕ → Decimal → ℕ
part_of quantity r = quantity * r.coeff / 10 ^ r.scale

abbrev pub planned_part : ℕ → Option Decimal → ℕ
planned_part sellable none = 0
planned_part sellable (some r) = part_of sellable r

unfoldable pub planned_quantity : Decision → ℕ → ℕ
unfolding sell_ratio
planned_quantity d sellable = elim d.action [
  | full_sell ↦ sellable
  | _ ↦ planned_part sellable (sell_ratio d)
]

abbrev pub bid_price_of : Option MarketSnapshot → Option ℤ
bid_price_of none = none
bid_price_of (some s) = s.best_bid_price

pub record SellPlan : Type 0 where
  pub position : Option Position
  pub snapshot : Option MarketSnapshot
  pub sellable_quantity : ℕ
  pub quantity : ℕ
  pub price : Option ℤ
  pub plan_ratio : Option Decimal

-- `_sell_plan`
unfoldable pub sell_plan :
    List TradingOrder → List Position → Decision → Option MarketSnapshot → SellPlan
unfolding planned_quantity sellable_managed_quantity
sell_plan orders positions d snapshot =
    let position = find_position account d.symbol positions in
    let sellable = sellable_managed_quantity orders position in
    record {
      position = position;
      snapshot = snapshot;
      sellable_quantity = sellable;
      quantity = planned_quantity d sellable;
      price = bid_price_of snapshot;
      plan_ratio = sell_ratio d;
    }

-- `fresh` of `_sell_guard_rules`
unfoldable pub is_fresh : Option MarketSnapshot → Option Stream → ℕ → ℕ → Bool
is_fresh (some s) (some stream) now stale_seconds =
    is_current stream.current_snapshot_id s.id
    && (str_eq s.snapshot_quality "NORMAL"
        && (str_eq stream.stream_quality "NORMAL"
            && (str_eq s.snapshot_trading_status "TRADING"
                && (leb s.received_at now
                    && leb (now - s.received_at) (stale_seconds * 1_000_000)))))
is_fresh _ _ now stale_seconds = false

-- `TRADABLE_SESSIONS_BY_MARKET`
unfoldable pub is_tradable : String → Session → Bool
is_tradable market s =
    if str_eq market "KRX"
    then elim s [ krx_only ↦ true | dual_continuous ↦ true | _ ↦ false ]
    else if str_eq market "NXT"
    then elim s [ nxt_pre ↦ true | dual_continuous ↦ true | nxt_after ↦ true | _ ↦ false ]
    else false

abbrev pub is_open : PositionState → Bool
is_open open_position = true
is_open closed_position = false

-- a test on the position, which fails without one
abbrev pub on_position : (Position → Bool) → Option Position → Bool
on_position test none = false
on_position test (some p) = test p

abbrev pub matches : Option ℕ → (Position → ℕ) → Option Position → Bool
matches none field position = true
matches (some expected) field position = on_position (λ p. field p == expected) position

abbrev pub is_not_reconciling : Option TradingGate → Bool
is_not_reconciling none = false
is_not_reconciling (some g) = elim g.status [ gate_reconciling ↦ false | _ ↦ true ]

abbrev pub is_ratio_valid : Decision → Option Decimal → Bool
is_ratio_valid d ratio = elim d.action [
  | partial_sell ↦ elim ratio [ none ↦ false | some r ↦ true ]
  | _ ↦ true
]

-- what the rules read besides the plan
pub record SellContext : Type 0 where
  pub settings : Settings
  pub holidays : Holidays
  pub orders : List TradingOrder
  pub streams : List Stream
  pub gates : List TradingGate
  pub quote_stale_seconds : ℕ
  pub now : ℕ

-- the optional arguments of `_sell_guard_rules`
pub record Expected : Type 0 where
  pub expected_position_id : Option ℕ
  pub expected_position_version : Option ℕ
  pub requested_quantity : Option ℕ

abbrev pub asked_quantity : Option ℕ → ℕ → ℕ
asked_quantity none planned = planned
asked_quantity (some requested) planned = requested

-- `_sell_guard_rules`
unfoldable pub sell_guard_rules : SellContext → Decision → SellPlan → Expected → List Rule
sell_guard_rules c d plan expected =
    let stream = find_stream d.market d.symbol c.streams in
    let gate = find_gate account c.gates in
    let quantity = asked_quantity expected.requested_quantity plan.quantity in
    let session = classify_session c.now (trading_day c.holidays c.now) in
    rule environment_not_mock (is_mock c.settings)
    ∷ rule decision_expired (leb c.now d.valid_until)
    ∷ rule position_found (on_position (λ p. is_open p.state && ltb 0 p.quantity) plan.position)
    ∷ rule position_id_match (matches expected.expected_position_id (λ p. p.id) plan.position)
    ∷ rule position_version_match
        (matches expected.expected_position_version (λ p. p.version) plan.position)
    ∷ rule position_managed_quantity_positive
        (on_position (λ p. ltb 0 p.managed_quantity) plan.position)
    ∷ rule sell_ratio_valid (is_ratio_valid d plan.plan_ratio)
    ∷ rule no_active_or_unknown_order (not (has_active_symbol_order d.symbol c.orders))
    ∷ rule quantity_below_one (leb 1 quantity)
    ∷ rule sell_quantity_available (leb 1 quantity && leb quantity plan.sellable_quantity)
    ∷ rule broker_ready (is_gate_ready gate)
    ∷ rule not_reconciling (is_not_reconciling gate)
    ∷ rule market_data_fresh (is_fresh plan.snapshot stream c.now c.quote_stale_seconds)
    ∷ rule marketable_sell_price_available (given_positive plan.price)
    ∷ rule market_session_tradable (is_tradable d.market session)
    ∷ []
