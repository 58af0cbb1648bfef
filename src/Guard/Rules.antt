-- ===== src/Guard/Rules.antt =====
-- Decisions, rule results and the rows that all rules read: `_rule` and its uses in
-- backend/app/decision_execution.py.
use cresta.Base.{
  ℕ, ◌≡◌, Bool, true, false, ◌&&◌, Option, none, some, List, [], ◌∷◌, String, str_eq, ◌==◌,
  if◌then◌else◌, arith,
}
use cresta.Decimal.{Decimal}
use cresta.Paper.Rows.{TradingGate, ready}

pub data Action : Type 0 where
  buy_action partial_sell full_sell fixed_stop : Action
  -- one of `NO_ACTIONS`, and any other text
  no_action other_action : String → Action

pub record Decision : Type 0 where
  pub id : ℕ
  pub purpose : String
  pub input_snapshot_id : ℕ
  pub symbol : String
  pub market : String
  pub action : Action
  pub valid_until : ℕ
  -- "sell_ratio" of `core_output_json` as a Decimal; `none` where reading it raises
  pub core_sell_ratio : Option Decimal

-- `MarketStreamState`
pub record Stream : Type 0 where
  pub stream_market : String
  pub stream_symbol : String
  pub current_snapshot_id : Option ℕ
  pub stream_quality : String

unfoldable pub find_stream : String → String → List Stream → Option Stream
find_stream market symbol [] = none
find_stream market symbol (s ∷ ss) =
    if str_eq s.stream_market market && str_eq s.stream_symbol symbol
    then some s
    else find_stream market symbol ss

pub data Code : Type 0 where
  environment_not_mock decision_expired position_found position_id_match : Code
  position_version_match position_managed_quantity_positive sell_ratio_valid : Code
  no_active_or_unknown_order quantity_below_one sell_quantity_available broker_ready : Code
  not_reconciling market_data_fresh marketable_sell_price_available : Code
  market_session_tradable snapshot_missing market_data_stale symbol_not_watched : Code
  broker_not_ready emergency_stop_active order_size_not_configured total_exposure_limit : Code
  symbol_exposure_limit open_positions_limit daily_entries_limit daily_loss_limit : Code
  price_deviation_exceeded action_not_implemented : Code
  consecutive_loss_limit spread_limit broker_connection no_active_daily_loss_event : Code

-- `_rule`
pub record Rule : Type 0 where
  pub code : Code
  pub passed : Bool

abbrev pub rule : Code → Bool → Rule
rule code passed = record { code = code; passed = passed }

-- the `blocked` of `route_trading_decision`
unfoldable pub blocked : List Rule → List Code
blocked [] = []
blocked (r ∷ rs) = if r.passed then blocked rs else r.code ∷ blocked rs

abbrev pub is_current : Option ℕ → ℕ → Bool
is_current none id = false
is_current (some current) id = current == id

-- `gate is not None and gate.status == "READY"`
abbrev pub is_gate_ready : Option TradingGate → Bool
is_gate_ready none = false
is_gate_ready (some g) = elim g.status [ ready ↦ true | _ ↦ false ]

-- If nothing is blocked, the first rule has passed and of the others none is blocked.
pub blocked-first :
    (r : Rule) (rs : List Rule) → blocked (r ∷ rs) ≡ [] → (r.passed ≡ true) × (blocked rs ≡ [])
unfolding blocked
blocked-first r rs h = ground arith
