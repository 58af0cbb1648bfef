-- ===== src/Desk/Routing.antt =====
-- The routing of a trading decision: `route_trading_decision` and what it calls in
-- backend/app/decision_execution.py.
pub mod Placing
pub mod Route
pub mod Attempts
pub mod Orders
pub mod Again
pub mod Once
pub mod Sized
pub mod Unrecorded
use cresta.Base.{
  ℕ, suc, ◌≡◌, Bool, true, false, not, ◌&&◌, ◌||◌, Option, none, some, List, [], ◌∷◌, ◌++◌, String,
  Result, returns, raises, str_eq, ◌==◌, if◌then◌else◌,
}
use Prim.Native.String.{◌++◌ as join_text}
use cresta.Base.Int.{ℤ}
use cresta.Paper.Rows.{Db, limit, TradingOrder}
use cresta.Venue.Dates.{ordinal, seoul_date}
use cresta.Venue.Quote.{MarketSnapshot}
use cresta.Guard.Rules.{
  Action, buy_action, partial_sell, full_sell, fixed_stop, no_action, other_action, Decision, Code,
  Rule, rule, blocked, action_not_implemented, order_size_not_configured, sell_quantity_available,
}
use cresta.Guard.Sell.{sell_plan, sell_guard_rules, SellPlan, Expected}
use cresta.Guard.Risk.{find_snapshot}
use cresta.Guard.Buy.{buy_guard_rules, is_some}
use cresta.Orders.{
  Book, OrderError, Outcome, by_order, by_guard, by_text, CreationRequest, create_order,
}
use cresta.Desk.{
  Mode, automatic, manual_approval, disabled, Stage, shadow, ExecutionState, routing,
  took_no_action, mode_disabled, guard_blocked, shadow_recorded, approval_pending,
  execution_expired, execution_rejected, execution_invalidated, order_created, failed_safe, Modes,
  Execution, Approval, of_execution, Desk, OrderPayload, Env,
}
use cresta.Desk.Reads.{
  buy_context, sell_context, log_audit, skip_id, save_execution, marketable_buy_price, buy_quantity,
  limit_of, action_text, is_purchase, is_sale, side_of, position_id_of, position_version_of,
}
use cresta.Desk.Approvals.{ApprovalError, Answer, create_approval}

-- `_mode_for`
unfoldable pub mode_for : Action → Modes → Mode
mode_for action m = elim action [
  | buy_action ↦ m.buy_mode
  | partial_sell ↦ m.partial_sell_mode
  | full_sell ↦ m.full_sell_mode
  | fixed_stop ↦ m.fixed_stop_loss_mode
  | _ ↦ disabled
]

-- `normalized_action`
abbrev pub normalized_action : Action → Action
normalized_action (no_action s) = no_action "NO_ACTION"
normalized_action action = action

-- `_key`
unfoldable pub execution_key_of : Env → Decision → ℕ
execution_key_of env d =
    env.execution_digest d.id (action_text (normalized_action d.action)) env.config_version
      env.risk_version

unfoldable pub find_by_key : ℕ → List Execution → Option Execution
find_by_key key [] = none
find_by_key key (x ∷ xs) = if x.execution_key == key then some x else find_by_key key xs

abbrev pub state_text : ExecutionState → String
state_text routing = "ROUTING"
state_text took_no_action = "NO_ACTION"
state_text mode_disabled = "DISABLED"
state_text guard_blocked = "GUARD_BLOCKED"
state_text shadow_recorded = "SHADOW_RECORDED"
state_text approval_pending = "APPROVAL_PENDING"
state_text execution_expired = "EXPIRED"
state_text execution_rejected = "REJECTED"
state_text execution_invalidated = "INVALIDATED"
state_text order_created = "ORDER_CREATED"
state_text failed_safe = "FAILED_SAFE"

-- the new row, while it is routed
unfoldable pub new_execution : Env → ℕ → Decision → String → ℕ → Execution
unfolding mode_for execution_key_of
new_execution env user d correlation id = record {
  id = id;
  execution_key = execution_key_of env d;
  decision_id = d.id;
  user_id = user;
  action = normalized_action d.action;
  mode = mode_for d.action env.modes;
  stage = env.stage;
  state = routing;
  result_code = none;
  execution_policy_version_id = env.config_version;
  risk_policy_version_id = env.risk_version;
  guard_evaluation_id = none;
  approval_id = none;
  order_intent_id = none;
  correlation_id = correlation;
}

abbrev pub nothing_expected : Expected
nothing_expected = record {
  expected_position_id = none;
  expected_position_version = none;
  requested_quantity = none;
}

abbrev pub decision_snapshot : Env → Decision → Option MarketSnapshot
decision_snapshot env d = find_snapshot d.input_snapshot_id env.market_data.snapshots

abbrev pub plan_of : Env → Db → Decision → SellPlan
plan_of env db d = sell_plan db.orders db.positions d (decision_snapshot env d)

-- the `rules` of the action
unfoldable pub routing_rules : Env → Db → ℕ → Decision → ℕ → List Rule
routing_rules env db user d now =
    let purchase = buy_guard_rules (buy_context env db user now) d (decision_snapshot env d) in
    let sale = sell_guard_rules (sell_context env db now) d (plan_of env db d) nothing_expected in
    elim d.action [
      | buy_action ↦ purchase
      | partial_sell ↦ sale
      | full_sell ↦ sale
      | _ ↦ rule action_not_implemented false ∷ []
    ]

-- the stored evaluation of the rules
unfoldable pub persist_rules : Execution → Decision → Option ℕ → List Code → Desk → ℕ × Desk
persist_rules x d position_version codes desk =
    let id = desk.book.db.next_id in
    (
      id,
      record desk {
        book = skip_id desk.book;
        guards =
            (record {
              id = id;
              execution_id = x.id;
              subject = of_execution;
              subject_id = x.id;
              blocked_codes = codes;
              halts_entries = elim codes [ [] ↦ false | _ ∷ _ ↦ is_purchase d.action ];
              snapshot_id = some d.input_snapshot_id;
              position_version = position_version;
            })
            ∷ desk.guards;
      },
    )

abbrev pub ended : ExecutionState → Outcome → Execution → Execution
ended state code x = record x { state = state; result_code = some code }
