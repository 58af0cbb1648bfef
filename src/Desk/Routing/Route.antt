-- ===== src/Desk/Routing/Route.antt =====
-- `route_trading_decision` of backend/app/decision_execution.py.
use cresta.Base.{
  ℕ, Bool, true, false, ◌&&◌, ◌||◌, Option, none, some, List, [], ◌∷◌, ◌++◌, String, Result,
  returns, raises, str_eq, if◌then◌else◌,
}
use cresta.Guard.Rules.{no_action, Decision, Code, blocked}
use cresta.Guard.Sell.{SellPlan}
use cresta.Orders.{by_guard, by_text}
use cresta.Desk.{
  Mode, automatic, manual_approval, disabled, Stage, shadow, took_no_action, mode_disabled,
  guard_blocked, shadow_recorded, approval_pending, Execution, Desk, Env,
}
use cresta.Desk.Reads.{
  log_audit, skip_id, save_execution, is_purchase, is_sale, position_version_of,
}
use cresta.Desk.Approvals.{ApprovalError, Answer, create_approval}
use cresta.Desk.Routing.{
  execution_key_of, find_by_key, state_text, new_execution, plan_of, routing_rules, persist_rules,
  ended,
}
use cresta.Desk.Routing.Placing.{create_buy_order, create_sell_order}

abbrev pub record_shadow : Execution → Desk → Result ApprovalError (Execution × Desk)
record_shadow x desk = returns (ended shadow_recorded (by_text "SHADOW_ONLY") x, desk)

abbrev pub awaiting : Execution → Answer → Result ApprovalError (Execution × Desk)
awaiting x (raises e, next) = raises e
awaiting x (returns a, next) =
    returns (record x { state = approval_pending; approval_id = some a.id }, next)

-- an execution whose rules all pass, in a stage that enables orders, by its mode
unfoldable pub act :
    Env
    → ℕ
    → Execution
    → Decision
    → SellPlan
    → String
    → ℕ
    → Desk
    → Mode
    → Result ApprovalError (Execution × Desk)
unfolding create_buy_order create_sell_order
act env user x d plan correlation now desk manual_approval =
    awaiting x (create_approval env user x d desk)
act env user x d plan correlation now desk automatic = returns (
    if is_purchase d.action
    then create_buy_order env user x d correlation now desk
    else create_sell_order env user x d plan correlation now desk)
act env user x d plan correlation now desk disabled = record_shadow x desk

-- whether the stage is one of `ORDER_ENABLED_STAGES`
abbrev pub enables_orders : Stage → Bool
enables_orders shadow = false
enables_orders _ = true

-- what follows the evaluation, from the codes that block
unfoldable pub act_on :
    Env
    → ℕ
    → Execution
    → Decision
    → SellPlan
    → String
    → ℕ
    → Desk
    → List Code
    → Result ApprovalError (Execution × Desk)
unfolding act
act_on env user x d plan correlation now desk (code ∷ _) =
    returns (ended guard_blocked (by_guard code) x, desk)
act_on env user x d plan correlation now desk [] =
    if (is_purchase d.action || is_sale d.action) && enables_orders env.stage
    then act env user x d plan correlation now desk x.mode
    else record_shadow x desk

-- the branch of `route_trading_decision` that evaluates the rules
unfoldable pub guarded :
    Env → ℕ → Execution → Decision → String → ℕ → Desk → Result ApprovalError (Execution × Desk)
unfolding act_on persist_rules
guarded env user x d correlation now desk =
    let plan = plan_of env desk.book.db d in
    let codes = blocked (routing_rules env desk.book.db user d now) in
    let version = if is_sale d.action then position_version_of plan.position else none in
    let (guard, next) = persist_rules x d version codes desk in
    act_on env user (record x { guard_evaluation_id = some guard }) d plan correlation now next
      codes

-- the state of a new execution
unfoldable pub decide :
    Env → ℕ → Execution → Decision → String → ℕ → Desk → Result ApprovalError (Execution × Desk)
unfolding guarded
decide env user x d correlation now desk =
    let rest : Result ApprovalError (Execution × Desk) = elim x.mode [
      | disabled ↦ returns (ended mode_disabled (by_text "ACTION_DISABLED") x, desk)
      | _ ↦ guarded env user x d correlation now desk
    ] in
    elim d.action [ no_action s ↦ returns (ended took_no_action (by_text s) x, desk) | _ ↦ rest ]

-- the tables with the new row
unfoldable pub add_execution : Execution → Desk → Desk
add_execution x desk = record desk {
  book = skip_id desk.book;
  executions = desk.executions ++ x ∷ [];
}

-- the tables with what was decided
unfoldable pub record_route : ℕ → Execution → Desk → Desk
record_route user x desk = record desk {
  book =
      log_audit (some user) "DECISION_EXECUTION_ROUTED" x.id (by_text (state_text x.state))
        desk.book;
  executions = save_execution x desk.executions;
}

-- What the routing of a decision answers and the tables that it commits.
abbrev pub Routed : Type 0
Routed = Result ApprovalError (Option Execution) × Desk

unfoldable pub answer_route : ℕ → Desk → Result ApprovalError (Execution × Desk) → Routed
unfolding record_route
answer_route user desk (raises e) = (raises e, desk)
answer_route user desk (returns (y, next)) = (returns (some y), record_route user y next)

unfoldable pub route_new : Env → ℕ → Decision → String → ℕ → Desk → Routed
unfolding decide add_execution answer_route
route_new env user d correlation now desk =
    let x = new_execution env user d correlation desk.book.db.next_id in
    answer_route user desk (decide env user x d correlation now (add_execution x desk))

-- `route_trading_decision`
unfoldable pub route_trading_decision : Env → ℕ → Decision → String → ℕ → Desk → Routed
unfolding route_new
route_trading_decision env user d correlation now desk =
    if str_eq d.purpose "TRADING"
    then elim (find_by_key (execution_key_of env d) desk.executions) [
      | some x ↦ (returns (some x), desk)
      | none ↦ route_new env user d correlation now desk
    ]
    else (returns none, desk)
