-- ===== src/Desk/Routing/Unrecorded.antt =====
-- A purchase for which the configured amount is too small, where purchases await approval
-- (backend/app/decision_execution.py, backend/app/approvals.py).
use cresta.Base.{
  ℕ, ◌+◌, ◌*◌, ◌/◌, ◌%◌, zero, suc, ◌≡◌, ◌<◌, inl, inr, refl, ap, ◌∙◌, true, ◌||◌, ◌&&◌, none, some,
  [], String, raises, arith, if◌then◌else◌,
}
use native.Mathlib.Nat.{div-add-mod, mul-suc}
use cresta.Base.Int.{pos}
use cresta.Paper.Rows.{Db}
use cresta.Guard.Rules.{buy_action, Decision, blocked}
use cresta.Guard.Sell.{SellPlan}
use cresta.Desk.{manual_approval, Execution, Desk, Env, Scope}
use cresta.Desk.Reads.{
  buy_quantity, marketable_buy_price, is_purchase, is_sale, position_version_of,
}
use cresta.Desk.Approvals.{ApprovalError, approval_quantity_invalid, create_approval, new_scope}
use cresta.Desk.Routing.Route.{
  enables_orders, route_trading_decision, route_new, decide, guarded, act_on, act, add_execution,
  answer_route, awaiting, record_shadow,
}
use cresta.Desk.Routing.{
  decision_snapshot, plan_of, routing_rules, mode_for, find_by_key, execution_key_of, new_execution,
  persist_rules,
}
use cresta.Desk.Routing.Orders.{route_trading_decision-cases}

small_quotient : (d q r a : ℕ) → d * q + r ≡ a → a < d → q ≡ 0
small_quotient d zero r a e h = refl
small_quotient d (suc q) r a e h = absurd (omega (arith, mul-suc d q))

buy_quantity_small :
    (amount price : ℕ) → amount * 10_000 < price → buy_quantity (some amount) (some (pos price)) ≡ 0
unfolding buy_quantity
buy_quantity_small amount price small =
    let quotient : amount * 10_000 / price ≡ 0 =
      small_quotient price (amount * 10_000 / price) (amount * 10_000 % price) (amount * 10_000)
        (div-add-mod (amount * 10_000) price) small in
    ground arith

too_small :
    (env : Env) (d : Decision) (db : Db) (amount price : ℕ)
    → d.action ≡ buy_action
    → env.policy.entry_order_amount ≡ some amount
    → marketable_buy_price (decision_snapshot env d) ≡ some (pos price)
    → amount * 10_000 < price
    → (scope : Scope) × (new_scope env db d ≡ some scope) × (scope.quantity ≡ 0)
unfolding new_scope buy_quantity
too_small env d db amount price buys configured asked small =
    let sized =
      ap (λ x. buy_quantity x (marketable_buy_price (decision_snapshot env d))) configured
      ∙ ap (λ x. buy_quantity (some amount) x) asked
      ∙ buy_quantity_small amount price small in
    (
      record {
        reference_price = marketable_buy_price (decision_snapshot env d);
        quantity =
            buy_quantity env.policy.entry_order_amount
              (marketable_buy_price (decision_snapshot env d));
        position_id = none;
        position_version = none;
      },
      rw buys refl,
      sized,
    )

not_approved :
    (env : Env) (user : ℕ) (x : Execution) (d : Decision) (desk : Desk) (scope : Scope)
    → new_scope env desk.book.db d ≡ some scope
    → scope.quantity ≡ 0
    → create_approval env user x d desk ≡ (raises approval_quantity_invalid, desk)
unfolding create_approval
not_approved env user x d desk scope captured nothing = ground arith

-- a new decision for which nothing is known but the answer of `decide`
route_new-raises :
    (env : Env) (user : ℕ) (d : Decision) (correlation : String) (now : ℕ) (desk : Desk)
    (e : ApprovalError)
    → decide env user
        (new_execution env user d correlation desk.book.db.next_id)
        d
        correlation
        now
        (add_execution (new_execution env user d correlation desk.book.db.next_id) desk)
      ≡ raises e
    → route_new env user d correlation now desk ≡ (raises e, desk)
unfolding route_new answer_route
route_new-raises env user d correlation now desk e failed = ap (answer_route user desk) failed

decide_manual :
    (env : Env) (user : ℕ) (x : Execution) (d : Decision) (correlation : String) (now : ℕ)
    (desk : Desk)
    → d.action ≡ buy_action
    → x.mode ≡ manual_approval
    → decide env user x d correlation now desk ≡ guarded env user x d correlation now desk
unfolding decide
decide_manual env user x d correlation now desk buys mode = ground arith

act_on_manual :
    (env : Env) (user : ℕ) (x : Execution) (d : Decision) (plan : SellPlan) (correlation : String)
    (now : ℕ) (desk : Desk)
    → d.action ≡ buy_action
    → x.mode ≡ manual_approval
    → enables_orders env.stage ≡ true
    → act_on env user x d plan correlation now desk []
      ≡ awaiting x (create_approval env user x d desk)
unfolding act_on act
act_on_manual env user x d plan correlation now desk buys mode stage =
    ap
      (λ a.
        if (is_purchase a || is_sale a) && enables_orders env.stage
        then act env user x d plan correlation now desk x.mode
        else record_shadow x desk)
      buys
    ∙ ap
        (λ b. if b then act env user x d plan correlation now desk x.mode else record_shadow x desk)
        stage
    ∙ ap (λ m. act env user x d plan correlation now desk m) mode

guarded_manual :
    (env : Env) (user : ℕ) (x : Execution) (d : Decision) (correlation : String) (now : ℕ)
    (desk : Desk) (amount price : ℕ)
    → d.action ≡ buy_action
    → x.mode ≡ manual_approval
    → enables_orders env.stage ≡ true
    → blocked (routing_rules env desk.book.db user d now) ≡ []
    → env.policy.entry_order_amount ≡ some amount
    → marketable_buy_price (decision_snapshot env d) ≡ some (pos price)
    → amount * 10_000 < price
    → guarded env user x d correlation now desk ≡ raises approval_quantity_invalid
unfolding guarded
guarded_manual env user x d correlation now desk amount price buys mode stage clear configured asked
      small =
    let version =
      if is_sale d.action
      then position_version_of (plan_of env desk.book.db d).position
      else none in
    let evaluated = record x { guard_evaluation_id = some (persist_rules x d version [] desk).0 } in
    let next = (persist_rules x d version [] desk).1 in
    let (scope, captured, nothing) =
      too_small env d next.book.db amount price buys configured asked small in
    ap
      (λ codes.
        act_on env user
          (record x { guard_evaluation_id = some (persist_rules x d version codes desk).0 }) d
          (plan_of env desk.book.db d) correlation now (persist_rules x d version codes desk).1
          codes)
      clear
    ∙ act_on_manual env user evaluated d (plan_of env desk.book.db d) correlation now next buys mode
        stage
    ∙ ap (awaiting evaluated) (not_approved env user evaluated d next scope captured nothing)

-- Where purchases await approval, a purchase that no rule blocks and whose amount is below the ask
-- price is refused as APPROVAL_QUANTITY_INVALID: the call raises and commits no execution and no
-- evaluation.
pub small_purchase-IsUnrecorded :
    (env : Env) (user : ℕ) (d : Decision) (correlation : String) (now : ℕ) (desk : Desk)
    (amount price : ℕ)
    → d.purpose ≡ "TRADING"
    → d.action ≡ buy_action
    → env.modes.buy_mode ≡ manual_approval
    → enables_orders env.stage ≡ true
    → find_by_key (execution_key_of env d) desk.executions ≡ none
    → blocked (routing_rules env desk.book.db user d now) ≡ []
    → env.policy.entry_order_amount ≡ some amount
    → marketable_buy_price (decision_snapshot env d) ≡ some (pos price)
    → amount * 10_000 < price
    → route_trading_decision env user d correlation now desk
      ≡ (raises approval_quantity_invalid, desk)
unfolding new_execution add_execution mode_for routing_rules
small_purchase-IsUnrecorded env user d correlation now desk amount price trading buys mode stage new
      clear configured asked small =
    let x = new_execution env user d correlation desk.book.db.next_id in
    let moded : x.mode ≡ manual_approval = ap (λ a. mode_for a env.modes) buys ∙ mode in
    let before = add_execution x desk in
    let raised =
      decide_manual env user x d correlation now before buys moded
      ∙ guarded_manual env user x d correlation now before amount price buys moded stage clear
          configured asked small in
    elim (route_trading_decision-cases env user d correlation now desk) [
      | inl (other, _) ↦ absurd (other trading)
      | inr (inl (y, _, old, routed)) ↦ cc
      | inr (inr (_, _, routed)) ↦
          routed ∙ route_new-raises env user d correlation now desk approval_quantity_invalid raised
    ]
