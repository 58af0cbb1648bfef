-- ===== src/Desk/Approvals/Granting.antt =====
-- `approve` of backend/app/approvals.py.
use cresta.Base.{
  ℕ, suc, Option, none, some, List, [], ◌∷◌, String, Result, returns, raises, leb, if◌then◌else◌,
}
use cresta.Base.Int.{ℤ}
use cresta.Paper.Rows.{limit, TradingOrder}
use cresta.Venue.Dates.{ordinal, seoul_date}
use cresta.Venue.Quote.{MarketSnapshot}
use cresta.Guard.Rules.{Decision, Code, blocked}
use cresta.Orders.{Book, OrderError, by_order, by_guard, by_text, CreationRequest, create_order}
use cresta.Desk.{
  Execution, execution_invalidated, order_created, failed_safe, Approval, pending, approved,
  expired, invalidated, Desk, Env,
}
use cresta.Desk.Reads.{
  log_audit, find_approval, save_approval, find_execution, save_execution, find_decision, limit_of,
  action_text, side_of, snapshot_id_of,
}
use cresta.Desk.Approvals.{
  Answer, approval_not_found, approval_not_pending, approval_expired, decision_not_found,
  execution_not_found, refused,
}
use cresta.Desk.Approvals.Reviewing.{latest_snapshot, evaluate_approval, persist_review}

-- the branch of `approve` for a blocked review
unfoldable pub invalidate : ℕ → Approval → Execution → ℕ → Code → Desk → Answer
invalidate user a x guard code desk = (
  raises (refused (by_guard code)),
  record desk {
    book = log_audit (some user) "APPROVAL_INVALIDATED" a.id (by_guard code) desk.book;
    approvals =
        save_approval
          (record a {
            state = invalidated;
            result_code = some (by_guard code);
            version = suc a.version;
          })
          desk.approvals;
    executions =
        save_execution
          (record x {
            state = execution_invalidated;
            result_code = some (by_guard code);
            guard_evaluation_id = some guard;
          })
          desk.executions;
  },
)

unfoldable pub approval_request :
    Env → Approval → Decision → Option MarketSnapshot → Option ℤ → String → String → CreationRequest
approval_request env a d snapshot current correlation key = record {
  symbol = d.symbol;
  market = d.market;
  side = side_of d.action;
  action = action_text d.action;
  order_type = limit;
  limit_price = limit_of current;
  quantity = a.scope.quantity;
  idempotency_key = key;
  fingerprint = env.payload_digest (record {
    payload_symbol = d.symbol;
    payload_market = d.market;
    payload_action = action_text d.action;
    payload_price = current;
    payload_quantity = a.scope.quantity;
    payload_approval = some a.id;
    payload_decision = d.id;
    payload_reference = some d.input_snapshot_id;
    payload_snapshot = snapshot_id_of snapshot;
    payload_position = a.scope.position_id;
    payload_position_version = a.scope.position_version;
    payload_key = key;
  });
  correlation_id = correlation;
}

-- the branch of `approve` for a refused order
unfoldable pub fail_approval : Approval → Execution → OrderError → Desk → Answer
fail_approval a x e desk = (
  raises (refused (by_order e)),
  record desk {
    approvals =
        save_approval
          (record a {
            state = invalidated;
            result_code = some (by_order e);
            version = suc a.version;
          })
          desk.approvals;
    executions =
        save_execution (record x { state = failed_safe; result_code = some (by_order e) })
          desk.executions;
  },
)

-- the branch of `approve` for a created order
unfoldable pub grant : ℕ → Approval → Execution → ℕ → TradingOrder → Desk → Answer
grant user a x guard o desk =
    let done = record a {
      state = approved;
      actor_id = some user;
      order_id = some o.id;
      version = suc a.version;
    } in
    (
      returns done,
      record desk {
        book = log_audit (some user) "APPROVAL_APPROVED" a.id (by_text "ORDER_CREATED") desk.book;
        approvals = save_approval done desk.approvals;
        executions =
            save_execution
              (record x {
                state = order_created;
                result_code = some (by_text "ORDER_CREATED");
                guard_evaluation_id = some guard;
                order_intent_id = some o.intent_id;
              })
              desk.executions;
      },
    )

-- the end of `approve`, from the answer of `create_order`
unfoldable pub answer_order :
    ℕ → Approval → Execution → ℕ → Desk → Result OrderError (TradingOrder × Book) → Answer
unfolding fail_approval grant
answer_order user a x guard desk (raises e) = fail_approval a x e desk
answer_order user a x guard desk (returns (o, book)) =
    grant user a x guard o (record desk { book = book })

-- the end of `approve`, from the codes that block
unfoldable pub answer_review :
    ℕ → Approval → Execution → ℕ → CreationRequest → ℕ → Desk → List Code → Answer
unfolding invalidate answer_order
answer_review user a x guard r now desk (code ∷ _) = invalidate user a x guard code desk
answer_review user a x guard r now desk [] = answer_order user a x guard desk (
    create_order user r "APPROVAL_ORDER_CREATED" (ordinal (seoul_date now)) desk.book.db.orders
      desk.book)

-- the part of `approve` that evaluates a timely approval
unfoldable pub review_timely :
    Env → ℕ → Approval → Decision → Execution → String → String → ℕ → Desk → Answer
unfolding answer_review persist_review
review_timely env user a d x correlation key now desk =
    let snapshot = latest_snapshot env d in
    let review = evaluate_approval env desk.book.db user a.scope d snapshot now in
    let codes = blocked review.rules in
    let (guard, next) = persist_review x a d snapshot codes desk in
    let r = approval_request env a d snapshot review.current_price correlation key in
    answer_review user a x guard r now next codes

-- the tables with an approval that has expired
abbrev pub expired_of : Approval → Approval
expired_of a = record a {
  state = expired;
  result_code = some (by_text "APPROVAL_EXPIRED");
  version = suc a.version;
}

unfoldable pub approve_pending : Env → ℕ → Approval → String → String → ℕ → Desk → Answer
unfolding review_timely
approve_pending env user a correlation key now desk =
    if leb a.expires_at now
    then (
      raises approval_expired,
      record desk { approvals = save_approval (expired_of a) desk.approvals },
    )
    else elim (find_decision a.decision_id desk.decisions) [
      | none ↦ (raises decision_not_found, desk)
      | some d ↦ elim (find_execution a.execution_id desk.executions) [
        | none ↦ (raises execution_not_found, desk)
        | some x ↦ review_timely env user a d x correlation key now desk
      ]
    ]

-- `approve`
unfoldable pub approve : Env → ℕ → ℕ → String → String → ℕ → Desk → Answer
unfolding approve_pending
approve env user id correlation key now desk = elim (find_approval id desk.approvals) [
  | none ↦ (raises approval_not_found, desk)
  | some a ↦ elim a.state [
    | approved ↦ (returns a, desk)
    | pending ↦ approve_pending env user a correlation key now desk
    | _ ↦ (raises approval_not_pending, desk)
  ]
]
