-- ===== src/Desk/Approvals.antt =====
-- Approvals and their creation: `create_approval` of backend/app/approvals.py.
pub mod Reviewing
pub mod Granting
pub mod Closing
pub mod Settled
pub mod Closed
pub mod Granted
pub mod Stranded
use cresta.Base.{
  ℕ, suc, ◌+◌, ◌-◌, ◌*◌, ◌^◌, ◌≡◌, Bool, true, false, not, ◌&&◌, ◌||◌, Option, none, some, List, [],
  ◌∷◌, ◌++◌, String, Result, returns, raises, ltb, leb, ◌==◌, if◌then◌else◌,
}
use cresta.Base.Int.{ℤ, pos, ◌-ℤ◌, ltb_ℤ, pos_part, neg_part}
use cresta.Decimal.{Decimal}
use cresta.Paper.Rows.{Db, limit, TradingOrder}
use cresta.Venue.Dates.{ordinal, seoul_date}
use cresta.Venue.Quote.{MarketSnapshot}
use cresta.Guard.Rules.{
  Action, buy_action, partial_sell, full_sell, Decision, Code, Rule, rule, blocked, find_stream,
  price_deviation_exceeded, action_not_implemented, order_size_not_configured,
}
use cresta.Guard.Sell.{sell_plan, sell_guard_rules, SellPlan, Expected}
use cresta.Guard.Risk.{current_id, look_up, find_snapshot}
use cresta.Guard.Buy.{buy_guard_rules}
use cresta.Orders.{
  Book, OrderError, Outcome, by_order, by_guard, by_text, CreationRequest, create_order,
}
use cresta.Desk.{
  Execution, approval_pending, execution_expired, execution_rejected, execution_invalidated,
  order_created, failed_safe, Approval, pending, approved, rejected, expired, invalidated, Scope,
  of_approval, Desk, OrderPayload, Env,
}
use cresta.Desk.Reads.{
  buy_context, sell_context, log_audit, skip_id, find_approval, save_approval, find_execution,
  save_execution, find_decision, marketable_buy_price, marketable_sell_price, buy_quantity,
  limit_of, action_text, is_purchase, side_of, snapshot_id_of, position_id_of, position_version_of,
}

pub data ApprovalError : Type 0 where
  approval_not_found approval_not_pending approval_expired decision_not_found : ApprovalError
  execution_not_found approval_action_not_implemented approval_quantity_invalid : ApprovalError
  refused : Outcome → ApprovalError

-- What a call answers and the tables that it commits.
abbrev pub Answer : Type 0
Answer = Result ApprovalError Approval × Desk

-- the reference price, the quantity and the position that the scope of an approval captures
unfoldable pub new_scope : Env → Db → Decision → Option Scope
new_scope env db d =
    let snapshot = find_snapshot d.input_snapshot_id env.market_data.snapshots in
    let plan = sell_plan db.orders db.positions d snapshot in
    let ask = marketable_buy_price snapshot in
    let purchase : Scope = record {
      reference_price = ask;
      quantity = buy_quantity env.policy.entry_order_amount ask;
      position_id = none;
      position_version = none;
    } in
    let sale : Scope = record {
      reference_price = marketable_sell_price snapshot;
      quantity = plan.quantity;
      position_id = position_id_of plan.position;
      position_version = position_version_of plan.position;
    } in
    elim d.action [
      | buy_action ↦ some purchase
      | partial_sell ↦ some sale
      | full_sell ↦ some sale
      | _ ↦ none
    ]

-- the rows that `create_approval` writes
unfoldable pub add_approval : ℕ → Execution → Decision → Scope → Desk → Approval × Desk
add_approval user x d scope desk =
    let a : Approval = record {
      id = desk.book.db.next_id;
      execution_id = x.id;
      decision_id = d.id;
      user_id = user;
      state = pending;
      scope = scope;
      expires_at = d.valid_until;
      actor_id = none;
      order_id = none;
      result_code = none;
      version = 1;
    } in
    (
      a,
      record desk {
        book =
            log_audit (some user) "APPROVAL_PENDING" a.id (by_text "PENDING") (skip_id desk.book);
        approvals = desk.approvals ++ a ∷ [];
        executions =
            save_execution (record x { state = approval_pending; approval_id = some a.id })
              desk.executions;
      },
    )

-- `create_approval`
unfoldable pub create_approval : Env → ℕ → Execution → Decision → Desk → Answer
unfolding add_approval new_scope
create_approval env user x d desk = elim (new_scope env desk.book.db d) [
  | none ↦ (raises approval_action_not_implemented, desk)
  | some scope ↦
      if scope.quantity == 0
      then (raises approval_quantity_invalid, desk)
      else let (a, next) = add_approval user x d scope desk in (returns a, next)
]
