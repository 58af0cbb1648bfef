-- ===== src/Desk/Examples/Approved.antt =====
-- The purchase of `Guard.Examples` on its way through an approval, and the theorems there.
use cresta.Base.{
  ℕ, suc, ◌+◌, ◌≡◌, ◌<◌, refl, ap, false, none, some, [], ◌∷◌, returns, raises, str_eq, any,
}
use cresta.Base.Int.{pos, ◌+ℤ◌, ◌-ℤ◌, ◌*ℤ◌}
use cresta.Base.Tables.{find_row, save_row}
use cresta.Decimal.{half_even}
use cresta.Paper.Store.{find_gate, find_key, log_event}
use cresta.Paper.Create.{is_mock}
use cresta.Venue.Dates.{seoul_date, ordinal}
use cresta.Emergency.{active_pause_entry}
use cresta.Guard.Rules.{Decision, find_stream, blocked}
use cresta.Guard.Risk.{
  open_position_exposure, value_of, add_value, position_value, latest_price, find_snapshot,
  open_position_count, daily_entry_count, sell_fills, realized_loss, unrealized_loss, daily_loss,
  consecutive_loss_count, broker_connection_ok,
}
use cresta.Guard.Buy.{buy_guard_rules, is_fresh_quote, is_paused, spread_pct}
use cresta.Guard.Examples.{ten}
use cresta.Guard.Examples.Entries.{purchase}
use cresta.Orders.{create_order, validate_order, add_order}
use cresta.Desk.{Approval, Desk, pending, approved}
use cresta.Desk.Reads.{buy_quantity, save_approval, find_approval, find_execution}
use cresta.Desk.Approvals.Closing.{reject, expire_stale}
use cresta.Desk.Approvals.Granting.{
  approve, approve_pending, review_timely, answer_review, answer_order, grant, approval_request,
  expired_of,
}
use cresta.Desk.Approvals.Reviewing.{
  persist_review, evaluate_approval, review_action, price_deviation_ok, latest_snapshot,
}
use cresta.Desk.Approvals.{create_approval, new_scope, add_approval, approval_expired}
use cresta.Desk.Approvals.Granted.{IsGranted, approve-IsGranted}
use cresta.Desk.Approvals.Stranded.{approve-strands, waits_for}
use cresta.Desk.Steps.{stays, moves, rejects, expires, Reach-settled}
use cresta.Desk.Routing.Route.{
  route_trading_decision, route_new, decide, guarded, act_on, act, answer_route, record_route,
  add_execution,
}
use cresta.Desk.Routing.{
  find_by_key, execution_key_of, new_execution, mode_for, persist_rules, routing_rules,
}
use native.Mathlib.Omega.{arith}
use cresta.Desk.Examples.{env, desk}

-- the purchase awaits its approval
abbrev waiting : Approval
waiting = record {
  id = 12;
  execution_id = 10;
  decision_id = 3;
  user_id = 7;
  state = pending;
  scope = record {
    reference_price = some (pos 710_000_000);
    quantity = 7;
    position_id = none;
    position_version = none;
  };
  expires_at = purchase.valid_until;
  actor_id = none;
  order_id = none;
  result_code = none;
  version = 1;
}

abbrev desk_waiting : Desk
desk_waiting =
    (route_trading_decision env 7 purchase "c" ten (record desk { decisions = purchase ∷ [] })).1

approvals_are : desk_waiting.approvals ≡ waiting ∷ []
unfolding route_trading_decision route_new find_by_key execution_key_of new_execution mode_for
    decide guarded act_on act answer_route record_route add_execution create_approval new_scope
    add_approval buy_quantity persist_rules routing_rules find_row save_row blocked buy_guard_rules
    is_mock is_fresh_quote find_stream find_gate str_eq is_paused active_pause_entry
    open_position_exposure value_of position_value latest_price find_snapshot add_value
    open_position_count daily_entry_count sell_fills realized_loss unrealized_loss daily_loss
    consecutive_loss_count spread_pct broker_connection_ok half_even ◌+ℤ◌ ◌-ℤ◌ ◌*ℤ◌ seoul_date
    ordinal
approvals_are = refl

approval_waits : find_approval 12 desk_waiting.approvals ≡ some waiting
unfolding find_row
approval_waits = ap (λ rows. find_approval 12 rows) approvals_are

none_waits : any (waits_for 10) (save_approval (expired_of waiting) desk_waiting.approvals) ≡ false
unfolding save_row
none_waits = ap (λ rows. any (waits_for 10) (save_approval (expired_of waiting) rows)) approvals_are

abbrev granted : Approval
granted = record waiting { state = approved; actor_id = some 7; order_id = some 16; version = 2 }

abbrev after_grant : Desk
after_grant = (approve env 7 12 "c" "k" ten desk_waiting).1

purchase_granted :
    (approve env 7 12 "c" "k" ten desk_waiting ≡ (returns granted, after_grant))
    × (find_approval 12 after_grant.approvals ≡ some granted)
unfolding approve approve_pending review_timely answer_review answer_order grant persist_review
    evaluate_approval review_action price_deviation_ok latest_snapshot approval_request create_order
    validate_order add_order log_event find_key route_trading_decision route_new find_by_key
    execution_key_of new_execution mode_for decide guarded act_on act answer_route record_route
    add_execution create_approval new_scope add_approval buy_quantity persist_rules routing_rules
    find_row save_row blocked buy_guard_rules is_mock is_fresh_quote find_stream find_gate str_eq
    is_paused active_pause_entry open_position_exposure value_of position_value latest_price
    find_snapshot add_value open_position_count daily_entry_count sell_fills realized_loss
    unrealized_loss daily_loss consecutive_loss_count spread_pct broker_connection_ok half_even ◌+ℤ◌
    ◌-ℤ◌ ◌*ℤ◌ seoul_date ordinal
purchase_granted = (refl, refl)

approve-IsGranted_example :
    (ten < waiting.expires_at)
    × (d : Decision) × IsGranted env 7 waiting d "c" "k" ten desk_waiting after_grant granted
approve-IsGranted_example =
    let (timely, d, x, _, _, is_granted) =
      approve-IsGranted env 7 12 "c" "k" ten desk_waiting after_grant waiting granted approval_waits
        refl purchase_granted.0 in
    (timely, d, is_granted)

-- two minutes later the approval has expired
abbrev late : ℕ
late = ten + 120_000_000

approve-strands_example :
    ((approve env 7 12 "c" "k" late desk_waiting).0 ≡ raises approval_expired)
    × (find_approval 12 (approve env 7 12 "c" "k" late desk_waiting).1.approvals
        ≡ some (expired_of waiting))
    × (find_execution 10
          (expire_stale (suc late) (approve env 7 12 "c" "k" late desk_waiting).1).1.executions
        ≡ find_execution 10 desk_waiting.executions)
approve-strands_example =
    approve-strands env 7 12 "c" "k" late (suc late) desk_waiting waiting approval_waits refl
      (omega arith) none_waits

-- a rejection and an expiry come too late
Reach-settled_example :
    find_approval 12 (expire_stale late (reject 7 12 after_grant).1).1.approvals ≡ some granted
Reach-settled_example =
    Reach-settled 12 granted
      (moves (moves (stays after_grant) (rejects 7 12 after_grant))
        (expires late (reject 7 12 after_grant).1))
      purchase_granted.1 (λ e. cc)
