-- ===== src/Desk/Examples.antt =====
-- The decisions of `Guard.Examples`, routed, and the theorems on the routing there.
mod Approved
use cresta.Base.{
  ℕ, suc, ◌+◌, ◌≡◌, ◌≤◌, ◌<◌, ◌⊎◌, refl, ap, true, false, none, some, List, [], ◌∷◌, ◌++◌, String,
  returns, raises, str_eq, any,
}
use cresta.Base.Int.{pos, ◌+ℤ◌, ◌-ℤ◌, ◌*ℤ◌}
use cresta.Base.Tables.{find_row, save_row}
use cresta.Decimal.{half_even}
use cresta.Paper.Rows.{Position, Db, TradingOrder}
use cresta.Paper.Store.{find_position, find_gate, find_key, reserved_quantity, log_event}
use cresta.Paper.Create.{is_mock}
use cresta.Venue.Calendar.{evaluate_krx_trading_day, year_end_closure, is_closed, trading_day}
use cresta.Venue.Dates.{weekday, previous_day, seoul_date, ordinal}
use cresta.Venue.Session.{classify_session, session_at}
use cresta.Emergency.{active_pause_entry}
use cresta.Guard.Rules.{Decision, find_stream, blocked, buy_action}
use cresta.Guard.Sell.{
  account, sell_plan, sell_guard_rules, sell_ratio, sellable_managed_quantity, planned_quantity,
  has_active_symbol_order, is_fresh, is_tradable,
}
use cresta.Guard.Risk.{
  open_position_exposure, value_of, add_value, position_value, latest_price, find_snapshot,
  open_position_count, daily_entry_count, sell_fills, realized_loss, unrealized_loss, daily_loss,
  consecutive_loss_count, broker_connection_ok,
}
use cresta.Guard.Buy.{buy_guard_rules, is_fresh_quote, is_paused, spread_pct}
use cresta.Guard.Examples.{march_holidays, ten, holding, snapshot, stream, gate, mock, sale}
use cresta.Guard.Examples.Entries.{policy, worker, data_of_day, entry_context, purchase}
use cresta.Orders.{Book, create_order, validate_order, add_order, by_text}
use cresta.Desk.{
  automatic, manual_approval, disabled, mock_automatic, order_created, approval_pending, Execution,
  Approval, Desk, Env, pending, approved, expired,
}
use cresta.Desk.Reads.{buy_quantity, save_approval, find_approval, find_execution}
use cresta.Desk.Approvals.Closing.{reject, expire_stale}
use cresta.Desk.Approvals.Granting.{
  approve, approve_pending, review_timely, answer_review, answer_order, grant, approval_request,
  expired_of,
}
use cresta.Desk.Approvals.Reviewing.{
  persist_review, evaluate_approval, review_action, price_deviation_ok, latest_snapshot,
}
use cresta.Desk.Approvals.{
  create_approval, new_scope, add_approval, approval_quantity_invalid, approval_expired,
}
use cresta.Desk.Approvals.Granted.{IsGranted, approve-IsGranted}
use cresta.Desk.Approvals.Stranded.{approve-strands, waits_for}
use cresta.Desk.Steps.{stays, moves, rejects, expires, Reach, Reach-settled}
use cresta.Desk.Routing.Route.{
  route_trading_decision, route_new, decide, guarded, act_on, act, answer_route, record_route,
  add_execution,
}
use cresta.Desk.Routing.{
  find_by_key, execution_key_of, new_execution, mode_for, persist_rules, routing_rules,
}
use cresta.Desk.Routing.Placing.{create_sell_order, sell_request, place_order, ordered}
use cresta.Desk.Routing.Orders.{Routes, route_trading_decision-Routes}
use cresta.Desk.Routing.Sized.{routed_sale-IsCovered}
use cresta.Desk.Routing.Once.{route_trading_decision-again}
use cresta.Desk.Routing.Unrecorded.{small_purchase-IsUnrecorded}
use native.Mathlib.Omega.{arith}

-- purchases await approval, sales are automatic
abbrev pub env : Env
env = record {
  settings = mock;
  stage = mock_automatic;
  modes = record {
    buy_mode = manual_approval;
    partial_sell_mode = automatic;
    full_sell_mode = automatic;
    fixed_stop_loss_mode = disabled;
  };
  config_version = some 1;
  policy = policy;
  risk_version = some 2;
  holidays = march_holidays;
  market_data = data_of_day;
  watchlist = entry_context.watchlist;
  worker = some worker;
  stops = entry_context.stops;
  loss_events = [];
  execution_digest = λ id action config risk. id;
  payload_digest = λ p. p.payload_quantity;
  id_text = λ id. "3";
}

abbrev db : Db
db = record {
  intents = [];
  orders = [];
  fills = [];
  positions = holding ∷ [];
  gates = gate ∷ [];
  order_events = [];
  position_events = [];
  next_id = 10;
}

abbrev pub desk : Desk
desk = record {
  book = record { db = db; policies = []; audits = [] };
  decisions = sale ∷ purchase ∷ [];
  executions = [];
  approvals = [];
  guards = [];
}

-- the half of the eleven managed shares, rounded down
abbrev sold : Execution
sold = record (new_execution env 7 sale "c" 10) {
  state = order_created;
  result_code = some (by_text "ORDER_CREATED");
  guard_evaluation_id = some 11;
  order_intent_id = some 12;
}

abbrev after_sale : Desk
after_sale = (route_trading_decision env 7 sale "c" ten desk).1

sale_routed :
    (route_trading_decision env 7 sale "c" ten desk ≡ (returns (some sold), after_sale))
    × (o : TradingOrder) × (after_sale.book.db.orders ≡ desk.book.db.orders ++ o ∷ [])
    × (o.requested_quantity ≡ 5)
unfolding route_trading_decision route_new find_by_key execution_key_of new_execution mode_for
    decide guarded act_on act create_sell_order sell_request place_order ordered answer_route
    record_route add_execution persist_rules routing_rules create_order validate_order add_order
    log_event find_key find_row save_row blocked sell_guard_rules sell_plan sell_ratio
    planned_quantity sellable_managed_quantity find_position find_gate find_stream find_snapshot
    str_eq is_mock has_active_symbol_order is_fresh is_tradable classify_session trading_day
    seoul_date evaluate_krx_trading_day year_end_closure is_closed previous_day weekday
    reserved_quantity ordinal
sale_routed = (refl, _, refl, refl)

route_trading_decision-Routes_example : Routes env 7 sale ten desk sold after_sale
route_trading_decision-Routes_example =
    route_trading_decision-Routes env 7 sale "c" ten desk after_sale sold sale_routed.0

routed_sale-IsCovered_example :
    (p : Position) × (find_position account "005930" desk.book.db.positions ≡ some p)
    × (1 ≤ sale_routed.1.requested_quantity)
    × (sale_routed.1.requested_quantity ≤ p.managed_quantity)
    × (sale_routed.1.requested_quantity ≤ p.available_quantity)
routed_sale-IsCovered_example =
    let (p, found, _, _, one, managed, free) =
      routed_sale-IsCovered env 7 sale "c" ten desk after_sale sold sale_routed.1 refl sale_routed.0
        sale_routed.2 in
    (p, found, one, managed, free)

route_trading_decision-again_example :
    route_trading_decision env 8 sale "d" (suc ten) after_sale ≡ (returns (some sold), after_sale)
unfolding find_row
route_trading_decision-again_example =
    route_trading_decision-again env env 7 8 sale "c" "d" ten (suc ten) desk after_sale sold refl
      refl sale_routed.0

-- the amount is 10,000 won and a share costs 71,000
abbrev small_env : Env
small_env = record env { policy = record policy { entry_order_amount = some 10_000 } }

small_passes : blocked (routing_rules small_env db 7 purchase ten) ≡ []
unfolding routing_rules blocked buy_guard_rules is_mock is_fresh_quote find_stream find_gate str_eq
    is_paused active_pause_entry open_position_exposure value_of position_value latest_price
    find_snapshot add_value open_position_count daily_entry_count sell_fills realized_loss
    unrealized_loss daily_loss consecutive_loss_count spread_pct broker_connection_ok half_even ◌+ℤ◌
    ◌-ℤ◌ ◌*ℤ◌ seoul_date ordinal
small_passes = refl

small_purchase-IsUnrecorded_example :
    route_trading_decision small_env 7 purchase "c" ten desk
    ≡ (raises approval_quantity_invalid, desk)
unfolding find_by_key find_snapshot
small_purchase-IsUnrecorded_example =
    small_purchase-IsUnrecorded small_env 7 purchase "c" ten desk 10_000 710_000_000 refl refl refl
      refl refl small_passes refl refl (omega arith)
