-- ===== src/Desk/Routing/Placing.antt =====
-- The automatic orders: `_create_buy_order` and `_create_sell_order` of
-- backend/app/decision_execution.py.
use cresta.Base.{
  ℕ, not, ◌||◌, Option, none, some, String, Result, returns, raises, ◌==◌, if◌then◌else◌,
}
use Prim.Native.String.{◌++◌ as join_text}
use cresta.Base.Int.{ℤ}
use cresta.Paper.Rows.{limit, TradingOrder}
use cresta.Venue.Dates.{ordinal, seoul_date}
use cresta.Guard.Rules.{Decision, order_size_not_configured, sell_quantity_available}
use cresta.Guard.Sell.{SellPlan}
use cresta.Guard.Buy.{is_some}
use cresta.Orders.{Book, OrderError, by_order, by_guard, by_text, CreationRequest, create_order}
use cresta.Desk.{guard_blocked, order_created, failed_safe, Execution, Desk, OrderPayload, Env}
use cresta.Desk.Reads.{
  marketable_buy_price, buy_quantity, limit_of, action_text, side_of, position_id_of,
  position_version_of,
}
use cresta.Desk.Routing.{decision_snapshot, ended}

abbrev pub automatic_request :
    Env → Decision → String → Option ℤ → ℕ → String → OrderPayload → CreationRequest
automatic_request env d correlation price quantity key payload = record {
  symbol = d.symbol;
  market = d.market;
  side = side_of d.action;
  action = action_text d.action;
  order_type = limit;
  limit_price = limit_of price;
  quantity = quantity;
  idempotency_key = key;
  fingerprint = env.payload_digest payload;
  correlation_id = correlation;
}

-- the request of `_create_buy_order`
unfoldable pub buy_request : Env → Decision → String → Option ℤ → ℕ → CreationRequest
buy_request env d correlation price quantity =
    let key = join_text "auto-buy:" (env.id_text d.id) in
    automatic_request env d correlation price quantity key (record {
      payload_symbol = d.symbol;
      payload_market = d.market;
      payload_action = action_text d.action;
      payload_price = price;
      payload_quantity = quantity;
      payload_approval = none;
      payload_decision = d.id;
      payload_reference = none;
      payload_snapshot = none;
      payload_position = none;
      payload_position_version = none;
      payload_key = key;
    })

-- the request of `_create_sell_order`
unfoldable pub sell_request : Env → Decision → String → SellPlan → CreationRequest
sell_request env d correlation plan =
    let key =
      join_text (join_text (join_text "auto-sell:" (env.id_text d.id)) ":")
        (action_text d.action) in
    automatic_request env d correlation plan.price plan.quantity key (record {
      payload_symbol = d.symbol;
      payload_market = d.market;
      payload_action = action_text d.action;
      payload_price = plan.price;
      payload_quantity = plan.quantity;
      payload_approval = none;
      payload_decision = d.id;
      payload_reference = some d.input_snapshot_id;
      payload_snapshot = none;
      payload_position = position_id_of plan.position;
      payload_position_version = position_version_of plan.position;
      payload_key = key;
    })

-- what becomes of the execution, from the answer of `create_order`
unfoldable pub ordered :
    Execution → Desk → Result OrderError (TradingOrder × Book) → Execution × Desk
ordered x desk (raises e) = (ended failed_safe (by_order e) x, desk)
ordered x desk (returns (o, book)) = (
  record (ended order_created (by_text "ORDER_CREATED") x) { order_intent_id = some o.intent_id },
  record desk { book = book },
)

unfoldable pub place_order : ℕ → Execution → CreationRequest → String → ℕ → Desk → Execution × Desk
unfolding ordered
place_order user x r audit_action now desk =
    ordered x desk
      (create_order user r audit_action (ordinal (seoul_date now)) desk.book.db.orders desk.book)

-- `_create_buy_order`
unfoldable pub create_buy_order :
    Env → ℕ → Execution → Decision → String → ℕ → Desk → Execution × Desk
unfolding place_order
create_buy_order env user x d correlation now desk =
    let ask = marketable_buy_price (decision_snapshot env d) in
    let quantity = buy_quantity env.policy.entry_order_amount ask in
    let r = buy_request env d correlation ask quantity in
    if quantity == 0 || not (is_some ask)
    then (ended guard_blocked (by_guard order_size_not_configured) x, desk)
    else place_order user x r "AUTOMATIC_BUY_ORDER_CREATED" now desk

-- `_create_sell_order`
unfoldable pub create_sell_order :
    Env → ℕ → Execution → Decision → SellPlan → String → ℕ → Desk → Execution × Desk
unfolding place_order
create_sell_order env user x d plan correlation now desk =
    let r = sell_request env d correlation plan in
    if not (is_some plan.position) || (plan.quantity == 0 || not (is_some plan.price))
    then (ended guard_blocked (by_guard sell_quantity_available) x, desk)
    else place_order user x r "AUTOMATIC_DECISION_SELL_ORDER_CREATED" now desk
