-- ===== src/Paper/Change.antt =====
-- Cancelling and replacing: `request_paper_cancel`, `confirm_paper_cancel`,
-- `request_paper_replace` and `replace_paper_order` of backend/app/trading/paper.py.
pub mod Effects
use cresta.Base.{
  ℕ, ◌+◌, Bool, true, false, not, ◌||◌, none, some, [], ◌∷◌, ◌++◌, String, ◌==◌, if◌then◌else◌,
  Result, returns, raises, ◌>>◌, raise_if,
}
use cresta.Decimal.{Decimal, is_positive, quantize}
use cresta.Paper.Rows.{
  Status, created, opened, partially_filled, filled_up, cancel_pending, cancelled_out,
  replace_pending, replaced, limit, replacement_payload, TradingOrder, Db, replacement_created,
  Platform, PaperError, order_not_found, invalid_order_transition, order_already_filled,
  invalid_limit_price,
}
use cresta.Paper.Store.{find_order, save_order, find_key, log_event, fresh_id}
use cresta.Paper.Create.{set_status, submit, replay}

-- a working order: OPEN or PARTIALLY_FILLED
abbrev pub is_working : Status → Bool
is_working opened = true
is_working partially_filled = true
is_working _ = false

-- `_set_status` on a row of the table, then `commit`
unfoldable pub move_to : Status → TradingOrder → Db → TradingOrder × Db
move_to status o db =
    let (o1, db1) = set_status status o db in (o1, record db1 { orders = save_order o1 db1.orders })

-- the two requests differ in the state that they ask for
unfoldable pub request_change : Status → ℕ → Db → Result PaperError (TradingOrder × Db)
request_change pending id db = elim (find_order id db.orders) [
  | none ↦ raises order_not_found
  | some o ↦
      if is_working o.status
      then returns (move_to pending o db)
      else raises invalid_order_transition
]

unfoldable pub request_paper_cancel : ℕ → Db → Result PaperError (TradingOrder × Db)
unfolding request_change
request_paper_cancel = request_change cancel_pending

unfoldable pub request_paper_replace : ℕ → Db → Result PaperError (TradingOrder × Db)
unfolding request_change
request_paper_replace = request_change replace_pending

-- what remains is cancelled
abbrev pub cancel_rest : TradingOrder → TradingOrder
cancel_rest o = record o {
  cancelled_quantity = o.cancelled_quantity + o.remaining_quantity;
  remaining_quantity = 0;
}

unfoldable pub confirm_cancel_of :
    Status → TradingOrder → Db → Result PaperError (TradingOrder × Db)
confirm_cancel_of filled_up o db = returns (o, db)
confirm_cancel_of cancel_pending o db = returns (move_to cancelled_out (cancel_rest o) db)
confirm_cancel_of _ o db = raises invalid_order_transition

unfoldable pub confirm_paper_cancel : ℕ → Db → Result PaperError (TradingOrder × Db)
unfolding confirm_cancel_of
confirm_paper_cancel id db = elim (find_order id db.orders) [
  | none ↦ raises order_not_found
  | some o ↦ confirm_cancel_of o.status o db
]

-- the hash of a replacement
unfoldable pub replacement_hash : Platform → ℕ → Decimal → ℕ → ℕ
replacement_hash platform parent price quantity =
    platform.digest (replacement_payload parent (quantize price) quantity)

-- the row of a replacement, before `_submit`
abbrev pub replacement_row : ℕ → TradingOrder → Decimal → String → ℕ → TradingOrder
replacement_row id original price key fingerprint = record {
  id = id;
  parent_order_id = some original.id;
  terms = record {
    intent_id = original.intent_id;
    order_group_id = original.order_group_id;
    account_alias = original.account_alias;
    environment = original.environment;
    symbol = original.symbol;
    market = original.market;
    side = original.side;
    order_type = limit;
    limit_price = some price;
    trading_date = original.trading_date;
    correlation_id = original.correlation_id;
  };
  requested_quantity = original.remaining_quantity;
  filled_quantity = 0;
  cancelled_quantity = 0;
  remaining_quantity = original.remaining_quantity;
  status = created;
  idempotency_key = key;
  request_hash = fingerprint;
  broker_order_id = none;
  replacement_sequence = original.replacement_sequence + 1;
  version = 1;
}

-- what follows the guards: the original gives up its rest, and a new order works it
unfoldable pub replace_order : Platform → TradingOrder → Decimal → String → Db → TradingOrder × Db
replace_order platform original price key db0 =
    let fingerprint = replacement_hash platform original.id price original.remaining_quantity in
    let (o1, db1) = move_to replaced (cancel_rest original) db0 in
    let (id, db2) = fresh_id db1 in
    let row = replacement_row id original price key fingerprint in
    let (child, db3) = submit false row (log_event id (replacement_created original.id) db2) in
    (child, record db3 { orders = db3.orders ++ child ∷ [] })

abbrev pub is_filled : Status → Bool
is_filled filled_up = true
is_filled _ = false

abbrev pub is_replace_pending : Status → Bool
is_replace_pending replace_pending = true
is_replace_pending _ = false

unfoldable pub replace_paper_order :
    Platform → ℕ → Decimal → String → Db → Result PaperError (TradingOrder × Db)
unfolding replacement_hash replay replace_order
replace_paper_order platform id price key db = elim (find_key key db.orders) [
  | some existing ↦
      replay existing (replacement_hash platform id price existing.requested_quantity) db
  | none ↦ elim (find_order id db.orders) [
    | none ↦ raises order_not_found
    | some o ↦ do
      raise_if (is_filled o.status) order_already_filled
      raise_if (not (is_replace_pending o.status) || o.remaining_quantity == 0)
          invalid_order_transition
      raise_if (not (is_positive price)) invalid_limit_price
      returns (replace_order platform o price key db)
  ]
]
