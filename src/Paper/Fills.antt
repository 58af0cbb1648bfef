-- ===== src/Paper/Fills.antt =====
-- Fills: `_apply_position`, `_adjust_replacement_child_for_late_fill` and `apply_paper_fill` of
-- backend/app/trading/paper.py.
pub mod Effects
pub mod Positions
pub mod Totality
use cresta.Base.{
  ℕ, suc, ◌+◌, ◌-◌, ◌*◌, min, Bool, true, false, not, ◌&&◌, ◌||◌, none, some, [], ◌∷◌, ◌++◌, String,
  ltb, ◌==◌, if◌then◌else◌, Result, returns, raises, ◌>>=◌, ◌>>◌, raise_if,
}
use cresta.Decimal.{Decimal, is_positive, is_negative, ten_thousandths, equals_quantized, half_up}
use cresta.Paper.Rows.{
  Status, opened, partially_filled, filled_up, cancel_pending, cancelled_out, replace_pending,
  replaced, reconciling, TradingOrder, Fill, Position, open_position, closed_position,
  cresta_managed, Db, fill_applied, parent_late_fill_adjusted, PaperError, order_not_found,
  invalid_fill, invalid_fill_cost, fill_quantity_exceeded, insufficient_position,
  fill_source_conflict, integrity_error,
}
use cresta.Paper.Store.{
  is_sell, is_buy, find_order, save_order, find_fill, find_position, save_position, find_child,
  log_event, fresh_id,
}
use cresta.Paper.Create.{set_status, lacks_shares}

-- the row that `Position(account_alias=..., symbol=...)` starts from: the columns' defaults
abbrev pub new_position : ℕ → String → String → Position
new_position id account symbol = record {
  id = id;
  account_alias = account;
  symbol = symbol;
  quantity = 0;
  available_quantity = 0;
  managed_quantity = 0;
  average_price = 0;
  managed_average_price = 0;
  state = closed_position;
  origin = cresta_managed;
  version = 1;
}

-- the position after a fill bought: quantity and average cost
abbrev pub buy_into : Fill → Position → Position
buy_into f p =
    let new_quantity = p.quantity + f.quantity in
    record p {
      quantity = new_quantity;
      average_price = half_up (p.average_price * p.quantity + f.price * f.quantity) new_quantity;
    }

-- the position after a fill sold, where it holds that many shares
abbrev pub sell_from : Fill → Position → Position
sell_from f p =
    let left = p.quantity - f.quantity in
    record p { quantity = left; average_price = if left == 0 then 0 else p.average_price }

-- the columns that every fill sets from the new quantity
abbrev pub settle : Position → Position
settle p = record p {
  available_quantity = p.quantity;
  managed_quantity = p.quantity;
  managed_average_price = p.average_price;
  origin = cresta_managed;
  state = if p.quantity == 0 then closed_position else open_position;
  version = suc p.version;
}

-- the change of one row, with its `PositionEvent`
abbrev pub write_position : Fill → Position → Position → Db → Db
write_position f before after db = record db {
  positions = save_position after db.positions;
  position_events =
      record { position_id = before.id; fill_id = f.id; before = before; after = after }
      ∷ db.position_events;
}

unfoldable pub change_position : TradingOrder → Fill → Position → Db → Result PaperError Db
change_position o f p db =
    if is_buy o.side
    then returns (write_position f p (settle (buy_into f p)) db)
    else if ltb p.quantity f.quantity
    then raises insufficient_position
    else returns (write_position f p (settle (sell_from f p)) db)

-- `_apply_position`
unfoldable pub apply_position : TradingOrder → Fill → Db → Result PaperError Db
apply_position o f db0 = elim (find_position o.account_alias o.symbol db0.positions) [
  | some p ↦ change_position o f p db0
  | none ↦
      let (id, db1) = fresh_id db0 in
      let p = new_position id o.account_alias o.symbol in
      if is_sell o.side
      then raises insufficient_position
      else change_position o f p (record db1 { positions = db1.positions ++ p ∷ [] })
]

-- a late fill takes what it can from the quantity that the child still works
unfoldable pub absorb : ℕ → TradingOrder → TradingOrder
absorb late child =
    let absorbed = min late child.remaining_quantity in
    record child {
      remaining_quantity = child.remaining_quantity - absorbed;
      cancelled_quantity = child.cancelled_quantity + absorbed;
    }

-- the child's status by the quantities that `absorb` left
unfoldable pub adjusted_status : ℕ → ℕ → TradingOrder → Status
adjusted_status late absorbed child =
    if ltb absorbed late
    then reconciling
    else if child.filled_quantity == child.requested_quantity
    then filled_up
    else if child.remaining_quantity == 0
    then cancelled_out
    else if ltb 0 child.filled_quantity
    then partially_filled
    else opened

-- `_adjust_replacement_child_for_late_fill`
unfoldable pub adjust_child : ℕ → ℕ → Db → Db
adjust_child original_id late db = elim (find_child original_id db.orders) [
  | none ↦ db
  | some child ↦
      let absorbed = min late child.remaining_quantity in
      let child1 = absorb late child in
      let (child2, db1) = set_status (adjusted_status late absorbed child1) child1 db in
      log_event child.id (parent_late_fill_adjusted absorbed late original_id)
        (record db1 { orders = save_order child2 db1.orders })
]

-- the quantities after a fill: first what remains, then what was cancelled
unfoldable pub take_fill : ℕ → TradingOrder → TradingOrder
take_fill quantity o =
    let from_remaining = min quantity o.remaining_quantity in
    record o {
      remaining_quantity = o.remaining_quantity - from_remaining;
      cancelled_quantity = o.cancelled_quantity - (quantity - from_remaining);
      filled_quantity = o.filled_quantity + quantity;
    }

-- a fill leaves these states as they are, unless it completes the order
abbrev pub keeps_status : Status → Bool
keeps_status cancel_pending = true
keeps_status replace_pending = true
keeps_status cancelled_out = true
keeps_status replaced = true
keeps_status _ = false

abbrev pub is_replaced : Status → Bool
is_replaced replaced = true
is_replaced _ = false

unfoldable pub status_after_fill : Status → TradingOrder → Status
status_after_fill previous o =
    if o.filled_quantity == o.requested_quantity
    then filled_up
    else if keeps_status previous
    then previous
    else if ltb 0 o.remaining_quantity
    then partially_filled
    else cancelled_out

-- the arguments of `apply_paper_fill`
pub record FillReport : Type 0 where
  pub order_id : ℕ
  pub source_key : String
  pub quantity : ℕ
  pub price : Decimal
  pub fee : Decimal
  pub tax : Decimal
  pub filled_at : ℕ

-- The report of a fill that is known already, and that differs.
abbrev pub contradicts : Fill → FillReport → Bool
contradicts known report =
    not (known.order_id == report.order_id)
    || (not (known.quantity == report.quantity) || not (equals_quantized known.price report.price))

-- The guards on a new fill of an order that was found.
unfoldable pub check_fill : FillReport → TradingOrder → Db → Result PaperError (Unit {0})
check_fill r o db = do
  raise_if (r.quantity == 0 || not (is_positive r.price)) invalid_fill
  raise_if (is_negative r.fee || is_negative r.tax) invalid_fill_cost
  raise_if (ltb (o.remaining_quantity + o.cancelled_quantity) r.quantity) fill_quantity_exceeded
  raise_if
      (is_sell o.side
        && lacks_shares (find_position o.account_alias o.symbol db.positions) 0 r.quantity)
      insufficient_position
  -- `ck_fills_price_positive`, which the flush of the row meets
  raise_if (ten_thousandths r.price == 0) integrity_error

-- the row of a reported fill
abbrev pub fill_row : ℕ → FillReport → TradingOrder → Fill
fill_row id r o = record {
  id = id;
  order_id = o.id;
  broker_fill_key = r.source_key;
  quantity = r.quantity;
  price = ten_thousandths r.price;
  fee = ten_thousandths r.fee;
  tax = ten_thousandths r.tax;
  filled_at = r.filled_at;
}

-- the fill's row, and the adjustment of a replacement
unfoldable pub record_fill : FillReport → TradingOrder → Db → Db
record_fill r o db0 =
    let (id, db1) = fresh_id db0 in
    let db2 = record db1 { fills = db1.fills ++ fill_row id r o ∷ [] } in
    if is_replaced o.status then adjust_child o.id r.quantity db2 else db2

-- the order's own row, with its events
unfoldable pub finish_fill : Fill → TradingOrder → Db → TradingOrder × Bool × Db
finish_fill f o db0 =
    let o1 = take_fill f.quantity o in
    let (o2, db1) = set_status (status_after_fill o.status o1) o1 db0 in
    let db2 = log_event o.id (fill_applied f.id f.price f.quantity) db1 in
    (o2, true, record db2 { orders = save_order o2 db2.orders })

-- What follows the guards. The order's row is written back at the end: it is not its own child.
unfoldable pub book_fill :
    FillReport → TradingOrder → Db → Result PaperError (TradingOrder × Bool × Db)
unfolding record_fill finish_fill
book_fill r o db = do
  let f = fill_row db.next_id r o
  db1 ← apply_position o f (record_fill r o db)
  returns (finish_fill f o db1)

-- `apply_paper_fill`: the order, whether the fill is new, and the tables
unfoldable pub apply_paper_fill : FillReport → Db → Result PaperError (TradingOrder × Bool × Db)
apply_paper_fill r db = elim (find_fill r.source_key db.fills) [
  | some known ↦
      if contradicts known r
      then raises fill_source_conflict
      else elim (find_order known.order_id db.orders) [
        | none ↦ raises order_not_found
        | some o ↦ returns (o, false, db)
      ]
  | none ↦ elim (find_order r.order_id db.orders) [
    | none ↦ raises order_not_found
    | some o ↦ check_fill r o db >> book_fill r o db
  ]
]
