-- ===== src/Paper/Change/Effects.antt =====
-- Successful cancels and replacements taken apart.
use cresta.Base.{
  ℕ, suc, ◌≤◌, ◌<◌, ◌≡◌, ◌⊎◌, true, none, some, [], ◌∷◌, ◌++◌, String, arith, returns,
}
use cresta.Decimal.{Decimal, is_positive}
use cresta.Paper.Rows.{
  TradingOrder, Status, filled_up, cancel_pending, cancelled_out, replace_pending, replaced, Db,
  Platform, opened,
}
use cresta.Paper.Store.{find_order, save_order, find_key, log_event, fresh_id}
use cresta.Paper.Create.{with_status, set_status, submit}
use cresta.Paper.Change.{
  is_working, move_to, request_change, cancel_rest, confirm_paper_cancel, replace_order,
  replace_paper_order,
}

-- One row of the table was written, and the other tables were left alone.
pub record Moved (o o' : TradingOrder) (db db' : Db) : Type 0 where
  pub row : o ≡ o'
  pub orders : db'.orders ≡ save_order o' db.orders
  pub fills : db'.fills ≡ db.fills
  pub positions : db'.positions ≡ db.positions
  pub ids : db'.next_id ≡ db.next_id

pub request_change-cases :
    (pending : Status) (id : ℕ) (db : Db) {o : TradingOrder} {db' : Db}
    → request_change pending id db ≡ returns (o, db')
    → (p : TradingOrder) × (find_order id db.orders ≡ some p)
      × (is_working p.status ≡ true)
      × Moved o (with_status pending p) db db'
unfolding request_change move_to set_status log_event
request_change-cases pending id db e = ground arith

pub confirm_paper_cancel-cases :
    (id : ℕ) (db : Db) {o : TradingOrder} {db' : Db}
    → confirm_paper_cancel id db ≡ returns (o, db')
    → (p : TradingOrder) × (find_order id db.orders ≡ some p)
      × (((p.status ≡ filled_up) × (o ≡ p) × (db' ≡ db))
          ⊎ ((p.status ≡ cancel_pending)
              × Moved o (with_status cancelled_out (cancel_rest p)) db db'))
unfolding confirm_paper_cancel move_to set_status log_event
confirm_paper_cancel-cases id db e = ground arith

-- The original gave up its rest, and the new order works it.
pub record Replaced (price : Decimal) (key : String) (p o : TradingOrder) (db db' : Db)
    : Type 0 where
  pub id_taken : o.id ≡ db.next_id
  pub parent : o.parent_order_id ≡ some p.id
  pub account : o.account_alias ≡ p.account_alias
  pub same_symbol : o.symbol ≡ p.symbol
  pub same_side : o.side ≡ p.side
  pub new_key : o.idempotency_key ≡ key
  pub requested : o.requested_quantity ≡ p.remaining_quantity
  pub unfilled : o.filled_quantity ≡ 0
  pub uncancelled : o.cancelled_quantity ≡ 0
  pub all_remains : o.remaining_quantity ≡ p.remaining_quantity
  pub outcome : o.status ≡ opened
  pub orders : db'.orders ≡ save_order (with_status replaced (cancel_rest p)) db.orders ++ o ∷ []
  pub fills : db'.fills ≡ db.fills
  pub positions : db'.positions ≡ db.positions
  pub ids : suc db.next_id ≤ db'.next_id

pub replace_order-Replaced :
    (platform : Platform) (p : TradingOrder) (price : Decimal) (key : String) (db : Db)
    → let (o, db') = replace_order platform p price key db in Replaced price key p o db db'
unfolding replace_order move_to submit set_status log_event fresh_id
replace_order-Replaced platform p price key db = ground arith

pub replace_paper_order-cases :
    (platform : Platform) (id : ℕ) (price : Decimal) (key : String) (db : Db) {o : TradingOrder}
    {db' : Db}
    → replace_paper_order platform id price key db ≡ returns (o, db')
    → (db' ≡ db)
      ⊎ ((p : TradingOrder) × (find_key key db.orders ≡ none)
          × (find_order id db.orders ≡ some p)
          × (p.status ≡ replace_pending)
          × (0 < p.remaining_quantity)
          × (is_positive price ≡ true)
          × ((o, db') ≡ replace_order platform p price key db))
unfolding replace_paper_order
replace_paper_order-cases platform id price key db e = ground arith
