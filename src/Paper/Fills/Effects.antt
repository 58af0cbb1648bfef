-- ===== src/Paper/Fills/Effects.antt =====
-- What the parts of `apply_paper_fill` leave alone, and a successful call taken apart.
use cresta.Base.{
  ℕ, ◌≤◌, ◌<◌, ◌≡◌, ◌⊎◌, Bool, true, false, none, some, List, [], ◌∷◌, ◌++◌, suc, min, arith,
  if◌then◌else◌, returns, >>=-eq-returns,
}
use cresta.Paper.Rows.{TradingOrder, Fill, Db}
use cresta.Paper.Store.{find_order, save_order, find_fill, find_child, log_event, fresh_id}
use cresta.Paper.Create.{set_status, with_status}
use cresta.Paper.Fills.{
  change_position, apply_position, adjust_child, take_fill, status_after_fill, is_replaced,
  check_fill, fill_row, record_fill, finish_fill, book_fill, FillReport, apply_paper_fill, absorb,
  adjusted_status,
}

-- A position's change touches no order, fill or gate.
pub apply_position-orders :
    (o : TradingOrder) (f : Fill) (db : Db) {db' : Db}
    → apply_position o f db ≡ returns db'
    → (db'.orders ≡ db.orders) × (db'.fills ≡ db.fills) × (db.next_id ≤ db'.next_id)
unfolding apply_position change_position fresh_id
apply_position-orders o f db e = ground arith

-- the row of a replacement after a late fill of its original
abbrev pub adjusted : ℕ → TradingOrder → TradingOrder
adjusted late child =
    with_status (adjusted_status late (min late child.remaining_quantity) (absorb late child))
      (absorb late child)

-- the orders after a late fill of a replaced one
unfoldable pub orders_after_adjust : ℕ → ℕ → List TradingOrder → List TradingOrder
orders_after_adjust original late os = elim (find_child original os) [
  | none ↦ os
  | some child ↦ save_order (adjusted late child) os
]

pub adjust_child-orders :
    (original late : ℕ) (db : Db)
    → ((adjust_child original late db).orders ≡ orders_after_adjust original late db.orders)
      × ((adjust_child original late db).fills ≡ db.fills)
      × ((adjust_child original late db).positions ≡ db.positions)
      × ((adjust_child original late db).next_id ≡ db.next_id)
unfolding adjust_child orders_after_adjust log_event set_status absorb
adjust_child-orders original late db = ground arith

-- the order's own row after a fill of it
abbrev pub filled_row : ℕ → TradingOrder → TradingOrder
filled_row q o = with_status (status_after_fill o.status (take_fill q o)) (take_fill q o)

-- the orders after a new fill
abbrev pub orders_after_fill : ℕ → TradingOrder → List TradingOrder → List TradingOrder
orders_after_fill q o os =
    save_order (filled_row q o) (if is_replaced o.status then orders_after_adjust o.id q os else os)

pub record_fill-orders :
    (r : FillReport) (o : TradingOrder) (db : Db)
    → ((record_fill r o db).orders ≡ (
        if is_replaced o.status then orders_after_adjust o.id r.quantity db.orders else db.orders))
      × ((record_fill r o db).fills ≡ db.fills ++ fill_row db.next_id r o ∷ [])
      × ((record_fill r o db).positions ≡ db.positions)
      × ((record_fill r o db).next_id ≡ suc db.next_id)
unfolding record_fill fresh_id
record_fill-orders r o db = ground (
  arith,
  adjust_child-orders o.id r.quantity
      (record db { next_id = suc db.next_id; fills = db.fills ++ fill_row db.next_id r o ∷ [] }),
)

-- What a call that books a fill has written, next to the position.
pub record Booked (r : FillReport) (o o' : TradingOrder) (db db' : Db) : Type 0 where
  pub row : o' ≡ filled_row r.quantity o
  pub orders : db'.orders ≡ orders_after_fill r.quantity o db.orders
  pub fills : db'.fills ≡ db.fills ++ fill_row db.next_id r o ∷ []
  pub ids : db.next_id < db'.next_id

pub book_fill-Booked :
    (r : FillReport) (o : TradingOrder) (db : Db) {o' : TradingOrder} {new : Bool} {db' : Db}
    → book_fill r o db ≡ returns (o', new, db')
    → Booked r o o' db db' × (new ≡ true)
unfolding book_fill finish_fill set_status log_event
book_fill-Booked r o db e =
    let f = fill_row db.next_id r o in
    let (db1, moved, done) = >>=-eq-returns (apply_position o f (record_fill r o db)) _ e in
    ground (arith, apply_position-orders o f (record_fill r o db) moved, record_fill-orders r o db)

-- A successful call: a report that is known and changes nothing, or a new fill that passed the
-- guards and was booked.
pub apply_paper_fill-cases :
    (r : FillReport) (db : Db) {o' : TradingOrder} {new : Bool} {db' : Db}
    → apply_paper_fill r db ≡ returns (o', new, db')
    → ((new ≡ false) × (db' ≡ db))
      ⊎ ((o : TradingOrder) × (find_order r.order_id db.orders ≡ some o)
          × (check_fill r o db ≡ returns tt)
          × (book_fill r o db ≡ returns (o', new, db')))
unfolding apply_paper_fill
apply_paper_fill-cases r db e = ground arith

-- A new fill has a source key that no fill had.
pub apply_paper_fill-new_key :
    (r : FillReport) (db : Db) {o' : TradingOrder} {new : Bool} {db' : Db}
    → apply_paper_fill r db ≡ returns (o', new, db')
    → new ≡ true
    → find_fill r.source_key db.fills ≡ none
unfolding apply_paper_fill
apply_paper_fill-new_key r db e n = ground arith
