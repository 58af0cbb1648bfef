-- ===== src/Paper/Orders/Tables.antt =====
-- Every order of the table stays sound, whatever calls of backend/app/trading/paper.py succeed.
use cresta.Base.{
  ℕ, suc, ◌+◌, ◌≤◌, ◌<◌, ◌≡◌, refl, inl, inr, Bool, Option, none, some, List, String, arith, subst,
  returns, All, sym, ap,
}
use cresta.Decimal.{Decimal}
use cresta.Paper.Rows.{
  order_created, OrderRequest, TradingOrder, Status, cancel_pending, replace_pending, GateStatus,
  Db, Settings, Platform,
}
use cresta.Paper.Store.{find_order, save_order, find_child, log_event}
use cresta.Paper.Store.Laws.{
  OfSome, OfSome-some, if_both, All-append, All-save_order, All-find_order, All-find_child,
}
use cresta.Paper.Create.{
  set_paper_gate, with_status, insert_order, create_paper_order, date_of, order_row, request_hash,
}
use cresta.Paper.Create.Effects.{submit-Submitted, create_paper_order-cases}
use cresta.Paper.Fills.{FillReport, check_fill, apply_paper_fill, is_replaced}
use cresta.Paper.Fills.Effects.{
  book_fill-Booked, apply_paper_fill-cases, orders_after_adjust, filled_row, adjusted,
}
use cresta.Paper.Change.Effects.{
  Moved, Replaced, request_change-cases, confirm_paper_cancel-cases, replace_paper_order-cases,
  replace_order-Replaced,
}
use cresta.Paper.Change.{
  request_paper_cancel, confirm_paper_cancel, request_paper_replace, replace_paper_order,
  replace_order, request_change,
}
use cresta.Paper.Steps.{Step, Reach, empty_db}
use cresta.Paper.Orders.Sound.{
  IsSound, take_fill-IsSound, absorb-IsSound, submit-IsSound, cancel_rest-IsSound, pending-IsSound,
}

abbrev pub AllSound : Db → Type 0
AllSound db = All IsSound db.orders

insert_order-AllSound :
    (platform : Platform) (r : OrderRequest) (date : ℕ) (lost : Bool) (db : Db)
    → AllSound db
    → 0 < r.quantity
    → AllSound (insert_order platform r date lost db).1
unfolding insert_order
insert_order-AllSound platform r date lost db h p =
    let db1 = record db { next_id = suc (suc (suc db.next_id)) } in
    let row = order_row db.next_id r date (request_hash platform r date) in
    let logged = log_event row.id order_created db1 in
    let same = (submit-Submitted lost row logged).same_orders in
    rw same (
      All-append IsSound _ _ (unfold log_event in h)
        (submit-IsSound lost row logged p refl (omega arith)))

pub check_fill_bounds :
    (r : FillReport) (o : TradingOrder) (db : Db)
    → check_fill r o db ≡ returns tt
    → (0 < r.quantity) × (r.quantity ≤ o.remaining_quantity + o.cancelled_quantity)
unfolding check_fill
check_fill_bounds r o db e = ground arith

orders_after_adjust-IsSound :
    (id late : ℕ) (os : List TradingOrder)
    → All IsSound os
    → 0 < late
    → All IsSound (orders_after_adjust id late os)
unfolding orders_after_adjust
orders_after_adjust-IsSound id late os h p = go (find_child id os) (All-find_child IsSound id os h)
  where
    go :
        (c : Option TradingOrder)
        → OfSome IsSound c
        → All IsSound (elim c [ none ↦ os | some child ↦ save_order (adjusted late child) os ])
    go none s = h
    go (some child) s =
        All-save_order IsSound (adjusted late child) os h (absorb-IsSound late child s p)

fill-AllSound :
    (r : FillReport) (db : Db) {o : TradingOrder} {new : Bool} {db' : Db}
    → apply_paper_fill r db ≡ returns (o, new, db')
    → AllSound db
    → AllSound db'
fill-AllSound r db e h = elim (apply_paper_fill-cases r db e) [
  | inl known ↦ subst AllSound (sym known.1) h
  | inr (o, found, checked, booked) ↦
      let (b, _) = book_fill-Booked r o db booked in
      let (p, le) = check_fill_bounds r o db checked in
      let s = OfSome-some IsSound (All-find_order IsSound r.order_id db.orders h) found in
      subst (All IsSound) (sym b.orders) (
        All-save_order IsSound (filled_row r.quantity o) _
          (if_both (All IsSound) (is_replaced o.status)
            (orders_after_adjust-IsSound o.id r.quantity db.orders h p) h)
          (take_fill-IsSound r.quantity o s p le))
]

-- A row that was found in a sound table is sound.
found-IsSound :
    (id : ℕ) (db : Db) {o : TradingOrder}
    → AllSound db
    → find_order id db.orders ≡ some o
    → IsSound o
found-IsSound id db h e = OfSome-some IsSound (All-find_order IsSound id db.orders h) e

-- A sound row that is written back keeps the table sound.
Moved-AllSound :
    (o o' : TradingOrder) (db db' : Db)
    → AllSound db
    → Moved o o' db db'
    → IsSound o'
    → AllSound db'
Moved-AllSound o o' db db' h m s =
    subst (All IsSound) (sym m.orders) (All-save_order IsSound o' db.orders h s)

Replaced-IsSound :
    (price : Decimal) (key : String) (p o : TradingOrder) (db db' : Db)
    → Replaced price key p o db db'
    → 0 < p.remaining_quantity
    → IsSound o
Replaced-IsSound price key p o db db' r h = ground arith

request_change-AllSound :
    (pending : Status) (id : ℕ) (db : Db) {o : TradingOrder} {db' : Db}
    → ((p : TradingOrder) → IsSound p → IsSound (with_status pending p))
    → request_change pending id db ≡ returns (o, db')
    → AllSound db
    → AllSound db'
request_change-AllSound pending id db {o} {db'} keep e h =
    let (p, found, working, moved) = request_change-cases pending id db e in
    Moved-AllSound o (with_status pending p) db db' h moved (keep p (found-IsSound id db h found))

confirm-AllSound :
    (id : ℕ) (db : Db) {o : TradingOrder} {db' : Db}
    → confirm_paper_cancel id db ≡ returns (o, db')
    → AllSound db
    → AllSound db'
confirm-AllSound id db {o} {db'} e h =
    let (p, found, how) = confirm_paper_cancel-cases id db e in
    elim how [
      | inl same ↦ subst AllSound (sym same.2) h
      | inr (pending, moved) ↦
          Moved-AllSound o _ db db' h moved (cancel_rest-IsSound p (found-IsSound id db h found)).0
    ]

replace-AllSound :
    (platform : Platform) (id : ℕ) (price : Decimal) (key : String) (db : Db) {o : TradingOrder}
    {db' : Db}
    → replace_paper_order platform id price key db ≡ returns (o, db')
    → AllSound db
    → AllSound db'
replace-AllSound platform id price key db {o} {db'} e h =
    elim (replace_paper_order-cases platform id price key db e) [
      | inl same ↦ subst AllSound (sym same) h
      | inr (p, new, found, pending, rest, priced, done) ↦
          let (o1, db1) = replace_order platform p price key db in
          let r = replace_order-Replaced platform p price key db in
          let sound = (cancel_rest-IsSound p (found-IsSound id db h found)).1 in
          let kept =
            All-append IsSound _ o1 (All-save_order IsSound _ db.orders h sound)
              (Replaced-IsSound price key p o1 db db1 r rest) in
          subst AllSound (sym (ap (λ (x : TradingOrder × Db). x.1) done))
            (subst (All IsSound) (sym r.orders) kept)
    ]

create-AllSound :
    (platform : Platform) (settings : Settings) (today : ℕ) (lost : Bool) (r : OrderRequest)
    (seen db : Db) {o : TradingOrder} {db' : Db}
    → create_paper_order platform settings today lost r seen db ≡ returns (o, db')
    → AllSound db
    → AllSound db'
create-AllSound platform settings today lost r seen db e h =
    elim (create_paper_order-cases platform settings today lost r seen db e) [
      | inl same ↦ subst AllSound (sym same) h
      | inr (admitted, new, done) ↦
          subst AllSound (sym (ap (λ (x : TradingOrder × Db). x.1) done))
            (insert_order-AllSound platform r (date_of r today) lost db h admitted.positive)
    ]

gate-orders :
    (status : GateStatus) (reason : String) (db : Db) {db' : Db}
    → set_paper_gate status reason db ≡ some db'
    → db'.orders ≡ db.orders
unfolding set_paper_gate
gate-orders status reason db e = ground arith

module _ (platform : Platform) (settings : Settings) where
  pub Step-AllSound : (db db' : Db) → Step platform settings db db' → AllSound db → AllSound db'
  unfolding request_paper_cancel request_paper_replace
  Step-AllSound db db' (Step.set_gate status reason e) h =
      subst (All IsSound) (sym (gate-orders status reason db e)) h
  Step-AllSound db db' (Step.create today lost r seen o e) h =
      create-AllSound platform settings today lost r seen db e h
  Step-AllSound db db' (Step.fill r o new e) h = fill-AllSound r db e h
  Step-AllSound db db' (Step.ask_cancel id o e) h =
      request_change-AllSound cancel_pending id db (λ p s. (pending-IsSound p s).0) e h
  Step-AllSound db db' (Step.confirm_cancel id o e) h = confirm-AllSound id db e h
  Step-AllSound db db' (Step.ask_replace id o e) h =
      request_change-AllSound replace_pending id db (λ p s. (pending-IsSound p s).1) e h
  Step-AllSound db db' (Step.replace id price key o e) h =
      replace-AllSound platform id price key db e h

  -- In every database that the broker's calls lead to from an empty one, each order's filled,
  -- cancelled and remaining quantities add up to the positive requested quantity, and its status
  -- agrees with them: FILLED only in full, CANCELLED and REPLACED with nothing left,
  -- PARTIALLY_FILLED with both parts positive, OPEN unfilled and with something left.
  pub Reach-AllSound : (db : Db) → Reach platform settings empty_db db → AllSound db
  Reach-AllSound db Reach.here = tt
  Reach-AllSound db (Reach.next {mid = mid} r s) = Step-AllSound mid db s (Reach-AllSound mid r)
