-- ===== src/Paper/Ledger/Steps.antt =====
-- The books after every call of backend/app/trading/paper.py.
use cresta.Base.{
  ℕ, ◌≡◌, refl, sym, ap, inl, inr, Bool-cases, Bool, some, List, String, arith, subst, returns,
}
use cresta.Decimal.{Decimal}
use cresta.Paper.Rows.{
  OrderRequest, TradingOrder, Status, replaced, cancelled_out, Fill, Position, GateStatus, Db,
  Settings, Platform,
}
use cresta.Paper.Store.{find_order, find_position}
use cresta.Paper.Store.Laws.{OfSome-some, All-find_order}
use cresta.Paper.Store.Totals.{find_order-own, total}
use cresta.Paper.Create.{set_paper_gate, with_status, insert_order, date_of}
use cresta.Paper.Create.Effects.{create_paper_order-cases, insert_order-Inserted}
use cresta.Paper.Fills.{FillReport, fill_row, is_replaced, apply_paper_fill}
use cresta.Paper.Fills.Effects.{book_fill-Booked, apply_paper_fill-cases}
use cresta.Paper.Fills.Positions.{book_fill-shares}
use cresta.Paper.Change.{
  cancel_rest, request_change, request_paper_cancel, request_paper_replace, confirm_paper_cancel,
  replace_order,
}
use cresta.Paper.Change.Effects.{
  Moved, request_change-cases, confirm_paper_cancel-cases, replace_paper_order-cases,
  replace_order-Replaced,
}
use cresta.Paper.Steps.{Step, Reach, empty_db}
use cresta.Paper.Ledger.Accounts.{IsAccounted, Books, Accounts}
use cresta.Paper.Ledger.Books.{
  SameBooks, Books-save, Books-append, Books-adjust, find-adjust, Books-fill,
}

-- The books are those of the tables that a call leaves.
Books-of :
    (db : Db) {os : List TradingOrder} {fs : List Fill} {ps : List Position} {n : ℕ}
    → Books os fs ps n
    → db.orders ≡ os
    → db.fills ≡ fs
    → db.positions ≡ ps
    → db.next_id ≡ n
    → Accounts db
Books-of db b eo ef ep en = rw (eo, ef, ep, en) b

Moved-Accounts :
    (id : ℕ) (o o' p : TradingOrder) (db db' : Db)
    → Accounts db
    → find_order id db.orders ≡ some p
    → SameBooks o' p
    → Moved o o' db db'
    → Accounts db'
Moved-Accounts id o o' p db db' b found s m =
    Books-of db'
      (Books-save db.orders db.fills db.positions db.next_id o' p b
        (find_order-own id p db.orders found) s)
      m.orders m.fills m.positions m.ids

fill-Accounts :
    (r : FillReport) (db : Db) {o' : TradingOrder} {new : Bool} {db' : Db}
    → apply_paper_fill r db ≡ returns (o', new, db')
    → Accounts db
    → Accounts db'
fill-Accounts r db {o'} {new} {db'} e b = elim (apply_paper_fill-cases r db e) [
  | inl known ↦ subst Accounts (sym known.1) b
  | inr (o, found, checked, booked) ↦
      let (done, _) = book_fill-Booked r o db booked in
      let own = find_order-own r.order_id o db.orders found in
      let f = fill_row db.next_id r o in
      let moved = λ (a s : String). book_fill-shares a s r o db booked in
      elim (Bool-cases (is_replaced o.status)) [
        | inl late ↦
            Books-of db'
              (Books-fill _ db.fills db.positions db'.positions db.next_id db'.next_id r.quantity o
                f (Books-adjust db.orders db.fills db.positions db.next_id o.id r.quantity b)
                (find-adjust db.orders db.fills db.positions db.next_id r.quantity o b own) refl
                refl (omega (arith, done.ids)) moved)
              (rw late at done.orders) done.fills refl refl
        | inr plain ↦
            Books-of db'
              (Books-fill db.orders db.fills db.positions db'.positions db.next_id db'.next_id
                r.quantity o f b own refl refl (omega (arith, done.ids)) moved)
              (rw plain at done.orders) done.fills refl refl
      ]
]

request_change-Accounts :
    (pending : Status) (id : ℕ) (db : Db) {o : TradingOrder} {db' : Db}
    → request_change pending id db ≡ returns (o, db')
    → Accounts db
    → Accounts db'
request_change-Accounts pending id db {o} {db'} e b =
    let (p, found, working, moved) = request_change-cases pending id db e in
    Moved-Accounts id o (with_status pending p) p db db' b found (ground arith) moved

confirm-Accounts :
    (id : ℕ) (db : Db) {o : TradingOrder} {db' : Db}
    → confirm_paper_cancel id db ≡ returns (o, db')
    → Accounts db
    → Accounts db'
confirm-Accounts id db {o} {db'} e b =
    let (p, found, how) = confirm_paper_cancel-cases id db e in
    elim how [
      | inl same ↦ subst Accounts (sym same.2) b
      | inr (pending, moved) ↦
          Moved-Accounts id o (with_status cancelled_out (cancel_rest p)) p db db' b found
            (ground arith) moved
    ]

replace_order-Accounts :
    (platform : Platform) (id : ℕ) (price : Decimal) (key : String) (p : TradingOrder) (db : Db)
    → Accounts db
    → find_order id db.orders ≡ some p
    → Accounts (replace_order platform p price key db).1
replace_order-Accounts platform id price key p db b found =
    let (o, db') = replace_order platform p price key db in
    let r = replace_order-Replaced platform p price key db in
    let own = find_order-own id p db.orders found in
    let acc =
      OfSome-some (IsAccounted db.fills db.next_id)
        (All-find_order (IsAccounted db.fills db.next_id) id db.orders b.rows) found in
    let kept =
      Books-save db.orders db.fills db.positions db.next_id (with_status replaced (cancel_rest p)) p
        b own (ground arith) in
    Books-of db'
      (Books-append _ db.fills db.positions db.next_id db'.next_id o kept
        (omega (arith, r.id_taken)) (omega (arith, r.id_taken, r.ids)) r.unfilled
        (λ q e. ground (arith, r.parent, r.id_taken, acc.known)))
      r.orders r.fills r.positions refl

insert_order-Accounts :
    (platform : Platform) (r : OrderRequest) (date : ℕ) (lost : Bool) (db : Db)
    → Accounts db
    → Accounts (insert_order platform r date lost db).1
insert_order-Accounts platform r date lost db b =
    let (o, db') = insert_order platform r date lost db in
    let i = insert_order-Inserted platform r date lost db in
    Books-of db'
      (Books-append db.orders db.fills db.positions db.next_id db'.next_id o b
        (omega (arith, i.id_taken)) (omega (arith, i.id_taken, i.ids)) i.unfilled
        (λ q e. ground (arith, i.no_parent)))
      i.orders i.fills i.positions refl

gate-Accounts :
    (status : GateStatus) (reason : String) (db : Db) {db' : Db}
    → set_paper_gate status reason db ≡ some db'
    → Accounts db
    → Accounts db'
unfolding set_paper_gate
gate-Accounts status reason db {db'} e b =
    Books-of db' b (ground arith) (ground arith) (ground arith) (ground arith)

module _ (platform : Platform) (settings : Settings) where
  pub Step-Accounts : (db db' : Db) → Step platform settings db db' → Accounts db → Accounts db'
  unfolding request_paper_cancel request_paper_replace
  Step-Accounts db db' (Step.set_gate status reason e) b = gate-Accounts status reason db e b
  Step-Accounts db db' (Step.create today lost r seen o e) b =
      elim (create_paper_order-cases platform settings today lost r seen db e) [
        | inl same ↦ subst Accounts (sym same) b
        | inr (admitted, new, done) ↦
            subst Accounts (sym (ap (λ (x : TradingOrder × Db). x.1) done))
              (insert_order-Accounts platform r (date_of r today) lost db b)
      ]
  Step-Accounts db db' (Step.fill r o new e) b = fill-Accounts r db e b
  Step-Accounts db db' (Step.ask_cancel id o e) b = request_change-Accounts _ id db e b
  Step-Accounts db db' (Step.confirm_cancel id o e) b = confirm-Accounts id db e b
  Step-Accounts db db' (Step.ask_replace id o e) b = request_change-Accounts _ id db e b
  Step-Accounts db db' (Step.replace id price key o e) b =
      elim (replace_paper_order-cases platform id price key db e) [
        | inl same ↦ subst Accounts (sym same) b
        | inr (p, new, found, pending, rest, priced, done) ↦
            subst Accounts (sym (ap (λ (x : TradingOrder × Db). x.1) done))
              (replace_order-Accounts platform id price key p db b found)
      ]

  empty_books : Accounts empty_db
  unfolding total find_position
  empty_books = record { ascending = tt; rows = tt; fills_known = tt; positions = λ a s. refl }

  -- In every database that the broker's calls lead to from an empty one, order ids ascend, each
  -- order's filled quantity is the sum of its fills and its parent is an older order, each fill
  -- belongs to an id given out, and for every account and symbol the shares of the position and
  -- the filled sells add up to the filled buys.
  pub Reach-Accounts : (db : Db) → Reach platform settings empty_db db → Accounts db
  Reach-Accounts db Reach.here = empty_books
  Reach-Accounts db (Reach.next {mid = mid} r s) = Step-Accounts mid db s (Reach-Accounts mid r)
