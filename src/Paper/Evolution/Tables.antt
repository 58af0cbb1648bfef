-- ===== src/Paper/Evolution/Tables.antt =====
-- The rows of a table over one write, and over a fill (backend/app/trading/paper.py).
use cresta.Base.{
  ℕ, ◌<◌, ◌≡◌, sym, ◌∙◌, ap, inl, inr, Bool-cases, Option-cases, Bool, some, List, [], ◌∷◌, ◌++◌,
  ◌==◌, if◌then◌else◌, arith, subst, returns,
}
use mathlib.Core.Option.{some-injective}
use cresta.Paper.Rows.{TradingOrder, Db}
use cresta.Paper.Store.{find_order, save_order, find_child, is_child_of}
use cresta.Paper.Store.Laws.{OfSome-some, All-find_order}
use cresta.Paper.Store.Totals.{find_child-found, find_child-parent, find-save_other}
use cresta.Paper.Fills.{FillReport, is_replaced, check_fill, book_fill}
use cresta.Paper.Fills.Effects.{adjusted, filled_row, orders_after_adjust, book_fill-Booked}
use cresta.Paper.Orders.Sound.{IsSound}
use cresta.Paper.Orders.Tables.{AllSound, check_fill_bounds}
use cresta.Paper.Ledger.Accounts.{Accounts}
use cresta.Paper.Ledger.Books.{find-adjust}
use cresta.Paper.Evolution.Rows.{
  Cause, unconcerned, own_fill, parent_fill, Evolves, Evolves-refl, filled_row-Evolves,
  adjusted-Evolves,
}

-- The row of an id is still there, and has evolved from what it was.
abbrev pub Survives : Cause → ℕ → TradingOrder → List TradingOrder → Type 0
Survives cause id p os = (o : TradingOrder) × (find_order id os ≡ some o) × Evolves cause p o

-- what a call on one order is to the row of an id
abbrev pub concerning : ℕ → ℕ → Cause → Cause → Cause
concerning own id here there = if own == id then here else there

save_found :
    (o p : TradingOrder) (os : List TradingOrder)
    → find_order p.id os ≡ some p
    → o.id ≡ p.id
    → find_order p.id (save_order o os) ≡ some o
unfolding find_order save_order
save_found o p [] own same = cc
save_found o p (x ∷ os) own same = ground (arith, save_found o p os)

-- A row written back: the row of its own id has evolved, any other is as it was.
pub Survives-save :
    (here there : Cause) (id : ℕ) (o p q : TradingOrder) (os : List TradingOrder)
    → find_order id os ≡ some q
    → find_order p.id os ≡ some p
    → Evolves here p o
    → Survives (concerning p.id id here there) id q (save_order o os)
Survives-save here there id o p q os found own e = elim (Bool-cases (p.id == id)) [
  | inl mine ↦
      let same : p.id ≡ id = ground arith in
      let is_q = some-injective p q (sym own ∙ ap (λ i. find_order i os) same ∙ found) in
      rw mine (
        o,
        ap (λ i. find_order i (save_order o os)) (sym same) ∙ save_found o p os own e.same_id,
        subst (λ x. Evolves here x o) is_q e,
      )
  | inr other ↦ rw other (q, find-save_other id o os (ground arith) ∙ found, Evolves-refl there q)
]

find-append :
    (id : ℕ) (o q : TradingOrder) (os : List TradingOrder)
    → find_order id os ≡ some q
    → find_order id (os ++ o ∷ []) ≡ some q
unfolding find_order
find-append id o q [] found = cc
find-append id o q (x ∷ os) found = ground (arith, find-append id o q os)

pub Survives-append :
    (cause : Cause) (id : ℕ) (o q : TradingOrder) (os : List TradingOrder)
    → Survives cause id q os
    → Survives cause id q (os ++ o ∷ [])
Survives-append cause id o q os (x, found, e) = (x, find-append id o x os found, e)

-- what a fill of an order is to any other row
abbrev pub child_cause : ℕ → TradingOrder → Cause
child_cause original q = if is_child_of original q then parent_fill else unconcerned

-- the row that a late fill adjusts is a child of the order
adjusted-child_cause :
    (id original : ℕ) (c q : TradingOrder) (os : List TradingOrder)
    → find_order id os ≡ some q
    → find_order c.id os ≡ some c
    → c.parent_order_id ≡ some original
    → concerning c.id id parent_fill (child_cause original q) ≡ child_cause original q
adjusted-child_cause id original c q os found own parent = elim (Bool-cases (c.id == id)) [
  | inl mine ↦
      let same : c.id ≡ id = ground arith in
      let is_q = some-injective c q (sym own ∙ ap (λ i. find_order i os) same ∙ found) in
      let parent_of_q = sym (ap (λ (o : TradingOrder). o.parent_order_id) is_q) ∙ parent in
      ground arith
  | inr other ↦ ground arith
]

Survives-adjust :
    (id original late : ℕ) (q : TradingOrder) (db : Db)
    → Accounts db
    → AllSound db
    → 0 < late
    → find_order id db.orders ≡ some q
    → Survives (child_cause original q) id q (orders_after_adjust original late db.orders)
unfolding orders_after_adjust
Survives-adjust id original late q db b s p found =
    elim (Option-cases (find_child original db.orders)) [
      | inl missing ↦
          rw (missing, orders_after_adjust) (q, found, Evolves-refl (child_cause original q) q)
      | inr (c, child) ↦
          let own = find_child-found 0 original c db.orders b.ascending child in
          let sound = OfSome-some IsSound (All-find_order IsSound c.id db.orders s) own in
          rw (child, orders_after_adjust)
            (subst (λ cause. Survives cause id q (save_order (adjusted late c) db.orders))
              (adjusted-child_cause id original c q db.orders found own
                (find_child-parent original c db.orders child))
              (Survives-save parent_fill (child_cause original q) id (adjusted late c) c q db.orders
                found own (adjusted-Evolves late c sound p)))
    ]

-- An order's own row written back over tables that an adjustment has changed, and every other row.
Survives-through :
    (other_cause : Cause) (id : ℕ) (q o row : TradingOrder) (before os : List TradingOrder)
    → find_order id before ≡ some q
    → find_order o.id before ≡ some o
    → find_order o.id os ≡ some o
    → Survives other_cause id q os
    → Evolves own_fill o row
    → Survives (concerning o.id id own_fill other_cause) id q (save_order row os)
Survives-through other_cause id q o row before os found was own (x, there, e) evolves =
    elim (Bool-cases (o.id == id)) [
      | inl mine ↦
          let same : o.id ≡ id = ground arith in
          let is_q = some-injective o q (sym was ∙ ap (λ i. find_order i before) same ∙ found) in
          rw mine (
            row,
            ap (λ i. find_order i (save_order row os)) (sym same)
                ∙ save_found row o os own evolves.same_id,
            subst (λ y. Evolves own_fill y row) is_q evolves,
          )
      | inr other ↦
          let apart = evolves.same_id in
          rw other (x, find-save_other id row os (ground arith) ∙ there, e)
    ]

-- An order's own row after a fill, and every other row.
pub Survives-fill :
    (id : ℕ) (q o : TradingOrder) (r : FillReport) (db : Db) {o' : TradingOrder} {new : Bool}
    {db' : Db}
    → Accounts db
    → AllSound db
    → find_order o.id db.orders ≡ some o
    → check_fill r o db ≡ returns tt
    → book_fill r o db ≡ returns (o', new, db')
    → find_order id db.orders ≡ some q
    → Survives (concerning o.id id own_fill (child_cause o.id q)) id q db'.orders
Survives-fill id q o r db {o'} {new} {db'} b s own checked booked found =
    let (done, _) = book_fill-Booked r o db booked in
    let (p, le) = check_fill_bounds r o db checked in
    let sound = OfSome-some IsSound (All-find_order IsSound o.id db.orders s) own in
    let row = filled_row-Evolves r.quantity o sound p le in
    let survives = Survives (concerning o.id id own_fill (child_cause o.id q)) id q in
    elim (Bool-cases (is_replaced o.status)) [
      | inl late ↦ subst survives (sym (rw late at done.orders)) (
          Survives-through (child_cause o.id q) id q o (filled_row r.quantity o) db.orders _ found
            own (find-adjust db.orders db.fills db.positions db.next_id r.quantity o b own)
            (Survives-adjust id o.id r.quantity q db b s p found) row)
      | inr plain ↦ subst survives (sym (rw plain at done.orders)) (
          Survives-save own_fill (child_cause o.id q) id (filled_row r.quantity o) o q db.orders
            found own row)
    ]
