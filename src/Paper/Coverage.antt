-- ===== src/Paper/Coverage.antt =====
-- Sells are covered: what the active sells of backend/app/trading/paper.py still hold back of a
-- position is never more than its shares, as long as no fill comes late.
use cresta.Base.{
  ℕ, ◌+◌, ◌≤◌, ◌≡◌, ◌⊎◌, refl, sym, ◌∙◌, ap, inl, inr, Bool, true, false, ◌&&◌, some, List, [], ◌∷◌,
  ◌++◌, String, arith, subst, returns, str_eq_iff,
}
use mathlib.Core.Option.{some-injective}
use cresta.Paper.Rows.{OrderRequest, TradingOrder, Db, Settings, Platform}
use cresta.Paper.Store.{
  find_order, save_order, reserved_quantity, reservation, is_for, is_sell, is_buy,
  reserves_position,
}
use cresta.Paper.Store.Totals.{total, total-append, total-save_order, find_order-own}
use cresta.Paper.Create.{create_paper_order, insert_order, date_of}
use cresta.Paper.Create.Effects.{Admitted, create_paper_order-cases, insert_order-Inserted}
use cresta.Paper.Fills.{
  FillReport, take_fill, status_after_fill, is_replaced, book_fill, apply_paper_fill,
}
use cresta.Paper.Fills.Effects.{book_fill-Booked, apply_paper_fill-cases, filled_row}
use cresta.Paper.Fills.Positions.{book_fill-shares, shares_at}

pub reserved-eq-total :
    (a s : String) (os : List TradingOrder) → reserved_quantity a s os ≡ total (reservation a s) os
unfolding reserved_quantity total
reserved-eq-total a s [] = refl
reserved-eq-total a s (o ∷ os) = omega (arith, reserved-eq-total a s os)

-- the active sells of an account and symbol hold back no more than the position has
abbrev pub IsCovered : String → String → Db → Type 0
IsCovered a s db = reserved_quantity a s db.orders ≤ shares_at a s db

inserted-IsCovered :
    (platform : Platform) (settings : Settings) (r : OrderRequest) (date : ℕ) (lost : Bool)
    (a s : String) (db : Db)
    → Admitted settings r db
    → IsCovered a s db
    → IsCovered a s (insert_order platform r date lost db).1
inserted-IsCovered platform settings r date lost a s db admitted h =
    let (o, db') = insert_order platform r date lost db in
    let i = insert_order-Inserted platform r date lost db in
    rw
      (
        i.orders,
        i.positions,
        reserved-eq-total a s (db.orders ++ o ∷ []),
        total-append (reservation a s) db.orders o,
      )
      (ground (
        arith,
        reserved-eq-total a s db.orders,
        i.account,
        i.same_symbol,
        i.same_side,
        i.all_remains,
        admitted.covered,
        str_eq_iff r.account_alias a,
        str_eq_iff r.symbol s,
      ))

-- An accepted order keeps every account and symbol covered, its own included, when the checks and
-- the write see one database.
pub create_paper_order-IsCovered :
    (platform : Platform) (settings : Settings) (today : ℕ) (lost : Bool) (r : OrderRequest)
    (a s : String) (db : Db) {o : TradingOrder} {db' : Db}
    → create_paper_order platform settings today lost r db db ≡ returns (o, db')
    → IsCovered a s db
    → IsCovered a s db'
create_paper_order-IsCovered platform settings today lost r a s db e h =
    elim (create_paper_order-cases platform settings today lost r db db e) [
      | inl same ↦ subst (IsCovered a s) (sym same) h
      | inr (admitted, new, done) ↦
          subst (IsCovered a s) (sym (ap (λ (x : TradingOrder × Db). x.1) done))
            (inserted-IsCovered platform settings r (date_of r today) lost a s db admitted h)
    ]

-- what a timely fill takes from a reservation it takes from the position too
filled_reservation :
    (a s : String) (q : ℕ) (o : TradingOrder)
    → reserves_position o.status ≡ true
    → is_for a s o && is_sell o.side ≡ true
    → q ≤ o.remaining_quantity
    → reservation a s (filled_row q o) + q ≤ reservation a s o
unfolding take_fill status_after_fill
filled_reservation a s q o active mine le = ground arith

unfilled_reservation :
    (a s : String) (q : ℕ) (o : TradingOrder)
    → is_for a s o && is_sell o.side ≡ false
    → (reservation a s (filled_row q o) ≡ 0) × (reservation a s o ≡ 0)
unfolding take_fill status_after_fill
unfilled_reservation a s q o other = ground arith

booked-IsCovered :
    (r : FillReport) (a s : String) (o : TradingOrder) (db : Db) {o' : TradingOrder} {new : Bool}
    {db' : Db}
    → find_order o.id db.orders ≡ some o
    → reserves_position o.status ≡ true
    → (is_sell o.side ≡ true) ⊎ (is_buy o.side ≡ true)
    → r.quantity ≤ o.remaining_quantity
    → book_fill r o db ≡ returns (o', new, db')
    → IsCovered a s db
    → IsCovered a s db'
unfolding take_fill
booked-IsCovered r a s o db {o'} {new} {db'} own active known_side le booked h =
    let (done, _) = book_fill-Booked r o db booked in
    let plain : is_replaced o.status ≡ false = ground arith in
    let row = filled_row r.quantity o in
    let orders : db'.orders ≡ save_order row db.orders = rw plain at done.orders in
    rw (orders, reserved-eq-total a s (save_order row db.orders))
      (ground (
        arith,
        reserved-eq-total a s db.orders,
        total-save_order (reservation a s) o row o.id db.orders own refl,
        book_fill-shares a s r o db booked,
        filled_reservation a s r.quantity o active,
        unfilled_reservation a s r.quantity o,
      ))

-- A successful report of a fill of an active order, by no more than remains of it, keeps every
-- account and symbol covered.
pub timely_fill-IsCovered :
    (r : FillReport) (a s : String) (o : TradingOrder) (db : Db) {o' : TradingOrder} {new : Bool}
    {db' : Db}
    → find_order r.order_id db.orders ≡ some o
    → reserves_position o.status ≡ true
    → (is_sell o.side ≡ true) ⊎ (is_buy o.side ≡ true)
    → r.quantity ≤ o.remaining_quantity
    → apply_paper_fill r db ≡ returns (o', new, db')
    → IsCovered a s db
    → IsCovered a s db'
timely_fill-IsCovered r a s o db {o'} {new} {db'} found active known_side le e h =
    elim (apply_paper_fill-cases r db e) [
      | inl known ↦ subst (IsCovered a s) (sym known.1) h
      | inr (p, found', checked, booked) ↦
          let same : p ≡ o = some-injective p o (sym found' ∙ found) in
          booked-IsCovered r a s o db (find_order-own r.order_id o db.orders found) active
            known_side le (subst (λ x. book_fill r x db ≡ returns (o', new, db')) same booked) h
    ]
