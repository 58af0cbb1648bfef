-- ===== src/Paper/Ledger/Keys.antt =====
-- No two orders have one idempotency key and no two fills one source key, whatever calls of
-- backend/app/trading/paper.py succeed, also where a call has read a database that is out of date.
use cresta.Base.{
  ℕ, ◌≡◌, refl, sym, ap, inl, inr, Bool-cases, Option-cases, Bool, false, none, some, List, [], ◌∷◌,
  ◌++◌, String, arith, subst, returns, str_eq, str_eq_iff,
}
use cresta.Decimal.{Decimal}
use cresta.Paper.Rows.{
  OrderRequest, TradingOrder, replaced, Fill, GateStatus, Db, Settings, Platform,
}
use cresta.Paper.Store.{find_order, save_order, find_key, find_fill, find_child}
use cresta.Paper.Store.Totals.{find_order-own, find_child-found}
use cresta.Paper.Create.{set_paper_gate, with_status, insert_order, date_of}
use cresta.Paper.Create.Effects.{create_paper_order-cases, insert_order-Inserted}
use cresta.Paper.Fills.{FillReport, fill_row, is_replaced, apply_paper_fill, absorb, take_fill}
use cresta.Paper.Fills.Effects.{
  book_fill-Booked, apply_paper_fill-cases, orders_after_adjust, filled_row, adjusted,
  apply_paper_fill-new_key,
}
use cresta.Paper.Change.{cancel_rest, request_paper_cancel, request_paper_replace, replace_order}
use cresta.Paper.Change.Effects.{
  Moved, request_change-cases, confirm_paper_cancel-cases, replace_paper_order-cases,
  replace_order-Replaced,
}
use cresta.Paper.Steps.{Step, Reach, empty_db}
use cresta.Paper.Ledger.Accounts.{Accounts}
use cresta.Paper.Ledger.Books.{find-adjust}
use cresta.Paper.Ledger.Steps.{Reach-Accounts}

-- no later row has the key of an earlier one
abbrev pub UniqueKeys : List TradingOrder → Type 0
UniqueKeys [] = Unit
UniqueKeys (o ∷ os) = (find_key o.idempotency_key os ≡ none) × UniqueKeys os

abbrev pub UniqueFills : List Fill → Type 0
UniqueFills [] = Unit
UniqueFills (f ∷ fs) = (find_fill f.broker_fill_key fs ≡ none) × UniqueFills fs

abbrev pub Keys : Db → Type 0
Keys db = UniqueKeys db.orders × UniqueFills db.fills

find_key-save :
    (key : String) (o p : TradingOrder) (os : List TradingOrder)
    → find_order o.id os ≡ some p
    → o.idempotency_key ≡ p.idempotency_key
    → find_key key os ≡ none
    → find_key key (save_order o os) ≡ none
unfolding find_key find_order save_order
find_key-save key o p [] found same h = refl
find_key-save key o p (x ∷ os) found same h = ground (arith, find_key-save key o p os)

UniqueKeys-save :
    (o p : TradingOrder) (os : List TradingOrder)
    → find_order o.id os ≡ some p
    → o.idempotency_key ≡ p.idempotency_key
    → UniqueKeys os
    → UniqueKeys (save_order o os)
unfolding find_order save_order
UniqueKeys-save o p [] found same h = tt
UniqueKeys-save o p (x ∷ os) found same h =
    ground (arith, find_key-save x.idempotency_key o p os, UniqueKeys-save o p os)

find_key-append :
    (key : String) (o : TradingOrder) (os : List TradingOrder)
    → find_key key os ≡ none
    → str_eq o.idempotency_key key ≡ false
    → find_key key (os ++ o ∷ []) ≡ none
unfolding find_key
find_key-append key o [] h ne = rw ne
find_key-append key o (x ∷ os) h ne = ground (arith, find_key-append key o os)

pub UniqueKeys-append :
    (o : TradingOrder) (os : List TradingOrder)
    → find_key o.idempotency_key os ≡ none
    → UniqueKeys os
    → UniqueKeys (os ++ o ∷ [])
unfolding find_key
UniqueKeys-append o [] new h = (refl, tt)
UniqueKeys-append o (x ∷ os) new h = ground (
  arith,
  find_key-append x.idempotency_key o os,
  UniqueKeys-append o os,
  str_eq_iff o.idempotency_key x.idempotency_key,
  str_eq_iff x.idempotency_key o.idempotency_key,
)

find_fill-append :
    (key : String) (f : Fill) (fs : List Fill)
    → find_fill key fs ≡ none
    → str_eq f.broker_fill_key key ≡ false
    → find_fill key (fs ++ f ∷ []) ≡ none
unfolding find_fill
find_fill-append key f [] h ne = rw ne
find_fill-append key f (x ∷ fs) h ne = ground (arith, find_fill-append key f fs)

UniqueFills-append :
    (f : Fill) (fs : List Fill)
    → find_fill f.broker_fill_key fs ≡ none
    → UniqueFills fs
    → UniqueFills (fs ++ f ∷ [])
unfolding find_fill
UniqueFills-append f [] new h = (refl, tt)
UniqueFills-append f (x ∷ fs) new h = ground (
  arith,
  find_fill-append x.broker_fill_key f fs,
  UniqueFills-append f fs,
  str_eq_iff f.broker_fill_key x.broker_fill_key,
  str_eq_iff x.broker_fill_key f.broker_fill_key,
)

Keys-of :
    (db : Db) {os : List TradingOrder} {fs : List Fill}
    → UniqueKeys os
    → UniqueFills fs
    → db.orders ≡ os
    → db.fills ≡ fs
    → Keys db
Keys-of db k f eo ef = rw (eo, ef) (k, f)

UniqueKeys-adjust :
    (id late : ℕ) (db : Db)
    → Accounts db
    → UniqueKeys db.orders
    → UniqueKeys (orders_after_adjust id late db.orders)
unfolding orders_after_adjust absorb
UniqueKeys-adjust id late db b k = elim (Option-cases (find_child id db.orders)) [
  | inl missing ↦ rw (missing, orders_after_adjust) k
  | inr (c, found) ↦
      rw (found, orders_after_adjust)
        (UniqueKeys-save (adjusted late c) c db.orders
          (find_child-found 0 id c db.orders b.ascending found) refl k)
]

Moved-Keys :
    (id : ℕ) (o o' p : TradingOrder) (db db' : Db)
    → Keys db
    → find_order id db.orders ≡ some p
    → o'.id ≡ p.id
    → o'.idempotency_key ≡ p.idempotency_key
    → Moved o o' db db'
    → Keys db'
Moved-Keys id o o' p db db' k found same same_key m =
    Keys-of db'
      (UniqueKeys-save o' p db.orders (rw same (find_order-own id p db.orders found)) same_key k.0)
      k.1 m.orders m.fills

fill-Keys :
    (r : FillReport) (db : Db) {o' : TradingOrder} {new : Bool} {db' : Db}
    → apply_paper_fill r db ≡ returns (o', new, db')
    → Accounts db
    → Keys db
    → Keys db'
unfolding take_fill
fill-Keys r db {o'} {new} {db'} e b k = elim (apply_paper_fill-cases r db e) [
  | inl known ↦ subst Keys (sym known.1) k
  | inr (o, found, checked, booked) ↦
      let (done, isnew) = book_fill-Booked r o db booked in
      let own = find_order-own r.order_id o db.orders found in
      let fresh = apply_paper_fill-new_key r db e isnew in
      let fills = UniqueFills-append (fill_row db.next_id r o) db.fills fresh k.1 in
      elim (Bool-cases (is_replaced o.status)) [
        | inl late ↦
            Keys-of db'
              (UniqueKeys-save (filled_row r.quantity o) o _
                (find-adjust db.orders db.fills db.positions db.next_id r.quantity o b own) refl
                (UniqueKeys-adjust o.id r.quantity db b k.0))
              fills (rw late at done.orders) done.fills
        | inr plain ↦
            Keys-of db' (UniqueKeys-save (filled_row r.quantity o) o db.orders own refl k.0) fills
              (rw plain at done.orders) done.fills
      ]
]

replace_order-Keys :
    (platform : Platform) (id : ℕ) (price : Decimal) (key : String) (p : TradingOrder) (db : Db)
    → Keys db
    → find_key key db.orders ≡ none
    → find_order id db.orders ≡ some p
    → Keys (replace_order platform p price key db).1
replace_order-Keys platform id price key p db k new found =
    let (o, db') = replace_order platform p price key db in
    let r = replace_order-Replaced platform p price key db in
    let own = find_order-own id p db.orders found in
    let p' = with_status replaced (cancel_rest p) in
    Keys-of db'
      (UniqueKeys-append o (save_order p' db.orders)
        (rw r.new_key (find_key-save key p' p db.orders own refl new))
        (UniqueKeys-save p' p db.orders own refl k.0))
      k.1 r.orders r.fills

insert_order-Keys :
    (platform : Platform) (r : OrderRequest) (date : ℕ) (lost : Bool) (db : Db)
    → Keys db
    → find_key r.idempotency_key db.orders ≡ none
    → Keys (insert_order platform r date lost db).1
insert_order-Keys platform r date lost db k new =
    let (o, db') = insert_order platform r date lost db in
    let i = insert_order-Inserted platform r date lost db in
    Keys-of db' (UniqueKeys-append o db.orders (rw i.key new) k.0) k.1 i.orders i.fills

gate-Keys :
    (status : GateStatus) (reason : String) (db : Db) {db' : Db}
    → set_paper_gate status reason db ≡ some db'
    → Keys db
    → Keys db'
unfolding set_paper_gate
gate-Keys status reason db {db'} e k = Keys-of db' k.0 k.1 (ground arith) (ground arith)

module _ (platform : Platform) (settings : Settings) where
  pub Step-Keys : (db db' : Db) → Step platform settings db db' → Accounts db → Keys db → Keys db'
  unfolding request_paper_cancel request_paper_replace
  Step-Keys db db' (Step.set_gate status reason e) b k = gate-Keys status reason db e k
  Step-Keys db db' (Step.create today lost r seen o e) b k =
      elim (create_paper_order-cases platform settings today lost r seen db e) [
        | inl same ↦ subst Keys (sym same) k
        | inr (admitted, new, done) ↦
            subst Keys (sym (ap (λ (x : TradingOrder × Db). x.1) done))
              (insert_order-Keys platform r (date_of r today) lost db k new)
      ]
  Step-Keys db db' (Step.fill r o new e) b k = fill-Keys r db e b k
  Step-Keys db db' (Step.ask_cancel id o e) b k =
      let (p, found, working, moved) = request_change-cases _ id db e in
      Moved-Keys id o _ p db db' k found refl refl moved
  Step-Keys db db' (Step.confirm_cancel id o e) b k =
      let (p, found, how) = confirm_paper_cancel-cases id db e in
      elim how [
        | inl same ↦ subst Keys (sym same.2) k
        | inr (pending, moved) ↦ Moved-Keys id o _ p db db' k found refl refl moved
      ]
  Step-Keys db db' (Step.ask_replace id o e) b k =
      let (p, found, working, moved) = request_change-cases _ id db e in
      Moved-Keys id o _ p db db' k found refl refl moved
  Step-Keys db db' (Step.replace id price key o e) b k =
      elim (replace_paper_order-cases platform id price key db e) [
        | inl same ↦ subst Keys (sym same) k
        | inr (p, new, found, pending, rest, priced, done) ↦
            subst Keys (sym (ap (λ (x : TradingOrder × Db). x.1) done))
              (replace_order-Keys platform id price key p db k new found)
      ]

  -- In every database that the broker's calls lead to from an empty one, no two orders have the
  -- same idempotency key and no two fills the same source key. The calls include those of
  -- `create_paper_order` that looked for the key in another database than the one it wrote.
  pub Reach-Keys : (db : Db) → Reach platform settings empty_db db → Keys db
  Reach-Keys db Reach.here = (tt, tt)
  Reach-Keys db (Reach.next {mid = mid} r s) =
      Step-Keys mid db s (Reach-Accounts platform settings mid r) (Reach-Keys mid r)
