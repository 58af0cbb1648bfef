-- ===== src/Paper/Replays.antt =====
-- Repeated calls of backend/app/trading/paper.py: a retried request and a fill that is reported
-- again change nothing.
use cresta.Base.{
  ℕ, ◌≡◌, ◌≢◌, refl, sym, ◌∙◌, inl, inr, Bool-cases, Bool, true, false, none, some, List, [], ◌∷◌,
  ◌++◌, String, arith, returns, raises, str_eq_refl,
}
use cresta.Decimal.{equals_quantized}
use cresta.Paper.Rows.{
  OrderRequest, TradingOrder, Fill, Db, Settings, Platform, idempotency_conflict,
}
use cresta.Paper.Store.{find_order, save_order, find_key, find_fill}
use cresta.Paper.Store.Totals.{find_order-own, find_order-id}
use cresta.Paper.Create.{create_paper_order, insert_order, request_hash, request_payload, date_of}
use cresta.Paper.Create.Effects.{insert_order-Inserted}
use cresta.Paper.Fills.{
  FillReport, fill_row, is_replaced, apply_paper_fill, check_fill, contradicts, take_fill,
}
use cresta.Paper.Fills.Effects.{
  book_fill-Booked, apply_paper_fill-cases, orders_after_fill, filled_row, apply_paper_fill-new_key,
}
use cresta.Paper.Ledger.Accounts.{Accounts}
use cresta.Paper.Ledger.Books.{find-adjust}

pub find_key-append_self :
    (key : String) (o : TradingOrder) (os : List TradingOrder)
    → find_key key os ≡ none
    → o.idempotency_key ≡ key
    → find_key key (os ++ o ∷ []) ≡ some o
unfolding find_key
find_key-append_self key o [] new e = rw (e, str_eq_refl key)
find_key-append_self key o (x ∷ os) new e = ground (arith, find_key-append_self key o os)

inserted_found :
    (platform : Platform) (r : OrderRequest) (date : ℕ) (lost : Bool) (db : Db)
    → find_key r.idempotency_key db.orders ≡ none
    → let (o, db') = insert_order platform r date lost db in
      (find_key r.idempotency_key db'.orders ≡ some o)
      × (o.request_hash ≡ request_hash platform r date)
inserted_found platform r date lost db new =
    let (o, db') = insert_order platform r date lost db in
    let i = insert_order-Inserted platform r date lost db in
    (rw i.orders (find_key-append_self r.idempotency_key o db.orders new i.key), i.hash)

-- After a call that succeeded the key finds the order that it returned, with the request's hash.
created_found :
    (platform : Platform) (settings : Settings) (today : ℕ) (lost : Bool) (r : OrderRequest)
    (db : Db) {o : TradingOrder} {db' : Db}
    → create_paper_order platform settings today lost r db db ≡ returns (o, db')
    → (find_key r.idempotency_key db'.orders ≡ some o)
      × (o.request_hash ≡ request_hash platform r (date_of r today))
unfolding create_paper_order
created_found platform settings today lost r db {o} {db'} e =
    ground (arith, inserted_found platform r (date_of r today) lost db)

-- A request that succeeded and is made again on the same day, whatever the gate, the settings and
-- the response then are, returns the same order and leaves the database as it is.
pub create_paper_order-again :
    (platform : Platform) (settings settings' : Settings) (today : ℕ) (lost lost' : Bool)
    (r : OrderRequest) (db : Db) {o : TradingOrder} {db' : Db}
    → create_paper_order platform settings today lost r db db ≡ returns (o, db')
    → create_paper_order platform settings' today lost' r db' db' ≡ returns (o, db')
unfolding create_paper_order
create_paper_order-again platform settings settings' today lost lost' r db {o} {db'} e =
    ground (arith, created_found platform settings today lost r db {o = o} {db' = db'})

taken_key :
    (platform : Platform) (settings : Settings) (today : ℕ) (lost : Bool) (r : OrderRequest)
    (seen db : Db) (o : TradingOrder)
    → find_key r.idempotency_key seen.orders ≡ some o
    → o.request_hash ≢ request_hash platform r (date_of r today)
    → create_paper_order platform settings today lost r seen db ≡ raises idempotency_conflict
unfolding create_paper_order
taken_key platform settings today lost r seen db o found differ = ground arith

-- A request that takes the key of one that succeeded and differs from it in its payload is refused
-- as a conflict, whatever else holds, if SHA-256 does not collide on the two payloads.
pub create_paper_order-conflict :
    (platform : Platform) (settings settings' : Settings) (today today' : ℕ) (lost lost' : Bool)
    (r r' : OrderRequest) (db : Db) {o : TradingOrder} {db' : Db}
    → (platform.digest (request_payload r' (date_of r' today'))
          ≡ platform.digest (request_payload r (date_of r today))
        → request_payload r' (date_of r' today') ≡ request_payload r (date_of r today))
    → create_paper_order platform settings today lost r db db ≡ returns (o, db')
    → r'.idempotency_key ≡ r.idempotency_key
    → request_payload r' (date_of r' today') ≢ request_payload r (date_of r today)
    → create_paper_order platform settings' today' lost' r' db' db' ≡ raises idempotency_conflict
unfolding request_hash
create_paper_order-conflict platform settings settings' today today' lost lost' r r' db {o} {db'}
      no_collision e same differ =
    let (found, hash) = created_found platform settings today lost r db e in
    taken_key platform settings' today' lost' r' db' db' o (rw same found)
      (λ h. differ (no_collision (sym h ∙ hash)))

find_fill-append_self :
    (key : String) (f : Fill) (fs : List Fill)
    → find_fill key fs ≡ none
    → f.broker_fill_key ≡ key
    → find_fill key (fs ++ f ∷ []) ≡ some f
unfolding find_fill
find_fill-append_self key f [] new e = rw (e, str_eq_refl key)
find_fill-append_self key f (x ∷ fs) new e = ground (arith, find_fill-append_self key f fs)

find_order-save_self :
    (id : ℕ) (o p : TradingOrder) (os : List TradingOrder)
    → find_order id os ≡ some p
    → o.id ≡ id
    → find_order id (save_order o os) ≡ some o
unfolding find_order save_order
find_order-save_self id o p [] e same = cc
find_order-save_self id o p (x ∷ os) e same = ground (arith, find_order-save_self id o p os)

-- The row of a fill that passed the guards agrees with the report.
fill_row_agrees :
    (r : FillReport) (o : TradingOrder) (db : Db) (id : ℕ)
    → check_fill r o db ≡ returns tt
    → o.id ≡ r.order_id
    → contradicts (fill_row id r o) r ≡ false
unfolding check_fill equals_quantized
fill_row_agrees r o db id checked same = ground arith

-- The row that a fill writes is the one that is found afterwards.
stored_row :
    (r : FillReport) (o : TradingOrder) (db : Db)
    → Accounts db
    → find_order o.id db.orders ≡ some o
    → find_order o.id (orders_after_fill r.quantity o db.orders) ≡ some (filled_row r.quantity o)
unfolding take_fill
stored_row r o db b own = elim (Bool-cases (is_replaced o.status)) [
  | inl late ↦ rw late (
      find_order-save_self o.id (filled_row r.quantity o) o _
        (find-adjust db.orders db.fills db.positions db.next_id r.quantity o b own) refl)
  | inr plain ↦ rw plain (find_order-save_self o.id (filled_row r.quantity o) o db.orders own refl)
]

known_fill :
    (r : FillReport) (db : Db) (f : Fill) (o : TradingOrder)
    → find_fill r.source_key db.fills ≡ some f
    → contradicts f r ≡ false
    → find_order f.order_id db.orders ≡ some o
    → apply_paper_fill r db ≡ returns (o, false, db)
unfolding apply_paper_fill
known_fill r db f o found agrees stored = ground arith

-- A fill that is reported again, in the books that its first report left, is known: the same order
-- comes back and the database stays as it is.
pub apply_paper_fill-again :
    (r : FillReport) (db : Db) {o' : TradingOrder} {db' : Db}
    → Accounts db
    → apply_paper_fill r db ≡ returns (o', true, db')
    → apply_paper_fill r db' ≡ returns (o', false, db')
apply_paper_fill-again r db {o'} {db'} b e = elim (apply_paper_fill-cases r db e) [
  | inl known ↦ cc (known.0)
  | inr (o, found, checked, booked) ↦
      let (done, _) = book_fill-Booked r o db booked in
      let id = find_order-id r.order_id o db.orders found in
      let own = find_order-own r.order_id o db.orders found in
      known_fill r db' (fill_row db.next_id r o) o'
        (rw done.fills (
          find_fill-append_self r.source_key (fill_row db.next_id r o) db.fills
            (apply_paper_fill-new_key r db e refl) refl))
        (fill_row_agrees r o db db.next_id checked id)
        (rw (done.orders, done.row) (stored_row r o db b own))
]
