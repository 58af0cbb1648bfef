-- ===== src/Orders/Creation.antt =====
-- One order for each key: what `create_order` of backend/app/order_creation.py does to the tables.
use cresta.Base.{
  ℕ, ◌<◌, ◌≡◌, ◌⊎◌, inl, inr, refl, sym, ap, ◌∙◌, subst, none, some, List, [], ◌∷◌, ◌++◌, String,
  returns, All, arith,
}
use cresta.Paper.Rows.{TradingOrder}
use cresta.Paper.Store.{find_key, log_event}
use cresta.Paper.Store.Laws.{All-append}
use cresta.Paper.Orders.Sound.{IsSound}
use cresta.Paper.Ledger.Keys.{UniqueKeys, UniqueKeys-append}
use cresta.Paper.Replays.{find_key-append_self}
use cresta.Orders.{CreationRequest, Book, validate_order, new_order, add_order, reuse, create_order}

-- What a successful creation did: it returned a row with the key and the hash that was there, and
-- left all tables alone, or it added the new row.
pub create_order-cases :
    (user : ℕ) (r : CreationRequest) (audit_action : String) (today : ℕ) (seen : List TradingOrder)
    (b after : Book) (o : TradingOrder)
    → create_order user r audit_action today seen b ≡ returns (o, after)
    → ((after ≡ b)
        × (o.request_hash ≡ r.fingerprint)
        × ((find_key r.idempotency_key seen ≡ some o)
            ⊎ (find_key r.idempotency_key b.db.orders ≡ some o)))
      ⊎ ((find_key r.idempotency_key b.db.orders ≡ none)
          × ((o, after) ≡ add_order user r audit_action today b))
unfolding create_order reuse
create_order-cases user r audit_action today seen b after o e = ground arith

validated :
    (user : ℕ) (r : CreationRequest) (audit_action : String) (today : ℕ) (seen : List TradingOrder)
    (b after : Book) (o : TradingOrder)
    → create_order user r audit_action today seen b ≡ returns (o, after)
    → (validate_order r ≡ returns tt) × (0 < r.quantity)
unfolding create_order validate_order
validated user r audit_action today seen b after o e = ground arith

new_order-IsSound :
    (id : ℕ) (r : CreationRequest) (today : ℕ) → 0 < r.quantity → IsSound (new_order id r today)
new_order-IsSound id r today h = ground arith

add_order-Adds :
    (user : ℕ) (r : CreationRequest) (audit_action : String) (today : ℕ) (b : Book)
    → (add_order user r audit_action today b).1.db.orders
      ≡ b.db.orders ++ (add_order user r audit_action today b).0 ∷ []
unfolding add_order log_event
add_order-Adds user r audit_action today b = refl

-- What a table of orders needs for a creation: sound rows with keys of their own.
abbrev pub AreKept : List TradingOrder → Type 0
AreKept orders = All IsSound orders × UniqueKeys orders

add_order-AreKept :
    (user : ℕ) (r : CreationRequest) (audit_action : String) (today : ℕ) (b : Book)
    → 0 < r.quantity
    → find_key r.idempotency_key b.db.orders ≡ none
    → AreKept b.db.orders
    → AreKept (add_order user r audit_action today b).1.db.orders
      × (find_key r.idempotency_key (add_order user r audit_action today b).1.db.orders
          ≡ some (add_order user r audit_action today b).0)
unfolding add_order log_event
add_order-AreKept user r audit_action today b p free (sound, unique) =
    let o = new_order b.db.next_id r today in
    (
      (
        All-append IsSound _ _ sound (new_order-IsSound b.db.next_id r today p),
        UniqueKeys-append o b.db.orders free unique,
      ),
      find_key-append_self r.idempotency_key o b.db.orders free refl,
    )

add_order-hash :
    (user : ℕ) (r : CreationRequest) (audit_action : String) (today : ℕ) (b : Book)
    → (add_order user r audit_action today b).0.request_hash ≡ r.fingerprint
unfolding add_order
add_order-hash user r audit_action today b = refl

-- A successful creation, also where another session has inserted the key meanwhile, keeps all
-- orders sound and their keys distinct, returns an order with the hash of the request, and that
-- order is the one that the table holds under the key, or the one that was read under it.
pub create_order-AreKept :
    (user : ℕ) (r : CreationRequest) (audit_action : String) (today : ℕ) (seen : List TradingOrder)
    (b after : Book) (o : TradingOrder)
    → create_order user r audit_action today seen b ≡ returns (o, after)
    → AreKept b.db.orders
    → AreKept after.db.orders
      × (o.request_hash ≡ r.fingerprint)
      × ((find_key r.idempotency_key after.db.orders ≡ some o)
          ⊎ (find_key r.idempotency_key seen ≡ some o))
create_order-AreKept user r audit_action today seen b after o e kept =
    elim (create_order-cases user r audit_action today seen b after o e) [
      | inl (same, hash, inl read) ↦
          (subst (λ (x : Book). AreKept x.db.orders) (sym same) kept, hash, inr read)
      | inl (same, hash, inr held) ↦ (
        subst (λ (x : Book). AreKept x.db.orders) (sym same) kept,
        hash,
        inl (ap (λ (x : Book). find_key r.idempotency_key x.db.orders) same ∙ held),
      )
      | inr (free, added) ↦
          let positive = (validated user r audit_action today seen b after o e).1 in
          let (new_kept, found) =
            add_order-AreKept user r audit_action today b positive free kept in
          subst
            (λ (x : TradingOrder × Book).
              AreKept x.1.db.orders
              × (x.0.request_hash ≡ r.fingerprint)
              × ((find_key r.idempotency_key x.1.db.orders ≡ some x.0)
                  ⊎ (find_key r.idempotency_key seen ≡ some x.0)))
            (sym added) (new_kept, add_order-hash user r audit_action today b, inl found)
    ]

add_order-found :
    (user : ℕ) (r : CreationRequest) (audit_action : String) (today : ℕ) (b : Book)
    → find_key r.idempotency_key b.db.orders ≡ none
    → find_key r.idempotency_key (add_order user r audit_action today b).1.db.orders
      ≡ some (add_order user r audit_action today b).0
unfolding add_order log_event
add_order-found user r audit_action today b free =
    find_key-append_self r.idempotency_key (new_order b.db.next_id r today) b.db.orders free refl

-- the row that a creation with the present tables leaves under the key
pub created_found :
    (user : ℕ) (r : CreationRequest) (audit_action : String) (today : ℕ) (b after : Book)
    (o : TradingOrder)
    → create_order user r audit_action today b.db.orders b ≡ returns (o, after)
    → (find_key r.idempotency_key after.db.orders ≡ some o) × (o.request_hash ≡ r.fingerprint)
created_found user r audit_action today b after o e =
    elim (create_order-cases user r audit_action today b.db.orders b after o e) [
      | inl (same, hash, inl read) ↦
          (ap (λ (x : Book). find_key r.idempotency_key x.db.orders) same ∙ read, hash)
      | inl (same, hash, inr held) ↦
          (ap (λ (x : Book). find_key r.idempotency_key x.db.orders) same ∙ held, hash)
      | inr (free, added) ↦
          subst
            (λ (x : TradingOrder × Book).
              (find_key r.idempotency_key x.1.db.orders ≡ some x.0)
              × (x.0.request_hash ≡ r.fingerprint))
            (sym added)
            (
              add_order-found user r audit_action today b free,
              add_order-hash user r audit_action today b,
            )
    ]

create_found :
    (user : ℕ) (r : CreationRequest) (audit_action : String) (today : ℕ) (b : Book)
    (o : TradingOrder)
    → validate_order r ≡ returns tt
    → find_key r.idempotency_key b.db.orders ≡ some o
    → o.request_hash ≡ r.fingerprint
    → create_order user r audit_action today b.db.orders b ≡ returns (o, b)
unfolding create_order reuse
create_found user r audit_action today b o valid found hash = ground arith

-- A creation that succeeded and is requested again, by any user and on any day, with the tables
-- that it left, returns the same order and changes nothing.
pub create_order-again :
    (user user' : ℕ) (r : CreationRequest) (audit_action audit_action' : String) (today today' : ℕ)
    (b after : Book) (o : TradingOrder)
    → create_order user r audit_action today b.db.orders b ≡ returns (o, after)
    → create_order user' r audit_action' today' after.db.orders after ≡ returns (o, after)
create_order-again user user' r audit_action audit_action' today today' b after o e =
    let (valid, positive) = validated user r audit_action today b.db.orders b after o e in
    let (found, hash) = created_found user r audit_action today b after o e in
    create_found user' r audit_action' today' after o valid found hash

-- what a creation does to the orders
pub create_order-orders :
    (user : ℕ) (r : CreationRequest) (audit_action : String) (today : ℕ) (b after : Book)
    (o : TradingOrder)
    → create_order user r audit_action today b.db.orders b ≡ returns (o, after)
    → (after.db.orders ≡ b.db.orders)
      ⊎ ((o ≡ new_order b.db.next_id r today) × (after.db.orders ≡ b.db.orders ++ o ∷ []))
unfolding add_order log_event
create_order-orders user r audit_action today b after o e =
    elim (create_order-cases user r audit_action today b.db.orders b after o e) [
      | inl (same, _, _) ↦ inl (ap (λ (x : Book). x.db.orders) same)
      | inr (free, added) ↦ inr (
        ap (λ (x : TradingOrder × Book). x.0) added,
        ap (λ (x : TradingOrder × Book). x.1.db.orders) added
            ∙ ap (λ x. b.db.orders ++ x ∷ []) (sym (ap (λ (x : TradingOrder × Book). x.0) added)),
      )
    ]
