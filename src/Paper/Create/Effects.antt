-- ===== src/Paper/Create/Effects.antt =====
-- A successful `create_paper_order` taken apart, and what its guards have checked.
use cresta.Base.{
  ℕ, suc, ◌≤◌, ◌<◌, ◌≡◌, ◌⊎◌, Bool, true, false, none, [], ◌∷◌, ◌++◌, arith, if◌then◌else◌, str_eq,
  returns,
}
use cresta.Paper.Rows.{unknown, opened, OrderRequest, TradingOrder, Db, Settings, Platform}
use cresta.Paper.Store.{
  find_gate, find_key, find_position, has_locked, reserved_quantity, log_event, fresh_id, is_sell,
}
use cresta.Paper.Create.{
  set_status, validate_request, gate_is_ready, lacks_shares, submit, insert_order,
  create_paper_order, is_mock, date_of, request_hash,
}

-- What a request that passes the guards satisfies.
pub record Admitted (settings : Settings) (r : OrderRequest) (seen : Db) : Type 0 where
  pub mock_only : (is_mock settings ≡ true) × (settings.live_trading_enabled ≡ false)
  pub paper_account : str_eq r.account_alias "PAPER" ≡ true
  pub positive : 0 < r.quantity
  pub gate_ready : gate_is_ready (find_gate r.account_alias seen.gates) ≡ true
  pub unlocked : has_locked r.account_alias r.symbol seen.orders ≡ false
  pub covered :
      is_sell r.side ≡ true
      → lacks_shares
          (find_position r.account_alias r.symbol seen.positions)
          (reserved_quantity r.account_alias r.symbol seen.orders)
          r.quantity
        ≡ false

pub validate_request-Admitted :
    (platform : Platform) (settings : Settings) (r : OrderRequest) (seen : Db) {u : Unit {0}}
    → validate_request platform settings r seen ≡ returns u
    → Admitted settings r seen
unfolding validate_request
validate_request-Admitted platform settings r seen e = ground arith

pub create_paper_order-cases :
    (platform : Platform) (settings : Settings) (today : ℕ) (lost : Bool) (r : OrderRequest)
    (seen db : Db) {o : TradingOrder} {db' : Db}
    → create_paper_order platform settings today lost r seen db ≡ returns (o, db')
    → (db' ≡ db)
      ⊎ (Admitted settings r seen
          × (find_key r.idempotency_key db.orders ≡ none)
          × ((o, db') ≡ insert_order platform r (date_of r today) lost db))
unfolding create_paper_order
create_paper_order-cases platform settings today lost r seen db e =
    ground (arith, validate_request-Admitted platform settings r seen {u = tt})

-- What `_submit` does to the row and the tables.
pub record Submitted (lost : Bool) (o o' : TradingOrder) (db db' : Db) : Type 0 where
  pub same_id : o'.id ≡ o.id
  pub same_parent : o'.parent_order_id ≡ o.parent_order_id
  pub same_terms : o'.terms ≡ o.terms
  pub same_key : o'.idempotency_key ≡ o.idempotency_key
  pub same_hash : o'.request_hash ≡ o.request_hash
  pub same_requested : o'.requested_quantity ≡ o.requested_quantity
  pub same_filled : o'.filled_quantity ≡ o.filled_quantity
  pub same_remaining : o'.remaining_quantity ≡ o.remaining_quantity
  pub outcome : o'.status ≡ (if lost then unknown else opened)
  pub same_orders : db'.orders ≡ db.orders
  pub same_fills : db'.fills ≡ db.fills
  pub same_positions : db'.positions ≡ db.positions
  pub more_ids : db.next_id ≤ db'.next_id

pub submit-Submitted :
    (lost : Bool) (o : TradingOrder) (db : Db)
    → Submitted lost o (submit lost o db).0 db (submit lost o db).1
unfolding submit set_status log_event fresh_id
submit-Submitted true o db = ground arith
submit-Submitted false o db = ground arith

-- What `create_paper_order` adds for a new key.
pub record Inserted (platform : Platform) (r : OrderRequest) (date : ℕ) (lost : Bool)
    (o : TradingOrder) (db db' : Db) : Type 0 where
  pub id_taken : o.id ≡ suc (suc db.next_id)
  pub no_parent : o.parent_order_id ≡ none
  pub account : o.account_alias ≡ r.account_alias
  pub same_symbol : o.symbol ≡ r.symbol
  pub same_side : o.side ≡ r.side
  pub key : o.idempotency_key ≡ r.idempotency_key
  pub hash : o.request_hash ≡ request_hash platform r date
  pub requested : o.requested_quantity ≡ r.quantity
  pub unfilled : o.filled_quantity ≡ 0
  pub all_remains : o.remaining_quantity ≡ r.quantity
  pub outcome : o.status ≡ (if lost then unknown else opened)
  pub orders : db'.orders ≡ db.orders ++ o ∷ []
  pub fills : db'.fills ≡ db.fills
  pub positions : db'.positions ≡ db.positions
  pub ids : suc (suc (suc db.next_id)) ≤ db'.next_id

pub insert_order-Inserted :
    (platform : Platform) (r : OrderRequest) (date : ℕ) (lost : Bool) (db : Db)
    → Inserted platform r date lost
        (insert_order platform r date lost db).0
        db
        (insert_order platform r date lost db).1
unfolding insert_order submit set_status log_event fresh_id
insert_order-Inserted platform r date true db = ground arith
insert_order-Inserted platform r date false db = ground arith
