-- ===== src/Orders.antt =====
-- The shared creation of orders: backend/app/order_creation.py, on the tables of `Paper.Rows`. The
-- account is the one alias that the code uses.
pub mod Creation
mod Examples
use cresta.Base.{
  ℕ, suc, ◌≡◌, Bool, true, false, not, ◌&&◌, ◌||◌, Option, none, some, List, [], ◌∷◌, ◌++◌, String,
  Result, returns, raises, ◌>>◌, raise_if, str_eq, ◌==◌, if◌then◌else◌,
}
use cresta.Decimal.{Decimal}
use cresta.Paper.Rows.{
  Side, buy, sell, other_side, OrderType, limit, market_order, other_type, created, TradingOrder,
  OrderIntent, Db, order_created,
}
use cresta.Paper.Store.{find_key, log_event}
use cresta.Guard.Sell.{account}
use cresta.Guard.Rules.{Code}

pub data OrderError : Type 0 where
  order_quantity_invalid order_side_invalid order_market_invalid : OrderError
  limit_price_required market_price_not_allowed idempotency_conflict : OrderError

-- what a `result_code` or the result of an `AuditLog` says
pub data Outcome : Type 0 where
  by_guard : Code → Outcome
  by_order : OrderError → Outcome
  by_text : String → Outcome

-- `OrderRequest`, with the hash of its payload
pub record CreationRequest : Type 0 where
  pub symbol : String
  pub market : String
  pub side : Side
  pub action : String
  pub order_type : OrderType
  pub limit_price : Option Decimal
  pub quantity : ℕ
  pub idempotency_key : String
  pub fingerprint : ℕ
  pub correlation_id : String

-- the columns of an order that say what becomes of an unfilled rest
pub record UnfilledPolicy : Type 0 where
  pub order_id : ℕ
  pub cancels : Bool
  pub fill_timeout_seconds : ℕ
  pub max_reprice_attempts : ℕ

-- the actor, the action, the target and the result of an `AuditLog`
pub record Audit : Type 0 where
  pub actor : Option ℕ
  pub audit_action : String
  pub target : ℕ
  pub result : Outcome

-- The tables that the creation of an order writes, newest rows of the log first.
pub record Book : Type 0 where
  pub db : Db
  pub policies : List UnfilledPolicy
  pub audits : List Audit

abbrev pub is_side : Side → Bool
is_side (other_side s) = false
is_side _ = true

abbrev pub misses_price : OrderType → Option Decimal → Bool
misses_price limit none = true
misses_price _ _ = false

abbrev pub has_market_price : OrderType → Option Decimal → Bool
has_market_price market_order (some p) = true
has_market_price _ _ = false

-- `_validate`
unfoldable pub validate_order : CreationRequest → Result OrderError (Unit {0})
validate_order r = do
  raise_if (r.quantity == 0) order_quantity_invalid
  raise_if (not (is_side r.side)) order_side_invalid
  raise_if (not (str_eq r.market "KRX" || str_eq r.market "NXT")) order_market_invalid
  raise_if (misses_price r.order_type r.limit_price) limit_price_required
  raise_if (has_market_price r.order_type r.limit_price) market_price_not_allowed

abbrev pub is_entry : Side → String → Bool
is_entry buy action = str_eq action "BUY"
is_entry _ action = false

-- `_unfilled_policy`
unfoldable pub unfilled_policy : ℕ → CreationRequest → UnfilledPolicy
unfilled_policy id r =
    if is_entry r.side r.action
    then record {
      order_id = id;
      cancels = true;
      fill_timeout_seconds = 10;
      max_reprice_attempts = 0;
    }
    else record {
      order_id = id;
      cancels = false;
      fill_timeout_seconds = 0;
      max_reprice_attempts = 0;
    }

-- the rows of a new order, from the first of the three ids that they take
abbrev pub new_intent : ℕ → CreationRequest → OrderIntent
new_intent id r = record {
  id = id;
  order_group_id = suc id;
  account_alias = account;
  environment = "MOCK";
  symbol = r.symbol;
  market = r.market;
  side = r.side;
  action = r.action;
  requested_quantity = r.quantity;
  correlation_id = r.correlation_id;
}

abbrev pub new_order : ℕ → CreationRequest → ℕ → TradingOrder
new_order id r trading_date = record {
  id = suc (suc id);
  parent_order_id = none;
  terms = record {
    intent_id = id;
    order_group_id = suc id;
    account_alias = account;
    environment = "MOCK";
    symbol = r.symbol;
    market = r.market;
    side = r.side;
    order_type = r.order_type;
    limit_price = r.limit_price;
    trading_date = trading_date;
    correlation_id = r.correlation_id;
  };
  requested_quantity = r.quantity;
  filled_quantity = 0;
  cancelled_quantity = 0;
  remaining_quantity = r.quantity;
  status = created;
  idempotency_key = r.idempotency_key;
  request_hash = r.fingerprint;
  broker_order_id = none;
  replacement_sequence = 0;
  version = 1;
}

-- the rows that `create_order` adds, once no other row has the key
unfoldable pub add_order : ℕ → CreationRequest → String → ℕ → Book → TradingOrder × Book
unfolding unfilled_policy
add_order user r audit_action today b =
    let id = b.db.next_id in
    let o = new_order id r today in
    (
      o,
      record {
        db = log_event o.id order_created (record b.db {
          next_id = suc (suc (suc id));
          intents = b.db.intents ++ new_intent id r ∷ [];
          orders = b.db.orders ++ o ∷ [];
        });
        policies = unfilled_policy o.id r ∷ b.policies;
        audits =
            (record {
              actor = some user;
              audit_action = audit_action;
              target = o.id;
              result = by_text "PASSED";
            })
            ∷ b.audits;
      },
    )

-- a row that has the key already
unfoldable pub reuse :
    TradingOrder → CreationRequest → Book → Result OrderError (TradingOrder × Book)
reuse existing r b =
    if existing.request_hash == r.fingerprint
    then returns (existing, b)
    else raises idempotency_conflict

-- `create_order`. It reads the orders `seen`; the flush meets `b`, in which another session may
-- have taken the key (`IntegrityError`).
unfoldable pub create_order :
    ℕ
    → CreationRequest
    → String
    → ℕ
    → List TradingOrder
    → Book
    → Result OrderError (TradingOrder × Book)
unfolding reuse
create_order user r audit_action today seen b = do
  validate_order r
  elim (find_key r.idempotency_key seen) [
    | some existing ↦ reuse existing r b
    | none ↦ elim (find_key r.idempotency_key b.db.orders) [
      | some raced ↦ reuse raced r b
      | none ↦ returns (add_order user r audit_action today b)
    ]
  ]
