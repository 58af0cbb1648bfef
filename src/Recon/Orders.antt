-- ===== src/Recon/Orders.antt =====
-- The projection of the reported orders and fills into the ledger: `_import_open_order`,
-- `_apply_open_order` and the loops of `apply_broker_account_projection` in
-- backend/app/account_projection.py. Events and the times of next actions are left out.
use cresta.Base.{
  ℕ, zero, suc, ◌+◌, ◌-◌, Bool, true, false, ◌&&◌, Option, none, some, List, [], ◌∷◌, ◌++◌, String,
  Result, returns, raises, ltb, leb, ◌==◌, str_eq, if◌then◌else◌,
}
use cresta.Decimal.{Decimal}
use cresta.Paper.Rows.{
  Side, buy, sell, other_side, OrderType, limit, market_order, other_type, Status, created,
  validating, submitting, acknowledged, replace_pending, replaced, rejected, unknown, opened,
  partially_filled, filled_up, cancelled_out, cancel_pending, reconciling, TradingOrder,
  OrderIntent, Fill,
}
use cresta.Paper.Store.{save_order}
use cresta.Guard.Sell.{account}
use cresta.Guard.Buy.{at_most}

-- `BrokerOpenOrder`
pub record OpenOrder : Type 0 where
  pub broker_id : ℕ
  pub symbol : String
  pub market : String
  pub side : Side
  pub requested_quantity : ℕ
  pub filled_quantity : ℕ
  pub remaining_quantity : ℕ
  pub limit_price : Option Decimal

-- `BrokerFillSummary` with the number of its `_fill_identity` and what `_broker_time` makes of it;
-- `none` where that raises
pub record BrokerFill : Type 0 where
  pub of_broker_id : ℕ
  pub quantity : ℕ
  pub price : ℕ
  pub fee : ℕ
  pub tax : ℕ
  pub identity : ℕ
  pub broker_time : Option ℕ

-- The texts and digests that new rows bear, and the day of the report in Seoul.
pub record Imprint : Type 0 where
  pub id_text : ℕ → String
  pub order_digest : OpenOrder → ℕ
  pub fill_key : ℕ → ℕ → String
  pub today : ℕ
  pub correlation : String

-- the rows and counters that are written
pub record Facts : Type 0 where
  pub orders : List TradingOrder
  pub intents : List OrderIntent
  pub fills : List Fill
  pub next_id : ℕ
  pub imported_orders : ℕ
  pub updated_orders : ℕ
  pub imported_fills : ℕ

pub data AccountProjectionError : Type 0 where
  invalid_open_order_quantities invalid_order_time : AccountProjectionError

abbrev pub bears : ℕ → Option ℕ → Bool
bears id none = false
bears id (some n) = n == id

-- `_orders_by_broker_id(db).get(broker_id)`
abbrev pub is_broker_order : ℕ → TradingOrder → Bool
is_broker_order id o =
    str_eq o.account_alias account && (str_eq o.environment "MOCK" && bears id o.broker_order_id)

unfoldable pub find_broker : ℕ → List TradingOrder → Option TradingOrder
find_broker id [] = none
find_broker id (o ∷ os) = if is_broker_order id o then some o else find_broker id os

-- a negative cancelled quantity counts as invalid
abbrev pub is_valid_open : OpenOrder → Bool
is_valid_open b =
    ltb 0 b.requested_quantity
    && leb (b.filled_quantity + b.remaining_quantity) b.requested_quantity

abbrev pub cancelled_of : OpenOrder → ℕ
cancelled_of b = b.requested_quantity - b.filled_quantity - b.remaining_quantity

abbrev pub open_status : ℕ → Status
open_status zero = opened
open_status (suc n) = partially_filled

abbrev pub type_of : Option Decimal → OrderType
type_of none = market_order
type_of (some p) = limit

abbrev pub imported_intent : Imprint → OpenOrder → ℕ → OrderIntent
imported_intent k b id = record {
  id = id;
  order_group_id = suc id;
  account_alias = account;
  environment = "MOCK";
  symbol = b.symbol;
  market = b.market;
  side = b.side;
  action = "BROKER_IMPORTED";
  requested_quantity = b.requested_quantity;
  correlation_id = k.correlation;
}

abbrev pub imported_order : Imprint → OpenOrder → ℕ → TradingOrder
imported_order k b id = record {
  id = suc (suc id);
  parent_order_id = none;
  terms = record {
    intent_id = id;
    order_group_id = suc id;
    account_alias = account;
    environment = "MOCK";
    symbol = b.symbol;
    market = b.market;
    side = b.side;
    order_type = type_of b.limit_price;
    limit_price = b.limit_price;
    trading_date = k.today;
    correlation_id = k.correlation;
  };
  requested_quantity = b.requested_quantity;
  filled_quantity = b.filled_quantity;
  cancelled_quantity = cancelled_of b;
  remaining_quantity = b.remaining_quantity;
  status = open_status b.filled_quantity;
  idempotency_key = k.id_text b.broker_id;
  request_hash = k.order_digest b;
  broker_order_id = some b.broker_id;
  replacement_sequence = 0;
  version = 1;
}

-- `_import_open_order`
unfoldable pub import_open_order : Imprint → OpenOrder → Facts → Facts
import_open_order k b s = record s {
  intents = s.intents ++ imported_intent k b s.next_id ∷ [];
  orders = s.orders ++ imported_order k b s.next_id ∷ [];
  next_id = suc (suc (suc s.next_id));
  imported_orders = suc s.imported_orders;
}

-- the row as it is reported
unfoldable pub applied : OpenOrder → TradingOrder → TradingOrder
applied b o = record o {
  terms = record o.terms {
    symbol = b.symbol;
    market = b.market;
    side = b.side;
    order_type = type_of b.limit_price;
    limit_price = b.limit_price;
  };
  requested_quantity = b.requested_quantity;
  filled_quantity = b.filled_quantity;
  cancelled_quantity = cancelled_of b;
  remaining_quantity = b.remaining_quantity;
  status = open_status b.filled_quantity;
}

abbrev pub same_side : Side → Side → Bool
same_side buy buy = true
same_side sell sell = true
same_side (other_side s) (other_side t) = str_eq s t
same_side _ _ = false

abbrev pub same_type : OrderType → OrderType → Bool
same_type limit limit = true
same_type market_order market_order = true
same_type (other_type s) (other_type t) = str_eq s t
same_type _ _ = false

abbrev pub same_price : Option Decimal → Option Decimal → Bool
same_price none none = true
same_price (some p) (some q) = at_most p q && at_most q p
same_price _ _ = false

-- the place of a status in `ck_orders_status`
abbrev pub status_number : Status → ℕ
status_number created = 0
status_number validating = 1
status_number submitting = 2
status_number acknowledged = 3
status_number opened = 4
status_number partially_filled = 5
status_number filled_up = 6
status_number cancel_pending = 7
status_number cancelled_out = 8
status_number replace_pending = 9
status_number replaced = 10
status_number rejected = 11
status_number unknown = 12
status_number reconciling = 13

-- whether `_order_state` is the same
unfoldable pub same_order_state : TradingOrder → TradingOrder → Bool
same_order_state o p =
    (str_eq o.symbol p.symbol
      && (str_eq o.market p.market
          && (same_side o.side p.side && same_type o.order_type p.order_type)))
    && ((same_price o.limit_price p.limit_price
          && (o.requested_quantity == p.requested_quantity
              && o.filled_quantity == p.filled_quantity))
        && (o.cancelled_quantity == p.cancelled_quantity
            && (o.remaining_quantity == p.remaining_quantity
                && status_number o.status == status_number p.status)))

-- the row `p` in place of `o`, with a version more if its state has changed
abbrev pub revised : Bool → TradingOrder → TradingOrder
revised true p = p
revised false p = record p { version = suc p.version }

abbrev pub replace_row : TradingOrder → TradingOrder → Facts → Facts
replace_row o p s =
    let same = same_order_state o p in
    record s {
      orders = save_order (revised same p) s.orders;
      updated_orders = if same then s.updated_orders else suc s.updated_orders;
    }

-- one step of the first loop of `apply_broker_account_projection`, with `_apply_open_order`
unfoldable pub project_open : Imprint → OpenOrder → Option TradingOrder → Facts → Facts
unfolding import_open_order applied
project_open k b none s = import_open_order k b s
project_open k b (some o) s = replace_row o (applied b o) s

unfoldable pub project_open_orders :
    Imprint → List OpenOrder → Facts → Result AccountProjectionError Facts
unfolding project_open
project_open_orders k [] s = returns s
project_open_orders k (b ∷ bs) s =
    let rest = project_open_orders k bs (project_open k b (find_broker b.broker_id s.orders) s) in
    if is_valid_open b then rest else raises invalid_open_order_quantities
