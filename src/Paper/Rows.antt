-- ===== src/Paper/Rows.antt =====
-- The rows of backend/app/models.py that the Paper Broker reads and writes, and its requests.
-- Row ids are only compared, so they are numbers; a date is its ordinal and a time a timestamp.
use cresta.Base.{ℕ, Bool, Option, List, String}
use cresta.Decimal.{Decimal}

-- any other text is no side of an order
pub data Side : Type 0 where
  buy sell : Side
  other_side : String → Side

pub data OrderType : Type 0 where
  limit market_order : OrderType
  other_type : String → OrderType

-- `ck_orders_status`; `opened` is OPEN
pub data Status : Type 0 where
  created validating submitting acknowledged opened partially_filled filled_up : Status
  cancel_pending cancelled_out replace_pending replaced rejected unknown reconciling : Status

-- `PaperOrderRequest`
pub record OrderRequest : Type 0 where
  pub symbol : String
  pub side : Side
  pub quantity : ℕ
  pub order_type : OrderType
  pub limit_price : Option Decimal
  pub idempotency_key : String
  pub correlation_id : String
  pub market : String
  pub account_alias : String
  pub action : String
  pub trading_date : Option ℕ

-- What a request hash is taken of: the payload of `_request_hash`, or that of a replacement.
-- A price is the quantized one that `_price_text` prints.
pub data Payload : Type 0 where
  order_payload :
      String → String → Option Decimal → String → OrderType → ℕ → Side → String → ℕ → Payload
  replacement_payload : ℕ → Decimal → ℕ → Payload

-- the columns of an order that no operation changes
pub record Terms : Type 0 where
  pub intent_id : ℕ
  pub order_group_id : ℕ
  pub account_alias : String
  pub environment : String
  pub symbol : String
  pub market : String
  pub side : Side
  pub order_type : OrderType
  pub limit_price : Option Decimal
  pub trading_date : ℕ
  pub correlation_id : String

pub record TradingOrder : Type 0 where
  pub id : ℕ
  pub parent_order_id : Option ℕ
  pub terms : Terms
  pub open terms use *
  pub requested_quantity : ℕ
  pub filled_quantity : ℕ
  pub cancelled_quantity : ℕ
  pub remaining_quantity : ℕ
  pub status : Status
  pub idempotency_key : String
  pub request_hash : ℕ
  pub broker_order_id : Option ℕ
  pub replacement_sequence : ℕ
  pub version : ℕ

pub record OrderIntent : Type 0 where
  pub id : ℕ
  pub order_group_id : ℕ
  pub account_alias : String
  pub environment : String
  pub symbol : String
  pub market : String
  pub side : Side
  pub action : String
  pub requested_quantity : ℕ
  pub correlation_id : String

-- Prices and costs are in ten-thousandths, as the columns `Numeric(18, 4)` hold them.
pub record Fill : Type 0 where
  pub id : ℕ
  pub order_id : ℕ
  pub broker_fill_key : String
  pub quantity : ℕ
  pub price : ℕ
  pub fee : ℕ
  pub tax : ℕ
  pub filled_at : ℕ

pub data PositionState : Type 0 where
  open_position closed_position : PositionState

pub data Origin : Type 0 where
  cresta_managed external mixed : Origin

pub record Position : Type 0 where
  pub id : ℕ
  pub account_alias : String
  pub symbol : String
  pub quantity : ℕ
  pub available_quantity : ℕ
  pub managed_quantity : ℕ
  pub average_price : ℕ
  pub managed_average_price : ℕ
  pub state : PositionState
  pub origin : Origin
  pub version : ℕ

-- an `OrderEvent`: its type with the payload of that type
pub data EventKind : Type 0 where
  order_created : EventKind
  replacement_created : ℕ → EventKind
  status_changed : Status → Status → EventKind
  fill_applied : ℕ → ℕ → ℕ → EventKind
  parent_late_fill_adjusted : ℕ → ℕ → ℕ → EventKind

pub record OrderEvent : Type 0 where
  pub order_id : ℕ
  pub kind : EventKind

pub record PositionEvent : Type 0 where
  pub position_id : ℕ
  pub fill_id : ℕ
  pub before : Position
  pub after : Position

pub data GateStatus : Type 0 where
  starting gate_reconciling ready degraded halted : GateStatus
  other_status : String → GateStatus

pub record TradingGate : Type 0 where
  pub account_alias : String
  pub environment : String
  pub status : GateStatus
  pub reason : String
  pub version : ℕ

-- The tables, each in the order of insertion; events newest first. `next_id` is what `uuid7`
-- returns next.
pub record Db : Type 0 where
  pub orders : List TradingOrder
  pub intents : List OrderIntent
  pub fills : List Fill
  pub positions : List Position
  pub gates : List TradingGate
  pub order_events : List OrderEvent
  pub position_events : List PositionEvent
  pub next_id : ℕ

pub record Settings : Type 0 where
  pub environment : String
  pub live_trading_enabled : Bool

-- What is not the repository's: SHA-256 of a canonical payload, and the character table behind
-- `str.isdigit`.
pub record Platform : Type 0 where
  pub digest : Payload → ℕ
  pub is_digit : ℕ → Bool

-- the code_points that are raised, and a constraint of the database that a flush breaks
pub data PaperError : Type 0 where
  paper_environment_required paper_account_required unsupported_in_mock : PaperError
  invalid_order_side invalid_order_type invalid_order_quantity invalid_symbol : PaperError
  invalid_idempotency_key invalid_limit_price market_price_not_allowed : PaperError
  trading_gate_closed symbol_reconciliation_required insufficient_position : PaperError
  idempotency_conflict fill_source_conflict order_not_found invalid_fill : PaperError
  invalid_fill_cost fill_quantity_exceeded invalid_order_transition : PaperError
  order_already_filled integrity_error : PaperError
