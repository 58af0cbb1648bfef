-- ===== src/Paper/Create.antt =====
-- Creating an order: `_set_status`, `set_paper_gate`, `_validate_request`, `_submit` and
-- `create_paper_order` of backend/app/trading/paper.py.
pub mod Effects
use Prim.Native.Char.{code}
use Prim.Native.String.{String}
use cresta.Base.{
  ℕ, suc, ◌+◌, ◌-◌, Bool, true, false, not, ◌&&◌, ◌||◌, Option, none, some, List, [], ◌∷◌, ◌++◌,
  map, leb, ltb, ◌==◌, if◌then◌else◌, str_eq, length, all, Result, returns, raises, ◌>>◌, raise_if,
}
use cresta.Decimal.{Decimal, is_positive, quantize}
use cresta.Paper.Rows.{
  Side, other_side, OrderType, limit, market_order, other_type, Status, created, validating,
  submitting, acknowledged, opened, unknown, OrderRequest, Payload, order_payload, TradingOrder,
  OrderIntent, Position, GateStatus, ready, other_status, TradingGate, Db, status_changed,
  order_created, Settings, Platform, PaperError, paper_environment_required, paper_account_required,
  unsupported_in_mock, invalid_order_side, invalid_order_type, invalid_order_quantity,
  invalid_symbol, invalid_idempotency_key, invalid_limit_price, market_price_not_allowed,
  trading_gate_closed, symbol_reconciliation_required, insufficient_position, idempotency_conflict,
}
use cresta.Paper.Store.{
  is_sell, find_key, find_position, find_gate, save_gate, has_locked, reserved_quantity, log_event,
  fresh_id,
}

-- the code points of a text
abbrev pub code_points : String → List ℕ
code_points String.[] = []
code_points (String.◌∷◌ first rest) = code first ∷ code_points rest

-- `str.upper` on the letters of ASCII: no other character becomes a letter of "MOCK"
unfoldable pub upper : ℕ → ℕ
upper c = if leb b'a' c && leb c b'z' then c - 32 else c

unfoldable pub same_points : List ℕ → List ℕ → Bool
same_points [] [] = true
same_points (a ∷ xs) (b ∷ ys) = a == b && same_points xs ys
same_points _ _ = false

-- `settings.environment.upper() == "MOCK"`
unfoldable pub is_mock : Settings → Bool
unfolding upper same_points
is_mock s = same_points (map upper (code_points s.environment)) (code_points "MOCK")

-- the payload of `_request_hash`, and its hash
unfoldable pub request_payload : OrderRequest → ℕ → Payload
request_payload r trading_date =
    order_payload r.account_alias r.action
      (elim r.limit_price [ none ↦ none | some p ↦ some (quantize p) ]) r.market r.order_type
      r.quantity r.side r.symbol trading_date

unfoldable pub request_hash : Platform → OrderRequest → ℕ → ℕ
unfolding request_payload
request_hash platform r trading_date = platform.digest (request_payload r trading_date)

abbrev pub with_status : Status → TradingOrder → TradingOrder
with_status s o = record o { status = s; version = suc o.version }

-- `_set_status`
unfoldable pub set_status : Status → TradingOrder → Db → TradingOrder × Db
set_status status o db = (with_status status o, log_event o.id (status_changed o.status status) db)

-- `set_paper_gate`; `none` is the `ValueError` of an unsupported status
unfoldable pub set_paper_gate : GateStatus → String → Db → Option Db
set_paper_gate (other_status s) reason db = none
set_paper_gate status reason db = some (elim (find_gate "PAPER" db.gates) [
  | none ↦ record db {
    gates =
        db.gates
        ++ record {
          account_alias = "PAPER";
          environment = "MOCK";
          status = status;
          reason = reason;
          version = 1;
        }
          ∷ [];
  }
  | some g ↦ record db {
    gates =
        save_gate (record g { status = status; reason = reason; version = suc g.version }) db.gates;
  }
])

abbrev pub is_known_side : Side → Bool
is_known_side (other_side s) = false
is_known_side _ = true

abbrev pub is_known_type : OrderType → Bool
is_known_type (other_type s) = false
is_known_type _ = true

-- a limit order without a positive price
abbrev pub lacks_price : OrderType → Option Decimal → Bool
lacks_price limit none = true
lacks_price limit (some p) = not (is_positive p)
lacks_price _ _ = false

-- a market order that names a price
abbrev pub has_extra_price : OrderType → Option Decimal → Bool
has_extra_price market_order (some p) = true
has_extra_price _ _ = false

-- `symbol.isdigit() and len(symbol) == 6`
unfoldable pub is_symbol : Platform → String → Bool
is_symbol platform symbol =
    all platform.is_digit (code_points symbol) && length (code_points symbol) == 6

unfoldable pub is_ready : GateStatus → Bool
is_ready ready = true
is_ready _ = false

abbrev pub gate_is_ready : Option TradingGate → Bool
gate_is_ready none = false
gate_is_ready (some g) = is_ready g.status

-- `position is None or position.quantity - reserved < quantity`; the difference may be negative
abbrev pub lacks_shares : Option Position → ℕ → ℕ → Bool
lacks_shares none reserved quantity = true
lacks_shares (some p) reserved quantity = ltb p.quantity (quantity + reserved)

-- `_validate_request`
unfoldable pub validate_request :
    Platform → Settings → OrderRequest → Db → Result PaperError (Unit {0})
validate_request platform settings r db = do
  raise_if (not (is_mock settings) || settings.live_trading_enabled) paper_environment_required
  raise_if (not (str_eq r.account_alias "PAPER")) paper_account_required
  raise_if (not (str_eq r.market "KRX")) unsupported_in_mock
  raise_if (not (is_known_side r.side)) invalid_order_side
  raise_if (not (is_known_type r.order_type)) invalid_order_type
  raise_if (r.quantity == 0) invalid_order_quantity
  raise_if (not (is_symbol platform r.symbol)) invalid_symbol
  raise_if
      (length (code_points r.idempotency_key) == 0
        || ltb 128 (length (code_points r.idempotency_key)))
      invalid_idempotency_key
  raise_if (lacks_price r.order_type r.limit_price) invalid_limit_price
  raise_if (has_extra_price r.order_type r.limit_price) market_price_not_allowed
  raise_if (not (gate_is_ready (find_gate r.account_alias db.gates))) trading_gate_closed
  raise_if (has_locked r.account_alias r.symbol db.orders) symbol_reconciliation_required
  raise_if
      (is_sell r.side
        && lacks_shares (find_position r.account_alias r.symbol db.positions)
            (reserved_quantity r.account_alias r.symbol db.orders) r.quantity)
      insufficient_position

-- `_submit`
unfoldable pub submit : Bool → TradingOrder → Db → TradingOrder × Db
submit response_lost o0 db0 =
    let (o1, db1) = set_status validating o0 db0 in
    let (o2, db2) = set_status submitting o1 db1 in
    let (broker_id, db3) = fresh_id db2 in
    let (o3, db4) = set_status acknowledged (record o2 { broker_order_id = some broker_id }) db3 in
    if response_lost then set_status unknown o2 db2 else set_status opened o3 db4

-- The rows of a new order, from the first of the three ids that they take.
abbrev pub intent_row : ℕ → OrderRequest → OrderIntent
intent_row id r = record {
  id = id;
  order_group_id = suc id;
  account_alias = r.account_alias;
  environment = "MOCK";
  symbol = r.symbol;
  market = r.market;
  side = r.side;
  action = r.action;
  requested_quantity = r.quantity;
  correlation_id = r.correlation_id;
}

abbrev pub order_row : ℕ → OrderRequest → ℕ → ℕ → TradingOrder
order_row id r trading_date fingerprint = record {
  id = suc (suc id);
  parent_order_id = none;
  terms = record {
    intent_id = id;
    order_group_id = suc id;
    account_alias = r.account_alias;
    environment = "MOCK";
    symbol = r.symbol;
    market = r.market;
    side = r.side;
    order_type = r.order_type;
    limit_price = r.limit_price;
    trading_date = trading_date;
    correlation_id = r.correlation_id;
  };
  requested_quantity = r.quantity;
  filled_quantity = 0;
  cancelled_quantity = 0;
  remaining_quantity = r.quantity;
  status = created;
  idempotency_key = r.idempotency_key;
  request_hash = fingerprint;
  broker_order_id = none;
  replacement_sequence = 0;
  version = 1;
}

-- The rows that `create_paper_order` adds, once no other row has the key.
unfoldable pub insert_order : Platform → OrderRequest → ℕ → Bool → Db → TradingOrder × Db
insert_order platform r trading_date response_lost db0 =
    let id = db0.next_id in
    let row = order_row id r trading_date (request_hash platform r trading_date) in
    let db1 = record db0 { next_id = suc (suc (suc id)) } in
    let (o, db2) = submit response_lost row (log_event row.id order_created db1) in
    (o, record db2 { orders = db2.orders ++ o ∷ []; intents = db2.intents ++ intent_row id r ∷ [] })

abbrev pub date_of : OrderRequest → ℕ → ℕ
date_of r today = elim r.trading_date [ none ↦ today | some d ↦ d ]

-- A row that holds the key already: the same request returns it, another one conflicts.
unfoldable pub replay : TradingOrder → ℕ → Db → Result PaperError (TradingOrder × Db)
replay existing fingerprint db =
    if existing.request_hash == fingerprint
    then returns (existing, db)
    else raises idempotency_conflict

-- `create_paper_order`. It reads from `seen`; the flush meets `db`, in which another session may
-- have taken the key (`IntegrityError`) or changed the rows that the checks had read.
unfoldable pub create_paper_order :
    Platform → Settings → ℕ → Bool → OrderRequest → Db → Db → Result PaperError (TradingOrder × Db)
unfolding replay
create_paper_order platform settings today response_lost r seen db =
    let trading_date = date_of r today in
    let fingerprint = request_hash platform r trading_date in
    elim (find_key r.idempotency_key seen.orders) [
      | some existing ↦ replay existing fingerprint db
      | none ↦ do
        validate_request platform settings r seen
        elim (find_key r.idempotency_key db.orders) [
          | some raced ↦ replay raced fingerprint db
          | none ↦ returns (insert_order platform r trading_date response_lost db)
        ]
    ]
