-- ===== src/Recon/Positions.antt =====
-- The projection of the reported positions into the table, `_project_positions` of
-- backend/app/account_projection.py.
use cresta.Base.{
  ℕ, zero, suc, ◌+◌, Bool, true, false, not, ◌&&◌, Option, none, some, List, [], ◌∷◌, ◌++◌, String,
  Result, returns, raises, ◌>>=◌, ◌==◌, str_eq, if◌then◌else◌, any,
}
use cresta.Paper.Rows.{
  Position, PositionState, open_position, closed_position, Origin, cresta_managed, external, mixed,
  OrderIntent, TradingOrder, Fill,
}
use cresta.Paper.Store.{find_position, save_position}
use cresta.Guard.Sell.{account, is_open}
use cresta.Recon.{
  BrokerPosition, Average, Holding, equals_price, replay_managed_position, managed_projection,
  position_origin,
}

-- a `PositionEvent` of a reconciliation; a position that is new has no state before
pub record ProjectionEvent : Type 0 where
  pub before : Option Position
  pub after : Position

-- The positions with what a projection adds besides: events, the newest first, the next id and
-- the counters.
pub record Projection : Type 0 where
  pub positions : List Position
  pub events : List ProjectionEvent
  pub next_id : ℕ
  pub imported_positions : ℕ
  pub updated_positions : ℕ
  pub closed_positions : ℕ

-- two open positions of an account and a symbol break `uq_positions_account_symbol`
pub data ProjectionError : Type 0 where
  duplicate_position : ProjectionError

-- the ledger that the managed quantities are replayed from, and what the column
-- `managed_average_price` keeps of an average
pub record Ledger : Type 0 where
  pub intents : List OrderIntent
  pub orders : List TradingOrder
  pub fills : List Fill
  pub keep_price : Average → ℕ

abbrev pub state_of : ℕ → PositionState
state_of zero = closed_position
state_of (suc n) = open_position

abbrev pub same_state : PositionState → PositionState → Bool
same_state open_position open_position = true
same_state closed_position closed_position = true
same_state _ _ = false

abbrev pub same_origin : Origin → Origin → Bool
same_origin cresta_managed cresta_managed = true
same_origin external external = true
same_origin mixed mixed = true
same_origin _ _ = false

abbrev pub origin_of : ℕ → ℕ → Origin → Origin
origin_of quantity managed old = if quantity == 0 then old else position_origin quantity managed

-- the row with what the broker reports, its version left
unfoldable pub projected : Ledger → BrokerPosition → Holding → Position → Position
projected l b h p = record p {
  quantity = b.quantity;
  available_quantity = b.available_quantity;
  average_price = b.average_price;
  managed_quantity = h.held;
  managed_average_price = l.keep_price h.average;
  state = state_of b.quantity;
  origin = origin_of b.quantity h.held p.origin;
}

-- whether `_position_comparison_state` is what it was; the new average is not rounded yet
unfoldable pub is_unchanged : BrokerPosition → Holding → Position → Bool
is_unchanged b h p =
    p.quantity == b.quantity
    && (p.available_quantity == b.available_quantity
        && (p.average_price == b.average_price
            && (p.managed_quantity == h.held
                && (equals_price h.average p.managed_average_price
                    && (same_state p.state (state_of b.quantity)
                        && same_origin p.origin (origin_of b.quantity h.held p.origin))))))

abbrev pub reported_position : Ledger → BrokerPosition → Holding → ℕ → Position
reported_position l b h id = record {
  id = id;
  account_alias = account;
  symbol = b.symbol;
  quantity = b.quantity;
  available_quantity = b.available_quantity;
  managed_quantity = h.held;
  average_price = b.average_price;
  managed_average_price = l.keep_price h.average;
  state = state_of b.quantity;
  origin = position_origin b.quantity h.held;
  version = 1;
}

unfoldable pub holding_of : Ledger → BrokerPosition → Option Position → Holding
holding_of l b position =
    managed_projection position b.quantity
      (replay_managed_position l.intents l.orders l.fills b.symbol)

-- a position that the table did not have
unfoldable pub import_position : Ledger → BrokerPosition → Projection → Projection
unfolding holding_of
import_position l b s =
    let p = reported_position l b (holding_of l b none) s.next_id in
    record s {
      positions = s.positions ++ p ∷ [];
      events = (record { before = none; after = p }) ∷ s.events;
      next_id = suc s.next_id;
      imported_positions = suc s.imported_positions;
    }

abbrev pub versioned : Bool → Position → Position
versioned true q = q
versioned false q = record q { version = suc q.version }

-- the row that is written back, with a version more if anything has changed
unfoldable pub updated_position : Ledger → BrokerPosition → Position → Position
unfolding holding_of projected is_unchanged
updated_position l b p =
    let h = holding_of l b (some p) in versioned (is_unchanged b h p) (projected l b h p)

unfoldable pub update_position : Ledger → BrokerPosition → Position → Projection → Projection
unfolding updated_position
update_position l b p s =
    let q = updated_position l b p in
    let written = record s { positions = save_position q s.positions } in
    if is_unchanged b (holding_of l b (some p)) p then written else record written {
      events = (record { before = some p; after = q }) ∷ s.events;
      updated_positions = suc s.updated_positions;
    }

-- A reported position, by the row that `internal` has of it and the one in the table.
unfoldable pub project_found :
    Ledger
    → BrokerPosition
    → Option Position
    → Option Position
    → Projection
    → Result ProjectionError Projection
unfolding import_position update_position
project_found l b internal none s = returns (import_position l b s)
project_found l b none (some p) s = raises duplicate_position
project_found l b (some old) (some p) s = returns (update_position l b p s)

-- the first loop of `_project_positions`, with the positions that there were before it
unfoldable pub project_reported :
    Ledger → List Position → List BrokerPosition → Projection → Result ProjectionError Projection
unfolding project_found
project_reported l internal [] s = returns s
project_reported l internal (b ∷ bs) s =
    project_found l b (find_position account b.symbol internal)
      (find_position account b.symbol s.positions) s
    >>= λ t. project_reported l internal bs t

abbrev pub is_reported : List BrokerPosition → String → Bool
is_reported reported symbol = any (λ (b : BrokerPosition). str_eq b.symbol symbol) reported

-- an open position of the account that is not reported
abbrev pub is_gone : List BrokerPosition → Position → Bool
is_gone reported p =
    str_eq p.account_alias account && (is_open p.state && not (is_reported reported p.symbol))

abbrev pub closed_row : Position → Position
closed_row p = record p {
  quantity = 0;
  available_quantity = 0;
  average_price = 0;
  managed_quantity = 0;
  managed_average_price = 0;
  state = closed_position;
  version = suc p.version;
}

-- the second loop of `_project_positions`: the rows, the events and the counter
unfoldable pub close_gone :
    List BrokerPosition → List Position → List Position × List ProjectionEvent × ℕ
close_gone reported [] = ([], [], 0)
close_gone reported (p ∷ ps) =
    let (rows, events, n) = close_gone reported ps in
    if is_gone reported p
    then (closed_row p ∷ rows, (record { before = some p; after = closed_row p }) ∷ events, suc n)
    else (p ∷ rows, events, n)

unfoldable pub close_positions : List BrokerPosition → Projection → Projection
unfolding close_gone
close_positions reported s =
    let (rows, events, n) = close_gone reported s.positions in
    record s {
      positions = rows;
      events = events ++ s.events;
      closed_positions = s.closed_positions + n;
    }

-- `_project_positions`
unfoldable pub project_positions :
    Ledger → List BrokerPosition → Projection → Result ProjectionError Projection
unfolding project_reported close_positions
project_positions l reported s =
    project_reported l s.positions reported s >>= λ t. returns (close_positions reported t)
