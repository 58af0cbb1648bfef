-- ===== src/Paper/Store.antt =====
-- The queries of backend/app/trading/paper.py as functions on the tables.
pub mod Laws
pub mod Totals
use cresta.Base.{
  ℕ, suc, ◌+◌, Bool, true, false, ◌&&◌, Option, none, some, List, [], ◌∷◌, String, ltb, ◌==◌,
  if◌then◌else◌, str_eq,
}
use cresta.Paper.Rows.{
  Side, buy, sell, Status, filled_up, cancelled_out, replaced, rejected, unknown, reconciling,
  TradingOrder, Fill, Position, TradingGate, Db, EventKind,
}

-- `ACTIVE_SYMBOL_LOCK_STATES`
abbrev pub locks_symbol : Status → Bool
locks_symbol unknown = true
locks_symbol reconciling = true
locks_symbol _ = false

-- `ACTIVE_SELL_STATES`
abbrev pub reserves_position : Status → Bool
reserves_position filled_up = false
reserves_position cancelled_out = false
reserves_position replaced = false
reserves_position rejected = false
reserves_position _ = true

abbrev pub is_sell : Side → Bool
is_sell sell = true
is_sell _ = false

abbrev pub is_buy : Side → Bool
is_buy buy = true
is_buy _ = false

-- `select(TradingOrder).where(TradingOrder.id == order_id)`
unfoldable pub find_order : ℕ → List TradingOrder → Option TradingOrder
find_order id [] = none
find_order id (o ∷ os) = if id == o.id then some o else find_order id os

-- the row of the same id, written back
unfoldable pub save_order : TradingOrder → List TradingOrder → List TradingOrder
save_order o [] = []
save_order o (p ∷ os) = if o.id == p.id then o ∷ os else p ∷ save_order o os

unfoldable pub find_key : String → List TradingOrder → Option TradingOrder
find_key key [] = none
find_key key (o ∷ os) = if str_eq o.idempotency_key key then some o else find_key key os

unfoldable pub find_fill : String → List Fill → Option Fill
find_fill key [] = none
find_fill key (f ∷ fs) = if str_eq f.broker_fill_key key then some f else find_fill key fs

abbrev pub holds : String → String → Position → Bool
holds account symbol p = str_eq p.account_alias account && str_eq p.symbol symbol

unfoldable pub find_position : String → String → List Position → Option Position
find_position account symbol [] = none
find_position account symbol (p ∷ ps) =
    if holds account symbol p then some p else find_position account symbol ps

-- the row of the same account and symbol, of which there is one (`uq_positions_account_symbol`)
unfoldable pub save_position : Position → List Position → List Position
save_position p [] = []
save_position p (q ∷ ps) =
    if holds p.account_alias p.symbol q then p ∷ ps else q ∷ save_position p ps

unfoldable pub find_gate : String → List TradingGate → Option TradingGate
find_gate account [] = none
find_gate account (g ∷ gs) = if str_eq g.account_alias account then some g else find_gate account gs

unfoldable pub save_gate : TradingGate → List TradingGate → List TradingGate
save_gate g [] = []
save_gate g (h ∷ gs) = if str_eq h.account_alias g.account_alias then g ∷ gs else h ∷ save_gate g gs

-- an order of this account and symbol
abbrev pub is_for : String → String → TradingOrder → Bool
is_for account symbol o = str_eq o.account_alias account && str_eq o.symbol symbol

-- the query for `locked_order`
unfoldable pub has_locked : String → String → List TradingOrder → Bool
has_locked account symbol [] = false
has_locked account symbol (o ∷ os) =
    if is_for account symbol o && locks_symbol o.status then true else has_locked account symbol os

-- what one order holds back of a position
abbrev pub reservation : String → String → TradingOrder → ℕ
reservation account symbol o =
    if is_for account symbol o && (is_sell o.side && reserves_position o.status)
    then o.remaining_quantity
    else 0

-- `coalesce(sum(remaining_quantity), 0)` over the active sells
unfoldable pub reserved_quantity : String → String → List TradingOrder → ℕ
reserved_quantity account symbol [] = 0
reserved_quantity account symbol (o ∷ os) =
    reservation account symbol o + reserved_quantity account symbol os

abbrev pub is_child_of : ℕ → TradingOrder → Bool
is_child_of parent o = elim o.parent_order_id [ none ↦ false | some p ↦ p == parent ]

-- the first row, ordered by descending replacement sequence
abbrev pub later_child : TradingOrder → Option TradingOrder → TradingOrder
later_child o none = o
later_child o (some best) = if ltb o.replacement_sequence best.replacement_sequence then best else o

unfoldable pub find_child : ℕ → List TradingOrder → Option TradingOrder
find_child parent [] = none
find_child parent (o ∷ os) =
    let rest = find_child parent os in
    if is_child_of parent o then some (later_child o rest) else rest

-- `_event`
unfoldable pub log_event : ℕ → EventKind → Db → Db
log_event order_id kind db = record db {
  order_events = record { order_id = order_id; kind = kind } ∷ db.order_events;
}

-- `uuid7()`: an id that no earlier call returned
unfoldable pub fresh_id : Db → ℕ × Db
fresh_id db = (db.next_id, record db { next_id = suc db.next_id })
