-- ===== src/Recon.antt =====
-- The account that the broker reports, and the part of a position that Cresta manages:
-- `_replay_managed_position`, `_managed_projection` and `_position_origin` of
-- backend/app/account_projection.py. Prices are in ten-thousandths.
pub mod Positions
pub mod Matches
mod Examples
pub mod Compare
pub mod Compared
pub mod Fills
pub mod Balanced
pub mod Orders
pub mod Versions
use cresta.Base.{
  ℕ, zero, suc, ◌+◌, ◌-◌, ◌*◌, ◌≤◌, ◌≡◌, Bool, true, false, not, ◌&&◌, ◌||◌, Option, none, some,
  List, [], ◌∷◌, String, ltb, leb, ◌==◌, str_eq, if◌then◌else◌, min, arith,
}
use cresta.Paper.Rows.{
  TradingOrder, OrderIntent, Fill, Position, Origin, cresta_managed, external, mixed,
}
use cresta.Paper.Store.{find_order, is_buy, is_sell, is_for}
use cresta.Guard.Sell.{account}

-- `BrokerPosition`
pub record BrokerPosition : Type 0 where
  pub symbol : String
  pub quantity : ℕ
  pub available_quantity : ℕ
  pub average_price : ℕ

-- A quotient of two amounts, the value of an average that no column has rounded yet.
pub record Average : Type 0 where
  pub amount : ℕ
  pub shares : ℕ

abbrev pub no_average : Average
no_average = record { amount = 0; shares = 1 }

abbrev pub exactly : ℕ → Average
exactly price = record { amount = price; shares = 1 }

-- `==` with the price of a column
abbrev pub equals_price : Average → ℕ → Bool
equals_price a price = a.amount == price * a.shares

unfoldable pub find_intent : ℕ → List OrderIntent → Option OrderIntent
find_intent id [] = none
find_intent id (i ∷ is) = if i.id == id then some i else find_intent id is

abbrev pub is_own : Option OrderIntent → Bool
is_own none = false
is_own (some i) = not (str_eq i.action "BROKER_IMPORTED")

-- a fill with the order of it
pub record OwnFill : Type 0 where
  pub fill : Fill
  pub filled : TradingOrder

-- whether the query of `_replay_managed_position` takes an order
abbrev pub is_retained : List OrderIntent → String → TradingOrder → Bool
is_retained intents symbol o =
    is_for account symbol o
    && (str_eq o.environment "MOCK" && is_own (find_intent o.intent_id intents))

abbrev pub join_own :
    List OrderIntent → String → Fill → Option TradingOrder → List OwnFill → List OwnFill
join_own intents symbol f none rest = rest
join_own intents symbol f (some o) rest =
    if is_retained intents symbol o then (record { fill = f; filled = o }) ∷ rest else rest

unfoldable pub own_fills : List OrderIntent → List TradingOrder → String → List Fill → List OwnFill
unfolding find_intent
own_fills intents orders symbol [] = []
own_fills intents orders symbol (f ∷ fs) =
    join_own intents symbol f (find_order f.order_id orders) (own_fills intents orders symbol fs)

-- the order of the query: the oldest fill first
abbrev pub is_older : OwnFill → OwnFill → Bool
is_older r s =
    ltb r.fill.filled_at s.fill.filled_at
    || (r.fill.filled_at == s.fill.filled_at && leb r.fill.id s.fill.id)

unfoldable pub insert_own : OwnFill → List OwnFill → List OwnFill
insert_own r [] = r ∷ []
insert_own r (s ∷ ss) = if is_older r s then r ∷ s ∷ ss else s ∷ insert_own r ss

unfoldable pub oldest_first : List OwnFill → List OwnFill
unfolding insert_own
oldest_first [] = []
oldest_first (r ∷ rs) = insert_own r (oldest_first rs)

-- a quantity and the average price of it
pub record Holding : Type 0 where
  pub held : ℕ
  pub average : Average

abbrev pub after_buy : Fill → Holding → Holding
after_buy f h = record {
  held = h.held + f.quantity;
  average = record {
    amount = h.average.amount * h.held + f.price * f.quantity * h.average.shares;
    shares = h.average.shares * (h.held + f.quantity);
  };
}

abbrev pub after_sell : Fill → Holding → Holding
after_sell f h = record {
  held = h.held - f.quantity;
  average = if h.held - f.quantity == 0 then no_average else h.average;
}

abbrev pub replay_fill : OwnFill → Holding → Holding
replay_fill r h =
    if is_buy r.filled.side
    then after_buy r.fill h
    else if is_sell r.filled.side
    then after_sell r.fill h
    else h

-- the loop of `_replay_managed_position`
unfoldable pub replay_from : Holding → List OwnFill → Holding
replay_from h [] = h
replay_from h (r ∷ rs) = replay_from (replay_fill r h) rs

abbrev pub replay_rows : List OwnFill → Option Holding
replay_rows [] = none
replay_rows (r ∷ rs) = some (replay_from (record { held = 0; average = no_average }) (r ∷ rs))

-- `_replay_managed_position`
unfoldable pub replay_managed_position :
    List OrderIntent → List TradingOrder → List Fill → String → Option Holding
unfolding replay_from own_fills oldest_first
replay_managed_position intents orders fills symbol =
    replay_rows (oldest_first (own_fills intents orders symbol fills))

abbrev pub legacy_of : Option Position → Holding
legacy_of none = record { held = 0; average = no_average }
legacy_of (some p) = record { held = p.managed_quantity; average = exactly p.managed_average_price }

abbrev pub capped : ℕ → Holding → Holding
capped quantity h =
    let managed = min h.held quantity in
    record { held = managed; average = if ltb 0 managed then h.average else no_average }

abbrev pub known_or : Holding → Option Holding → Holding
known_or legacy none = legacy
known_or legacy (some h) = h

-- `_managed_projection`
unfoldable pub managed_projection : Option Position → ℕ → Option Holding → Holding
managed_projection position broker_quantity replayed =
    if broker_quantity == 0
    then record { held = 0; average = no_average }
    else capped broker_quantity (known_or (legacy_of position) replayed)

-- `_position_origin`
unfoldable pub position_origin : ℕ → ℕ → Origin
position_origin quantity managed =
    if managed == 0 then external else if leb quantity managed then cresta_managed else mixed

pub managed_projection-le :
    (position : Option Position) (quantity : ℕ) (replayed : Option Holding)
    → (managed_projection position quantity replayed).held ≤ quantity
unfolding managed_projection
managed_projection-le position quantity replayed = ground arith
