-- ===== src/Guard/Risk.antt =====
-- The figures of backend/app/risk_calc.py on the ledger and the market data. Amounts are in
-- ten-thousandths.
use cresta.Base.{
  ℕ, zero, suc, ◌+◌, ◌-◌, ◌*◌, Bool, false, not, ◌&&◌, ◌||◌, Option, none, some, List, [], ◌∷◌,
  String, str_eq, ltb, ◌==◌, if◌then◌else◌,
}
use cresta.Base.Int.{ℤ, pos, ◌+ℤ◌, ◌*ℤ◌, sub_ℕ, neg_part}
use cresta.Paper.Rows.{TradingOrder, Fill, Position, TradingGate}
use cresta.Paper.Store.{find_order, find_position, is_sell, is_buy}
use cresta.Lease.{Worker}
use cresta.Venue.Quote.{MarketSnapshot}
use cresta.Guard.Rules.{Stream, find_stream, is_gate_ready}
use cresta.Guard.Sell.{is_open}

unfoldable pub find_snapshot : ℕ → List MarketSnapshot → Option MarketSnapshot
find_snapshot id [] = none
find_snapshot id (s ∷ ss) = if s.id == id then some s else find_snapshot id ss

-- the columns and tables of the market data
pub record Market : Type 0 where
  pub streams : List Stream
  pub snapshots : List MarketSnapshot

abbrev pub current_id : Option Stream → Option ℕ
current_id none = none
current_id (some s) = s.current_snapshot_id

abbrev pub look_up : List MarketSnapshot → Option ℕ → Option MarketSnapshot
look_up snapshots none = none
look_up snapshots (some id) = find_snapshot id snapshots

abbrev pub normal_price : Option MarketSnapshot → Option ℕ
normal_price none = none
normal_price (some s) = if str_eq s.snapshot_quality "NORMAL" then some s.last_price else none

-- `_latest_price` for KRX
unfoldable pub latest_price : Market → String → Option ℕ
latest_price m symbol =
    normal_price (look_up m.snapshots (current_id (find_stream "KRX" symbol m.streams)))

-- the query for the open positions of an account
abbrev pub is_counted : String → Position → Bool
is_counted account p = str_eq p.account_alias account && (is_open p.state && ltb 0 p.quantity)

-- `price or position.average_price`: a price of 0 counts as none
abbrev pub price_or : Option ℕ → ℕ → ℕ
price_or none average = average
price_or (some zero) average = average
price_or (some (suc n)) average = suc n

unfoldable pub position_value : Market → Position → ℕ
position_value m p = price_or (latest_price m p.symbol) p.average_price * p.quantity

-- `per_symbol[symbol] = per_symbol.get(symbol, 0) + value`
unfoldable pub add_value : String → ℕ → List (String × ℕ) → List (String × ℕ)
add_value symbol value [] = (symbol, value) ∷ []
add_value symbol value ((key, old) ∷ rest) =
    if str_eq key symbol
    then (key, old + value) ∷ rest
    else (key, old) ∷ add_value symbol value rest

-- `per_symbol.get(symbol, 0)`
unfoldable pub value_of : String → List (String × ℕ) → ℕ
value_of symbol [] = 0
value_of symbol ((key, value) ∷ rest) = if str_eq key symbol then value else value_of symbol rest

-- the loop of `open_position_exposure`
unfoldable pub exposure_from :
    Market → String → List (String × ℕ) → ℕ → List Position → List (String × ℕ) × ℕ
exposure_from m account per_symbol total [] = (per_symbol, total)
exposure_from m account per_symbol total (p ∷ ps) =
    let value = position_value m p in
    let counted =
      exposure_from m account (add_value p.symbol value per_symbol) (total + value) ps in
    let skipped = exposure_from m account per_symbol total ps in
    if is_counted account p then counted else skipped

-- `open_position_exposure`
unfoldable pub open_position_exposure : Market → String → List Position → List (String × ℕ) × ℕ
unfolding exposure_from
open_position_exposure m account positions = exposure_from m account [] 0 positions

-- `open_position_count`
unfoldable pub open_position_count : String → List Position → ℕ
open_position_count account [] = 0
open_position_count account (p ∷ ps) =
    if is_counted account p
    then suc (open_position_count account ps)
    else open_position_count account ps

-- `daily_entry_count`
unfoldable pub daily_entry_count : String → ℕ → List TradingOrder → ℕ
daily_entry_count account today [] = 0
daily_entry_count account today (o ∷ os) =
    if str_eq o.account_alias account && (is_buy o.side && o.trading_date == today)
    then suc (daily_entry_count account today os)
    else daily_entry_count account today os

-- a fill joined with the order that it is of
pub record SellFill : Type 0 where
  pub fill : Fill
  pub sold : TradingOrder

-- the join of fills and sell orders of an account
abbrev pub join_fill : String → Fill → Option TradingOrder → List SellFill → List SellFill
join_fill account f none rest = rest
join_fill account f (some o) rest =
    if str_eq o.account_alias account && is_sell o.side
    then (record { fill = f; sold = o }) ∷ rest
    else rest

unfoldable pub sell_fills : String → List TradingOrder → List Fill → List SellFill
sell_fills account orders [] = []
sell_fills account orders (f ∷ fs) =
    join_fill account f (find_order f.order_id orders) (sell_fills account orders fs)

-- the average price of the position's row, 0 without one
abbrev pub cost_of : Option Position → ℕ
cost_of none = 0
cost_of (some p) = p.average_price

unfoldable pub fill_cost : String → List Position → SellFill → ℕ
fill_cost account positions r = cost_of (find_position account r.sold.symbol positions)

-- the loop of `daily_realized_loss`
unfoldable pub realized_loss : String → ℕ → List Position → List SellFill → ℤ
unfolding fill_cost
realized_loss account today positions [] = pos 0
realized_loss account today positions (r ∷ rs) =
    let rest = realized_loss account today positions rs in
    if r.sold.trading_date == today
    then sub_ℕ r.fill.price (fill_cost account positions r) *ℤ pos r.fill.quantity +ℤ rest
    else rest

abbrev pub price_change : Option ℕ → Position → ℤ
price_change none p = pos 0
price_change (some price) p = sub_ℕ price p.average_price *ℤ pos p.quantity

-- `unrealized_loss`
unfoldable pub unrealized_loss : Market → String → List Position → ℤ
unrealized_loss m account [] = pos 0
unrealized_loss m account (p ∷ ps) =
    let rest = unrealized_loss m account ps in
    if is_counted account p then price_change (latest_price m p.symbol) p +ℤ rest else rest

pub data LossBasis : Type 0 where
  realized_only realized_plus_unrealized : LossBasis

abbrev pub total_loss : LossBasis → ℤ → ℤ → ℤ
total_loss realized_only realized unrealized = realized
total_loss realized_plus_unrealized realized unrealized = realized +ℤ unrealized

-- `daily_loss_pct` without its denominator: the loss as a positive amount, 0 for a gain. The
-- percentage is this amount times 100 over the denominator, which is positive.
unfoldable pub daily_loss : Market → String → LossBasis → ℕ → List Position → List SellFill → ℕ
daily_loss m account basis today positions rows = neg_part (
    total_loss basis (realized_loss account today positions rows)
      (unrealized_loss m account positions))

-- the order of the query: the newest fill first
abbrev pub is_newer : SellFill → SellFill → Bool
is_newer r s =
    ltb s.fill.filled_at r.fill.filled_at
    || (r.fill.filled_at == s.fill.filled_at && ltb s.fill.id r.fill.id)

unfoldable pub insert_fill : SellFill → List SellFill → List SellFill
insert_fill r [] = r ∷ []
insert_fill r (s ∷ ss) = if is_newer r s then r ∷ s ∷ ss else s ∷ insert_fill r ss

unfoldable pub newest_first : List SellFill → List SellFill
unfolding insert_fill
newest_first [] = []
newest_first (r ∷ rs) = insert_fill r (newest_first rs)

-- the loop of `consecutive_loss_count` with the limit of its query
unfoldable pub losses_from : ℕ → String → List Position → List SellFill → ℕ
losses_from zero account positions rows = 0
losses_from (suc limit) account positions [] = 0
losses_from (suc limit) account positions (r ∷ rs) =
    let rest = losses_from limit account positions rs in
    if ltb r.fill.price (fill_cost account positions r) then suc rest else 0

-- `consecutive_loss_count`
unfoldable pub consecutive_loss_count : String → List Position → List SellFill → ℕ
unfolding newest_first losses_from
consecutive_loss_count account positions rows = losses_from 50 account positions (newest_first rows)

-- `broker_connection_ok`, without its reason: the heartbeat may be 30 seconds old
unfoldable pub broker_connection_ok : Option Worker → Option TradingGate → ℕ → Bool
broker_connection_ok none gate now = false
broker_connection_ok (some w) gate now =
    str_eq w.state "READY"
    && (w.websocket_connected
        && (w.subscriptions_ready
            && (not (ltb 30_000_000 (now - w.last_heartbeat_at)) && is_gate_ready gate)))
