-- ===== src/Guard/Buy.antt =====
-- The rules of a purchase: `_buy_guard_rules` of backend/app/decision_execution.py and `spread_pct`
-- of backend/app/risk_calc.py. Amounts are in ten-thousandths, as in `Risk`.
use cresta.Base.{
  ℕ, ◌+◌, ◌-◌, ◌*◌, ◌^◌, Bool, true, false, not, ◌&&◌, Option, none, some, List, [], ◌∷◌, String,
  str_eq, ltb, leb, ◌==◌, if◌then◌else◌, any,
}
use cresta.Base.Int.{ℤ, pos, ◌+ℤ◌, ◌-ℤ◌, ltb_ℤ, leb_ℤ, pos_part, neg_part}
use cresta.Decimal.{Decimal, half_even}
use cresta.Paper.Rows.{TradingOrder, Fill, Position, TradingGate, Settings}
use cresta.Paper.Store.{find_gate}
use cresta.Paper.Create.{is_mock}
use cresta.Lease.{Worker}
use cresta.Emergency.{Stops, active_pause_entry}
use cresta.Venue.Dates.{ordinal, seoul_date}
use cresta.Venue.Quote.{MarketSnapshot}
use cresta.Guard.Rules.{Code}
use cresta.Guard.Rules.{Decision, Stream, find_stream, Rule, rule, is_current, is_gate_ready}
use cresta.Guard.Sell.{account}
use cresta.Guard.Risk.{
  Market, LossBasis, open_position_exposure, value_of, open_position_count, daily_entry_count,
  daily_loss, sell_fills, consecutive_loss_count, broker_connection_ok,
}

-- `(ask - bid) / midpoint * 100`, quantized to four places; `none` without a positive midpoint
unfoldable pub spread_of : ℤ → ℤ → Option Decimal
spread_of bid ask =
    let double_midpoint = bid +ℤ ask in
    let gap = ask -ℤ bid in
    if ltb_ℤ (pos 0) double_midpoint
    then some (record {
      negative = ltb 0 (neg_part gap);
      coeff = half_even ((pos_part gap + neg_part gap) * 2_000_000) (pos_part double_midpoint);
      scale = 4;
    })
    else none

abbrev pub spread_between : Option ℤ → Option ℤ → Option Decimal
spread_between (some bid) (some ask) = spread_of bid ask
spread_between _ _ = none

-- `spread_pct`
unfoldable pub spread_pct : Option MarketSnapshot → Option Decimal
unfolding spread_of
spread_pct none = none
spread_pct (some s) = spread_between s.best_bid_price s.best_ask_price

abbrev pub signed : Bool → ℕ → ℤ
signed true n = if n == 0 then pos 0 else ℤ.negsuc (n - 1)
signed false n = pos n

-- `a <= b`
abbrev pub at_most : Decimal → Decimal → Bool
at_most a b =
    leb_ℤ (signed a.negative (a.coeff * 10 ^ b.scale)) (signed b.negative (b.coeff * 10 ^ a.scale))

abbrev pub is_spread_within : Option Decimal → Decimal → Bool
is_spread_within none limit = false
is_spread_within (some spread) limit = at_most spread limit

-- the fields of `RiskPolicyPayload` that are read; the amounts are whole won
pub record RiskPolicy : Type 0 where
  pub entry_order_amount : Option ℕ
  pub max_position_amount_per_symbol : ℕ
  pub max_total_position_amount : ℕ
  pub max_open_positions : ℕ
  pub max_daily_entries : ℕ
  pub quote_stale_seconds : ℕ
  pub max_spread_pct : Decimal
  pub max_price_deviation_pct : Decimal
  pub daily_loss_limit_pct : Decimal
  pub daily_loss_basis : LossBasis
  pub max_consecutive_losses : ℕ

-- a row of the watchlist: the user, the market and the symbol
pub record Watched : Type 0 where
  pub watcher : ℕ
  pub watched_market : String
  pub watched_symbol : String

-- an active risk event: its scope is that of the daily loss
pub record LossEvent : Type 0 where
  pub event_account : String
  pub event_active : Bool

pub record BuyContext : Type 0 where
  pub settings : Settings
  pub policy : RiskPolicy
  pub user : ℕ
  pub watchlist : List Watched
  pub market_data : Market
  pub orders : List TradingOrder
  pub fills : List Fill
  pub positions : List Position
  pub gates : List TradingGate
  pub worker : Option Worker
  pub stops : Stops
  pub loss_events : List LossEvent
  pub now : ℕ

-- `fresh` of `_buy_guard_rules`
unfoldable pub is_fresh_quote : Option MarketSnapshot → Option Stream → ℕ → ℕ → Bool
is_fresh_quote (some s) (some stream) now stale_seconds =
    is_current stream.current_snapshot_id s.id
    && (str_eq s.snapshot_quality "NORMAL"
        && (str_eq stream.stream_quality "NORMAL"
            && leb (now - s.received_at) (stale_seconds * 1_000_000)))
is_fresh_quote _ _ now stale_seconds = false

abbrev pub is_some : {A : Type 0} → Option A → Bool
is_some none = false
is_some (some x) = true

-- won in ten-thousandths
abbrev pub won : ℕ → ℕ
won n = n * 10_000

abbrev pub entry_amount : RiskPolicy → ℕ
entry_amount p = elim p.entry_order_amount [ none ↦ 0 | some n ↦ won n ]

-- `loss_pct < limit`, for the loss times 100 over the denominator
abbrev pub is_loss_below : ℕ → ℕ → Decimal → Bool
is_loss_below loss denominator limit =
    not limit.negative && ltb (loss * 100 * 10 ^ limit.scale) (limit.coeff * denominator)

abbrev pub is_watched : ℕ → Decision → Watched → Bool
is_watched user d w =
    w.watcher == user && (str_eq w.watched_market d.market && str_eq w.watched_symbol d.symbol)

unfoldable pub is_paused : Stops → Bool
is_paused stops = is_some (active_pause_entry stops)

-- `_buy_guard_rules`
unfoldable pub buy_guard_rules : BuyContext → Decision → Option MarketSnapshot → List Rule
buy_guard_rules c d snapshot =
    let p = c.policy in
    let stream = find_stream d.market d.symbol c.market_data.streams in
    let gate = find_gate account c.gates in
    let exposure = open_position_exposure c.market_data account c.positions in
    let entry = entry_amount p in
    let today = ordinal (seoul_date c.now) in
    let sells = sell_fills account c.orders c.fills in
    let loss = daily_loss c.market_data account p.daily_loss_basis today c.positions sells in
    rule Code.environment_not_mock (is_mock c.settings)
    ∷ rule Code.decision_expired (leb c.now d.valid_until)
    ∷ rule Code.snapshot_missing (is_some snapshot)
    ∷ rule Code.market_data_stale (is_fresh_quote snapshot stream c.now p.quote_stale_seconds)
    ∷ rule Code.symbol_not_watched (any (is_watched c.user d) c.watchlist)
    ∷ rule Code.broker_not_ready (is_gate_ready gate)
    ∷ rule Code.emergency_stop_active (not (is_paused c.stops))
    ∷ rule Code.order_size_not_configured (is_some p.entry_order_amount)
    ∷ rule Code.total_exposure_limit (leb (exposure.1 + entry) (won p.max_total_position_amount))
    ∷ rule Code.symbol_exposure_limit
        (leb (value_of d.symbol exposure.0 + entry) (won p.max_position_amount_per_symbol))
    ∷ rule Code.open_positions_limit
        (ltb (open_position_count account c.positions) p.max_open_positions)
    ∷ rule Code.daily_entries_limit
        (ltb (daily_entry_count account today c.orders) p.max_daily_entries)
    ∷ rule Code.daily_loss_limit
        (is_loss_below loss (won p.max_total_position_amount) p.daily_loss_limit_pct)
    ∷ rule Code.consecutive_loss_limit
        (ltb (consecutive_loss_count account c.positions sells) p.max_consecutive_losses)
    ∷ rule Code.spread_limit (is_spread_within (spread_pct snapshot) p.max_spread_pct)
    ∷ rule Code.broker_connection (broker_connection_ok c.worker gate c.now)
    ∷ rule Code.no_active_daily_loss_event (
        not
          (any (λ (e : LossEvent). e.event_active && str_eq e.event_account account) c.loss_events))
    ∷ []
