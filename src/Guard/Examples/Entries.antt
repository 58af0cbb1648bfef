-- ===== src/Guard/Examples/Entries.antt =====
-- A purchase that the rules let pass, an operational closure and the loss figures.
use cresta.Base.{any, ◌↔◌, List, ◌-◌, ◌≡◌, refl, true, false, none, some, [], ◌∷◌, str_eq}
use cresta.Base.Int.{◌+ℤ◌, ◌-ℤ◌, ◌*ℤ◌}
use cresta.Decimal.{half_even}
use cresta.Paper.Rows.{Terms, TradingOrder, sell, limit, filled_up}
use cresta.Paper.Store.{find_position, find_gate}
use cresta.Paper.Create.{is_mock}
use cresta.Venue.Calendar.{
  CalendarOverride, day_open, day_closed, evaluate_krx_trading_day, year_end_closure, is_closed,
  trading_day, resolve_trading_day, active_calendar_override,
}
use cresta.Venue.Dates.{weekday, previous_day, seoul_date, ordinal}
use cresta.Venue.Session.{seoul_time}
use cresta.Lease.{Worker}
use cresta.Emergency.{active_pause_entry}
use cresta.Guard.Rules.{Decision, find_stream, buy_action, blocked}
use cresta.Guard.Sell.{account, sell_plan, sell_guard_rules}
use cresta.Guard.Risk.{
  Market, SellFill, realized_plus_unrealized, open_position_exposure, value_of, add_value,
  position_value, latest_price, find_snapshot, open_position_count, daily_entry_count, sell_fills,
  realized_loss, unrealized_loss, daily_loss, newest_first, consecutive_loss_count,
  broker_connection_ok, fill_cost,
}
use mathlib.Core.List.{Perm}
use cresta.Guard.Losses.{consecutive_loss_count-IsRun, IsRun, IsDescending}
use cresta.Guard.Closures.{closed_day-is_tradable, is_session_code, IsContinuous}
use cresta.Guard.Buy.{
  RiskPolicy, BuyContext, buy_guard_rules, is_fresh_quote, is_paused, spread_pct,
}
use cresta.Guard.Entry.{buy_guard_rules_safe}
use cresta.Guard.Examples.{
  context, nothing_expected, march_holidays, ten, holding, snapshot, stream, gate, mock, sale,
}

abbrev pub policy : RiskPolicy
policy = record {
  entry_order_amount = some 500_000;
  max_position_amount_per_symbol = 2_000_000;
  max_total_position_amount = 5_000_000;
  max_open_positions = 2;
  max_daily_entries = 3;
  quote_stale_seconds = 5;
  max_spread_pct = record { negative = false; coeff = 5; scale = 1 };
  daily_loss_limit_pct = record { negative = false; coeff = 5; scale = 0 };
  max_price_deviation_pct = record { negative = false; coeff = 1; scale = 0 };
  daily_loss_basis = realized_plus_unrealized;
  max_consecutive_losses = 3;
}

abbrev pub worker : Worker
worker = record {
  state = "READY";
  worker_token = 1;
  websocket_connected = true;
  subscriptions_ready = true;
  last_heartbeat_at = ten;
  last_reconciliation_at = none;
  last_reconciliation_run_id = none;
  last_error_code = none;
  started_at = 0;
  worker_updated_at = ten;
}

abbrev pub data_of_day : Market
data_of_day = record { streams = stream ∷ []; snapshots = snapshot ∷ [] }

abbrev pub entry_context : BuyContext
entry_context = record {
  settings = mock;
  policy = policy;
  user = 7;
  watchlist = (record { watcher = 7; watched_market = "KRX"; watched_symbol = "005930" }) ∷ [];
  market_data = data_of_day;
  orders = [];
  fills = [];
  positions = holding ∷ [];
  gates = gate ∷ [];
  worker = some worker;
  stops = record { current = none; audit = []; next_id = 0 };
  loss_events = [];
  now = ten;
}

abbrev pub purchase : Decision
purchase = record sale { action = buy_action; core_sell_ratio = none }

purchase_passes : blocked (buy_guard_rules entry_context purchase (some snapshot)) ≡ []
unfolding blocked buy_guard_rules is_mock is_fresh_quote find_stream find_gate str_eq is_paused
    active_pause_entry open_position_exposure value_of position_value latest_price find_snapshot
    add_value open_position_count daily_entry_count sell_fills realized_loss unrealized_loss
    daily_loss consecutive_loss_count spread_pct broker_connection_ok half_even ◌+ℤ◌ ◌-ℤ◌ ◌*ℤ◌
    seoul_date ordinal
purchase_passes = refl

buy_guard_rules_safe_example : active_pause_entry entry_context.stops ≡ none
buy_guard_rules_safe_example =
    (buy_guard_rules_safe entry_context purchase (some snapshot) purchase_passes).0

abbrev closure : CalendarOverride
closure = record {
  id = 9;
  market_date = record { year = 2026; month = 3; day = 3 };
  active = true;
  reason = 97 ∷ 97 ∷ 97 ∷ 97 ∷ 97 ∷ [];
  source_reference = 98 ∷ 98 ∷ 98 ∷ [];
  created_by = 7;
  revoked_by = none;
  revoked_at = none;
}

closure_active : active_calendar_override (closure ∷ []) (seoul_date ten) ≡ some closure
unfolding active_calendar_override seoul_date
closure_active = refl

open_by_rules : (trading_day march_holidays ten).status ≡ day_open
unfolding trading_day seoul_date evaluate_krx_trading_day year_end_closure is_closed previous_day
    weekday
open_by_rules = refl

closed_day-is_tradable_example :
    ((resolve_trading_day march_holidays (closure ∷ []) (seoul_date ten)).status ≡ day_closed)
    × ((any is_session_code (
            blocked (
              sell_guard_rules context sale
                (sell_plan [] (holding ∷ []) sale (some snapshot))
                nothing_expected))
          ≡ false)
        ↔ (((trading_day march_holidays ten).status ≡ day_open) × IsContinuous (seoul_time ten)))
closed_day-is_tradable_example =
    closed_day-is_tradable (closure ∷ []) closure context sale
      (sell_plan [] (holding ∷ []) sale (some snapshot)) nothing_expected closure_active refl

-- twenty shares bought at 70,000 are sold at 60,000
abbrev sell_terms : Terms
sell_terms = record {
  intent_id = 1;
  order_group_id = 1;
  account_alias = account;
  environment = "MOCK";
  symbol = "005930";
  market = "KRX";
  side = sell;
  order_type = limit;
  limit_price = none;
  trading_date = ordinal (seoul_date ten);
  correlation_id = "c";
}

abbrev sold_order : TradingOrder
sold_order = record {
  id = 4;
  parent_order_id = none;
  terms = sell_terms;
  requested_quantity = 20;
  filled_quantity = 20;
  cancelled_quantity = 0;
  remaining_quantity = 0;
  status = filled_up;
  idempotency_key = "k";
  request_hash = 0;
  broker_order_id = none;
  replacement_sequence = 0;
  version = 6;
}

abbrev loss_making : SellFill
loss_making = record {
  fill = record {
    id = 8;
    order_id = 4;
    broker_fill_key = "f";
    quantity = 20;
    price = 600_000_000;
    fee = 0;
    tax = 0;
    filled_at = ten;
  };
  sold = sold_order;
}

counted : consecutive_loss_count account (holding ∷ []) (loss_making ∷ []) ≡ 1
unfolding consecutive_loss_count fill_cost find_position str_eq
counted = refl

-- an earlier sale at a gain
abbrev gaining : SellFill
gaining = record loss_making {
  fill = record loss_making.fill { id = 7; price = 800_000_000; filled_at = ten - 1 };
}

counted_newest : consecutive_loss_count account (holding ∷ []) (gaining ∷ loss_making ∷ []) ≡ 1
unfolding consecutive_loss_count fill_cost find_position str_eq newest_first
counted_newest = refl

consecutive_loss_count-IsRun_example :
    (ordered : List SellFill) × Perm (gaining ∷ loss_making ∷ []) ordered
    × IsDescending ordered
    × IsRun account
        (holding ∷ [])
        50
        (consecutive_loss_count account (holding ∷ []) (gaining ∷ loss_making ∷ []))
        ordered
consecutive_loss_count-IsRun_example =
    consecutive_loss_count-IsRun account (holding ∷ []) (gaining ∷ loss_making ∷ [])
