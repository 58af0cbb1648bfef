-- ===== src/Guard/Examples.antt =====
-- A decision to sell a part and one to buy on a March Tuesday, and the theorems on the guard there.
pub mod Entries
use cresta.Base.{
  ℕ, ◌+◌, ◌*◌, ◌≤◌, ◌<◌, ◌≡◌, ◌⊎◌, refl, Bool, true, false, Option, none, some, List, [], ◌∷◌,
  String, str_eq, ◌==◌, ◌&&◌, ◌||◌,
}
use cresta.Base.Int.{pos, ◌+ℤ◌, ◌-ℤ◌, ◌*ℤ◌}
use cresta.Decimal.{Decimal, half_even}
use cresta.Paper.Rows.{
  Position, open_position, closed_position, cresta_managed, TradingGate, ready, Settings,
  TradingOrder,
}
use cresta.Paper.Store.{find_position, find_gate, reserved_quantity}
use cresta.Paper.Create.{is_mock}
use cresta.Venue.Calendar.{
  Holidays, CalendarOverride, day_open, day_closed, evaluate_krx_trading_day, year_end_closure,
  is_closed, trading_day, resolve_trading_day, active_calendar_override,
}
use cresta.Venue.Dates.{Date, weekday, previous_day, seoul_date, ordinal}
use cresta.Venue.Session.{clock, classify_session, session_at, dual_continuous, seoul_time}
use cresta.Venue.Quote.{MarketSnapshot}
use cresta.Lease.{Worker}
use cresta.Emergency.{Stops, active_pause_entry}
use cresta.Guard.Rules.{
  Decision, Stream, find_stream, partial_sell, buy_action, blocked, is_gate_ready,
}
use cresta.Guard.Sell.{
  account, sell_plan, SellContext, Expected, sell_guard_rules, sell_ratio,
  sellable_managed_quantity, planned_quantity, has_active_symbol_order, is_fresh, is_tradable,
}
use cresta.Guard.Available.{sell_plan-covered, sell_plan-IsPart, IsPart}
use cresta.Guard.Sound.{sell_guard_rules_safe}
use cresta.Guard.Risk
use cresta.Guard.Exposure.{open_position_exposure_lem, all_values, symbol_values}
use cresta.Guard.Buy.{
  RiskPolicy, BuyContext, buy_guard_rules, won, is_fresh_quote, is_paused, spread_pct, spread_of,
}
use cresta.Guard.Entry.{buy_guard_rules_safe}

abbrev pub march_holidays : Holidays
march_holidays y = some (λ d. d.month == 3 && d.day == 1)

-- ten in the morning of Tuesday, the third of March 2026
abbrev pub ten : ℕ
ten = 20515 * clock 24 0 0 + clock 1 0 0

abbrev pub holding : Position
holding = record {
  id = 1;
  account_alias = account;
  symbol = "005930";
  quantity = 20;
  available_quantity = 15;
  managed_quantity = 11;
  average_price = 700_000_000;
  managed_average_price = 700_000_000;
  state = open_position;
  origin = cresta_managed;
  version = 3;
}

abbrev pub snapshot : MarketSnapshot
snapshot = record {
  id = 5;
  snapshot_market = "KRX";
  best_bid_price = some (pos 709_000_000);
  best_bid_quantity = some (pos 40);
  best_ask_price = some (pos 710_000_000);
  best_ask_quantity = some (pos 25);
  snapshot_trading_status = "TRADING";
  snapshot_quality = "NORMAL";
  snapshot_event_at = ten;
  received_at = ten;
  last_price = 709_000_000;
}

abbrev pub stream : Stream
stream = record {
  stream_market = "KRX";
  stream_symbol = "005930";
  current_snapshot_id = some 5;
  stream_quality = "NORMAL";
}

abbrev pub gate : TradingGate
gate = record {
  account_alias = account;
  environment = "MOCK";
  status = ready;
  reason = "OK";
  version = 1;
}

abbrev pub mock : Settings
mock = record { environment = "mock"; live_trading_enabled = false }

-- half of what can be sold
abbrev half : Decimal
half = record { negative = false; coeff = 5; scale = 1 }

abbrev pub sale : Decision
sale = record {
  id = 3;
  purpose = "TRADING";
  input_snapshot_id = 5;
  symbol = "005930";
  market = "KRX";
  action = partial_sell;
  valid_until = ten + 60_000_000;
  core_sell_ratio = some half;
}

abbrev context : SellContext
context = record {
  settings = mock;
  holidays = march_holidays;
  orders = [];
  streams = stream ∷ [];
  gates = gate ∷ [];
  quote_stale_seconds = 5;
  now = ten;
}

abbrev nothing_expected : Expected
nothing_expected = record {
  expected_position_id = none;
  expected_position_version = none;
  requested_quantity = none;
}

found : find_position account "005930" (holding ∷ []) ≡ some holding
unfolding find_position str_eq
found = refl

sale_ratio : sell_ratio sale ≡ some half
unfolding sell_ratio
sale_ratio = refl

sale_passes :
    blocked (
      sell_guard_rules context sale
        (sell_plan [] (holding ∷ []) sale (some snapshot))
        nothing_expected)
    ≡ []
unfolding blocked sell_guard_rules sell_plan find_position str_eq find_stream find_gate is_mock
    has_active_symbol_order is_fresh is_tradable classify_session trading_day seoul_date
    evaluate_krx_trading_day year_end_closure is_closed previous_day weekday reserved_quantity
sale_passes = refl

sell_guard_rules_safe_example :
    (p : Position) × (find_position account "005930" (holding ∷ []) ≡ some p)
    × (p.state ≡ open_position)
sell_guard_rules_safe_example =
    let (p, is, held, _, _, _, _, _, _, _) =
      sell_guard_rules_safe context sale (holding ∷ []) (some snapshot) nothing_expected
        sale_passes in
    (p, is, held)

sell_plan-IsPart_example :
    IsPart
      (sell_plan [] (holding ∷ []) sale (some snapshot)).quantity
      (sell_plan [] (holding ∷ []) sale (some snapshot)).sellable_quantity
      half
sell_plan-IsPart_example =
    sell_plan-IsPart [] (holding ∷ []) sale (some snapshot) half refl sale_ratio
