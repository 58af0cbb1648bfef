-- ===== src/Recon/Examples.antt =====
-- Three shares after_buy at two prices and a report of the account, and the theorems on the
-- projection there.
use cresta.Base.{suc, ◌≡◌, refl, false, none, some, List, [], ◌∷◌, returns, All, str_eq, arith}
use cresta.Paper.Rows.{OrderIntent, TradingOrder, Fill, buy, sell, limit, cancel_pending}
use cresta.Paper.Store.{find_order, find_fill, save_order}
use cresta.Guard.Sell.{account}
use cresta.Guard.Examples.{holding, ten}
use cresta.Recon.{
  BrokerPosition, Average, managed_projection, replay_managed_position, replay_from, own_fills,
  oldest_first, find_intent, insert_own,
}
use cresta.Recon.Positions.{
  Ledger, Projection, is_reported, updated_position, holding_of, project_positions,
}
use cresta.Recon.Compare.{compare_positions}
use cresta.Recon.Compared.{project_positions-matches}
use cresta.Recon.Versions.{uneven_average-bumps, even_average-stable}
use cresta.Recon.Orders.{
  OpenOrder, BrokerFill, Imprint, Facts, project_open_orders, find_broker, project_open,
  import_open_order, same_order_state,
}
use cresta.Recon.Fills.{
  project_orders, project_fills, project_rest, project_totals, project_total, project_cancels,
  cancel_row, filled_ids, fill_total, bookable, add_fill, count_of,
}
use cresta.Recon.Balanced.{IsBalanced, project_orders-IsBalanced}

abbrev intent : OrderIntent
intent = record {
  id = 1;
  order_group_id = 2;
  account_alias = account;
  environment = "MOCK";
  symbol = "005930";
  market = "KRX";
  side = buy;
  action = "BUY";
  requested_quantity = 3;
  correlation_id = "c";
}

abbrev order : TradingOrder
order = record {
  id = 3;
  parent_order_id = none;
  terms = record {
    intent_id = 1;
    order_group_id = 2;
    account_alias = account;
    environment = "MOCK";
    symbol = "005930";
    market = "KRX";
    side = buy;
    order_type = limit;
    limit_price = none;
    trading_date = 739_678;
    correlation_id = "c";
  };
  requested_quantity = 5;
  filled_quantity = 3;
  cancelled_quantity = 0;
  remaining_quantity = 2;
  status = cancel_pending;
  idempotency_key = "k";
  request_hash = 0;
  broker_order_id = some 77;
  replacement_sequence = 0;
  version = 4;
}

abbrev one_share : Fill
one_share = record {
  id = 4;
  order_id = 3;
  broker_fill_key = "f";
  quantity = 1;
  price = 700_000_000;
  fee = 0;
  tax = 0;
  filled_at = ten;
}

-- a third of a won more on average
abbrev two_shares : Fill
two_shares = record one_share {
  id = 5;
  broker_fill_key = "g";
  quantity = 2;
  price = 700_010_000;
  filled_at = suc ten;
}

abbrev ledger : List Fill → Ledger
ledger fills = record {
  intents = intent ∷ [];
  orders = order ∷ [];
  fills = fills;
  keep_price = λ a. a.amount;
}

abbrev reported : BrokerPosition
reported = record {
  symbol = "005930";
  quantity = 20;
  available_quantity = 20;
  average_price = 700_000_000;
}

abbrev unknown_share : BrokerPosition
unknown_share = record {
  symbol = "000660";
  quantity = 2;
  available_quantity = 2;
  average_price = 1_900_000_000;
}

abbrev before : Projection
before = record {
  positions = holding ∷ record holding { id = 2; symbol = "035420" } ∷ [];
  events = [];
  next_id = 9;
  imported_positions = 0;
  updated_positions = 0;
  closed_positions = 0;
}

distinct : is_reported (unknown_share ∷ []) "005930" ≡ false
unfolding str_eq
distinct = refl

project_positions-matches_example :
    (t : Projection) × (project_positions
        (ledger (one_share ∷ []))
        (reported ∷ unknown_share ∷ [])
        before
      ≡ returns t)
    × (compare_positions (reported ∷ unknown_share ∷ []) t.positions ≡ [])
project_positions-matches_example =
    let (t, made, _, clean) =
      project_positions-matches (ledger (one_share ∷ [])) (reported ∷ unknown_share ∷ []) before
        (distinct, (refl, tt)) (omega arith, (omega arith, tt)) in
    (t, made, clean)

abbrev uneven : Average
uneven = record { amount = 2_100_020_000; shares = 3 }

bought_at_two_prices :
    replay_managed_position (intent ∷ []) (order ∷ []) (two_shares ∷ one_share ∷ []) "005930"
    ≡ some (record { held = 3; average = uneven })
unfolding replay_managed_position own_fills oldest_first insert_own replay_from find_intent
    find_order str_eq
bought_at_two_prices = refl

uneven_average-bumps_example :
    (updated_position (ledger (two_shares ∷ one_share ∷ [])) reported holding).version ≡ 4
uneven_average-bumps_example =
    uneven_average-bumps (ledger (two_shares ∷ one_share ∷ [])) reported holding
      (record { held = 3; average = uneven }) bought_at_two_prices (omega arith) (omega arith)
      (λ price e. omega arith)

bought_at_one_price :
    replay_managed_position (intent ∷ []) (order ∷ []) (one_share ∷ []) "005930"
    ≡ some (record { held = 1; average = record { amount = 700_000_000; shares = 1 } })
unfolding replay_managed_position own_fills oldest_first insert_own replay_from find_intent
    find_order str_eq
bought_at_one_price = refl

kept_exactly :
    (holding_of (ledger (one_share ∷ [])) reported (some holding)).average
    ≡ record { amount = 700_000_000; shares = 1 }
unfolding holding_of managed_projection replay_managed_position own_fills oldest_first insert_own
    replay_from find_intent find_order str_eq
kept_exactly = refl

even_average-stable_example :
    updated_position
      (ledger (one_share ∷ []))
      reported
      (updated_position (ledger (one_share ∷ [])) reported holding)
    ≡ updated_position (ledger (one_share ∷ [])) reported holding
even_average-stable_example =
    even_average-stable (ledger (one_share ∷ [])) reported holding
      (record { held = 1; average = record { amount = 700_000_000; shares = 1 } })
      bought_at_one_price (let a = kept_exactly in cc)

abbrev imprint : Imprint
imprint = record {
  id_text = λ id. "broker-import";
  order_digest = λ b. b.broker_id;
  fill_key = λ identity occurrence. "kiwoom";
  today = 739_678;
  correlation = "c";
}

-- another order of the account, that Cresta does not know
abbrev open_order : OpenOrder
open_order = record {
  broker_id = 78;
  symbol = "000660";
  market = "KRX";
  side = sell;
  requested_quantity = 4;
  filled_quantity = 1;
  remaining_quantity = 3;
  limit_price = none;
}

-- one share more than the cancelled order knew of
abbrev late : BrokerFill
late = record {
  of_broker_id = 77;
  quantity = 4;
  price = 700_000_000;
  fee = 0;
  tax = 0;
  identity = 1;
  broker_time = some ten;
}

abbrev facts : Facts
facts = record {
  orders = order ∷ [];
  intents = intent ∷ [];
  fills = [];
  next_id = 9;
  imported_orders = 0;
  updated_orders = 0;
  imported_fills = 0;
}

projected_once :
    (t : Facts) × (project_orders imprint (open_order ∷ []) (late ∷ []) facts ≡ returns t)
    × (t.imported_orders ≡ 1)
    × (t.imported_fills ≡ 1)
unfolding project_orders project_open_orders project_open import_open_order find_broker
    project_fills add_fill count_of bookable fill_total find_fill project_rest project_totals
    project_total filled_ids project_cancels cancel_row same_order_state save_order str_eq
projected_once = (_, refl, refl, refl)

project_orders-IsBalanced_example : All IsBalanced projected_once.0.orders
project_orders-IsBalanced_example =
    project_orders-IsBalanced imprint (open_order ∷ []) (late ∷ []) facts projected_once.0
      ((omega arith, refl), tt) projected_once.1
