-- ===== src/Desk/Reads.antt =====
-- What the operations on the desk read and write: contexts, rows by id, prices and texts, from
-- backend/app/approvals.py and backend/app/decision_execution.py.
use cresta.Base.{
  ℕ, suc, ◌+◌, ◌*◌, ◌/◌, Bool, true, false, Option, none, some, List, ◌∷◌, String, ltb,
  if◌then◌else◌,
}
use cresta.Base.Int.{ℤ, pos, ltb_ℤ, pos_part, neg_part}
use cresta.Base.Tables.{find_row, save_row}
use cresta.Decimal.{Decimal}
use cresta.Paper.Rows.{Db, Side, buy, sell, Position}
use cresta.Venue.Quote.{MarketSnapshot}
use cresta.Guard.Rules.{
  Action, buy_action, partial_sell, full_sell, fixed_stop, no_action, other_action, Decision,
}
use cresta.Guard.Sell.{SellContext}
use cresta.Guard.Buy.{BuyContext}
use cresta.Orders.{Book, Outcome}
use cresta.Desk.{Execution, Approval, Env}

abbrev pub buy_context : Env → Db → ℕ → ℕ → BuyContext
buy_context env db user now = record {
  settings = env.settings;
  policy = env.policy;
  user = user;
  watchlist = env.watchlist;
  market_data = env.market_data;
  orders = db.orders;
  fills = db.fills;
  positions = db.positions;
  gates = db.gates;
  worker = env.worker;
  stops = env.stops;
  loss_events = env.loss_events;
  now = now;
}

abbrev pub sell_context : Env → Db → ℕ → SellContext
sell_context env db now = record {
  settings = env.settings;
  holidays = env.holidays;
  orders = db.orders;
  streams = env.market_data.streams;
  gates = db.gates;
  quote_stale_seconds = env.policy.quote_stale_seconds;
  now = now;
}

-- the book with the next id taken
abbrev pub skip_id : Book → Book
skip_id b = record b { db = record b.db { next_id = suc b.db.next_id } }

abbrev pub log_audit : Option ℕ → String → ℕ → Outcome → Book → Book
log_audit actor what target result b = record b {
  audits =
      (record { actor = actor; audit_action = what; target = target; result = result }) ∷ b.audits;
}

abbrev pub find_approval : ℕ → List Approval → Option Approval
find_approval id rows = find_row (λ (a : Approval). a.id) id rows

abbrev pub save_approval : Approval → List Approval → List Approval
save_approval a rows = save_row (λ (x : Approval). x.id) a rows

abbrev pub find_execution : ℕ → List Execution → Option Execution
find_execution id rows = find_row (λ (x : Execution). x.id) id rows

abbrev pub save_execution : Execution → List Execution → List Execution
save_execution x rows = save_row (λ (y : Execution). y.id) x rows

abbrev pub find_decision : ℕ → List Decision → Option Decision
find_decision id rows = find_row (λ (x : Decision). x.id) id rows

-- `_marketable_buy_price`
abbrev pub marketable_buy_price : Option MarketSnapshot → Option ℤ
marketable_buy_price none = none
marketable_buy_price (some s) = s.best_ask_price

-- `_marketable_sell_price`
abbrev pub marketable_sell_price : Option MarketSnapshot → Option ℤ
marketable_sell_price none = none
marketable_sell_price (some s) = s.best_bid_price

-- `_buy_quantity`: whole shares for the amount in won, rounded down
unfoldable pub buy_quantity : Option ℕ → Option ℤ → ℕ
buy_quantity (some amount) (some price) =
    if ltb_ℤ (pos 0) price then amount * 10_000 / pos_part price else 0
buy_quantity _ _ = 0

-- a price in ten-thousandths as a Decimal of four places
abbrev pub of_price : ℤ → Decimal
of_price p = record { negative = ltb 0 (neg_part p); coeff = pos_part p + neg_part p; scale = 4 }

abbrev pub limit_of : Option ℤ → Option Decimal
limit_of none = none
limit_of (some p) = some (of_price p)

-- the text of an action, as the column holds it
abbrev pub action_text : Action → String
action_text buy_action = "BUY"
action_text partial_sell = "PARTIAL_SELL"
action_text full_sell = "FULL_SELL"
action_text fixed_stop = "FIXED_STOP"
action_text (no_action s) = s
action_text (other_action s) = s

abbrev pub is_sale : Action → Bool
is_sale partial_sell = true
is_sale full_sell = true
is_sale _ = false

abbrev pub is_purchase : Action → Bool
is_purchase buy_action = true
is_purchase _ = false

abbrev pub side_of : Action → Side
side_of buy_action = buy
side_of _ = sell

abbrev pub snapshot_id_of : Option MarketSnapshot → Option ℕ
snapshot_id_of none = none
snapshot_id_of (some s) = some s.id

abbrev pub position_id_of : Option Position → Option ℕ
position_id_of none = none
position_id_of (some p) = some p.id

abbrev pub position_version_of : Option Position → Option ℕ
position_version_of none = none
position_version_of (some p) = some p.version
