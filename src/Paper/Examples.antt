-- ===== src/Paper/Examples.antt =====
-- A day at the broker of backend/app/trading/paper.py: the gate opens, a buy is placed, filled in
-- part, replaced and filled late; a sell follows. The theorems at these databases.
use cresta.Base.{
  ℕ, suc, ◌+◌, ◌-◌, ◌≤◌, ◌<◌, ◌≡◌, refl, inl, inr, Bool, true, false, not, ◌&&◌, Option, none, some,
  List, [], ◌∷◌, ◌++◌, String, arith, if◌then◌else◌, leb, ltb, ◌==◌, str_eq, Result, returns,
  raises,
}
use cresta.Decimal.{Decimal, quantize, ten_thousandths, half_up}
use cresta.Paper.Rows.{
  OrderRequest, Payload, order_payload, replacement_payload, TradingOrder, Side, buy, sell, limit,
  ready, opened, replaced, filled_up, partially_filled, Fill, Db, Settings, Platform, PaperError,
}
mod Witnesses
mod Emptied
use mathlib.Core.Bool.{false≢true}
use cresta.Paper.Store.{
  find_order, find_fill, find_child, save_order, save_position, find_key, find_gate, find_position,
  has_locked, reserved_quantity, log_event, fresh_id,
}
use cresta.Paper.Create.{
  create_paper_order, set_paper_gate, validate_request, is_mock, is_symbol, is_ready, insert_order,
  submit, set_status, request_hash,
}
use cresta.Paper.Fills.{
  FillReport, apply_paper_fill, check_fill, book_fill, record_fill, finish_fill, apply_position,
  change_position, take_fill, status_after_fill, adjust_child, absorb, adjusted_status,
}
use cresta.Paper.Change.{
  move_to, request_paper_cancel, confirm_paper_cancel, request_paper_replace, replace_paper_order,
}
use cresta.Paper.Steps.{empty_db}

-- a hash by the quantity alone
abbrev toy_digest : Payload → ℕ
toy_digest (order_payload account action price market type quantity side symbol date) = quantity
toy_digest (replacement_payload parent price quantity) = quantity

abbrev platform : Platform
platform = record { digest = toy_digest; is_digit = λ c. leb b'0' c && leb c b'9' }

abbrev settings : Settings
settings = record { environment = "mock"; live_trading_enabled = false }

abbrev won : ℕ → Decimal
won n = record { negative = false; coeff = n; scale = 0 }

abbrev request : String → Side → ℕ → OrderRequest
request key side quantity = record {
  symbol = "005930";
  side = side;
  quantity = quantity;
  order_type = limit;
  limit_price = some (won 70000);
  idempotency_key = key;
  correlation_id = "c-1";
  market = "KRX";
  account_alias = "PAPER";
  action = "USER_REQUEST";
  trading_date = some 739000;
}

abbrev report : String → ℕ → ℕ → FillReport
report key order_id quantity = record {
  order_id = order_id;
  source_key = key;
  quantity = quantity;
  price = won 69900;
  fee = won 0;
  tax = won 0;
  filled_at = 1;
}

abbrev is_ok : {A : Type 0} → Result PaperError A → Bool
is_ok (returns a) = true
is_ok (raises e) = false

-- a call that succeeds, with what it returns
abbrev succeeded :
    {A : Type 0} (r : Result PaperError A) → is_ok r ≡ true → (a : A) × (r ≡ returns a)
succeeded (returns a) h = (a, refl)
succeeded (raises e) h = absurd (false≢true h)

abbrev open_day : Db
open_day = record empty_db {
  gates =
      record {
        account_alias = "PAPER";
        environment = "MOCK";
        status = ready;
        reason = "RECONCILED";
        version = 1;
      }
      ∷ [];
}

opening : set_paper_gate ready "RECONCILED" empty_db ≡ some open_day
unfolding set_paper_gate find_gate
opening = refl

abbrev buy_request : OrderRequest
buy_request = request "order-1" buy 10

bought :
    (x : TradingOrder × Db) × (create_paper_order platform settings 739000 false buy_request
        open_day open_day
      ≡ returns x)
unfolding create_paper_order find_key validate_request is_mock is_symbol is_ready find_gate
    has_locked find_position reserved_quantity insert_order submit set_status log_event fresh_id
    request_hash quantize str_eq
bought = succeeded _ refl

abbrev bought_day : Db
bought_day = bought.0.1

abbrev order_in : ℕ → Db → TradingOrder
order_in id db = elim (find_order id db.orders) [ none ↦ bought.0.0 | some o ↦ o ]

part_filled :
    (x : TradingOrder × Bool × Db) × (apply_paper_fill (report "f-1" 2 4) bought_day ≡ returns x)
unfolding bought apply_paper_fill find_fill find_order check_fill book_fill record_fill finish_fill
    apply_position change_position take_fill status_after_fill ten_thousandths half_up find_position
    save_position save_order set_status log_event fresh_id str_eq
part_filled = succeeded _ refl

abbrev part_day : Db
part_day = part_filled.0.2

asked : (x : TradingOrder × Db) × (request_paper_replace 2 part_day ≡ returns x)
unfolding part_filled request_paper_replace find_order move_to save_order set_status log_event
asked = succeeded _ refl

abbrev asked_day : Db
asked_day = asked.0.1

replaced_order :
    (x : TradingOrder × Db) × (replace_paper_order platform 2 (won 70100) "order-1-r" asked_day
      ≡ returns x)
unfolding asked replace_paper_order find_key find_order move_to save_order submit set_status
    log_event fresh_id quantize str_eq
replaced_order = succeeded _ refl

abbrev replaced_day : Db
replaced_day = replaced_order.0.1

-- the original of the replacement, after it was replaced
abbrev original : TradingOrder
original = order_in 2 replaced_day

abbrev child : TradingOrder
child = order_in replaced_order.0.0.id replaced_day

late_filled :
    (x : TradingOrder × Bool × Db) × (book_fill (report "f-2" 2 3) original replaced_day
      ≡ returns x)
unfolding replaced_order book_fill record_fill finish_fill adjust_child find_child find_order absorb
    adjusted_status apply_position change_position take_fill status_after_fill ten_thousandths
    half_up find_position save_position save_order set_status log_event fresh_id str_eq
late_filled = succeeded _ refl

-- the replacement's cancel is asked for before the late fill
asked_cancel : (x : TradingOrder × Db) × (request_paper_cancel 6 replaced_day ≡ returns x)
unfolding replaced_order request_paper_cancel find_order move_to save_order set_status log_event
asked_cancel = succeeded _ refl

abbrev cancel_day : Db
cancel_day = asked_cancel.0.1

abbrev pending_child : TradingOrder
pending_child = order_in 6 cancel_day

late_after_cancel :
    (x : TradingOrder × Bool × Db) × (book_fill (report "f-2" 2 3) original cancel_day ≡ returns x)
unfolding asked_cancel book_fill record_fill finish_fill adjust_child find_child find_order absorb
    adjusted_status apply_position change_position take_fill status_after_fill ten_thousandths
    half_up find_position save_position save_order set_status log_event fresh_id str_eq
late_after_cancel = succeeded _ refl

-- three of the four shares are sold
abbrev sell_request : OrderRequest
sell_request = request "order-2" sell 3

sold_order :
    (x : TradingOrder × Db) × (create_paper_order platform settings 739000 false sell_request
        part_day part_day
      ≡ returns x)
unfolding part_filled create_paper_order find_key validate_request is_mock is_symbol is_ready
    find_gate has_locked find_position reserved_quantity insert_order submit set_status log_event
    fresh_id request_hash quantize str_eq
sold_order = succeeded _ refl

abbrev sell_day : Db
sell_day = sold_order.0.1

sell_filled :
    (x : TradingOrder × Bool × Db) × (apply_paper_fill (report "f-3" sold_order.0.0.id 2) sell_day
      ≡ returns x)
unfolding sold_order apply_paper_fill find_fill find_order check_fill book_fill record_fill
    finish_fill apply_position change_position take_fill status_after_fill ten_thousandths half_up
    find_position save_position save_order set_status log_event fresh_id str_eq
sell_filled = succeeded _ refl
