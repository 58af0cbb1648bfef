-- ===== src/Orders/Examples.antt =====
-- A purchase of seven shares, requested twice, and the theorems on `create_order` there.
use cresta.Base.{◌≡◌, refl, false, some, [], returns, str_eq}
use cresta.Decimal.{Decimal}
use cresta.Paper.Rows.{buy, limit, Db, TradingOrder}
use cresta.Paper.Store.{find_key}
use cresta.Orders.{CreationRequest, Book, validate_order, add_order, create_order, new_order}
use cresta.Orders.Creation.{AreKept, create_order-AreKept}

abbrev price : Decimal
price = record { negative = false; coeff = 710_000_000; scale = 4 }

abbrev seven : CreationRequest
seven = record {
  symbol = "005930";
  market = "KRX";
  side = buy;
  action = "BUY";
  order_type = limit;
  limit_price = some price;
  quantity = 7;
  idempotency_key = "auto-buy:3";
  fingerprint = 77;
  correlation_id = "c";
}

abbrev db : Db
db = record {
  intents = [];
  orders = [];
  fills = [];
  positions = [];
  gates = [];
  order_events = [];
  position_events = [];
  next_id = 1;
}

abbrev book : Book
book = record { db = db; policies = []; audits = [] }

abbrev row : TradingOrder
row = new_order 1 seven 739_678

abbrev after : Book
after = (add_order 9 seven "TEST" 739_678 book).1

created_once : create_order 9 seven "TEST" 739_678 [] book ≡ returns (row, after)
unfolding create_order validate_order find_key add_order str_eq
created_once = refl

create_order-AreKept_example : AreKept after.db.orders
create_order-AreKept_example =
    (create_order-AreKept 9 seven "TEST" 739_678 [] book after row created_once (tt, tt)).0
