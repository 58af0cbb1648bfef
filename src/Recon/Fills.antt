-- ===== src/Recon/Fills.antt =====
-- The projection of the reported fills, of what they add up to and of cancels that are done, the
-- later loops of `apply_broker_account_projection` in backend/app/account_projection.py.
use cresta.Base.{
  ℕ, suc, ◌+◌, ◌-◌, Bool, true, false, not, ◌&&◌, ◌||◌, Option, none, some, List, [], ◌∷◌, ◌++◌,
  String, Result, returns, raises, ◌>>=◌, ltb, leb, ◌==◌, if◌then◌else◌, any,
}
use cresta.Paper.Rows.{
  Status, filled_up, cancelled_out, cancel_pending, reconciling, TradingOrder, Fill,
}
use cresta.Paper.Store.{find_fill}
use cresta.Recon.Orders.{
  OpenOrder, BrokerFill, Imprint, Facts, AccountProjectionError, is_broker_order, find_broker,
  same_order_state, revised, replace_row, project_open_orders, invalid_order_time,
}

-- `fill_totals.get(broker_id, 0)`
unfoldable pub fill_total : ℕ → List BrokerFill → ℕ
fill_total id [] = 0
fill_total id (f ∷ fs) = (if f.of_broker_id == id then f.quantity else 0) + fill_total id fs

unfoldable pub count_of : ℕ → List ℕ → ℕ
count_of n [] = 0
count_of n (m ∷ ms) = if m == n then suc (count_of n ms) else count_of n ms

abbrev pub timed : Option ℕ → Result AccountProjectionError ℕ
timed none = raises invalid_order_time
timed (some t) = returns t

abbrev pub imported_fill : Imprint → BrokerFill → TradingOrder → String → ℕ → ℕ → Fill
imported_fill k f o key id time = record {
  id = id;
  order_id = o.id;
  broker_fill_key = key;
  quantity = f.quantity;
  price = f.price;
  fee = f.fee;
  tax = f.tax;
  filled_at = time;
}

-- a fill whose key no row has
unfoldable pub add_fill :
    Imprint
    → BrokerFill
    → TradingOrder
    → String
    → Option Fill
    → Facts
    → Result AccountProjectionError Facts
add_fill k f o key (some old) s = returns s
add_fill k f o key none s = timed f.broker_time >>= λ time. returns (record s {
  fills = s.fills ++ imported_fill k f o key s.next_id time ∷ [];
  next_id = suc s.next_id;
  imported_fills = suc s.imported_fills;
})

-- the order that a fill is booked on: one that is known and not overfilled by the report
unfoldable pub bookable : List BrokerFill → ℕ → List TradingOrder → Option TradingOrder
unfolding find_broker fill_total
bookable all id orders = elim (find_broker id orders) [
  | none ↦ none
  | some o ↦ if ltb o.requested_quantity (fill_total id all) then none else some o
]

abbrev pub fill_step :
    Imprint
    → BrokerFill
    → Option TradingOrder
    → List ℕ
    → Facts
    → Result AccountProjectionError (List ℕ × Facts)
fill_step k f none seen s = returns (seen, s)
fill_step k f (some o) seen s =
    let key = k.fill_key f.identity (count_of f.identity seen) in
    add_fill k f o key (find_fill key s.fills) s >>= λ t. returns (f.identity ∷ seen, t)

-- the loop that imports the fills; `seen` are the identities counted so far
unfoldable pub project_fills :
    Imprint
    → List BrokerFill
    → List ℕ
    → List BrokerFill
    → Facts
    → Result AccountProjectionError Facts
unfolding bookable add_fill count_of
project_fills k all seen [] s = returns s
project_fills k all seen (f ∷ fs) s =
    fill_step k f (bookable all f.of_broker_id s.orders) seen s >>= λ next.
    project_fills k all next.0 fs next.1

abbrev pub is_open_id : List OpenOrder → ℕ → Bool
is_open_id reported id = any (λ (b : OpenOrder). b.broker_id == id) reported

abbrev pub is_cancel_pending : Status → Bool
is_cancel_pending cancel_pending = true
is_cancel_pending _ = false

-- the row with what its fills add up to
abbrev pub with_total : ℕ → TradingOrder → TradingOrder
with_total total o =
    if total == o.requested_quantity
    then record o {
      filled_quantity = total;
      cancelled_quantity = 0;
      remaining_quantity = 0;
      status = filled_up;
    }
    else if ltb 0 total
    then record o {
      filled_quantity = total;
      cancelled_quantity = 0;
      remaining_quantity = o.requested_quantity - total;
      status = reconciling;
    }
    else o

-- an order that is not reported as open, by the total of its fills
unfoldable pub project_total : List OpenOrder → ℕ → ℕ → Option TradingOrder → Facts → Facts
project_total reported id total none s = s
project_total reported id total (some o) s =
    if is_open_id reported id || (ltb o.requested_quantity total || is_cancel_pending o.status)
    then s
    else replace_row o (with_total total o) s

-- the keys of `fill_totals`
unfoldable pub filled_ids : List BrokerFill → List ℕ → List ℕ
filled_ids [] seen = []
filled_ids (f ∷ fs) seen =
    let fresh = f.of_broker_id ∷ filled_ids fs (f.of_broker_id ∷ seen) in
    let known = filled_ids fs seen in if any (λ n. n == f.of_broker_id) seen then known else fresh

unfoldable pub project_totals : List OpenOrder → List BrokerFill → List ℕ → Facts → Facts
unfolding project_total
project_totals reported all [] s = s
project_totals reported all (id ∷ ids) s =
    project_totals reported all ids
      (project_total reported id (fill_total id all) (find_broker id s.orders) s)

-- `fill_totals.get(broker_id, order.filled_quantity)`
abbrev pub total_or : List BrokerFill → ℕ → ℕ → ℕ
total_or all id filled =
    if any (λ (f : BrokerFill). f.of_broker_id == id) all then fill_total id all else filled

abbrev pub with_cancel : ℕ → TradingOrder → TradingOrder
with_cancel total o = record o {
  filled_quantity = total;
  remaining_quantity = 0;
  cancelled_quantity = o.requested_quantity - total;
  status = if total == o.requested_quantity then filled_up else cancelled_out;
}

-- an order of the account that awaits its cancel and is no longer reported as open
unfoldable pub cancel_row : List OpenOrder → List BrokerFill → ℕ → TradingOrder → TradingOrder
cancel_row reported all id o =
    let total = total_or all id o.filled_quantity in
    let p = with_cancel total o in
    if is_broker_order id o
      && (is_cancel_pending o.status
          && (not (is_open_id reported id) && leb total o.requested_quantity))
    then revised (same_order_state o p) p
    else o

abbrev pub cancel_known : List OpenOrder → List BrokerFill → Option ℕ → TradingOrder → TradingOrder
cancel_known reported all none o = o
cancel_known reported all (some id) o = cancel_row reported all id o

-- the last loop of `apply_broker_account_projection`, without its counter
unfoldable pub project_cancels :
    List OpenOrder → List BrokerFill → List TradingOrder → List TradingOrder
unfolding cancel_row
project_cancels reported all [] = []
project_cancels reported all (o ∷ os) =
    cancel_known reported all o.broker_order_id o ∷ project_cancels reported all os

-- the loops over the totals and the cancels
unfoldable pub project_rest : List OpenOrder → List BrokerFill → Facts → Facts
unfolding project_totals project_cancels filled_ids
project_rest reported all s =
    let t = project_totals reported all (filled_ids all []) s in
    record t { orders = project_cancels reported all t.orders }

-- `apply_broker_account_projection` without the positions
unfoldable pub project_orders :
    Imprint → List OpenOrder → List BrokerFill → Facts → Result AccountProjectionError Facts
unfolding project_open_orders project_fills project_rest
project_orders k reported all s = do
  t ← project_open_orders k reported s
  u ← project_fills k all [] all t
  returns (project_rest reported all u)
