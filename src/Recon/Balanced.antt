-- ===== src/Recon/Balanced.antt =====
-- The quantities of each order add up through a projection of the account
-- (backend/app/account_projection.py), as `ck_orders_quantity_invariant` demands.
use cresta.Base.{
  ◌+◌, ◌≤◌, ◌<◌, ◌≡◌, subst, Bool, true, false, not, ◌&&◌, ◌||◌, Option, none, some, List, String,
  ℕ, [], ◌∷◌, Result, returns, raises, ◌>>=◌, All, arith, if_by, ltb, leb,
}
use cresta.Paper.Rows.{TradingOrder, Fill}
use cresta.Paper.Store.Laws.{if_both, All-append, All-save_order, OfSome}
use cresta.Recon.Orders.{
  OpenOrder, BrokerFill, Imprint, Facts, AccountProjectionError, is_broker_order, find_broker,
  is_valid_open, imported_order, import_open_order, applied, same_order_state, revised, replace_row,
  project_open, project_open_orders,
}
use cresta.Recon.Fills.{
  timed, add_fill, fill_step, bookable, project_fills, with_total, project_total, filled_ids,
  fill_total, project_totals, with_cancel, total_or, cancel_row, cancel_known, project_cancels,
  project_rest, project_orders, is_open_id, is_cancel_pending,
}

abbrev pub IsBalanced : TradingOrder → Type 0
IsBalanced o =
    (0 < o.requested_quantity)
    × (o.requested_quantity ≡ o.filled_quantity + o.cancelled_quantity + o.remaining_quantity)

revised-IsBalanced : (c : Bool) (p : TradingOrder) → IsBalanced p → IsBalanced (revised c p)
revised-IsBalanced true p h = h
revised-IsBalanced false p h = h

All-find_broker :
    (id : ℕ) (os : List TradingOrder) → All IsBalanced os → OfSome IsBalanced (find_broker id os)
unfolding find_broker
All-find_broker id [] h = tt
All-find_broker id (x ∷ os) (hx, h) =
    if_both (OfSome IsBalanced) (is_broker_order id x) {x = some x} hx (All-find_broker id os h)

-- what a call returns, if it does
abbrev Yields : {A : Type 0} → (A → Type 0) → Result AccountProjectionError A → Type 0
Yields P (raises e) = Unit
Yields P (returns x) = P x

Yields-bind :
    {A B : Type 0} (P : A → Type 0) (Q : B → Type 0) (m : Result AccountProjectionError A)
    (next : A → Result AccountProjectionError B)
    → Yields P m
    → ((x : A) → P x → Yields Q (next x))
    → Yields Q (m >>= next)
Yields-bind P Q (raises e) next h k = tt
Yields-bind P Q (returns x) next h k = k x h

abbrev Kept : Facts → Type 0
Kept s = All IsBalanced s.orders

valid_open-IsBalanced :
    (b : OpenOrder) (o : TradingOrder) → is_valid_open b ≡ true → IsBalanced (applied b o)
unfolding applied
valid_open-IsBalanced b o valid = ground arith

imported-IsBalanced :
    (k : Imprint) (b : OpenOrder) (id : ℕ)
    → is_valid_open b ≡ true
    → IsBalanced (imported_order k b id)
imported-IsBalanced k b id valid = ground arith

with_total-IsBalanced :
    (total : ℕ) (o : TradingOrder)
    → total ≤ o.requested_quantity
    → IsBalanced o
    → IsBalanced (with_total total o)
with_total-IsBalanced total o le h = ground arith

with_cancel-IsBalanced :
    (total : ℕ) (o : TradingOrder)
    → total ≤ o.requested_quantity
    → IsBalanced o
    → IsBalanced (with_cancel total o)
with_cancel-IsBalanced total o le h = ground arith

replace_row-Kept :
    (o p : TradingOrder) (s : Facts) → Kept s → IsBalanced p → Kept (replace_row o p s)
replace_row-Kept o p s h balanced =
    All-save_order IsBalanced (revised (same_order_state o p) p) s.orders h
      (revised-IsBalanced (same_order_state o p) p balanced)

project_open-IsBalanced :
    (k : Imprint) (b : OpenOrder) (found : Option TradingOrder) (s : Facts)
    → is_valid_open b ≡ true
    → All IsBalanced s.orders
    → All IsBalanced (project_open k b found s).orders
unfolding project_open import_open_order
project_open-IsBalanced k b none s valid h =
    All-append IsBalanced s.orders (imported_order k b s.next_id) h
      (imported-IsBalanced k b s.next_id valid)
project_open-IsBalanced k b (some o) s valid h =
    replace_row-Kept o (applied b o) s h (valid_open-IsBalanced b o valid)

project_open_orders-Kept :
    (k : Imprint) (bs : List OpenOrder) (s : Facts)
    → Kept s
    → Yields Kept (project_open_orders k bs s)
unfolding project_open_orders
project_open_orders-Kept k [] s h = h
project_open_orders-Kept k (b ∷ bs) s h =
    if_by (Yields Kept) (is_valid_open b)
      (λ valid.
        project_open_orders-Kept k bs (project_open k b (find_broker b.broker_id s.orders) s)
          (project_open-IsBalanced k b (find_broker b.broker_id s.orders) s valid h))
      (λ invalid. tt)

timed-Yields : (time : Option ℕ) → Yields (λ (t : ℕ). Unit {0}) (timed time)
timed-Yields none = tt
timed-Yields (some t) = tt

add_fill-Kept :
    (k : Imprint) (f : BrokerFill) (o : TradingOrder) (key : String) (old : Option Fill) (s : Facts)
    → Kept s
    → Yields Kept (add_fill k f o key old s)
unfolding add_fill
add_fill-Kept k f o key (some old) s h = h
add_fill-Kept k f o key none s h =
    Yields-bind (λ (t : ℕ). Unit {0}) Kept (timed f.broker_time) _ (timed-Yields f.broker_time)
      (λ time u. h)

fill_step-Kept :
    (k : Imprint) (f : BrokerFill) (found : Option TradingOrder) (seen : List ℕ) (s : Facts)
    → Kept s
    → Yields (λ (x : List ℕ × Facts). Kept x.1) (fill_step k f found seen s)
fill_step-Kept k f none seen s h = h
fill_step-Kept k f (some o) seen s h =
    Yields-bind Kept (λ (x : List ℕ × Facts). Kept x.1) (add_fill k f o _ _ s) _
      (add_fill-Kept k f o _ _ s h) (λ t ht. ht)

project_fills-Kept :
    (k : Imprint) (all : List BrokerFill) (seen : List ℕ) (fs : List BrokerFill) (s : Facts)
    → Kept s
    → Yields Kept (project_fills k all seen fs s)
unfolding project_fills
project_fills-Kept k all seen [] s h = h
project_fills-Kept k all seen (f ∷ fs) s h =
    Yields-bind (λ (x : List ℕ × Facts). Kept x.1) Kept
      (fill_step k f (bookable all f.of_broker_id s.orders) seen s)
      (λ next. project_fills k all next.0 fs next.1)
      (fill_step-Kept k f (bookable all f.of_broker_id s.orders) seen s h)
      (λ next hn. project_fills-Kept k all next.0 fs next.1 hn)

project_total-Kept :
    (reported : List OpenOrder) (id total : ℕ) (found : Option TradingOrder) (s : Facts)
    → OfSome IsBalanced found
    → Kept s
    → Kept (project_total reported id total found s)
unfolding project_total
project_total-Kept reported id total none s f h = h
project_total-Kept reported id total (some o) s f h =
    if_by Kept
      (is_open_id reported id || (ltb o.requested_quantity total || is_cancel_pending o.status))
      (λ skipped. h)
      (λ taken.
        replace_row-Kept o (with_total total o) s h
          (with_total-IsBalanced total o (ground arith) f))

project_totals-Kept :
    (reported : List OpenOrder) (all : List BrokerFill) (ids : List ℕ) (s : Facts)
    → Kept s
    → Kept (project_totals reported all ids s)
unfolding project_totals
project_totals-Kept reported all [] s h = h
project_totals-Kept reported all (id ∷ ids) s h = project_totals-Kept reported all ids _ (
    project_total-Kept reported id (fill_total id all) (find_broker id s.orders) s
      (All-find_broker id s.orders h) h)

cancel_known-IsBalanced :
    (reported : List OpenOrder) (all : List BrokerFill) (id : Option ℕ) (o : TradingOrder)
    → IsBalanced o
    → IsBalanced (cancel_known reported all id o)
unfolding cancel_row
cancel_known-IsBalanced reported all none o h = h
cancel_known-IsBalanced reported all (some id) o h =
    let total = total_or all id o.filled_quantity in
    if_by IsBalanced
      (is_broker_order id o
        && (is_cancel_pending o.status
            && (not (is_open_id reported id) && leb total o.requested_quantity)))
      (λ taken.
        revised-IsBalanced (same_order_state o (with_cancel total o)) (with_cancel total o)
          (with_cancel-IsBalanced total o (ground arith) h))
      (λ skipped. h)

project_cancels-All :
    (reported : List OpenOrder) (all : List BrokerFill) (os : List TradingOrder)
    → All IsBalanced os
    → All IsBalanced (project_cancels reported all os)
unfolding project_cancels
project_cancels-All reported all [] h = tt
project_cancels-All reported all (o ∷ os) (ho, h) = (
  cancel_known-IsBalanced reported all o.broker_order_id o ho,
  project_cancels-All reported all os h,
)

-- A projection of the account that returns keeps the quantities of every order in balance: what is
-- requested is positive and is filled, cancelled and remaining together, whatever the broker
-- reports.
pub project_orders-IsBalanced :
    (k : Imprint) (reported : List OpenOrder) (all : List BrokerFill) (s t : Facts)
    → All IsBalanced s.orders
    → project_orders k reported all s ≡ returns t
    → All IsBalanced t.orders
unfolding project_orders project_rest
project_orders-IsBalanced k reported all s t h e =
    let rest : (u : Facts) → Kept u → Kept (project_rest reported all u) = λ u hu.
      project_cancels-All reported all (project_totals reported all (filled_ids all []) u).orders
        (project_totals-Kept reported all (filled_ids all []) u hu) in
    let whole : Yields Kept (project_orders k reported all s) =
      Yields-bind Kept Kept (project_open_orders k reported s)
        (λ v. project_fills k all [] all v >>= λ u. returns (project_rest reported all u))
        (project_open_orders-Kept k reported s h)
        (λ v hv.
          Yields-bind Kept Kept (project_fills k all [] all v)
            (λ u. returns (project_rest reported all u)) (project_fills-Kept k all [] all v hv)
            rest) in
    subst (Yields Kept) e whole
