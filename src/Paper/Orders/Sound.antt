-- ===== src/Paper/Orders/Sound.antt =====
-- One order row: its quantities add up, as `ck_orders_quantity_invariant` demands, and its status
-- agrees with them. Each change that the broker makes to a row keeps this.
use cresta.Base.{ℕ, ◌+◌, ◌≤◌, ◌<◌, min, ◌≡◌, Bool, true, false, arith}
use cresta.Paper.Rows.{
  opened, partially_filled, filled_up, cancel_pending, cancelled_out, replace_pending, replaced,
  TradingOrder, Db,
}
use cresta.Paper.Create.{set_status, submit, with_status}
use cresta.Paper.Fills.{take_fill, status_after_fill, absorb, adjusted_status}
use cresta.Paper.Change.{cancel_rest}

pub record IsSound (o : TradingOrder) : Type 0 where
  pub positive : 0 < o.requested_quantity
  pub balanced :
      o.requested_quantity ≡ o.filled_quantity + o.cancelled_quantity + o.remaining_quantity
  pub filled_in_full : o.status ≡ filled_up → o.filled_quantity ≡ o.requested_quantity
  pub cancelled_rest : o.status ≡ cancelled_out → o.remaining_quantity ≡ 0
  pub replaced_rest : o.status ≡ replaced → o.remaining_quantity ≡ 0
  pub partly_filled :
      o.status ≡ partially_filled → (0 < o.filled_quantity) × (0 < o.remaining_quantity)
  pub open_unfilled : o.status ≡ opened → (o.filled_quantity ≡ 0) × (0 < o.remaining_quantity)

pub take_fill-IsSound :
    (q : ℕ) (o : TradingOrder)
    → IsSound o
    → 0 < q
    → q ≤ o.remaining_quantity + o.cancelled_quantity
    → IsSound (with_status (status_after_fill o.status (take_fill q o)) (take_fill q o))
unfolding take_fill status_after_fill
take_fill-IsSound q o s p h = ground arith

pub absorb-IsSound :
    (late : ℕ) (o : TradingOrder)
    → IsSound o
    → 0 < late
    → IsSound (
        with_status
          (adjusted_status late (min late o.remaining_quantity) (absorb late o))
          (absorb late o))
unfolding absorb adjusted_status
absorb-IsSound late o s p = ground arith

-- An order that was just created keeps its quantities through `_submit`.
pub submit-IsSound :
    (lost : Bool) (o : TradingOrder) (db : Db)
    → 0 < o.remaining_quantity
    → o.filled_quantity ≡ 0
    → o.requested_quantity ≡ o.filled_quantity + o.cancelled_quantity + o.remaining_quantity
    → IsSound (submit lost o db).0
unfolding submit set_status
submit-IsSound true o db p f b = ground arith
submit-IsSound false o db p f b = ground arith

pub cancel_rest-IsSound :
    (o : TradingOrder)
    → IsSound o
    → IsSound (with_status cancelled_out (cancel_rest o))
      × IsSound (with_status replaced (cancel_rest o))
cancel_rest-IsSound o s = ground arith

pub pending-IsSound :
    (o : TradingOrder)
    → IsSound o
    → IsSound (with_status cancel_pending o) × IsSound (with_status replace_pending o)
pending-IsSound o s = ground arith
