-- ===== src/Paper/Evolution/Rows.antt =====
-- The moves of an order that each call allows, and each change of one row by them.
use cresta.Base.{ℕ, ◌+◌, ◌≤◌, ◌<◌, ◌≡◌, ◌⊎◌, Bool, true, false, not, arith}
use cresta.Paper.Rows.{
  Status, opened, partially_filled, filled_up, cancel_pending, cancelled_out, replace_pending,
  replaced, reconciling, TradingOrder,
}
use cresta.Paper.Create.{with_status}
use cresta.Paper.Fills.{take_fill, status_after_fill, absorb, adjusted_status}
use cresta.Paper.Fills.Effects.{adjusted, filled_row}
use cresta.Paper.Change.{cancel_rest, is_working}
use cresta.Paper.Orders.Sound.{IsSound}

-- What a call does to one row: `own_fill` is a fill of the order itself, `parent_fill` one of the
-- order that it replaces.
pub data Cause : Type 0 where
  unconcerned cancel_requested cancel_confirmed replace_requested replacing : Cause
  own_fill parent_fill : Cause

-- An order that is done, with nothing left to work.
abbrev pub is_done : Status → Bool
is_done filled_up = true
is_done cancelled_out = true
is_done replaced = true
is_done _ = false

-- The moves of each call. Requests and their confirmations are those of section 3.3 of
-- docs/ORDER_STATE_MACHINE_SPEC.md. A fill of the order fills it up, or takes an order that
-- awaits nothing and is not done to PARTIALLY_FILLED or, where the rest is cancelled, CANCELLED.
-- A late fill of the order that it replaces sends it to RECONCILING, or takes an order that is not
-- done to the state of its quantities, which is never FILLED.
abbrev pub allowed : Cause → Status → Status → Bool
allowed cancel_requested opened cancel_pending = true
allowed cancel_requested partially_filled cancel_pending = true
allowed cancel_confirmed cancel_pending cancelled_out = true
allowed replace_requested opened replace_pending = true
allowed replace_requested partially_filled replace_pending = true
allowed replacing replace_pending replaced = true
allowed own_fill filled_up t = false
allowed own_fill s filled_up = true
allowed own_fill cancel_pending t = false
allowed own_fill replace_pending t = false
allowed own_fill cancelled_out t = false
allowed own_fill replaced t = false
allowed own_fill s partially_filled = true
allowed own_fill s cancelled_out = true
allowed parent_fill s reconciling = true
allowed parent_fill s cancelled_out = not (is_done s)
allowed parent_fill s partially_filled = not (is_done s)
allowed parent_fill opened opened = true
allowed parent_fill partially_filled opened = false
allowed parent_fill s opened = not (is_done s)
allowed cause s t = false

-- What a row keeps while it changes.
pub record Evolves (cause : Cause) (p o : TradingOrder) : Type 0 where
  pub same_id : o.id ≡ p.id
  pub same_parent : o.parent_order_id ≡ p.parent_order_id
  pub same_terms : o.terms ≡ p.terms
  pub same_key : o.idempotency_key ≡ p.idempotency_key
  pub same_requested : o.requested_quantity ≡ p.requested_quantity
  pub more_filled : p.filled_quantity ≤ o.filled_quantity
  pub later_version : p.version ≤ o.version
  pub along : (o.status ≡ p.status) ⊎ (allowed cause p.status o.status ≡ true)
  pub left_alone : cause ≡ unconcerned → o ≡ p

pub filled_row-Evolves :
    (q : ℕ) (o : TradingOrder)
    → IsSound o
    → 0 < q
    → q ≤ o.remaining_quantity + o.cancelled_quantity
    → Evolves own_fill o (filled_row q o)
unfolding take_fill status_after_fill
filled_row-Evolves q o s p le = ground arith

pub adjusted-Evolves :
    (late : ℕ) (c : TradingOrder) → IsSound c → 0 < late → Evolves parent_fill c (adjusted late c)
unfolding absorb adjusted_status
adjusted-Evolves late c s p = ground arith

pub closed-Evolves :
    (o : TradingOrder)
    → ((o.status ≡ cancel_pending)
        → Evolves cancel_confirmed o (with_status cancelled_out (cancel_rest o)))
      × ((o.status ≡ replace_pending) → Evolves replacing o (with_status replaced (cancel_rest o)))
closed-Evolves o = (λ e. ground arith, λ e. ground arith)

pub pending-Evolves :
    (o : TradingOrder)
    → is_working o.status ≡ true
    → Evolves cancel_requested o (with_status cancel_pending o)
      × Evolves replace_requested o (with_status replace_pending o)
pending-Evolves o w = ground arith

pub Evolves-refl : (cause : Cause) (o : TradingOrder) → Evolves cause o o
Evolves-refl cause o = ground arith
