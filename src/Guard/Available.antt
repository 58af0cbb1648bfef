-- ===== src/Guard/Available.antt =====
-- What a planned sale takes of the position (backend/app/decision_execution.py).
use native.Mathlib.Nat.{
  div-add-mod, mod-lt, one-le-pow, mul_comm, suc-mul, le_trans, mul-le-mul_left,
  le_of_mul-le-mul_right,
}
use cresta.Base.{
  ℕ, suc, ◌+◌, ◌*◌, ◌^◌, ◌≤◌, ◌<◌, ◌≡◌, ◌⊎◌, refl, true, false, Option, none, some, List, [], ◌∷◌,
  String, arith,
}
use cresta.Decimal.{Decimal}
use cresta.Paper.Rows.{TradingOrder, Position}
use cresta.Paper.Store.{reserved_quantity, find_position}
use cresta.Venue.Quote.{MarketSnapshot}
use cresta.Guard.Rules.{partial_sell, Decision}
use cresta.Guard.Sell.{
  account, is_ratio, sell_ratio, sellable_managed_quantity, has_active_symbol_order, part_of,
  planned_part, planned_quantity, sell_plan,
}

-- The planned quantity is the whole of what can be sold, its part by the ratio, or nothing.
abbrev pub IsPart : ℕ → ℕ → Decimal → Type 0
IsPart q n r = (q * 10 ^ r.scale ≤ n * r.coeff) × (n * r.coeff < suc q * 10 ^ r.scale)

part_of-IsPart : (n : ℕ) (r : Decimal) → IsPart (part_of n r) n r
part_of-IsPart n r =
    let positive : 0 < 10 ^ r.scale = one-le-pow r.scale 10 (omega arith) in
    omega (
      arith,
      div-add-mod (n * r.coeff) (10 ^ r.scale),
      mod-lt (n * r.coeff) positive,
      mul_comm (10 ^ r.scale) (part_of n r),
      suc-mul (part_of n r) (10 ^ r.scale),
    )

-- at most the whole
part_of-le : (n : ℕ) (r : Decimal) → is_ratio r ≡ true → part_of n r ≤ n
part_of-le n r h =
    let below : r.coeff ≤ 10 ^ r.scale = ground arith in
    le_of_mul-le-mul_right (le_trans (part_of-IsPart n r).0 (mul-le-mul_left n below))
      (one-le-pow r.scale 10 (omega arith))

-- a ratio that is used is within its bounds
sell_ratio-is_ratio : (d : Decision) (r : Decimal) → sell_ratio d ≡ some r → is_ratio r ≡ true
unfolding sell_ratio
sell_ratio-is_ratio d r h = ground arith

planned_part-le :
    (n : ℕ) (o : Option Decimal)
    → ((r : Decimal) → o ≡ some r → is_ratio r ≡ true)
    → planned_part n o ≤ n
planned_part-le n none h = omega arith
planned_part-le n (some r) h = part_of-le n r (h r refl)

planned_quantity-le : (d : Decision) (n : ℕ) → planned_quantity d n ≤ n
unfolding planned_quantity
planned_quantity-le d n = ground (arith, planned_part-le n (sell_ratio d) (sell_ratio-is_ratio d))

-- what the query for the reservations leaves of the position
sellable-le :
    (orders : List TradingOrder) (p : Position)
    → (sellable_managed_quantity orders (some p) ≡ 0)
      ⊎ ((sellable_managed_quantity orders (some p)
              + reserved_quantity p.account_alias p.symbol orders
            ≤ p.managed_quantity)
          × (sellable_managed_quantity orders (some p)
                + reserved_quantity p.account_alias p.symbol orders
              ≤ p.available_quantity))
unfolding sellable_managed_quantity
sellable-le orders p = omega arith

-- without an active order of the symbol nothing is reserved
pub inactive-reserved_quantity :
    (symbol : String) (orders : List TradingOrder)
    → has_active_symbol_order symbol orders ≡ false
    → reserved_quantity account symbol orders ≡ 0
unfolding has_active_symbol_order reserved_quantity
inactive-reserved_quantity symbol [] h = refl
inactive-reserved_quantity symbol (o ∷ os) h = ground (arith, inactive-reserved_quantity symbol os)

plan-IsPart :
    (d : Decision) (n : ℕ) (r : Decimal)
    → d.action ≡ partial_sell
    → sell_ratio d ≡ some r
    → IsPart (planned_quantity d n) n r
unfolding planned_quantity
plan-IsPart d n r e h =
    let planned : planned_quantity d n ≡ part_of n r = ground arith in
    rw planned (part_of-IsPart n r)

covered-le :
    (q n reserved managed available : ℕ)
    → q ≤ n
    → (n ≡ 0) ⊎ ((n + reserved ≤ managed) × (n + reserved ≤ available))
    → (q ≡ 0) ⊎ ((q + reserved ≤ managed) × (q + reserved ≤ available))
covered-le q n reserved managed available le h = omega arith

-- A planned sale takes no more than can be sold: the shares that are both managed and available
-- cover it together with what active sells hold back, or it is of none.
pub sell_plan-covered :
    (orders : List TradingOrder) (positions : List Position) (d : Decision)
    (snapshot : Option MarketSnapshot) (p : Position)
    → find_position account d.symbol positions ≡ some p
    → ((sell_plan orders positions d snapshot).quantity ≡ 0)
      ⊎ (((sell_plan orders positions d snapshot).quantity
              + reserved_quantity p.account_alias p.symbol orders
            ≤ p.managed_quantity)
          × ((sell_plan orders positions d snapshot).quantity
                + reserved_quantity p.account_alias p.symbol orders
              ≤ p.available_quantity))
unfolding sell_plan
sell_plan-covered orders positions d snapshot p e = rw e (
    covered-le _ _ _ _ _ (planned_quantity-le d (sellable_managed_quantity orders (some p)))
      (sellable-le orders p))

-- A partial sale by a valid ratio takes that part of what can be sold, rounded down.
pub sell_plan-IsPart :
    (orders : List TradingOrder) (positions : List Position) (d : Decision)
    (snapshot : Option MarketSnapshot) (r : Decimal)
    → d.action ≡ partial_sell
    → sell_ratio d ≡ some r
    → IsPart
        (sell_plan orders positions d snapshot).quantity
        (sell_plan orders positions d snapshot).sellable_quantity
        r
unfolding sell_plan
sell_plan-IsPart orders positions d snapshot r e h =
    plan-IsPart d (sell_plan orders positions d snapshot).sellable_quantity r e h
