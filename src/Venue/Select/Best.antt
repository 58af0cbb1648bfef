-- ===== src/Venue/Select/Best.antt =====
-- The venue that `_choose_dual` picks is the best one.
use cresta.Base.{ℕ, ◌≡◌, ◌⊎◌, refl, true, some, arith}
use cresta.Base.Int.{ℤ, ◌≤ℤ◌, ◌<ℤ◌}
use cresta.Venue.Quote.{
  TradeSide, buying, selling, VenueQuote, price, quantity, quote_valid, valid_offer,
}
use cresta.Venue.Select.{
  Urgency, normal, emergency, Venue, krx, nxt, Reason, choose_by, choose_known, choose_dual,
}

-- the first price is no worse than the second
abbrev pub IsNoWorse : TradeSide → ℤ → ℤ → Type 0
IsNoWorse buying a b = a ≤ℤ b
IsNoWorse selling a b = b ≤ℤ a

-- the first price is better than the second
abbrev pub IsBetter : TradeSide → ℤ → ℤ → Type 0
IsBetter buying a b = a <ℤ b
IsBetter selling a b = b <ℤ a

-- What the choice promises of the chosen offer (`p`, `q`) against the other (`p'`, `q'`): by
-- default a better price or, at one price, no smaller quantity; in an emergency a greater quantity
-- or, at one quantity, no worse a price.
abbrev pub IsBest : TradeSide → Urgency → ℤ → ℤ → ℤ → ℤ → Type 0
IsBest side normal p q p' q' = IsBetter side p p' ⊎ ((p ≡ p') × (q' ≤ℤ q))
IsBest side emergency p q p' q' = (q' <ℤ q) ⊎ ((q ≡ q') × IsNoWorse side p p')

choose_by-IsBest :
    (side : TradeSide) (urgency : Urgency) (kp np kq nq : ℤ) (venue : Venue) (reason : Reason)
    → choose_by side urgency kp np kq nq ≡ (venue, reason)
    → ((venue ≡ krx) × IsBest side urgency kp kq np nq)
      ⊎ ((venue ≡ nxt) × IsBest side urgency np nq kp kq)
unfolding choose_by
choose_by-IsBest buying normal kp np kq nq venue reason h = ground arith
choose_by-IsBest selling normal kp np kq nq venue reason h = ground arith
choose_by-IsBest buying emergency kp np kq nq venue reason h = ground arith
choose_by-IsBest selling emergency kp np kq nq venue reason h = ground arith

known_offers :
    (k n : VenueQuote) (side : TradeSide) (urgency : Urgency) (kp np kq nq : ℤ)
    → price k side ≡ some kp
    → price n side ≡ some np
    → quantity k side ≡ some kq
    → quantity n side ≡ some nq
    → choose_dual k n side urgency ≡ some (choose_by side urgency kp np kq nq)
unfolding choose_dual choose_known
known_offers k n side urgency kp np kq nq a b c d = rw (a, b, c, d)

-- Of two valid quotes `_choose_dual` picks one: in a NORMAL request the one with the better price
-- or, at the same price, with no smaller a quantity; in an EMERGENCY the one with the greater
-- quantity or, at the same quantity, with no worse a price. A price is better for a buyer if it is lower, for a seller if it is higher.
pub choose_dual-IsBest :
    (k n : VenueQuote) (side : TradeSide) (urgency : Urgency) (now age : ℕ)
    → quote_valid (some k) side now age ≡ true
    → quote_valid (some n) side now age ≡ true
    → (kp np kq nq : ℤ) × (price k side ≡ some kp)
      × (price n side ≡ some np)
      × (quantity k side ≡ some kq)
      × (quantity n side ≡ some nq)
      × (venue : Venue) × (reason : Reason) × (choose_dual k n side urgency ≡ some (venue, reason))
      × (((venue ≡ krx) × IsBest side urgency kp kq np nq)
          ⊎ ((venue ≡ nxt) × IsBest side urgency np nq kp kq))
choose_dual-IsBest k n side urgency now age kv nv =
    let (kp, kq, k_price, k_quantity) = valid_offer k side now age kv in
    let (np, nq, n_price, n_quantity) = valid_offer n side now age nv in
    (
      _,
      _,
      _,
      _,
      k_price,
      n_price,
      k_quantity,
      n_quantity,
      _,
      _,
      known_offers k n side urgency _ _ _ _ k_price n_price k_quantity n_quantity,
      choose_by-IsBest side urgency _ _ _ _ _ _ refl,
    )
