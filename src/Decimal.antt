-- ===== src/Decimal.antt =====
-- Python's `Decimal` as the services use it: backend/app/trading/paper.py (`PRICE_QUANTUM`,
-- `quantize`) and the roundings that its callers name.
mod Rounding
unfoldable pub use Rounding.*
use cresta.Base.{ℕ, ◌-◌, ◌*◌, ◌^◌, Bool, not, ◌&&◌, ltb, leb, ◌||◌, ◌==◌, if◌then◌else◌}

-- sign, digits and exponent: `coeff` times ten to the power of minus `scale`
pub record Decimal : Type 0 where
  pub negative : Bool
  pub coeff : ℕ
  pub scale : ℕ

-- `x > 0`
abbrev pub is_positive : Decimal → Bool
is_positive x = not x.negative && ltb 0 x.coeff

-- `x < 0`
abbrev pub is_negative : Decimal → Bool
is_negative x = x.negative && ltb 0 x.coeff

-- the magnitude of `x.quantize(Decimal("0.0001"))`, in ten-thousandths
unfoldable pub ten_thousandths : Decimal → ℕ
ten_thousandths x =
    if leb x.scale 4 then x.coeff * 10 ^ (4 - x.scale) else half_even x.coeff (10 ^ (x.scale - 4))

-- `x.quantize(PRICE_QUANTUM)`: the sign is kept
unfoldable pub quantize : Decimal → Decimal
unfolding ten_thousandths
quantize x = record { negative = x.negative; coeff = ten_thousandths x; scale = 4 }

-- `stored == x.quantize(PRICE_QUANTUM)` for a stored number of ten-thousandths
unfoldable pub equals_quantized : ℕ → Decimal → Bool
unfolding ten_thousandths
equals_quantized stored x = stored == ten_thousandths x && (not x.negative || stored == 0)
