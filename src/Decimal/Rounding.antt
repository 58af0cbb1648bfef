-- ===== src/Decimal/Rounding.antt =====
-- The rounding modes of Python's `Decimal`: ROUND_HALF_EVEN, the default of `quantize`, and
-- ROUND_HALF_UP, which backend/app/trading/paper.py names for average prices.
use native.Mathlib.Nat.{div-add-mod, mod-lt, mul-add}
use cresta.Base.{ℕ, ◌+◌, ◌*◌, ◌/◌, ◌%◌, ◌≤◌, ◌<◌, arith, ltb, leb, ◌==◌, if◌then◌else◌}

-- `n / d` to the nearest whole number, ties to the even one
unfoldable pub half_even : ℕ → ℕ → ℕ
half_even n d =
    let q = n / d in
    let r = n % d in
    if ltb (2 * r) d then q else if ltb d (2 * r) then q + 1 else if q % 2 == 0 then q else q + 1

-- `n / d` to the nearest whole number, ties away from zero
unfoldable pub half_up : ℕ → ℕ → ℕ
half_up n d = if leb d (2 * (n % d)) then n / d + 1 else n / d

-- Within half a unit of the exact quotient, on either side.
abbrev pub IsNearest : ℕ → ℕ → ℕ → Type 0
IsNearest r n d = (2 * n ≤ 2 * (d * r) + d) × (2 * (d * r) ≤ 2 * n + d)

-- A rounding up or down by the remainder is nearest where it follows the half.
IsNearest-down : (n d : ℕ) → 0 < d → 2 * (n % d) ≤ d → IsNearest (n / d) n d
IsNearest-down n d h le = omega (arith, div-add-mod n d, mod-lt n h)

IsNearest-up : (n d : ℕ) → 0 < d → d ≤ 2 * (n % d) → IsNearest (n / d + 1) n d
IsNearest-up n d h le = omega (arith, div-add-mod n d, mod-lt n h, mul-add d (n / d) 1)

pub half_even-IsNearest : (n d : ℕ) → 0 < d → IsNearest (half_even n d) n d
unfolding half_even
half_even-IsNearest n d h = grind (arith, IsNearest-down n d h, IsNearest-up n d h)

pub half_up-IsNearest : (n d : ℕ) → 0 < d → IsNearest (half_up n d) n d
unfolding half_up
half_up-IsNearest n d h = grind (arith, IsNearest-down n d h, IsNearest-up n d h)
