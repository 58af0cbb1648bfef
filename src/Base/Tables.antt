-- ===== src/Base/Tables.antt =====
-- Tables as lists of rows with a number for a key.
use Prim.Native.Nat.{ℕ}
use mathlib.Core.Path.{◌≡◌, refl}
use mathlib.Core.Option.{Option, none, some}
use mathlib.Core.List.{List, [], ◌∷◌, ◌++◌}
use native.Mathlib.Omega.{arith}
use cresta.Base.Tests.{◌==◌, if◌then◌else◌}

module _ {ℓ} {A : Type ℓ} (key : A → ℕ) where
  unfoldable pub find_row : ℕ → List A → Option A
  find_row k [] = none
  find_row k (x ∷ xs) = if key x == k then some x else find_row k xs

  -- the row with the key of the given one, written back
  unfoldable pub save_row : A → List A → List A
  save_row x [] = []
  save_row x (y ∷ ys) = if key y == key x then x ∷ ys else y ∷ save_row x ys

  pub find-save_row :
      (k : ℕ) (x y : A) (xs : List A)
      → find_row (key x) xs ≡ some y
      → find_row k (save_row x xs) ≡ (if key x == k then some x else find_row k xs)
  unfolding find_row save_row
  find-save_row k x y [] e = cc
  find-save_row k x y (z ∷ zs) e = ground (arith, find-save_row k x y zs)

  -- the key of a row that is found
  pub find_row-key : (k : ℕ) (x : A) (xs : List A) → find_row k xs ≡ some x → key x ≡ k
  unfolding find_row
  find_row-key k x [] e = cc
  find_row-key k x (y ∷ ys) e = ground (arith, find_row-key k x ys)

  -- writing back a row that is not there changes nothing
  pub save_row_missing : (x : A) (xs : List A) → find_row (key x) xs ≡ none → save_row x xs ≡ xs
  unfolding find_row save_row
  save_row_missing x [] e = refl
  save_row_missing x (y ∷ ys) e = ground (arith, save_row_missing x ys)

  pub find_row-append :
      (k : ℕ) (x : A) (xs : List A)
      → find_row k (xs ++ x ∷ [])
        ≡ elim (find_row k xs) [ none ↦ if key x == k then some x else none | some y ↦ some y ]
  unfolding find_row
  find_row-append k x [] = refl
  find_row-append k x (y ∷ ys) = ground (arith, find_row-append k x ys)

  -- writing back the row that was added last
  pub save_row-append :
      (x y : A) (xs : List A)
      → find_row (key y) xs ≡ none
      → key x ≡ key y
      → save_row y (xs ++ x ∷ []) ≡ xs ++ y ∷ []
  unfolding find_row save_row
  save_row-append x y [] free same = ground arith
  save_row-append x y (z ∷ zs) free same = ground (arith, save_row-append x y zs)
