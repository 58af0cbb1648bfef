-- ===== src/Base/Raising.antt =====
-- A call that returns a value or raises. What was not committed when it raises is lost, so an
-- error carries no state.
use mathlib.Core.Path.{◌≡◌, refl}
use mathlib.Core.Logic.{◌⊎◌, inl, inr}
use mathlib.Core.Bool.{Bool, true, false}

pub data Result (E : Type 0) (A : Type 0) : Type 0 where
  returns : A → Result E A
  raises : E → Result E A

infixl 5 ◌>>=◌ ◌>>◌
abbrev pub ◌>>=◌ : {E A B : Type 0} → Result E A → (A → Result E B) → Result E B
returns value >>= next = next value
raises error >>= next = raises error

abbrev pub ◌>>◌ : {E B : Type 0} → Result E (Unit {0}) → Result E B → Result E B
m >> k = m >>= λ _. k

-- `if c: raise e`
abbrev pub raise_if : {E : Type 0} → Bool → E → Result E (Unit {0})
raise_if true e = raises e
raise_if false e = returns tt

-- A successful bind, taken apart.
pub >>=-eq-returns :
    {E A B : Type 0} (call : Result E A) (next : A → Result E B) {b : B}
    → (call >>= next) ≡ returns b
    → (value : A) × (call ≡ returns value) × (next value ≡ returns b)
>>=-eq-returns (returns value) next h = (value, refl, h)
>>=-eq-returns (raises error) next h = cc

pub >>-eq-returns :
    {E B : Type 0} (m : Result E (Unit {0})) (k : Result E B) {b : B}
    → (m >> k) ≡ returns b
    → k ≡ returns b
>>-eq-returns (returns a) k h = h
>>-eq-returns (raises e) k h = cc

pub raise_if-eq-returns :
    {E : Type 0} (c : Bool) (e : E) {u : Unit {0}} → raise_if c e ≡ returns u → c ≡ false
raise_if-eq-returns true e h = cc
raise_if-eq-returns false e h = refl

-- A call that raises nothing returns.
pub returns_of_no_raises :
    {E A : Type 0} (r : Result E A) → ((e : E) → ¬ (r ≡ raises e)) → (a : A) × (r ≡ returns a)
returns_of_no_raises (returns a) h = (a, refl)
returns_of_no_raises (raises e) h = absurd (h e refl)

pub Result-cases :
    {E A : Type 0} (r : Result E A) → ((a : A) × (r ≡ returns a)) ⊎ ((e : E) × (r ≡ raises e))
Result-cases (returns a) = inl (a, refl)
Result-cases (raises e) = inr (e, refl)
