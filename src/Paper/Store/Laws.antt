-- ===== src/Paper/Store/Laws.antt =====
-- Laws of the tables: what a search finds satisfies what the table does, and a row written back
-- or added keeps it.
use cresta.Base.{
  ℕ, ◌≡◌, Bool, true, false, Option, none, some, List, [], ◌∷◌, ◌++◌, String, ◌==◌, if◌then◌else◌,
  subst, str_eq, All,
}
use cresta.Paper.Rows.{TradingOrder}
use cresta.Paper.Store.{find_order, save_order, find_key, find_child, is_child_of, later_child}

-- What holds of both branches holds of the conditional.
pub if_both :
    {A : Type 0} (M : A → Type 0) (b : Bool) {x y : A} → M x → M y → M (if b then x else y)
if_both M true p q = p
if_both M false p q = q

pub All-append :
    {A : Type 0} (P : A → Type 0) (xs : List A) (x : A) → All P xs → P x → All P (xs ++ x ∷ [])
All-append P [] x h p = (p, tt)
All-append P (y ∷ ys) x h p = (h.0, All-append P ys x h.1 p)

-- What holds of every row, of the row that a query returns.
abbrev pub OfSome : {A : Type 0} → (A → Type 0) → Option A → Type 0
OfSome P none = Unit
OfSome P (some a) = P a

pub OfSome-some :
    {A : Type 0} (P : A → Type 0) {o : Option A} {a : A} → OfSome P o → o ≡ some a → P a
OfSome-some P h e = subst (OfSome P) e h

module _ (P : TradingOrder → Type 0) where
  pub All-save_order :
      (o : TradingOrder) (os : List TradingOrder) → All P os → P o → All P (save_order o os)
  unfolding save_order
  All-save_order o [] h p = tt
  All-save_order o (x ∷ os) h p =
      if_both (All P) (o.id == x.id) (p, h.1) (h.0, All-save_order o os h.1 p)

  pub All-find_order : (id : ℕ) (os : List TradingOrder) → All P os → OfSome P (find_order id os)
  unfolding find_order
  All-find_order id [] h = tt
  All-find_order id (x ∷ os) h = if_both (OfSome P) (id == x.id) h.0 (All-find_order id os h.1)

  pub All-find_key : (key : String) (os : List TradingOrder) → All P os → OfSome P (find_key key os)
  unfolding find_key
  All-find_key key [] h = tt
  All-find_key key (x ∷ os) h =
      if_both (OfSome P) (str_eq x.idempotency_key key) h.0 (All-find_key key os h.1)

  later_child-of :
      (x : TradingOrder) (rest : Option TradingOrder) → P x → OfSome P rest → P (later_child x rest)
  later_child-of x none p q = p
  later_child-of x (some y) p q = if_both P _ q p

  pub All-find_child : (id : ℕ) (os : List TradingOrder) → All P os → OfSome P (find_child id os)
  unfolding find_child
  All-find_child id [] h = tt
  All-find_child id (x ∷ os) h =
      let rest = All-find_child id os h.1 in
      if_both (OfSome P) (is_child_of id x) (later_child-of x (find_child id os) h.0 rest) rest
