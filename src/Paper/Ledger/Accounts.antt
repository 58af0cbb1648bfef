-- ===== src/Paper/Ledger/Accounts.antt =====
-- What the tables say of one another, and the parts of it under a row written back or added.
use cresta.Base.{
  ℕ, suc, ◌+◌, ◌≤◌, ◌<◌, ◌≡◌, refl, inl, inr, Bool-cases, false, some, List, [], ◌∷◌, ◌++◌, String,
  arith, ◌==◌, if◌then◌else◌, All,
}
use cresta.Paper.Rows.{TradingOrder, Fill, Position, Db}
use cresta.Paper.Store.{find_position, save_order}
use cresta.Paper.Store.Totals.{shares, total, Ascending}
use cresta.Paper.Fills.Positions.{brought, taken}

-- the quantity of an order's fills
unfoldable pub filled_total : ℕ → List Fill → ℕ
filled_total id [] = 0
filled_total id (f ∷ fs) = (if f.order_id == id then f.quantity else 0) + filled_total id fs

pub filled_total-append :
    (id : ℕ) (fs : List Fill) (f : Fill)
    → filled_total id (fs ++ f ∷ [])
      ≡ filled_total id fs + (if f.order_id == id then f.quantity else 0)
unfolding filled_total
filled_total-append id [] f = omega arith
filled_total-append id (x ∷ fs) f = omega (arith, filled_total-append id fs f)

pub filled_total-none :
    (id : ℕ) (fs : List Fill) → All (λ f. f.order_id < id) fs → filled_total id fs ≡ 0
unfolding filled_total
filled_total-none id [] h = refl
filled_total-none id (f ∷ fs) h = ground (arith, filled_total-none id fs h.1)

-- the filled quantity of an order that bought, or sold, shares of an account and symbol
abbrev pub bought : String → String → TradingOrder → ℕ
bought a s o = brought a s o o.filled_quantity

abbrev pub sold : String → String → TradingOrder → ℕ
sold a s o = taken a s o o.filled_quantity

-- The order's id was given out, its parent's earlier, and its filled quantity is its fills'.
pub record IsAccounted (fills : List Fill) (n : ℕ) (o : TradingOrder) : Type 0 where
  pub known : o.id < n
  pub older_parent : (p : ℕ) → o.parent_order_id ≡ some p → p < o.id
  pub filled : o.filled_quantity ≡ filled_total o.id fills

pub record Books (os : List TradingOrder) (fs : List Fill) (ps : List Position) (n : ℕ)
    : Type 0 where
  pub ascending : Ascending 0 os
  pub rows : All (IsAccounted fs n) os
  pub fills_known : All (λ f. f.order_id < n) fs
  pub positions :
      (a s : String) → shares (find_position a s ps) + total (sold a s) os ≡ total (bought a s) os

abbrev pub Accounts : Db → Type 0
Accounts db = Books db.orders db.fills db.positions db.next_id

-- More ids and more fills of other orders change nothing for an order.
IsAccounted-grow :
    (fs : List Fill) (f : Fill) (n m : ℕ) (o : TradingOrder)
    → IsAccounted fs n o
    → n ≤ m
    → (f.order_id == o.id) ≡ false
    → IsAccounted (fs ++ f ∷ []) m o
IsAccounted-grow fs f n m o h le ne = record {
  known = omega (arith, h.known);
  older_parent = h.older_parent;
  filled = ground (arith, h.filled, filled_total-append o.id fs f);
}

pub rows-more_ids :
    (fs : List Fill) (n m : ℕ) (os : List TradingOrder)
    → All (IsAccounted fs n) os
    → n ≤ m
    → All (IsAccounted fs m) os
rows-more_ids fs n m [] h le = tt
rows-more_ids fs n m (x ∷ os) h le = (
  record { known = omega (arith, h.0.known); older_parent = h.0.older_parent; filled = h.0.filled },
  rows-more_ids fs n m os h.1 le,
)

pub fills-more_ids :
    (n m : ℕ) (fs : List Fill) → All (λ f. f.order_id < n) fs → n ≤ m → All (λ f. f.order_id < m) fs
fills-more_ids n m [] h le = tt
fills-more_ids n m (f ∷ fs) h le = (omega (arith, h.0), fills-more_ids n m fs h.1 le)

-- Rows whose ids are above a fill's order are not its.
rows_above :
    (fs : List Fill) (f : Fill) (n m lo : ℕ) (os : List TradingOrder)
    → All (IsAccounted fs n) os
    → Ascending lo os
    → f.order_id < lo
    → n ≤ m
    → All (IsAccounted (fs ++ f ∷ []) m) os
rows_above fs f n m lo [] h asc lt le = tt
rows_above fs f n m lo (x ∷ os) h asc lt le = (
  IsAccounted-grow fs f n m x h.0 le (ground (arith, asc.0)),
  rows_above fs f n m (suc x.id) os h.1 asc.1 (omega (arith, asc.0)) le,
)

-- The rows after a fill of an order, whose own row is written back.
pub rows-save_filled :
    (fs : List Fill) (f : Fill) (o : TradingOrder) (n m lo : ℕ) (os : List TradingOrder)
    → All (IsAccounted fs n) os
    → Ascending lo os
    → n ≤ m
    → f.order_id ≡ o.id
    → IsAccounted (fs ++ f ∷ []) m o
    → All (IsAccounted (fs ++ f ∷ []) m) (save_order o os)
unfolding save_order
rows-save_filled fs f o n m lo [] h asc le own returns = tt
rows-save_filled fs f o n m lo (x ∷ os) h asc le own returns = elim (Bool-cases (o.id == x.id)) [
  | inl same ↦ rw same (returns, rows_above fs f n m (suc x.id) os h.1 asc.1 (ground arith) le)
  | inr other ↦ rw other (
    IsAccounted-grow fs f n m x h.0 le (ground arith),
    rows-save_filled fs f o n m (suc x.id) os h.1 asc.1 le own returns,
  )
]
