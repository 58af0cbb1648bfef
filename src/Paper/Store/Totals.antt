-- ===== src/Paper/Store/Totals.antt =====
-- Sums over the orders of a table, under a row written back or added, and ids in ascending order.
use cresta.Base.{
  ℕ, suc, ◌+◌, ◌≤◌, ◌<◌, ◌≡◌, ◌≢◌, refl, true, ◌&&◌, Option, none, some, List, [], ◌∷◌, ◌++◌,
  String, arith, if◌then◌else◌, str_eq, str_eq_iff, All,
}
use cresta.Paper.Rows.{TradingOrder, Position}
use cresta.Paper.Store.{find_order, find_child, save_order, find_position, save_position, holds}

module _ (w : TradingOrder → ℕ) where
  -- the sum of a weight over the orders
  unfoldable pub total : List TradingOrder → ℕ
  total [] = 0
  total (o ∷ os) = w o + total os

  pub total-append :
      (os : List TradingOrder) (o : TradingOrder) → total (os ++ o ∷ []) ≡ total os + w o
  unfolding total
  total-append [] o = omega arith
  total-append (x ∷ os) o = omega (arith, total-append os o)

  -- Writing a row back exchanges its weight.
  pub total-save_order :
      (o o' : TradingOrder) (id : ℕ) (os : List TradingOrder)
      → find_order id os ≡ some o
      → o'.id ≡ id
      → total (save_order o' os) + w o ≡ total os + w o'
  unfolding total save_order find_order
  total-save_order o o' id [] e i = cc
  total-save_order o o' id (x ∷ os) e i = ground (arith, total-save_order o o' id os)

-- ids ascend from `lo` on
abbrev pub Ascending : ℕ → List TradingOrder → Type 0
Ascending lo [] = Unit
Ascending lo (o ∷ os) = (lo ≤ o.id) × Ascending (suc o.id) os

pub Ascending-save_order :
    (lo : ℕ) (o : TradingOrder) (os : List TradingOrder)
    → Ascending lo os
    → Ascending lo (save_order o os)
unfolding save_order
Ascending-save_order lo o [] h = tt
Ascending-save_order lo o (x ∷ os) h = ground (arith, Ascending-save_order (suc x.id) o os h.1)

pub Ascending-append :
    (lo n : ℕ) (o : TradingOrder) (os : List TradingOrder)
    → Ascending lo os
    → All (λ p. p.id < n) os
    → lo ≤ n
    → n ≤ o.id
    → Ascending lo (os ++ o ∷ [])
Ascending-append lo n o [] h b l p = (omega arith, tt)
Ascending-append lo n o (x ∷ os) h b l p =
    (h.0, Ascending-append (suc x.id) n o os h.1 b.1 (omega arith) p)

-- the shares of a position, none where there is no row
abbrev pub shares : Option Position → ℕ
shares none = 0
shares (some p) = p.quantity

pub find_position-holds :
    (a s : String) (p : Position) (ps : List Position)
    → find_position a s ps ≡ some p
    → holds a s p ≡ true
unfolding find_position
find_position-holds a s p [] e = cc
find_position-holds a s p (x ∷ ps) e = ground (arith, find_position-holds a s p ps)

-- Writing a position back is seen under its own account and symbol, and nowhere else.
pub find-save_position :
    (a s : String) (p q : Position) (ps : List Position)
    → find_position p.account_alias p.symbol ps ≡ some q
    → find_position a s (save_position p ps)
      ≡ (if str_eq p.account_alias a && str_eq p.symbol s then some p else find_position a s ps)
unfolding find_position save_position
find-save_position a s p q [] e = cc
find-save_position a s p q (x ∷ ps) e = ground (
  arith,
  find-save_position a s p q ps,
  str_eq_iff p.account_alias a,
  str_eq_iff p.symbol s,
  str_eq_iff x.account_alias p.account_alias,
  str_eq_iff x.symbol p.symbol,
  str_eq_iff x.account_alias a,
  str_eq_iff x.symbol s,
)

pub find_position-append :
    (a s : String) (p : Position) (ps : List Position)
    → find_position a s (ps ++ p ∷ []) ≡ elim (find_position a s ps) [
      | none ↦ if holds a s p then some p else none
      | some q ↦ some q
    ]
unfolding find_position
find_position-append a s p [] = refl
find_position-append a s p (x ∷ ps) = ground (arith, find_position-append a s p ps)

-- A row that is found by an id has an id from `lo` on.
find_order-above :
    (lo id : ℕ) {o : TradingOrder} (os : List TradingOrder)
    → Ascending lo os
    → find_order id os ≡ some o
    → lo ≤ id
unfolding find_order
find_order-above lo id [] h e = cc
find_order-above lo id {o} (x ∷ os) h e =
    ground (arith, find_order-above (suc x.id) id {o = o} os h.1)

pub find-save_other :
    (id : ℕ) (o : TradingOrder) (os : List TradingOrder)
    → id ≢ o.id
    → find_order id (save_order o os) ≡ find_order id os
unfolding find_order save_order
find-save_other id o [] h = refl
find-save_other id o (x ∷ os) h = ground (arith, find-save_other id o os h)

-- A replacement that is found names the original, and is the row of its id.
pub find_child-parent :
    (id : ℕ) (c : TradingOrder) (os : List TradingOrder)
    → find_child id os ≡ some c
    → c.parent_order_id ≡ some id
unfolding find_child
find_child-parent id c [] e = cc
find_child-parent id c (x ∷ os) e = ground (arith, find_child-parent id c os)

pub find_child-found :
    (lo id : ℕ) (c : TradingOrder) (os : List TradingOrder)
    → Ascending lo os
    → find_child id os ≡ some c
    → find_order c.id os ≡ some c
unfolding find_child find_order
find_child-found lo id c [] h e = cc
find_child-found lo id c (x ∷ os) h e = ground (
  arith,
  find_child-found (suc x.id) id c os h.1,
  find_order-above (suc x.id) c.id {o = c} os h.1,
)

pub find_order-id :
    (id : ℕ) (o : TradingOrder) (os : List TradingOrder) → find_order id os ≡ some o → o.id ≡ id
unfolding find_order
find_order-id id o [] e = cc
find_order-id id o (x ∷ os) e = ground (arith, find_order-id id o os)

pub find_order-own :
    (id : ℕ) (o : TradingOrder) (os : List TradingOrder)
    → find_order id os ≡ some o
    → find_order o.id os ≡ some o
find_order-own id o os e = simp (find_order-id id o os e) e
