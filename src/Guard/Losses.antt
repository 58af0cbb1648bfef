-- ===== src/Guard/Losses.antt =====
-- The consecutive losses that the guard counts (backend/app/risk_calc.py).
pub mod SoldOut
use cresta.Base.{
  ℕ, zero, suc, ◌≤◌, ◌<◌, ◌≡◌, ◌⊎◌, inl, inr, refl, sym, ap, ◌∙◌, subst, true, false, List, [], ◌∷◌,
  ◌++◌, none, some, String, arith, ltb, All, length, Bool-cases, Option-cases, if◌then◌else◌,
}
use mathlib.Core.List.{Perm}
use mathlib.Core.List.Perm
use cresta.Paper.Rows.{Position}
use cresta.Paper.Store.{find_position}
use cresta.Paper.Store.Laws.{if_both}
use cresta.Guard.Risk.{
  SellFill, fill_cost, losses_from, consecutive_loss_count, newest_first, insert_fill, is_newer,
}

-- the first fill is later than the second, or of the same time and no smaller id
abbrev pub IsBefore : SellFill → SellFill → Type 0
IsBefore r s =
    (s.fill.filled_at < r.fill.filled_at)
    ⊎ ((r.fill.filled_at ≡ s.fill.filled_at) × (s.fill.id ≤ r.fill.id))

-- the newest first
abbrev pub IsDescending : List SellFill → Type 0
IsDescending [] = Unit
IsDescending (r ∷ rs) = All (IsBefore r) rs × IsDescending rs

-- sold under the average price of the account's position of the symbol
abbrev pub IsLoss : String → List Position → SellFill → Type 0
IsLoss account positions r =
    (p : Position) × (find_position account r.sold.symbol positions ≡ some p)
    × (r.fill.price < p.average_price)

-- the next fill, if there is one, is no loss
abbrev pub EndsRun : String → List Position → List SellFill → Type 0
EndsRun account positions [] = Unit
EndsRun account positions (r ∷ rs) =
    (p : Position)
    → find_position account r.sold.symbol positions ≡ some p
    → p.average_price ≤ r.fill.price

All-IsBefore :
    (r s : SellFill) (rs : List SellFill) → IsBefore r s → All (IsBefore s) rs → All (IsBefore r) rs
All-IsBefore r s [] first rest = tt
All-IsBefore r s (x ∷ rs) first rest = (ground arith, All-IsBefore r s rs first rest.1)

pub All-insert_fill :
    (P : SellFill → Type 0) (r : SellFill) (rs : List SellFill)
    → P r
    → All P rs
    → All P (insert_fill r rs)
unfolding insert_fill
All-insert_fill P r [] p ps = (p, tt)
All-insert_fill P r (s ∷ ss) p ps =
    if_both (All P) (is_newer r s) (p, ps) (ps.0, All-insert_fill P r ss p ps.1)

insert_fill-IsDescending :
    (r : SellFill) (rs : List SellFill) → IsDescending rs → IsDescending (insert_fill r rs)
unfolding insert_fill
insert_fill-IsDescending r [] d = (tt, tt)
insert_fill-IsDescending r (s ∷ ss) d = elim (Bool-cases (is_newer r s)) [
  | inl newer ↦
      let first : IsBefore r s = ground arith in
      rw newer ((first, All-IsBefore r s ss first d.0), d)
  | inr older ↦
      rw older
        (All-insert_fill (IsBefore s) r ss (ground arith) d.0, insert_fill-IsDescending r ss d.1)
]

insert_fill-perm : (r : SellFill) (rs : List SellFill) → Perm (r ∷ rs) (insert_fill r rs)
unfolding insert_fill
insert_fill-perm r [] = Perm.refl _
insert_fill-perm r (s ∷ ss) =
    if_both (Perm (r ∷ s ∷ ss)) (is_newer r s) (Perm.refl _)
      (Perm.trans (Perm.swap s r ss) (Perm.cons s (insert_fill-perm r ss)))

newest_first-sorts :
    (rows : List SellFill) → IsDescending (newest_first rows) × Perm rows (newest_first rows)
unfolding newest_first
newest_first-sorts [] = (tt, Perm.refl [])
newest_first-sorts (r ∷ rs) =
    let (sorted, same) = newest_first-sorts rs in
    (
      insert_fill-IsDescending r (newest_first rs) sorted,
      Perm.trans (Perm.cons r same) (insert_fill-perm r (newest_first rs)),
    )

-- a fill is under its cost, or none that is found is above it
cost-cases :
    (account : String) (positions : List Position) (r : SellFill) (rs : List SellFill)
    → ((ltb r.fill.price (fill_cost account positions r) ≡ true) × IsLoss account positions r)
      ⊎ ((ltb r.fill.price (fill_cost account positions r) ≡ false)
          × EndsRun account positions (r ∷ rs))
unfolding fill_cost
cost-cases account positions r rs =
    elim (Option-cases (find_position account r.sold.symbol positions)) [
      | inl missing ↦ inr (ground arith, λ p found. cc)
      | inr (p, found) ↦ elim (Bool-cases (ltb r.fill.price p.average_price)) [
        | inl lost ↦ inl (ground arith, (p, found, ground arith))
        | inr kept ↦ inr (ground arith, λ q is_q. ground arith)
      ]
    ]

-- Some first rows are losses, `n` of them, and the next, if there is one, is not, or the limit is
-- reached.
abbrev pub IsRun : String → List Position → ℕ → ℕ → List SellFill → Type 0
IsRun account positions limit n ordered =
    (lost rest : List SellFill) × (ordered ≡ lost ++ rest)
    × All (IsLoss account positions) lost
    × (length lost ≡ n)
    × (n ≤ limit)
    × ((n ≡ limit) ⊎ EndsRun account positions rest)

losses_from-IsRun :
    (limit : ℕ) (account : String) (positions : List Position) (rows : List SellFill)
    → IsRun account positions limit (losses_from limit account positions rows) rows
unfolding losses_from
losses_from-IsRun zero account positions rows = ([], rows, refl, tt, refl, omega arith, inl refl)
losses_from-IsRun (suc limit) account positions [] = ([], [], refl, tt, refl, omega arith, inr tt)
losses_from-IsRun (suc limit) account positions (r ∷ rs) =
    let (lost, rest, parts, losses, counted, le, ends) =
      losses_from-IsRun limit account positions rs in
    elim (cost-cases account positions r rs) [
      | inl (under, loss) ↦ rw under (
        r ∷ lost,
        rest,
        ap (λ xs. r ∷ xs) parts,
        (loss, losses),
        ap suc counted,
        omega arith,
        elim ends [ inl full ↦ inl (ap suc full) | inr end ↦ inr end ],
      )
      | inr (above, end) ↦ rw above ([], r ∷ rs, refl, tt, refl, omega arith, inr end)
    ]

-- The sell fills can be brought into an order, the newest first, in which the count of consecutive
-- losses, at most 50, is that of the first fills that were sold under the present average price of
-- their symbol's position; the next fill, if there is one and the count is below 50, was not.
pub consecutive_loss_count-IsRun :
    (account : String) (positions : List Position) (rows : List SellFill)
    → (ordered : List SellFill) × Perm rows ordered
      × IsDescending ordered
      × IsRun account positions 50 (consecutive_loss_count account positions rows) ordered
unfolding consecutive_loss_count
consecutive_loss_count-IsRun account positions rows =
    let (sorted, same) = newest_first-sorts rows in
    (newest_first rows, same, sorted, losses_from-IsRun 50 account positions (newest_first rows))
