-- ===== src/Guard/Losses/SoldOut.antt =====
-- The losses of positions that are sold out, as backend/app/risk_calc.py counts them on the ledger
-- of backend/app/trading/paper.py.
use cresta.Base.{
  ℕ, zero, suc, ◌≡◌, refl, inl, inr, some, List, [], ◌∷◌, String, arith, All, Option-cases,
}
use cresta.Base.Int.{ℤ, pos, ◌+ℤ◌, ◌*ℤ◌, sub_ℕ, neg_part}
use cresta.Paper.Rows.{Position, closed_position, Db, Settings, Platform}
use cresta.Paper.Store.{find_position, holds}
use cresta.Paper.Store.Laws.{if_both, OfSome, OfSome-some}
use cresta.Paper.Steps.{Reach, empty_db}
use cresta.Paper.Ledger.Closed.{IsCleared, Reach-AllCleared}
use cresta.Guard.Risk.{
  Market, SellFill, fill_cost, realized_loss, losses_from, consecutive_loss_count, newest_first,
  daily_loss, realized_only, sell_fills,
}
use cresta.Guard.Losses.{All-insert_fill}

-- the position of each sold symbol, if there is one, is closed
abbrev pub AreSoldOut : String → List Position → List SellFill → Type 0
AreSoldOut account positions rows =
    All
      (λ r.
        (p : Position)
        → find_position account r.sold.symbol positions ≡ some p
        → p.state ≡ closed_position)
      rows

found-IsCleared :
    (account symbol : String) (ps : List Position)
    → All IsCleared ps
    → OfSome IsCleared (find_position account symbol ps)
unfolding find_position
found-IsCleared account symbol [] h = tt
found-IsCleared account symbol (p ∷ ps) h =
    if_both (OfSome IsCleared) (holds account symbol p) h.0 (found-IsCleared account symbol ps h.1)

closed-fill_cost :
    (account : String) (positions : List Position) (r : SellFill)
    → All IsCleared positions
    → ((p : Position)
        → find_position account r.sold.symbol positions ≡ some p
        → p.state ≡ closed_position)
    → fill_cost account positions r ≡ 0
unfolding fill_cost
closed-fill_cost account positions r cleared shut =
    elim (Option-cases (find_position account r.sold.symbol positions)) [
      | inl missing ↦ ground arith
      | inr (p, found) ↦
          let clear =
            OfSome-some IsCleared (found-IsCleared account r.sold.symbol positions cleared) found in
          let free = clear (shut p found) in ground arith
    ]

abbrev AreFree : String → List Position → List SellFill → Type 0
AreFree account positions rows = All (λ r. fill_cost account positions r ≡ 0) rows

sold_out-AreFree :
    (account : String) (positions : List Position) (rows : List SellFill)
    → All IsCleared positions
    → AreSoldOut account positions rows
    → AreFree account positions rows
sold_out-AreFree account positions [] cleared shut = tt
sold_out-AreFree account positions (r ∷ rs) cleared shut = (
  closed-fill_cost account positions r cleared shut.0,
  sold_out-AreFree account positions rs cleared shut.1,
)

gain_sum : (a b : ℤ) → neg_part a ≡ 0 → neg_part b ≡ 0 → neg_part (a +ℤ b) ≡ 0
unfolding ◌+ℤ◌
gain_sum a b ha hb = ground arith

free_gain : (price cost quantity : ℕ) → cost ≡ 0 → neg_part (sub_ℕ price cost *ℤ pos quantity) ≡ 0
unfolding ◌*ℤ◌
free_gain price cost quantity free = ground arith

free-realized_loss :
    (account : String) (today : ℕ) (positions : List Position) (rows : List SellFill)
    → AreFree account positions rows
    → neg_part (realized_loss account today positions rows) ≡ 0
unfolding realized_loss
free-realized_loss account today positions [] free = refl
free-realized_loss account today positions (r ∷ rs) free =
    let rest = free-realized_loss account today positions rs free.1 in
    ground (
      arith,
      gain_sum (sub_ℕ r.fill.price (fill_cost account positions r) *ℤ pos r.fill.quantity)
          (realized_loss account today positions rs)
          (free_gain r.fill.price (fill_cost account positions r) r.fill.quantity free.0) rest,
    )

sorted-AreFree :
    (account : String) (positions : List Position) (rows : List SellFill)
    → AreFree account positions rows
    → AreFree account positions (newest_first rows)
unfolding newest_first
sorted-AreFree account positions [] free = tt
sorted-AreFree account positions (r ∷ rs) free =
    All-insert_fill (λ s. fill_cost account positions s ≡ 0) r (newest_first rs) free.0
      (sorted-AreFree account positions rs free.1)

no_losses :
    (limit : ℕ) (account : String) (positions : List Position) (rows : List SellFill)
    → AreFree account positions rows
    → losses_from limit account positions rows ≡ 0
unfolding losses_from
no_losses zero account positions rows free = refl
no_losses (suc limit) account positions [] free = refl
no_losses (suc limit) account positions (r ∷ rs) free = let first = free.0 in ground arith

-- In every database that the broker's calls lead to from an empty one: if the positions of all
-- symbols that an account has sold are closed, the guard sees none of the losses that were
-- realized. The daily loss on the realized basis and the count of consecutive losses are 0, at
-- whatever prices the shares were bought and sold.
pub closed_positions-no_loss :
    (platform : Platform) (settings : Settings) (m : Market) (account : String) (today : ℕ)
    (db : Db)
    → Reach platform settings empty_db db
    → AreSoldOut account db.positions (sell_fills account db.orders db.fills)
    → (daily_loss m account realized_only today db.positions (sell_fills account db.orders db.fills)
        ≡ 0)
      × (consecutive_loss_count account db.positions (sell_fills account db.orders db.fills) ≡ 0)
unfolding daily_loss consecutive_loss_count
closed_positions-no_loss platform settings m account today db reached shut =
    let rows = sell_fills account db.orders db.fills in
    let free =
      sold_out-AreFree account db.positions rows (Reach-AllCleared platform settings db reached)
        shut in
    (
      free-realized_loss account today db.positions rows free,
      no_losses 50 account db.positions (newest_first rows)
          (sorted-AreFree account db.positions rows free),
    )
