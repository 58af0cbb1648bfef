-- ===== src/Desk/Routing/Sized.antt =====
-- The quantity of a sale that routing creates (backend/app/decision_execution.py).
use cresta.Base.{
  ℕ, ◌≡◌, ◌≤◌, inl, inr, sym, ap, ◌∙◌, true, some, List, [], ◌∷◌, ◌++◌, String, returns, arith,
}
use cresta.Paper.Rows.{TradingOrder, Position, open_position}
use cresta.Paper.Store.{find_position, reserved_quantity}
use cresta.Guard.Rules.{Decision, blocked}
use cresta.Guard.Sell.{account, sell_guard_rules}
use cresta.Guard.Sound.{sell_guard_rules_safe}
use cresta.Desk.{Execution, Desk, Env}
use cresta.Desk.Reads.{sell_context, is_sale}
use cresta.Desk.Routing.{decision_snapshot, plan_of, routing_rules, nothing_expected}
use cresta.Desk.Routing.Route.{route_trading_decision}
use cresta.Desk.Routing.Orders.{route_trading_decision-Routes}

abbrev rest_of {ℓ} : {A : Type ℓ} → List A → List A → List A
rest_of default [] = default
rest_of default (x ∷ xs) = xs

not_longer {ℓ} : {A : Type ℓ} (x : A) (xs : List A) → ¬ (xs ++ x ∷ [] ≡ xs)
not_longer x [] e = cc
not_longer x (y ∷ ys) e = not_longer x ys (ap (rest_of ys) e)

same_last {ℓ} : {A : Type ℓ} (x y : A) (xs : List A) → xs ++ x ∷ [] ≡ xs ++ y ∷ [] → x ≡ y
same_last x y [] e = cc
same_last x y (z ∷ zs) e = same_last x y zs (ap (rest_of zs) e)

sale_rules :
    (env : Env) (user : ℕ) (d : Decision) (now : ℕ) (desk : Desk)
    → is_sale d.action ≡ true
    → routing_rules env desk.book.db user d now
      ≡ sell_guard_rules
          (sell_context env desk.book.db now)
          d
          (plan_of env desk.book.db d)
          nothing_expected
unfolding routing_rules
sale_rules env user d now desk sale = ground arith

-- If routing a partial or full sale adds an order, the account's position of the symbol is open,
-- no active sell of the symbol holds any of it back, and the new order is for at least one share
-- and for no more than are managed and than are available.
pub routed_sale-IsCovered :
    (env : Env) (user : ℕ) (d : Decision) (correlation : String) (now : ℕ) (desk after : Desk)
    (y : Execution) (o : TradingOrder)
    → is_sale d.action ≡ true
    → route_trading_decision env user d correlation now desk ≡ (returns (some y), after)
    → after.book.db.orders ≡ desk.book.db.orders ++ o ∷ []
    → (p : Position) × (find_position account d.symbol desk.book.db.positions ≡ some p)
      × (p.state ≡ open_position)
      × (reserved_quantity account d.symbol desk.book.db.orders ≡ 0)
      × (1 ≤ o.requested_quantity)
      × (o.requested_quantity ≤ p.managed_quantity)
      × (o.requested_quantity ≤ p.available_quantity)
routed_sale-IsCovered env user d correlation now desk after y o sale is added =
    elim (route_trading_decision-Routes env user d correlation now desk after y is) [
      | inl (same, _) ↦ absurd (not_longer o desk.book.db.orders (sym added ∙ same))
      | inr (clear, stage, supported, inr (manual, (a, _, same, _, _, _, _, _))) ↦
          absurd (not_longer o desk.book.db.orders (sym added ∙ same))
      | inr (clear, stage, supported, inl (mode, (o', placed, _, _, _, _, _, sized))) ↦
          let (p, found, held, idle, one, managed, free, _, _, _) =
            sell_guard_rules_safe (sell_context env desk.book.db now) d desk.book.db.positions
              (decision_snapshot env d) nothing_expected
              (ap blocked (sym (sale_rules env user d now desk sale)) ∙ clear) in
          let planned : o.requested_quantity ≡ (plan_of env desk.book.db d).quantity =
            ap (λ (w : TradingOrder). w.requested_quantity)
              (same_last o o' desk.book.db.orders (sym added ∙ placed))
            ∙ sized
            ∙ ground arith in
          (p, found, held, idle, rw planned one, rw planned managed, rw planned free)
    ]
