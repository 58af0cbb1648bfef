-- ===== src/Desk/Routing/Again.antt =====
-- The execution that a decision ends with is settled (backend/app/decision_execution.py).
use cresta.Base.{
  ℕ, ◌≡◌, ◌≢◌, ◌⊎◌, inl, inr, refl, sym, subst, Bool, true, false, none, some, List, [], ◌∷◌,
  String, Result, returns, raises, if◌then◌else◌,
}
use cresta.Guard.Rules.{Decision, Code, blocked}
use cresta.Guard.Sell.{SellPlan}
use cresta.Orders.{by_text, Book, OrderError}
use cresta.Paper.Rows.{TradingOrder}
use cresta.Desk.{
  Mode, automatic, manual_approval, disabled, Execution, routing, mode_disabled, took_no_action,
  approval_pending, Desk, Env,
}
use cresta.Desk.Reads.{save_execution, is_purchase, is_sale, position_version_of}
use cresta.Desk.Approvals.{add_approval, create_approval}
use cresta.Desk.Routing.{plan_of, routing_rules, ended, persist_rules}
use cresta.Desk.Routing.Placing.{ordered, place_order, create_buy_order, create_sell_order}
use cresta.Desk.Routing.Route.{awaiting, record_shadow, act, act_on, guarded, decide}
use cresta.Desk.Routing.Attempts.{OnReturn, create_approval-cases}
use cresta.Desk.Routing.Orders.{branch-OnReturn, pick_action-OnReturn}

-- the execution with its id and key, routed no longer, in a table in which at most its row has
-- been written
abbrev pub Settles : Execution → Desk → Execution → Desk → Type 0
Settles x before y after =
    (y.id ≡ x.id)
    × (y.execution_key ≡ x.execution_key)
    × (y.state ≢ routing)
    × ((after.executions ≡ before.executions)
        ⊎ ((z : Execution) × (z.id ≡ x.id)
            × (after.executions ≡ save_execution z before.executions)))

ordered-Settles :
    (x : Execution) (desk : Desk) (answer : Result OrderError (TradingOrder × Book))
    → Settles x desk (ordered x desk answer).0 (ordered x desk answer).1
unfolding ordered
ordered-Settles x desk (raises e) = (refl, refl, (λ e. cc), inl refl)
ordered-Settles x desk (returns (o, book)) = (refl, refl, (λ e. cc), inl refl)

branch-Settles :
    (x : Execution) (desk : Desk) (b : Bool) (p q : Execution × Desk)
    → Settles x desk p.0 p.1
    → Settles x desk q.0 q.1
    → Settles x desk (if b then p else q).0 (if b then p else q).1
branch-Settles x desk true p q h k = h
branch-Settles x desk false p q h k = k

create_buy_order-Settles :
    (env : Env) (user : ℕ) (x : Execution) (d : Decision) (correlation : String) (now : ℕ)
    (desk : Desk)
    → let (y, next) = create_buy_order env user x d correlation now desk in Settles x desk y next
unfolding create_buy_order place_order
create_buy_order-Settles env user x d correlation now desk =
    branch-Settles x desk _ _ _ (refl, refl, (λ e. cc), inl refl) (ordered-Settles x desk _)

create_sell_order-Settles :
    (env : Env) (user : ℕ) (x : Execution) (d : Decision) (plan : SellPlan) (correlation : String)
    (now : ℕ) (desk : Desk)
    → let (y, next) = create_sell_order env user x d plan correlation now desk in
      Settles x desk y next
unfolding create_sell_order place_order
create_sell_order-Settles env user x d plan correlation now desk =
    branch-Settles x desk _ _ _ (refl, refl, (λ e. cc), inl refl) (ordered-Settles x desk _)

awaiting-Settles :
    (env : Env) (user : ℕ) (x : Execution) (d : Decision) (desk : Desk)
    → OnReturn (Settles x desk) (awaiting x (create_approval env user x d desk))
unfolding add_approval
awaiting-Settles env user x d desk = elim (create_approval-cases env user x d desk) [
  | inl (e, failed) ↦ subst (λ z. OnReturn (Settles x desk) (awaiting x z)) (sym failed) tt
  | inr (scope, captured, made) ↦
      subst (λ z. OnReturn (Settles x desk) (awaiting x z)) (sym made)
        (
          refl,
          refl,
          (λ e. cc),
          inr (
            record x {
              state = approval_pending;
              approval_id = some (add_approval user x d scope desk).0.id;
            },
            refl,
            refl,
          ),
        )
]

act-Settles :
    (env : Env) (user : ℕ) (x : Execution) (d : Decision) (plan : SellPlan) (correlation : String)
    (now : ℕ) (desk : Desk) (m : Mode)
    → OnReturn (Settles x desk) (act env user x d plan correlation now desk m)
unfolding act
act-Settles env user x d plan correlation now desk manual_approval =
    awaiting-Settles env user x d desk
act-Settles env user x d plan correlation now desk disabled = (refl, refl, (λ e. cc), inl refl)
act-Settles env user x d plan correlation now desk automatic =
    branch-Settles x desk (is_purchase d.action)
      (create_buy_order env user x d correlation now desk)
      (create_sell_order env user x d plan correlation now desk)
      (create_buy_order-Settles env user x d correlation now desk)
      (create_sell_order-Settles env user x d plan correlation now desk)

act_on-Settles :
    (env : Env) (user : ℕ) (x : Execution) (d : Decision) (plan : SellPlan) (correlation : String)
    (now : ℕ) (desk : Desk) (codes : List Code)
    → OnReturn (Settles x desk) (act_on env user x d plan correlation now desk codes)
unfolding act_on
act_on-Settles env user x d plan correlation now desk (code ∷ rest) =
    (refl, refl, (λ e. cc), inl refl)
act_on-Settles env user x d plan correlation now desk [] =
    branch-OnReturn (Settles x desk) _ _ (record_shadow x desk)
      (λ e. act-Settles env user x d plan correlation now desk x.mode)
      (refl, refl, (λ e. cc), inl refl)

guarded-Settles :
    (env : Env) (user : ℕ) (x : Execution) (d : Decision) (correlation : String) (now : ℕ)
    (desk : Desk)
    → OnReturn (Settles x desk) (guarded env user x d correlation now desk)
unfolding guarded persist_rules
guarded-Settles env user x d correlation now desk =
    act_on-Settles env user (record x { guard_evaluation_id = some desk.book.db.next_id }) d
      (plan_of env desk.book.db d) correlation now
      (persist_rules x d
        (if is_sale d.action
          then position_version_of (plan_of env desk.book.db d).position
          else none)
        (blocked (routing_rules env desk.book.db user d now)) desk).1
      (blocked (routing_rules env desk.book.db user d now))

enabled-Settles :
    (env : Env) (user : ℕ) (x : Execution) (d : Decision) (correlation : String) (now : ℕ)
    (desk : Desk) (m : Mode)
    → OnReturn (Settles x desk) (elim m [
      | disabled ↦ returns (ended mode_disabled (by_text "ACTION_DISABLED") x, desk)
      | _ ↦ guarded env user x d correlation now desk
    ])
enabled-Settles env user x d correlation now desk disabled = (refl, refl, (λ e. cc), inl refl)
enabled-Settles env user x d correlation now desk automatic =
    guarded-Settles env user x d correlation now desk
enabled-Settles env user x d correlation now desk manual_approval =
    guarded-Settles env user x d correlation now desk

pub decide-Settles :
    (env : Env) (user : ℕ) (x : Execution) (d : Decision) (correlation : String) (now : ℕ)
    (desk : Desk)
    → OnReturn (Settles x desk) (decide env user x d correlation now desk)
unfolding decide
decide-Settles env user x d correlation now desk =
    pick_action-OnReturn (Settles x desk) d.action
      (λ s. returns (ended took_no_action (by_text s) x, desk))
      (elim x.mode [
        | disabled ↦ returns (ended mode_disabled (by_text "ACTION_DISABLED") x, desk)
        | _ ↦ guarded env user x d correlation now desk
      ])
      (λ s. (refl, refl, (λ e. cc), inl refl))
      (enabled-Settles env user x d correlation now desk x.mode)
