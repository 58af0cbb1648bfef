-- ===== src/Desk/Steps.antt =====
-- All calls on the desk as a transition system: backend/app/decision_execution.py and
-- backend/app/approvals.py.
use cresta.Base.{
  ℕ, ◌≡◌, ◌≢◌, ◌⊎◌, inl, inr, refl, sym, ap, ◌∙◌, subst, some, List, [], ◌∷◌, ◌++◌, String, Result,
  returns, raises, arith,
}
use cresta.Base.Tables.{find_row-append}
use cresta.Guard.Rules.{Decision}
use cresta.Orders.{Book}
use cresta.Desk.{Execution, Approval, pending, Desk, Env}
use cresta.Desk.Reads.{find_approval}
use cresta.Desk.Approvals.{ApprovalError}
use cresta.Desk.Approvals.Granting.{approve}
use cresta.Desk.Approvals.Closing.{reject, expire_stale}
use cresta.Desk.Approvals.Closed.{
  IsTouched-settled, approve-IsTouched, reject-IsTouched, expire_stale-settled,
}
use cresta.Desk.Routing.Route.{
  Routed, route_trading_decision, route_new, answer_route, decide, add_execution,
}
use cresta.Desk.Routing.{new_execution}
use cresta.Desk.Routing.Orders.{route_trading_decision-cases, route_new-Routes, Routes}

-- One call, or a change of the orders and decisions by another part of the program.
pub data Step : Desk → Desk → Type 0 where
  routes :
      (env : Env) (user : ℕ) (d : Decision) (correlation : String) (now : ℕ) (desk : Desk)
      → Step desk (route_trading_decision env user d correlation now desk).1
  approves :
      (env : Env) (user id : ℕ) (correlation key : String) (now : ℕ) (desk : Desk)
      → Step desk (approve env user id correlation key now desk).1
  rejects : (user id : ℕ) (desk : Desk) → Step desk (reject user id desk).1
  expires : (now : ℕ) (desk : Desk) → Step desk (expire_stale now desk).1
  trades :
      (book : Book) (decisions : List Decision) (desk : Desk)
      → Step desk (record desk { book = book; decisions = decisions })

pub data Reach : Desk → Desk → Type 0 where
  stays : (desk : Desk) → Reach desk desk
  moves : {first next last : Desk} → Reach first next → Step next last → Reach first last

Routes-approvals :
    (env : Env) (user : ℕ) (d : Decision) (now : ℕ) (before after : Desk) (y : Execution)
    → Routes env user d now before y after
    → (after.approvals ≡ before.approvals)
      ⊎ ((a : Approval) × (after.approvals ≡ before.approvals ++ a ∷ []))
Routes-approvals env user d now before after y (inl (orders, same)) = inl same
Routes-approvals env user d now before after y
      (inr (clear, stage, is, inl (mode, (o, orders, same, _, _, _, _, _)))) =
    inl same
Routes-approvals env user d now before after y
      (inr (clear, stage, is, inr (mode, (a, added, _, _, _, _, _, _)))) =
    inr (a, added)

answer_route-cases :
    (user : ℕ) (desk : Desk) (answer : Result ApprovalError (Execution × Desk))
    → ((answer_route user desk answer).1 ≡ desk)
      ⊎ ((y : Execution) × (answer_route user desk answer
            ≡ (returns (some y), (answer_route user desk answer).1)))
unfolding answer_route
answer_route-cases user desk (raises e) = inl refl
answer_route-cases user desk (returns (y, next)) = inr (y, refl)

route_new-cases :
    (env : Env) (user : ℕ) (d : Decision) (correlation : String) (now : ℕ) (desk : Desk)
    → let answer = route_new env user d correlation now desk in
      (answer.1 ≡ desk) ⊎ ((y : Execution) × (answer ≡ (returns (some y), answer.1)))
unfolding route_new
route_new-cases env user d correlation now desk =
    let x = new_execution env user d correlation desk.book.db.next_id in
    answer_route-cases user desk (decide env user x d correlation now (add_execution x desk))

-- what routing does to the approvals, also where it raises
route_trading_decision-approvals :
    (env : Env) (user : ℕ) (d : Decision) (correlation : String) (now : ℕ) (desk : Desk)
    → let after = (route_trading_decision env user d correlation now desk).1 in
      (after.approvals ≡ desk.approvals)
      ⊎ ((a : Approval) × (after.approvals ≡ desk.approvals ++ a ∷ []))
route_trading_decision-approvals env user d correlation now desk =
    elim (route_trading_decision-cases env user d correlation now desk) [
      | inl (_, other) ↦ inl (ap (λ (x : Routed). x.1.approvals) other)
      | inr (inl (x, trading, old, routed)) ↦ inl (ap (λ (x : Routed). x.1.approvals) routed)
      | inr (inr (trading, new, routed)) ↦ elim (route_new-cases env user d correlation now desk) [
        | inl same ↦
            inl (ap (λ (x : Routed). x.1.approvals) routed ∙ ap (λ (x : Desk). x.approvals) same)
        | inr (y, is) ↦
            subst
              (λ (x : Routed).
                (x.1.approvals ≡ desk.approvals)
                ⊎ ((a : Approval) × (x.1.approvals ≡ desk.approvals ++ a ∷ [])))
              (sym routed)
              (Routes-approvals env user d now desk (route_new env user d correlation now desk).1 y
                (route_new-Routes env user d correlation now desk
                  (route_new env user d correlation now desk).1 y is))
      ]
    ]

added-settled :
    (k : ℕ) (before after : List Approval) (b : Approval)
    → (after ≡ before) ⊎ ((a : Approval) × (after ≡ before ++ a ∷ []))
    → find_approval k before ≡ some b
    → find_approval k after ≡ some b
added-settled k before after b (inl same) held = ap (λ rows. find_approval k rows) same ∙ held
added-settled k before after b (inr (a, added)) held =
    ap (λ rows. find_approval k rows) added
    ∙ find_row-append (λ (x : Approval). x.id) k a before
    ∙ ground arith

Step-settled :
    {before after : Desk} (k : ℕ) (b : Approval)
    → Step before after
    → find_approval k before.approvals ≡ some b
    → b.state ≢ pending
    → find_approval k after.approvals ≡ some b
Step-settled k b (routes env user d correlation now desk) held closed =
    added-settled k desk.approvals
      (route_trading_decision env user d correlation now desk).1.approvals b
      (route_trading_decision-approvals env user d correlation now desk) held
Step-settled k b (approves env user id correlation key now desk) held closed =
    IsTouched-settled id k desk.approvals (approve env user id correlation key now desk).1.approvals
      b (approve-IsTouched env user id correlation key now desk) held closed
Step-settled k b (rejects user id desk) held closed =
    IsTouched-settled id k desk.approvals (reject user id desk).1.approvals b
      (reject-IsTouched user id desk) held closed
Step-settled k b (expires now desk) held closed = expire_stale-settled now k desk b held closed
Step-settled k b (trades book decisions desk) held closed = held

-- An approval that is not pending stays as it is: whatever calls follow, it is found unchanged.
pub Reach-settled :
    {first last : Desk} (k : ℕ) (b : Approval)
    → Reach first last
    → find_approval k first.approvals ≡ some b
    → b.state ≢ pending
    → find_approval k last.approvals ≡ some b
Reach-settled k b (stays desk) held closed = held
Reach-settled k b (moves r s) held closed =
    Step-settled k b s (Reach-settled k b r held closed) closed
