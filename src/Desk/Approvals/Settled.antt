-- ===== src/Desk/Approvals/Settled.antt =====
-- What `approve` does to the approvals (backend/app/approvals.py).
use cresta.Base.{
  ℕ, suc, ◌≡◌, ◌≢◌, ◌⊎◌, ◌<◌, inl, inr, refl, ap, ◌∙◌, none, some, List, [], ◌∷◌, String, Result,
  returns, raises, arith, Option-cases, Bool-cases, leb,
}
use cresta.Base.Tables.{find_row-key}
use cresta.Guard.Rules.{Decision, Code}
use cresta.Paper.Rows.{TradingOrder}
use cresta.Orders.{Book, OrderError, by_order, by_guard, CreationRequest}
use cresta.Desk.{
  Execution, Approval, ApprovalState, pending, approved, rejected, expired, invalidated, Desk, Env,
}
use cresta.Desk.Reads.{find_approval, save_approval, find_execution, find_decision}
use cresta.Desk.Approvals.{
  ApprovalError, approval_expired, decision_not_found, execution_not_found, Answer,
}
use cresta.Desk.Approvals.Reviewing.{persist_review}
use cresta.Desk.Approvals.Granting.{
  invalidate, fail_approval, grant, answer_order, answer_review, review_timely, approve_pending,
  approve, expired_of,
}
use cresta.Desk.Approvals.Closing.{reject_pending, reject}

-- At most the pending row of an id is written, and it is pending no longer.
abbrev pub IsTouched : ℕ → List Approval → List Approval → Type 0
IsTouched id before after =
    (after ≡ before)
    ⊎ ((a : Approval) × (done : Approval) × (find_approval id before ≡ some a)
        × (a.state ≡ pending)
        × (done.id ≡ id)
        × (done.state ≢ pending)
        × (after ≡ save_approval done before))

abbrev failed_of : Approval → OrderError → Approval
failed_of a e = record a {
  state = invalidated;
  result_code = some (by_order e);
  version = suc a.version;
}

abbrev granted_of : ℕ → Approval → TradingOrder → Approval
granted_of user a o = record a {
  state = approved;
  actor_id = some user;
  order_id = some o.id;
  version = suc a.version;
}

abbrev IsWritten : Approval → List Approval → List Approval → Type 0
IsWritten a before after =
    (done : Approval) × (done.id ≡ a.id)
    × (done.state ≢ pending)
    × (after ≡ save_approval done before)

answer_order-IsWritten :
    (user : ℕ) (a : Approval) (x : Execution) (guard : ℕ) (desk : Desk)
    (answer : Result OrderError (TradingOrder × Book))
    → IsWritten a desk.approvals (answer_order user a x guard desk answer).1.approvals
unfolding answer_order fail_approval grant
answer_order-IsWritten user a x guard desk (raises e) = (failed_of a e, refl, (λ same. cc), refl)
answer_order-IsWritten user a x guard desk (returns (o, book)) =
    (granted_of user a o, refl, (λ same. cc), refl)

answer_review-IsWritten :
    (user : ℕ) (a : Approval) (x : Execution) (guard : ℕ) (r : CreationRequest) (now : ℕ)
    (desk : Desk) (codes : List Code)
    → IsWritten a desk.approvals (answer_review user a x guard r now desk codes).1.approvals
unfolding answer_review invalidate
answer_review-IsWritten user a x guard r now desk [] = answer_order-IsWritten user a x guard desk _
answer_review-IsWritten user a x guard r now desk (code ∷ rest) = (
  record a { state = invalidated; result_code = some (by_guard code); version = suc a.version },
  refl,
  (λ same. cc),
  refl,
)

review_timely-IsWritten :
    (env : Env) (user : ℕ) (a : Approval) (d : Decision) (x : Execution) (correlation key : String)
    (now : ℕ) (desk : Desk)
    → IsWritten a desk.approvals (review_timely env user a d x correlation key now desk).1.approvals
unfolding review_timely persist_review
review_timely-IsWritten env user a d x correlation key now desk =
    answer_review-IsWritten user a x _ _ now _ _

-- What the call for a pending approval did: it found it expired, it found no decision or no
-- execution, or it settled it in time.
pub approve_pending-cases :
    (env : Env) (user : ℕ) (a : Approval) (correlation key : String) (now : ℕ) (desk : Desk)
    → (approve_pending env user a correlation key now desk ≡ (
      raises approval_expired,
      record desk { approvals = save_approval (expired_of a) desk.approvals },
    ))
      ⊎ (((e : ApprovalError) × (approve_pending env user a correlation key now desk
              ≡ (raises e, desk)))
          ⊎ ((d : Decision) × (x : Execution) × (now < a.expires_at)
              × (find_decision a.decision_id desk.decisions ≡ some d)
              × (find_execution a.execution_id desk.executions ≡ some x)
              × (approve_pending env user a correlation key now desk
                  ≡ review_timely env user a d x correlation key now desk)))
unfolding approve_pending
approve_pending-cases env user a correlation key now desk =
    elim (Bool-cases (leb a.expires_at now)) [
      | inl late ↦ inl (ground arith)
      | inr timely ↦ elim (Option-cases (find_decision a.decision_id desk.decisions)) [
        | inl missing ↦ inr (inl (decision_not_found, ground arith))
        | inr (d, decided) ↦ elim (Option-cases (find_execution a.execution_id desk.executions)) [
          | inl missing ↦ inr (inl (execution_not_found, ground arith))
          | inr (x, routed) ↦ inr (inr (d, x, ground arith, decided, routed, ground arith))
        ]
      ]
    ]

pub own_id :
    (id : ℕ) (desk : Desk) (a : Approval) → find_approval id desk.approvals ≡ some a → a.id ≡ id
own_id id desk a found = find_row-key (λ (x : Approval). x.id) id a desk.approvals found

pub approve_pending-IsTouched :
    (env : Env) (user id : ℕ) (a : Approval) (correlation key : String) (now : ℕ) (desk : Desk)
    → find_approval id desk.approvals ≡ some a
    → a.state ≡ pending
    → IsTouched id desk.approvals (approve_pending env user a correlation key now desk).1.approvals
approve_pending-IsTouched env user id a correlation key now desk found waits =
    let own = own_id id desk a found in
    elim (approve_pending-cases env user a correlation key now desk) [
      | inl late ↦ inr (
        a,
        expired_of a,
        found,
        waits,
        own,
        (λ same. cc),
        ap (λ (x : Answer). x.1.approvals) late,
      )
      | inr (inl (e, failed)) ↦ inl (ap (λ (x : Answer). x.1.approvals) failed)
      | inr (inr (d, x, timely, decided, routed, settled)) ↦
          let (done, is_id, state, written) =
            review_timely-IsWritten env user a d x correlation key now desk in
          inr (
            a,
            done,
            found,
            waits,
            is_id ∙ own,
            state,
            ap (λ (x : Answer). x.1.approvals) settled ∙ written,
          )
    ]

pub ApprovalState-cases : (s : ApprovalState) → (s ≡ pending) ⊎ (s ≢ pending)
ApprovalState-cases pending = inl refl
ApprovalState-cases approved = inr (λ e. cc)
ApprovalState-cases rejected = inr (λ e. cc)
ApprovalState-cases expired = inr (λ e. cc)
ApprovalState-cases invalidated = inr (λ e. cc)

pub approve-unsettled :
    (env : Env) (user id : ℕ) (correlation key : String) (now : ℕ) (desk : Desk) (a : Approval)
    → find_approval id desk.approvals ≡ some a
    → a.state ≢ pending
    → (approve env user id correlation key now desk).1 ≡ desk
unfolding approve
approve-unsettled env user id correlation key now desk a found closed = ground arith

pub approve-is :
    (env : Env) (user id : ℕ) (correlation key : String) (now : ℕ) (desk : Desk) (a : Approval)
    → find_approval id desk.approvals ≡ some a
    → a.state ≡ pending
    → approve env user id correlation key now desk
      ≡ approve_pending env user a correlation key now desk
unfolding approve
approve-is env user id correlation key now desk a found waits = ground arith

pub reject-unsettled :
    (user id : ℕ) (desk : Desk) (a : Approval)
    → find_approval id desk.approvals ≡ some a
    → a.state ≢ pending
    → (reject user id desk).1 ≡ desk
unfolding reject
reject-unsettled user id desk a found closed = ground arith

pub reject-is :
    (user id : ℕ) (desk : Desk) (a : Approval)
    → find_approval id desk.approvals ≡ some a
    → a.state ≡ pending
    → reject user id desk ≡ reject_pending user a desk
unfolding reject
reject-is user id desk a found waits = ground arith

pub missing_approval :
    (env : Env) (user id : ℕ) (correlation key : String) (now : ℕ) (desk : Desk)
    → find_approval id desk.approvals ≡ none
    → (approve env user id correlation key now desk).1 ≡ desk
unfolding approve
missing_approval env user id correlation key now desk missing = ground arith

pub missing_rejected :
    (user id : ℕ) (desk : Desk)
    → find_approval id desk.approvals ≡ none
    → (reject user id desk).1 ≡ desk
unfolding reject
missing_rejected user id desk missing = ground arith
