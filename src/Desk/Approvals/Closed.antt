-- ===== src/Desk/Approvals/Closed.antt =====
-- Approvals that are settled stay as they are (backend/app/approvals.py).
use cresta.Desk.Approvals.Settled.{
  approve_pending-IsTouched, approve-unsettled, reject-unsettled, missing_approval,
  missing_rejected,
}
use cresta.Base.{
  ℕ, suc, ◌≡◌, ◌≢◌, inl, inr, refl, sym, ap, ◌∙◌, subst, some, List, [], ◌∷◌, String, arith,
  Option-cases, Bool-cases, ◌==◌,
}
use cresta.Base.Tables.{find_row, find-save_row}
use cresta.Orders.{by_text}
use cresta.Desk.{Execution, Approval, pending, rejected, Desk, Env}
use cresta.Desk.Reads.{find_approval}
use cresta.Desk.Approvals.{Answer}
use cresta.Desk.Approvals.Granting.{approve}
use cresta.Desk.Approvals.Closing.{
  reject_pending, reject, expire_rows, end_execution, expired_execution, expire_stale,
}
use cresta.Desk.Approvals.Settled.{IsTouched, own_id, ApprovalState-cases, approve-is, reject-is}

-- An approval that is settled is found unchanged where at most a pending row was written.
pub IsTouched-settled :
    (id k : ℕ) (before after : List Approval) (b : Approval)
    → IsTouched id before after
    → find_approval k before ≡ some b
    → b.state ≢ pending
    → find_approval k after ≡ some b
IsTouched-settled id k before after b (inl same) held closed =
    ap (λ rows. find_approval k rows) same ∙ held
IsTouched-settled id k before after b (inr (a, done, found, waits, is_id, ended, written)) held
      closed =
    let look =
      find-save_row (λ (x : Approval). x.id) k done a before
        (ap (λ i. find_approval i before) is_id ∙ found) in
    elim (Bool-cases (done.id == k)) [
      | inl same ↦ ground arith
      | inr other ↦ ap (λ rows. find_approval k rows) written ∙ look ∙ ground arith
    ]

pub approve-IsTouched :
    (env : Env) (user id : ℕ) (correlation key : String) (now : ℕ) (desk : Desk)
    → IsTouched id desk.approvals (approve env user id correlation key now desk).1.approvals
approve-IsTouched env user id correlation key now desk =
    elim (Option-cases (find_approval id desk.approvals)) [
      | inl missing ↦ inl (
          ap (λ (x : Desk). x.approvals)
            (missing_approval env user id correlation key now desk missing))
      | inr (a, found) ↦ elim (ApprovalState-cases a.state) [
        | inr closed ↦ inl (
            ap (λ (x : Desk). x.approvals)
              (approve-unsettled env user id correlation key now desk a found closed))
        | inl waits ↦
            subst (λ (x : Answer). IsTouched id desk.approvals x.1.approvals)
              (sym (approve-is env user id correlation key now desk a found waits))
              (approve_pending-IsTouched env user id a correlation key now desk found waits)
      ]
    ]

reject_pending-IsTouched :
    (user id : ℕ) (a : Approval) (desk : Desk)
    → find_approval id desk.approvals ≡ some a
    → a.state ≡ pending
    → IsTouched id desk.approvals (reject_pending user a desk).1.approvals
unfolding reject_pending
reject_pending-IsTouched user id a desk found waits =
    let own = own_id id desk a found in
    inr (
      a,
      record a {
        state = rejected;
        actor_id = some user;
        result_code = some (by_text "USER_REJECTED");
        version = suc a.version;
      },
      found,
      waits,
      own,
      (λ same. cc),
      refl,
    )

pub reject-IsTouched :
    (user id : ℕ) (desk : Desk) → IsTouched id desk.approvals (reject user id desk).1.approvals
reject-IsTouched user id desk = elim (Option-cases (find_approval id desk.approvals)) [
  | inl missing ↦ inl (ap (λ (x : Desk). x.approvals) (missing_rejected user id desk missing))
  | inr (a, found) ↦ elim (ApprovalState-cases a.state) [
    | inr closed ↦
        inl (ap (λ (x : Desk). x.approvals) (reject-unsettled user id desk a found closed))
    | inl waits ↦
        subst (λ (x : Answer). IsTouched id desk.approvals x.1.approvals)
          (sym (reject-is user id desk a found waits))
          (reject_pending-IsTouched user id a desk found waits)
  ]
]

expire_rows-settled :
    (now k : ℕ) (rows : List Approval) (xs : List Execution) (b : Approval)
    → find_approval k rows ≡ some b
    → b.state ≢ pending
    → find_approval k (expire_rows now rows xs).1 ≡ some b
unfolding expire_rows find_row
expire_rows-settled now k [] xs b held closed = held
expire_rows-settled now k (a ∷ rows) xs b held closed = elim (Bool-cases (a.id == k)) [
  | inl same ↦ ground arith
  | inr other ↦
      let tail : find_approval k rows ≡ some b = ground arith in
      let kept = expire_rows-settled now k rows xs b tail closed in
      let ended =
        expire_rows-settled now k rows (end_execution a.execution_id expired_execution xs) b tail
          closed in
      ground arith
]

pub expire_stale-settled :
    (now k : ℕ) (desk : Desk) (b : Approval)
    → find_approval k desk.approvals ≡ some b
    → b.state ≢ pending
    → find_approval k (expire_stale now desk).1.approvals ≡ some b
unfolding expire_stale
expire_stale-settled now k desk b held closed =
    expire_rows-settled now k desk.approvals desk.executions b held closed
