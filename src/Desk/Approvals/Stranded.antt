-- ===== src/Desk/Approvals/Stranded.antt =====
-- An approval that `approve` finds expired: backend/app/approvals.py leaves its execution as it is.
use cresta.Base.{
  ℕ, ◌≡◌, ◌≤◌, refl, ap, ◌∙◌, true, false, Option, some, List, [], ◌∷◌, String, raises, arith,
  Bool-cases, ◌==◌, Option-cases, inl, inr, Bool, ◌&&◌, any, if◌then◌else◌,
}
use cresta.Base.Tables.{find-save_row, find_row-key}
use cresta.Desk.{Execution, Approval, pending, Desk, Env}
use cresta.Desk.Reads.{find_approval, save_approval, find_execution}
use cresta.Desk.Approvals.{approval_expired, Answer}
use cresta.Desk.Approvals.Granting.{approve_pending, approve, expired_of}
use cresta.Desk.Approvals.Closing.{
  end_found, end_execution, expired_execution, is_stale, expire_rows, expire_stale,
}
use cresta.Desk.Approvals.Settled.{approve-is}

late_approval :
    (env : Env) (user : ℕ) (a : Approval) (correlation key : String) (now : ℕ) (desk : Desk)
    → a.expires_at ≤ now
    → approve_pending env user a correlation key now desk ≡ (
      raises approval_expired,
      record desk { approvals = save_approval (expired_of a) desk.approvals },
    )
unfolding approve_pending
late_approval env user a correlation key now desk late = ground arith

-- a pending approval of the execution
abbrev pub waits_for : ℕ → Approval → Bool
waits_for execution b = b.execution_id == execution && elim b.state [ pending ↦ true | _ ↦ false ]

expired_execution-id : (x : Execution) → (expired_execution x).id ≡ x.id
expired_execution-id x = ground arith

end_execution-other :
    (id k : ℕ) (xs : List Execution)
    → (id == k) ≡ false
    → find_execution k (end_execution id expired_execution xs) ≡ find_execution k xs
end_execution-other id k xs other = elim (Option-cases (find_execution id xs)) [
  | inl missing ↦
      ap (λ (o : Option Execution). find_execution k (end_found expired_execution xs o)) missing
  | inr (x, found) ↦
      let own = expired_execution-id x ∙ find_row-key (λ (y : Execution). y.id) id x xs found in
      let look =
        find-save_row (λ (y : Execution). y.id) k (expired_execution x) x xs
          (ap (λ i. find_execution i xs) own ∙ found) in
      let apart = ap (λ i. i == k) own ∙ other in
      ap (λ (o : Option Execution). find_execution k (end_found expired_execution xs o)) found
      ∙ look
      ∙ ap (λ b. if b then some (expired_execution x) else find_execution k xs) apart
]

expire_rows-keeps :
    (now execution : ℕ) (rows : List Approval) (xs : List Execution)
    → any (waits_for execution) rows ≡ false
    → find_execution execution (expire_rows now rows xs).2 ≡ find_execution execution xs
unfolding expire_rows
expire_rows-keeps now execution [] xs only = refl
expire_rows-keeps now execution (a ∷ rows) xs only = elim (Bool-cases (is_stale now a)) [
  | inr fresh ↦ let rest = expire_rows-keeps now execution rows xs (ground arith) in ground arith
  | inl stale ↦
      let rest =
        expire_rows-keeps now execution rows (end_execution a.execution_id expired_execution xs)
          (ground arith) in
      let same = end_execution-other a.execution_id execution xs (ground arith) in ground arith
]

-- `approve` refuses a pending approval that has expired and settles it, but it does not touch the
-- execution: where no other approval of it is pending, no later call of `expire_stale` finds the
-- execution, whatever its state is.
pub approve-strands :
    (env : Env) (user id : ℕ) (correlation key : String) (now later : ℕ) (desk : Desk)
    (a : Approval)
    → find_approval id desk.approvals ≡ some a
    → a.state ≡ pending
    → a.expires_at ≤ now
    → any (waits_for a.execution_id) (save_approval (expired_of a) desk.approvals) ≡ false
    → let (answer, after) = approve env user id correlation key now desk in
      (answer ≡ raises approval_expired)
      × (find_approval id after.approvals ≡ some (expired_of a))
      × (find_execution a.execution_id (expire_stale later after).1.executions
          ≡ find_execution a.execution_id desk.executions)
unfolding expire_stale
approve-strands env user id correlation key now later desk a found waits late only =
    let is =
      approve-is env user id correlation key now desk a found waits
      ∙ late_approval env user a correlation key now desk late in
    let own = find_row-key (λ (x : Approval). x.id) id a desk.approvals found in
    let look =
      find-save_row (λ (x : Approval). x.id) id (expired_of a) a desk.approvals
        (ap (λ i. find_approval i desk.approvals) own ∙ found) in
    (
      ap (λ (x : Answer). x.0) is,
      ap (λ (x : Answer). find_approval id x.1.approvals) is ∙ look ∙ ground arith,
      ap
            (λ (x : Answer).
              find_execution a.execution_id (expire_rows later x.1.approvals x.1.executions).2)
            is
          ∙ expire_rows-keeps later a.execution_id (save_approval (expired_of a) desk.approvals)
              desk.executions only,
    )
