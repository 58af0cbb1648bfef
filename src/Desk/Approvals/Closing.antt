-- ===== src/Desk/Approvals/Closing.antt =====
-- `reject` and `expire_stale` of backend/app/approvals.py.
use cresta.Base.{
  ℕ, suc, Bool, false, Option, none, some, List, [], ◌∷◌, returns, raises, leb, if◌then◌else◌,
}
use cresta.Orders.{by_text}
use cresta.Desk.{
  Execution, approval_pending, execution_expired, execution_rejected, Approval, pending, rejected,
  Desk,
}
use cresta.Desk.Reads.{log_audit, find_approval, save_approval, find_execution, save_execution}
use cresta.Desk.Approvals.{Answer, approval_not_found, approval_not_pending}
use cresta.Desk.Approvals.Granting.{expired_of}

abbrev pub end_found : (Execution → Execution) → List Execution → Option Execution → List Execution
end_found change rows none = rows
end_found change rows (some x) = save_execution (change x) rows

-- the execution of an id, if it is found, written back changed
abbrev pub end_execution : ℕ → (Execution → Execution) → List Execution → List Execution
end_execution id change rows = end_found change rows (find_execution id rows)

abbrev pub rejected_execution : Execution → Execution
rejected_execution x = record x {
  state = execution_rejected;
  result_code = some (by_text "USER_REJECTED");
}

unfoldable pub reject_pending : ℕ → Approval → Desk → Answer
reject_pending user a desk =
    let done = record a {
      state = rejected;
      actor_id = some user;
      result_code = some (by_text "USER_REJECTED");
      version = suc a.version;
    } in
    (
      returns done,
      record desk {
        book = log_audit (some user) "APPROVAL_REJECTED" a.id (by_text "REJECTED") desk.book;
        approvals = save_approval done desk.approvals;
        executions = end_execution a.execution_id rejected_execution desk.executions;
      },
    )

-- `reject`
unfoldable pub reject : ℕ → ℕ → Desk → Answer
unfolding reject_pending
reject user id desk = elim (find_approval id desk.approvals) [
  | none ↦ (raises approval_not_found, desk)
  | some a ↦ elim a.state [
    | rejected ↦ (returns a, desk)
    | pending ↦ reject_pending user a desk
    | _ ↦ (raises approval_not_pending, desk)
  ]
]

abbrev pub is_stale : ℕ → Approval → Bool
is_stale now a = elim a.state [ pending ↦ leb a.expires_at now | _ ↦ false ]

abbrev pub expired_execution : Execution → Execution
expired_execution x = elim x.state [
  | approval_pending ↦ record x {
    state = execution_expired;
    result_code = some (by_text "APPROVAL_EXPIRED");
  }
  | _ ↦ x
]

-- the loop of `expire_stale`: the number of rows, the approvals and the executions
unfoldable pub expire_rows : ℕ → List Approval → List Execution → ℕ × List Approval × List Execution
expire_rows now [] xs = (0, [], xs)
expire_rows now (a ∷ rows) xs =
    let ended = expire_rows now rows (end_execution a.execution_id expired_execution xs) in
    let kept = expire_rows now rows xs in
    if is_stale now a
    then (suc ended.0, expired_of a ∷ ended.1, ended.2)
    else (kept.0, a ∷ kept.1, kept.2)

-- `expire_stale`
unfoldable pub expire_stale : ℕ → Desk → ℕ × Desk
unfolding expire_rows
expire_stale now desk =
    let (n, approvals, executions) = expire_rows now desk.approvals desk.executions in
    (n, record desk { approvals = approvals; executions = executions })
