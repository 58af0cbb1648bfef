-- ===== src/Fusion/Escalation.antt =====
-- What a finalized run of backend/app/position_agent_fusion.py may have done.
use cresta.Base.{
  ℕ, ◌≡◌, ◌<◌, ◌⊎◌, inl, inr, refl, ap, ◌∙◌, [], ◌∷◌, ◌++◌, Bool, true, false, Option, none, some,
  List, String, Result, returns, raises, str_eq, arith, Option-cases, Bool-cases, Result-cases,
}
use cresta.Paper.Rows.{Position}
use cresta.Guard.Rules.{Action}
use cresta.Desk.{Desk, Env}
use cresta.Desk.Approvals.{ApprovalError}
use cresta.Desk.Routing.Route.{route_trading_decision}
use cresta.Fusion.{
  PositionDecision, PositionPayload, FusionRows, AgentRun, Core, CoreOutput, output_missing,
  output_invalid, core_output, FusionState, fusion_pending, fusion_failed_safe, fusion_expired,
  no_escalation, FusionReason, basis_not_found, decision_reused, finish, severity, advised_action,
  is_below_minimum, all_succeeded, validate_frozen_input,
}
use cresta.Fusion.Finalize.{
  stronger_action, Ending, has_changed, read_core, find_position_row, usable, advise, reason_for,
  fused_decision, find_request, find_basis, escalate, add_decision, fuse, conclude,
  finalize_pending, finalize_position_advisory, Fused,
}
use cresta.Fusion.{no_escalation, all_succeeded}

-- an ending of the checks leaves the run neither pending nor escalated
abbrev pub is_terminal : FusionState → Bool
is_terminal fusion_failed_safe = true
is_terminal fusion_expired = true
is_terminal no_escalation = true
is_terminal _ = false

advise-raises :
    (rows : FusionRows) (run : AgentRun) (basis : PositionDecision) (positions : List Position)
    (now : ℕ) {e : Ending}
    → advise rows run basis positions now ≡ raises e
    → is_terminal e.0 ≡ true
unfolding advise stronger_action
advise-raises rows run basis positions now h = ground arith

-- the agent is complete and confident, and advises more than the basis does
abbrev pub IsStronger : Action → Core → Action → Type 0
IsStronger basis_action core advised =
    (core.has_incomplete_roles ≡ false)
    × (is_below_minimum core.confidence ≡ false)
    × (advised_action core.assessment ≡ some advised)
    × ((before after : ℕ) × (severity basis_action ≡ some before)
        × (severity advised ≡ some after)
        × (before < after))

stronger_action-IsStronger :
    (basis_action : Action) (core : Core) {advised : Action}
    → stronger_action basis_action core ≡ returns advised
    → IsStronger basis_action core advised
unfolding stronger_action
stronger_action-IsStronger basis_action core {advised} h =
    elim (Option-cases (severity basis_action)) [
      | inl none_before ↦ ground arith
      | inr (before, is_before) ↦ elim (Option-cases (severity advised)) [
        | inl none_after ↦ ground arith
        | inr (after, is_after) ↦ (
          ground arith,
          ground arith,
          ground arith,
          (before, after, is_before, is_after, ground arith),
        )
      ]
    ]

-- what the checks have established of the run, its basis and the action that is advised
abbrev pub IsJustified :
    FusionRows → AgentRun → PositionDecision → List Position → ℕ → Action → Type 0
IsJustified rows run basis positions now advised =
    (now < basis.decision.valid_until)
    × ((payload : PositionPayload) × (validate_frozen_input rows run basis ≡ some payload)
        × (has_changed payload (find_position_row payload.position_id positions) ≡ false))
    × (all_succeeded run.stages ≡ true)
    × ((core : Core) × (run.core ≡ core_output core)
        × IsStronger basis.decision.action core advised)

read_core-cases :
    (c : CoreOutput)
    → ((e : Ending) × (read_core c ≡ raises e)) ⊎ ((core : Core) × (c ≡ core_output core))
read_core-cases output_missing = inl (_, refl)
read_core-cases output_invalid = inl (_, refl)
read_core-cases (core_output core) = inr (core, refl)

advise-IsJustified :
    (rows : FusionRows) (run : AgentRun) (basis : PositionDecision) (positions : List Position)
    (now : ℕ) {advised : Action}
    → advise rows run basis positions now ≡ returns advised
    → IsJustified rows run basis positions now advised
unfolding advise
advise-IsJustified rows run basis positions now h =
    elim (Option-cases (validate_frozen_input rows run basis)) [
      | inl missing ↦ ground arith
      | inr (payload, is_payload) ↦ elim (read_core-cases run.core) [
        | inl (e, unread) ↦ ground arith
        | inr (core, is_core) ↦ (
          ground arith,
          (payload, is_payload, ground arith),
          ground arith,
          (core, is_core, stronger_action-IsStronger basis.decision.action core (ground arith)),
        )
      ]
    ]

-- the run ends without a decision, and nothing else changes
abbrev pub Stops : List PositionDecision → Desk → Result ApprovalError Fused → Type 0
Stops decisions desk result =
    (run : AgentRun) × (is_terminal run.fusion_state ≡ true)
    × (result ≡ returns (record { answer = none; run = run; decisions = decisions; desk = desk }))

-- the decision that is routed, with the tables it is routed in
abbrev pub IsChosen :
    ℕ
    → PositionDecision
    → Action
    → List PositionDecision
    → Desk
    → PositionDecision
    → List PositionDecision
    → Desk
    → Type 0
IsChosen request basis advised decisions desk d decisions2 desk2 =
    ((find_request request decisions ≡ some d) × (decisions2 ≡ decisions) × (desk2 ≡ desk))
    ⊎ ((find_request request decisions ≡ none)
        × (d.decision.action ≡ advised)
        × (d.decision.symbol ≡ basis.decision.symbol)
        × (d.decision.valid_until ≡ basis.decision.valid_until)
        × (d.evaluation_request_id ≡ request)
        × (decisions2 ≡ decisions ++ d ∷ [])
        × (desk2 ≡ add_decision d desk))

-- a decision is routed for a basis with which the advice is justified
abbrev pub Escalates :
    Env
    → FusionRows
    → AgentRun
    → String
    → ℕ
    → List PositionDecision
    → Desk
    → Result ApprovalError Fused
    → Type 0
Escalates env rows run correlation now decisions desk result =
    (basis : PositionDecision) × (advised : Action) × (find_basis run.basis_decision_id decisions
      ≡ some basis)
    × IsJustified rows run basis desk.book.db.positions now advised
    × ((d : PositionDecision) × (reason : FusionReason) × (decisions2 : List PositionDecision)
        × (desk2 : Desk) × IsChosen (rows.request_digest run.id basis.decision.id) basis advised
            decisions desk d decisions2 desk2
        × (result
            ≡ escalate run d reason decisions2
                (route_trading_decision env run.owner_id d.decision correlation now desk2)))

conclude-Escalates :
    (env : Env) (rows : FusionRows) (run : AgentRun) (basis : PositionDecision)
    (correlation : String) (now : ℕ) (decisions : List PositionDecision) (desk : Desk)
    → find_basis run.basis_decision_id decisions ≡ some basis
    → let result =
        conclude env rows run basis correlation now decisions desk
          (advise rows run basis desk.book.db.positions now) in
      Stops decisions desk result ⊎ Escalates env rows run correlation now decisions desk result
unfolding conclude fuse
conclude-Escalates env rows run basis correlation now decisions desk found =
    elim (Result-cases (advise rows run basis desk.book.db.positions now)) [
      | inr ((state, reason), ended) ↦ inl (
        finish run state reason,
        advise-raises rows run basis desk.book.db.positions now ended,
        ap (λ r. conclude env rows run basis correlation now decisions desk r) ended,
      )
      | inl (advised, justified) ↦
          let routed =
            ap (λ r. conclude env rows run basis correlation now decisions desk r) justified in
          let request = rows.request_digest run.id basis.decision.id in
          let chosen = λ (o : Option PositionDecision).
            fuse env run basis advised request correlation now decisions desk o in
          inr (
            basis,
            advised,
            found,
            advise-IsJustified rows run basis desk.book.db.positions now justified,
            elim (Option-cases (find_request request decisions)) [
              | inl new ↦ (
                fused_decision basis advised request desk.book.db.next_id,
                reason_for advised,
                _,
                _,
                inr (new, refl, refl, refl, refl, refl, refl),
                routed ∙ ap chosen new,
              )
              | inr (d, again) ↦ (
                d,
                decision_reused,
                decisions,
                desk,
                inl (again, refl, refl),
                routed ∙ ap chosen again,
              )
            ],
          )
    ]

usable-cases :
    (version : String) (o : Option PositionDecision)
    → (usable version o ≡ none)
      ⊎ ((basis : PositionDecision) × (o ≡ some basis) × (usable version o ≡ some basis))
usable-cases version none = inl refl
usable-cases version (some basis) = elim (Bool-cases (str_eq version "position-agent-fusion-v1")) [
  | inl same ↦ inr (basis, refl, ground arith)
  | inr other ↦ inl (ground arith)
]

pending_run :
    (env : Env) (rows : FusionRows) (run : AgentRun) (correlation : String) (now : ℕ)
    (decisions : List PositionDecision) (desk : Desk)
    → str_eq run.purpose "TRADING_ADVISORY" ≡ true
    → run.fusion_state ≡ fusion_pending
    → finalize_position_advisory env rows run correlation now decisions desk
      ≡ finalize_pending env rows run correlation now decisions desk
          (usable run.policy_version (find_basis run.basis_decision_id decisions))
unfolding finalize_position_advisory
pending_run env rows run correlation now decisions desk advisory pending = ground arith

-- A pending run that advises on trading ends without a decision and without any other change, or
-- routes one.
pub finalize_position_advisory-Escalates :
    (env : Env) (rows : FusionRows) (run : AgentRun) (correlation : String) (now : ℕ)
    (decisions : List PositionDecision) (desk : Desk)
    → str_eq run.purpose "TRADING_ADVISORY" ≡ true
    → run.fusion_state ≡ fusion_pending
    → let result = finalize_position_advisory env rows run correlation now decisions desk in
      Stops decisions desk result ⊎ Escalates env rows run correlation now decisions desk result
unfolding finalize_pending
finalize_position_advisory-Escalates env rows run correlation now decisions desk advisory pending =
    let whole = pending_run env rows run correlation now decisions desk advisory pending in
    let step = λ (o : Option PositionDecision).
      finalize_pending env rows run correlation now decisions desk o in
    elim (usable-cases run.policy_version (find_basis run.basis_decision_id decisions)) [
      | inl missing ↦
          inl (finish run fusion_failed_safe basis_not_found, refl, whole ∙ ap step missing)
      | inr (basis, found, is_usable) ↦
          elim (conclude-Escalates env rows run basis correlation now decisions desk found) [
            | inl (ended, final, same) ↦ inl (ended, final, whole ∙ ap step is_usable ∙ same)
            | inr (b, advised, is_basis, justified, (d, reason, decisions2, desk2, chosen, same)) ↦
                inr (
                  b,
                  advised,
                  is_basis,
                  justified,
                  (d, reason, decisions2, desk2, chosen, whole ∙ ap step is_usable ∙ same),
                )
          ]
    ]
