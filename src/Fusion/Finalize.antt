-- ===== src/Fusion/Finalize.antt =====
-- `finalize_position_advisory` of backend/app/position_agent_fusion.py.
use cresta.Base.{
  ℕ, Bool, true, false, not, ◌&&◌, ◌||◌, Option, none, some, List, [], ◌∷◌, ◌++◌, String, Result,
  returns, raises, raise_if, ◌>>=◌, ◌>>◌, str_eq, ltb, leb, ◌==◌, if◌then◌else◌, any,
}
use cresta.Base.Tables.{find_row}
use cresta.Decimal.{Decimal}
use cresta.Paper.Rows.{Position}
use cresta.Guard.Sell.{is_open}
use cresta.Guard.Rules.{Action, partial_sell, full_sell}
use cresta.Desk.{Desk, Env}
use cresta.Desk.Reads.{skip_id}
use cresta.Desk.Approvals.{ApprovalError}
use cresta.Desk.Routing.Route.{Routed, route_trading_decision}
use cresta.Fusion.{
  PositionDecision, PositionPayload, FusionRows, AgentRun, Assessment, unknown_assessment, Core,
  CoreOutput, output_missing, output_invalid, core_output, FusionState, fusion_pending,
  fusion_failed_safe, fusion_expired, no_escalation, escalated, FusionReason, basis_not_found,
  basis_expired, input_mismatch, position_changed, required_stage_incomplete, core_output_missing,
  core_output_invalid, core_incomplete, confidence_below_threshold, action_not_supported,
  no_stronger_action, user_not_active, decision_reused, llm_exit_risk_high, llm_exit_risk_elevated,
  finish, severity, advised_action, is_below_minimum, all_succeeded, validate_frozen_input,
}

-- how a run ends without a decision
abbrev pub Ending : Type 0
Ending = FusionState × FusionReason

abbrev pub or_end : {A : Type 0} → Ending → Option A → Result Ending A
or_end e none = raises e
or_end e (some a) = returns a

-- the position is the one of the input, open and of some shares
abbrev pub has_changed : PositionPayload → Option Position → Bool
has_changed payload none = true
has_changed payload (some p) =
    not (is_open p.state && (p.version == payload.position_version && ltb 0 p.quantity))

abbrev pub read_core : CoreOutput → Result Ending Core
read_core output_missing = raises (fusion_failed_safe, core_output_missing)
read_core output_invalid = raises (fusion_failed_safe, core_output_invalid)
read_core (core_output core) = returns core

abbrev pub is_unknown : Assessment → Bool
is_unknown unknown_assessment = true
is_unknown _ = false

abbrev pub find_position_row : ℕ → List Position → Option Position
find_position_row id rows = find_row (λ (p : Position). p.id) id rows

-- the basis of the run, under the policy of this code
abbrev pub usable : String → Option PositionDecision → Option PositionDecision
usable version none = none
usable version (some basis) = if str_eq version "position-agent-fusion-v1" then some basis else none

-- the advised action, if it is stronger than that of the basis
unfoldable pub stronger_action : Action → Core → Result Ending Action
stronger_action basis_action core = do
  raise_if (core.has_incomplete_roles || is_unknown core.assessment)
      (fusion_failed_safe, core_incomplete)
  raise_if (is_below_minimum core.confidence) (no_escalation, confidence_below_threshold)
  basis_severity ← or_end (fusion_failed_safe, action_not_supported) (severity basis_action)
  advised ← or_end (fusion_failed_safe, action_not_supported) (advised_action core.assessment)
  advised_severity ← or_end (fusion_failed_safe, action_not_supported) (severity advised)
  raise_if (leb advised_severity basis_severity) (no_escalation, no_stronger_action)
  returns advised

-- The checks of `finalize_position_advisory` before the decision.
unfoldable pub advise :
    FusionRows → AgentRun → PositionDecision → List Position → ℕ → Result Ending Action
unfolding stronger_action
advise rows run basis positions now = do
  raise_if (leb basis.decision.valid_until now) (fusion_expired, basis_expired)
  payload ← or_end (fusion_failed_safe, input_mismatch) (validate_frozen_input rows run basis)
  raise_if (has_changed payload (find_position_row payload.position_id positions))
      (fusion_failed_safe, position_changed)
  raise_if (not (all_succeeded run.stages)) (fusion_failed_safe, required_stage_incomplete)
  core ← read_core run.core
  advised ← stronger_action basis.decision.action core
  raise_if (not (any (λ u. u == run.owner_id) rows.active_users))
      (fusion_failed_safe, user_not_active)
  returns advised

-- the run, the decisions and the desk that a call leaves
pub record Fused : Type 0 where
  pub answer : Option PositionDecision
  pub run : AgentRun
  pub decisions : List PositionDecision
  pub desk : Desk

abbrev pub half : Decimal
half = record { negative = false; coeff = 5; scale = 1 }

abbrev pub ratio_for : Action → Option Decimal
ratio_for partial_sell = some half
ratio_for _ = none

abbrev pub reason_for : Action → FusionReason
reason_for full_sell = llm_exit_risk_high
reason_for _ = llm_exit_risk_elevated

-- the new decision
abbrev pub fused_decision : PositionDecision → Action → ℕ → ℕ → PositionDecision
fused_decision basis advised request id = record {
  decision = record basis.decision {
    id = id;
    purpose = "TRADING";
    action = advised;
    core_sell_ratio = ratio_for advised;
  };
  decision_input_id = basis.decision_input_id;
  decision_kind = "POSITION";
  evaluation_request_id = request;
}

unfoldable pub find_request : ℕ → List PositionDecision → Option PositionDecision
find_request request [] = none
find_request request (d ∷ ds) =
    if d.evaluation_request_id == request then some d else find_request request ds

abbrev pub find_basis : ℕ → List PositionDecision → Option PositionDecision
find_basis id rows = find_row (λ (d : PositionDecision). d.decision.id) id rows

-- the run once its decision has been routed, which may raise
abbrev pub escalate :
    AgentRun
    → PositionDecision
    → FusionReason
    → List PositionDecision
    → Routed
    → Result ApprovalError Fused
escalate run d reason decisions (raises e, desk) = raises e
escalate run d reason decisions (returns x, desk) = returns (record {
  answer = some d;
  run = record (finish run escalated reason) { fusion_decision_id = some d.decision.id };
  decisions = decisions;
  desk = desk;
})

-- the tables with a decision more
abbrev pub add_decision : PositionDecision → Desk → Desk
add_decision d desk = record desk {
  book = skip_id desk.book;
  decisions = desk.decisions ++ d.decision ∷ [];
}

-- a decision of the request, which is routed again, or a new one
unfoldable pub fuse :
    Env
    → AgentRun
    → PositionDecision
    → Action
    → ℕ
    → String
    → ℕ
    → List PositionDecision
    → Desk
    → Option PositionDecision
    → Result ApprovalError Fused
fuse env run basis advised request correlation now decisions desk (some existing) =
    escalate run existing decision_reused decisions
      (route_trading_decision env run.owner_id existing.decision correlation now desk)
fuse env run basis advised request correlation now decisions desk none =
    let d = fused_decision basis advised request desk.book.db.next_id in
    escalate run d (reason_for advised) (decisions ++ d ∷ [])
      (route_trading_decision env run.owner_id d.decision correlation now (add_decision d desk))

abbrev pub unchanged :
    AgentRun → Option PositionDecision → List PositionDecision → Desk → Result ApprovalError Fused
unchanged run answer decisions desk =
    returns (record { answer = answer; run = run; decisions = decisions; desk = desk })

-- the end of a run, from its checks
unfoldable pub conclude :
    Env
    → FusionRows
    → AgentRun
    → PositionDecision
    → String
    → ℕ
    → List PositionDecision
    → Desk
    → Result Ending Action
    → Result ApprovalError Fused
unfolding fuse find_request
conclude env rows run basis correlation now decisions desk (raises (state, reason)) =
    unchanged (finish run state reason) none decisions desk
conclude env rows run basis correlation now decisions desk (returns advised) =
    let request = rows.request_digest run.id basis.decision.id in
    fuse env run basis advised request correlation now decisions desk
      (find_request request decisions)

unfoldable pub finalize_pending :
    Env
    → FusionRows
    → AgentRun
    → String
    → ℕ
    → List PositionDecision
    → Desk
    → Option PositionDecision
    → Result ApprovalError Fused
unfolding conclude advise
finalize_pending env rows run correlation now decisions desk none =
    unchanged (finish run fusion_failed_safe basis_not_found) none decisions desk
finalize_pending env rows run correlation now decisions desk (some basis) =
    conclude env rows run basis correlation now decisions desk
      (advise rows run basis desk.book.db.positions now)

abbrev pub earlier_decision : Option ℕ → List PositionDecision → Option PositionDecision
earlier_decision none decisions = none
earlier_decision (some id) decisions = find_basis id decisions

-- `finalize_position_advisory`
unfoldable pub finalize_position_advisory :
    Env
    → FusionRows
    → AgentRun
    → String
    → ℕ
    → List PositionDecision
    → Desk
    → Result ApprovalError Fused
unfolding finalize_pending
finalize_position_advisory env rows run correlation now decisions desk =
    if not (str_eq run.purpose "TRADING_ADVISORY")
    then unchanged run none decisions desk
    else elim run.fusion_state [
      | fusion_pending ↦
          finalize_pending env rows run correlation now decisions desk
            (usable run.policy_version (find_basis run.basis_decision_id decisions))
      | _ ↦ unchanged run (earlier_decision run.fusion_decision_id decisions) decisions desk
    ]
