-- ===== src/Fusion.antt =====
-- The fusion of an agent's advice into a stronger decision: backend/app/position_agent_fusion.py.
-- The texts of rows are read as what the code takes from them, digests as numbers.
pub mod Finalize
pub mod Escalation
mod Examples
use cresta.Base.{
  ℕ, suc, ◌*◌, ◌^◌, Bool, true, false, not, ◌&&◌, ◌||◌, Option, none, some, List, [], ◌∷◌, String,
  str_eq, ltb, leb, ◌==◌, if◌then◌else◌, any,
}
use cresta.Decimal.{Decimal}
use cresta.Paper.Rows.{Position}
use cresta.Guard.Rules.{Action, partial_sell, full_sell, no_action, Decision}

-- a decision with the columns that only the fusion reads
pub record PositionDecision : Type 0 where
  pub decision : Decision
  pub decision_input_id : ℕ
  pub decision_kind : String
  pub evaluation_request_id : ℕ

-- the position that an input was made for
pub record PositionPayload : Type 0 where
  pub position_id : ℕ
  pub position_version : ℕ

-- `DecisionInputSnapshot`: the position of its text, if it is one, and the digest of that
pub record DecisionInput : Type 0 where
  pub id : ℕ
  pub user_id : ℕ
  pub market_snapshot_id : ℕ
  pub position : Option PositionPayload
  pub position_digest : ℕ

pub data Assessment : Type 0 where
  hold_supportive neutral exit_risk_elevated exit_risk_high unknown_assessment : Assessment
  other_assessment : String → Assessment

-- what is read of `AgentCoreOutputV2`
pub record Core : Type 0 where
  pub confidence : Decimal
  pub has_incomplete_roles : Bool
  pub assessment : Assessment

pub data CoreOutput : Type 0 where
  output_missing output_invalid : CoreOutput
  core_output : Core → CoreOutput

-- the role of an `AgentStageRun` and whether it has SUCCEEDED
pub record AgentStage : Type 0 where
  pub role : String
  pub succeeded : Bool

pub data FusionState : Type 0 where
  fusion_pending fusion_failed_safe fusion_expired no_escalation escalated : FusionState
  other_fusion_state : String → FusionState

pub data FusionReason : Type 0 where
  basis_not_found basis_expired input_mismatch position_changed : FusionReason
  required_stage_incomplete core_output_missing core_output_invalid core_incomplete : FusionReason
  confidence_below_threshold action_not_supported no_stronger_action user_not_active : FusionReason
  decision_reused llm_exit_risk_high llm_exit_risk_elevated : FusionReason

-- `AgentRun`
pub record AgentRun : Type 0 where
  pub id : ℕ
  pub owner_id : ℕ
  pub purpose : String
  pub analysis_context : String
  pub symbol : String
  pub market : String
  pub market_snapshot_id : ℕ
  pub basis_decision_id : ℕ
  pub position_hash : ℕ
  pub position_text_digest : ℕ
  pub policy_version : String
  pub stages : List AgentStage
  pub core : CoreOutput
  pub fusion_state : FusionState
  pub fusion_reason : Option FusionReason
  pub fusion_decision_id : Option ℕ

-- `_finish`
abbrev pub finish : AgentRun → FusionState → FusionReason → AgentRun
finish run state reason = record run { fusion_state = state; fusion_reason = some reason }

-- `ACTION_SEVERITY.get(action)`
unfoldable pub severity : Action → Option ℕ
severity partial_sell = some 1
severity full_sell = some 2
severity (no_action s) = if str_eq s "HOLD" then some 0 else none
severity _ = none

-- `ASSESSMENT_ACTION.get(assessment)`
abbrev pub advised_action : Assessment → Option Action
advised_action hold_supportive = some (no_action "HOLD")
advised_action neutral = some (no_action "HOLD")
advised_action exit_risk_elevated = some partial_sell
advised_action exit_risk_high = some full_sell
advised_action _ = none

-- `confidence < MINIMUM_CONFIDENCE`
abbrev pub is_below_minimum : Decimal → Bool
is_below_minimum c = (c.negative && ltb 0 c.coeff) || ltb (c.coeff * 100) (70 * 10 ^ c.scale)

-- the rows that the fusion reads and does not write
pub record FusionRows : Type 0 where
  pub inputs : List DecisionInput
  pub active_users : List ℕ
  pub request_digest : ℕ → ℕ → ℕ

abbrev pub or_stage : Option AgentStage → Option AgentStage → Option AgentStage
or_stage none other = other
or_stage (some s) other = some s

-- `by_role.get(role)`: the last stage of a role
unfoldable pub find_stage : String → List AgentStage → Option AgentStage
find_stage role [] = none
find_stage role (s ∷ ss) =
    or_stage (find_stage role ss) (if str_eq s.role role then some s else none)

abbrev pub has_succeeded : Option AgentStage → Bool
has_succeeded none = false
has_succeeded (some s) = s.succeeded

-- whether all of `REQUIRED_STAGES` have succeeded
unfoldable pub all_succeeded : List AgentStage → Bool
unfolding find_stage
all_succeeded stages =
    has_succeeded (find_stage "TECHNICAL_SCOUT" stages)
    && (has_succeeded (find_stage "NEWS_DISCLOSURE_SCOUT" stages)
        && (has_succeeded (find_stage "MARKET_SECTOR_SCOUT" stages)
            && (has_succeeded (find_stage "POSITION_RISK_SCOUT" stages)
                && has_succeeded (find_stage "CORE" stages))))

-- whether the rows are those that the run was started for
abbrev pub belongs : AgentRun → PositionDecision → DecisionInput → Bool
belongs run basis i =
    (i.user_id == run.owner_id
      && (i.market_snapshot_id == run.market_snapshot_id
          && basis.decision.input_snapshot_id == run.market_snapshot_id))
    && ((str_eq basis.decision.symbol run.symbol && str_eq basis.decision.market run.market)
        && (str_eq basis.decision_kind "POSITION"
            && (str_eq basis.decision.purpose "TRADING" && str_eq run.analysis_context "POSITION")))

abbrev pub frozen_of : AgentRun → PositionDecision → Option DecisionInput → Option PositionPayload
frozen_of run basis none = none
frozen_of run basis (some i) =
    if belongs run basis i
      && (i.position_digest == run.position_hash && run.position_text_digest == run.position_hash)
    then i.position
    else none

unfoldable pub find_input : ℕ → List DecisionInput → Option DecisionInput
find_input id [] = none
find_input id (i ∷ is) = if i.id == id then some i else find_input id is

-- `_validate_frozen_input`: the position of the input, if everything agrees
unfoldable pub validate_frozen_input :
    FusionRows → AgentRun → PositionDecision → Option PositionPayload
unfolding find_input
validate_frozen_input rows run basis =
    frozen_of run basis (find_input basis.decision_input_id rows.inputs)
