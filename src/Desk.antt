-- ===== src/Desk.antt =====
-- The desk of trading decisions: the rows that backend/app/decision_execution.py and
-- backend/app/approvals.py share, and what they read besides them. `Routing` and `Approvals` hold
-- the operations.
pub mod Reads
pub mod Approvals
pub mod Steps
pub mod Examples
pub mod Routing
use cresta.Base.{
  ℕ, suc, ◌+◌, ◌-◌, ◌*◌, ◌/◌, ◌^◌, ◌≡◌, Bool, true, false, not, ◌&&◌, ◌||◌, Option, none, some,
  List, [], ◌∷◌, ◌++◌, String, ltb, leb, if◌then◌else◌,
}
use cresta.Base.Int.{ℤ, pos, negsuc, ◌-ℤ◌, ltb_ℤ, pos_part, neg_part}
use cresta.Base.Tables.{find_row, save_row}
use cresta.Decimal.{Decimal}
use cresta.Paper.Rows.{Settings, Db, Side, buy, sell, Position}
use cresta.Lease.{Worker}
use cresta.Emergency.{Stops}
use cresta.Venue.Calendar.{Holidays}
use cresta.Venue.Quote.{MarketSnapshot}
use cresta.Guard.Rules.{
  Action, buy_action, partial_sell, full_sell, fixed_stop, no_action, other_action, Decision, Code,
  Rule, blocked,
}
use cresta.Guard.Sell.{SellContext}
use cresta.Guard.Risk.{Market}
use cresta.Guard.Buy.{RiskPolicy, BuyContext, Watched, LossEvent}
use cresta.Orders.{Book, OrderError, Outcome, by_order, by_guard, by_text, UnfilledPolicy, Audit}
use Prim.Native.String.{◌++◌ as join_text}

pub data Mode : Type 0 where
  automatic manual_approval disabled : Mode

pub data Stage : Type 0 where
  shadow approval_only mock_automatic : Stage

pub data ExecutionState : Type 0 where
  routing took_no_action mode_disabled guard_blocked shadow_recorded approval_pending :
      ExecutionState
  execution_expired execution_rejected execution_invalidated order_created failed_safe :
      ExecutionState

-- `DecisionExecution`
pub record Execution : Type 0 where
  pub id : ℕ
  pub execution_key : ℕ
  pub decision_id : ℕ
  pub user_id : ℕ
  pub action : Action
  pub mode : Mode
  pub stage : Stage
  pub state : ExecutionState
  pub result_code : Option Outcome
  pub execution_policy_version_id : Option ℕ
  pub risk_policy_version_id : Option ℕ
  pub guard_evaluation_id : Option ℕ
  pub approval_id : Option ℕ
  pub order_intent_id : Option ℕ
  pub correlation_id : String

pub data ApprovalState : Type 0 where
  pending approved rejected expired invalidated : ApprovalState

-- the fields of `_scope_snapshot` that are read again
pub record Scope : Type 0 where
  pub reference_price : Option ℤ
  pub quantity : ℕ
  pub position_id : Option ℕ
  pub position_version : Option ℕ

pub record Approval : Type 0 where
  pub id : ℕ
  pub execution_id : ℕ
  pub decision_id : ℕ
  pub user_id : ℕ
  pub state : ApprovalState
  pub scope : Scope
  pub expires_at : ℕ
  pub actor_id : Option ℕ
  pub order_id : Option ℕ
  pub result_code : Option Outcome
  pub version : ℕ

pub data Subject : Type 0 where
  of_execution of_approval : Subject

-- `GuardEvaluation`: it has passed if no code is blocked
pub record GuardEvaluation : Type 0 where
  pub id : ℕ
  pub execution_id : ℕ
  pub subject : Subject
  pub subject_id : ℕ
  pub blocked_codes : List Code
  pub halts_entries : Bool
  pub snapshot_id : Option ℕ
  pub position_version : Option ℕ

-- The tables that the operations write.
pub record Desk : Type 0 where
  pub book : Book
  pub decisions : List Decision
  pub executions : List Execution
  pub approvals : List Approval
  pub guards : List GuardEvaluation

-- the modes of `ExecutionPolicyPayload`
pub record Modes : Type 0 where
  pub buy_mode : Mode
  pub partial_sell_mode : Mode
  pub full_sell_mode : Mode
  pub fixed_stop_loss_mode : Mode

-- What is hashed of the payload of an order, with `none` for what it leaves out.
pub record OrderPayload : Type 0 where
  pub payload_symbol : String
  pub payload_market : String
  pub payload_action : String
  pub payload_price : Option ℤ
  pub payload_quantity : ℕ
  pub payload_approval : Option ℕ
  pub payload_decision : ℕ
  pub payload_reference : Option ℕ
  pub payload_snapshot : Option ℕ
  pub payload_position : Option ℕ
  pub payload_position_version : Option ℕ
  pub payload_key : String

-- What the operations read and do not write; the digests are SHA-256 of canonical texts, and
-- `id_text` is the text of an id.
pub record Env : Type 0 where
  pub settings : Settings
  pub stage : Stage
  pub modes : Modes
  pub config_version : Option ℕ
  pub policy : RiskPolicy
  pub risk_version : Option ℕ
  pub holidays : Holidays
  pub market_data : Market
  pub watchlist : List Watched
  pub worker : Option Worker
  pub stops : Stops
  pub loss_events : List LossEvent
  pub execution_digest : ℕ → String → Option ℕ → Option ℕ → ℕ
  pub payload_digest : OrderPayload → ℕ
  pub id_text : ℕ → String
