-- ===== src/Recovery.antt =====
-- src/runmantle/recovery.py: what the in-memory executor reads, and the results of an action.
pub mod Names
pub mod Plan
pub mod Bound
pub mod Session
pub mod Served
pub mod Whole
pub mod Gates
pub mod Executor
pub mod Permitted
pub mod Acted
pub mod Interleaving
use runmantle.Prelude.{
  ℕ, String, Bool, true, false, Option, none, some, List, [], ◌∷◌, ◌++◌, any, eqb, leb,
}
use runmantle.Value.{DateTime, Entries}
use runmantle.Contracts.{RiskLevel, low, medium, high, critical, TaskStatus, status_code}

pub data RecoveryStatus : Type 0 where
  planned dry_run blocked approval_required awaiting_approval : RecoveryStatus
  awaiting_preflight_confirmation awaiting_runtime_confirmation : RecoveryStatus
  authorized executing executor_succeeded postconditions_satisfied : RecoveryStatus
  postcondition_failed verified unknown runtime_confirmed : RecoveryStatus
  failed duplicate_prevented : RecoveryStatus

pub data RecoveryReasonCode : Type 0 where
  unsupported_capability capability_unavailable recovery_not_supported : RecoveryReasonCode
  task_mismatch invalid_task_state idempotency_mismatch : RecoveryReasonCode
  risk_exceeds_capability policy_denied approval_required approval_rejected : RecoveryReasonCode
  approval_expired approval_hash_mismatch : RecoveryReasonCode
  preflight_confirmation_required preflight_confirmation_rejected : RecoveryReasonCode
  runtime_confirmation_required runtime_confirmation_rejected : RecoveryReasonCode
  duplicate_idempotency_key executor_unavailable execution_failed : RecoveryReasonCode
  execution_interrupted precondition_failed postcondition_failed : RecoveryReasonCode
  outcome_not_verified dry_run_complete executed : RecoveryReasonCode

pub record RecoveryAction : Type 0 where
  pub action_id : String
  pub capability : String
  pub idempotency_key : String
  pub reason : String
  pub parameters : Entries
  pub handler_identity : String
  pub handler_configuration : Entries
  pub action_hash : String

pub record RecoveryPolicy : Type 0 where
  pub allowed_capabilities : List String
  pub allowed_task_states : List TaskStatus
  pub maximum_risk_level : RiskLevel
  pub approval_required_capabilities : List String
  pub require_runtime_confirmation : Bool

abbrev every_status : List TaskStatus
every_status =
    TaskStatus.pending ∷ TaskStatus.running ∷ TaskStatus.agent_reported_complete
    ∷ TaskStatus.verifying ∷ TaskStatus.verified ∷ TaskStatus.failed ∷ TaskStatus.inconclusive
    ∷ TaskStatus.awaiting_evidence ∷ TaskStatus.awaiting_approval
    ∷ TaskStatus.awaiting_runtime_confirmation ∷ []

-- `RecoveryPolicy.safe_default()`.
abbrev pub safe_default : RecoveryPolicy
safe_default = record {
  allowed_capabilities = [];
  allowed_task_states = every_status;
  maximum_risk_level = low;
  approval_required_capabilities = [];
  require_runtime_confirmation = true;
}

pub record RuntimeConfirmation : Type 0 where
  pub confirmation_id : String
  pub action_id : String
  pub capability : String
  pub idempotency_key : String
  pub supported : Bool
  pub safe : Bool
  pub confirmed_at : DateTime
  pub confirmed_by : String
  pub reason : String
  pub target_hash : Option String

pub record RecoveryApproval : Type 0 where
  pub action_id : String
  pub capability : String
  pub idempotency_key : String
  pub approved : Bool
  pub approved_by : String
  pub reason : String

-- The executor leaves the receipt and the postcondition's evidence of a result at their defaults.
pub record RecoveryActionResult : Type 0 where
  pub action_id : String
  pub capability : String
  pub status : RecoveryStatus
  pub code : RecoveryReasonCode
  pub text : String
  pub runtime_confirmation : Option RuntimeConfirmation
  pub error_type : Option String

unfoldable pub risk_rank : RiskLevel → ℕ
risk_rank low = 0
risk_rank medium = 1
risk_rank high = 2
risk_rank critical = 3

unfoldable pub holds_status : List TaskStatus → TaskStatus → Bool
holds_status statuses st = any (λ s. eqb (status_code s) (status_code st)) statuses
