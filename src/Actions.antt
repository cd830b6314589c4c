-- ===== src/Actions.antt =====
-- src/runmantle/actions.py: requests, decisions, authorizations and receipts of mediated actions.
pub mod Request
pub mod Policy
pub mod Store
pub mod Running
pub mod Allowed
pub mod Authorized
pub mod Steps
pub mod Started
pub mod Changed
pub mod Finished
pub mod Once
pub mod Inserted
pub mod Interleaved
use runmantle.Prelude.{
  ℕ, String, ◌<>◌, Bool, true, false, not, Option, none, some, List, [], ◌∷◌, is_empty, ltb, ◌||◌,
  Guard, Result, ok, err, value_error, ◌>>=◌, ◌>>◌, raise_if, if◌then◌else◌, is_some,
}
use runmantle.Value.{DateTime, ℤ, pos, negsuc}
use runmantle.Validation.{require_non_empty, require_non_empty_attributes, require_aware}
use runmantle.Contracts.{RiskLevel, low, TaskStatus}
use runmantle.Serialization.{Data, DataEntries, Primitives}
use runmantle.Serialization.Codec.{SafeJsonCodec, JsonText, dumps}

pub data ActionExecutionStatus : Type 0 where
  requested policy_decided awaiting_approval authorized blocked : ActionExecutionStatus
  executing executor_succeeded failed unknown cancelled dry_run : ActionExecutionStatus

pub data ActionPostconditionStatus : Type 0 where
  not_started pending completed : ActionPostconditionStatus

pub record ActionConditionResult : Type 0 where
  pub name : String
  pub passed : Bool
  pub message : String

-- An evaluator is known by what `callable_semantic_identity` says of it.
pub record Precondition : Type 0 where
  pub name : String
  pub description : String
  pub evaluator : String

pub record Postcondition : Type 0 where
  pub name : String
  pub description : String
  pub evidence_type : Option String
  pub required : Bool
  pub provider_identity : String
  pub provider_configuration : DataEntries

-- The timeout is in microseconds.
pub record ActionRequest : Type 0 where
  pub action_id : String
  pub task_id : String
  pub name : String
  pub required_capability : String
  pub input : DataEntries
  pub idempotency_key : String
  pub risk_level : RiskLevel
  pub requested_by : String
  pub requested_at : DateTime
  pub execution_handler_id : String
  pub timeout : ℤ
  pub preconditions : List Precondition
  pub postconditions : List Postcondition
  pub metadata : DataEntries
  pub input_hash : String
  pub action_hash : String

abbrev pub approval_key : ActionRequest → String
approval_key request = "action:" <> request.action_hash

abbrev pub approval_scope : ActionRequest → String
approval_scope request = "capability:" <> request.required_capability <> ":execute"

abbrev pub approval_id : ActionRequest → String
approval_id request = "action:" <> request.action_id <> ":approval"

pub record ActionPolicy : Type 0 where
  pub allowed_capabilities : List String
  pub allowed_task_states : List TaskStatus
  pub maximum_risk_level : RiskLevel
  pub approval_required_capabilities : List String

-- `ActionPolicy.safe_default()`.
abbrev pub safe_default : ActionPolicy
safe_default = record {
  allowed_capabilities = [];
  allowed_task_states = TaskStatus.running ∷ [];
  maximum_risk_level = low;
  approval_required_capabilities = [];
}

pub record ActionPolicyDecision : Type 0 where
  pub allowed : Bool
  pub reasons : List String
  pub requires_approval : Bool
  pub decided_at : DateTime
  pub decided_by : String

unfoldable pub construct_policy_decision : ActionPolicyDecision → Result ActionPolicyDecision
unfolding require_aware require_non_empty
construct_policy_decision d = do
  require_aware d.decided_at "policy decision timestamp must be aware"
  require_non_empty d.decided_by "policy decision decided_by"
  raise_if (is_empty d.reasons) (value_error "policy decision requires at least one reason")
  ok d

pub record PreActionAuthorization : Type 0 where
  pub authorized : Bool
  pub reason : String
  pub evaluated_preconditions : List ActionConditionResult
  pub approved_by : Option String
  pub authorized_at : DateTime
  pub awaiting_approval : Bool

unfoldable pub construct_authorization : PreActionAuthorization → Result PreActionAuthorization
unfolding require_aware require_non_empty
construct_authorization a = do
  require_non_empty a.reason "pre-action authorization reason"
  require_aware a.authorized_at "pre-action authorization timestamp must be aware"
  ok a

pub record ActionReceipt : Type 0 where
  pub receipt_id : String
  pub action_id : String
  pub executor_id : String
  pub status : ActionExecutionStatus
  pub action_hash : String
  pub input_hash : String
  pub idempotency_key : String
  pub started_at : DateTime
  pub finished_at : DateTime
  pub output : Option Data
  pub message : String
  pub error_type : Option String
  pub output_hash : Option String

-- The statuses of a receipt.
unfoldable pub is_executor_terminal : ActionExecutionStatus → Bool
is_executor_terminal executor_succeeded = true
is_executor_terminal failed = true
is_executor_terminal unknown = true
is_executor_terminal cancelled = true
is_executor_terminal dry_run = true
is_executor_terminal _ = false

-- `SafeJsonCodec()`.
abbrev pub default_codec : SafeJsonCodec
default_codec = record { max_bytes = 8388608; max_depth = 64; max_collection_items = 100000 }

module _ (p : Primitives) (t : JsonText) (sha256 : String → String) where
  abbrev hash_output : Option Data → Result (Option String)
  hash_output none = ok none
  hash_output (some v) = do
    encoded ← dumps p t default_codec v
    ok (some ("sha256:" <> sha256 encoded))

  unfoldable pub construct_receipt : ActionReceipt → Result ActionReceipt
  unfolding require_non_empty_attributes require_aware is_executor_terminal dumps
  construct_receipt r = do
    require_non_empty_attributes "action receipt" (
        (r.receipt_id, "receipt_id")
        ∷ (r.action_id, "action_id")
        ∷ (r.executor_id, "executor_id")
        ∷ (r.action_hash, "action_hash")
        ∷ (r.input_hash, "input_hash")
        ∷ (r.idempotency_key, "idempotency_key")
        ∷ [])
    require_aware r.started_at "action receipt started_at must be aware"
    require_aware r.finished_at "action receipt finished_at must be aware"
    raise_if (ltb r.finished_at.instant r.started_at.instant)
        (value_error "action receipt cannot finish before it starts")
    raise_if (not (is_executor_terminal r.status))
        (value_error "action receipt requires an executor terminal status")
    output_hash ← hash_output r.output
    ok (record r { output_hash = output_hash })

pub record StoredAction : Type 0 where
  pub action_id : String
  pub task_id : String
  pub name : String
  pub required_capability : String
  pub input : DataEntries
  pub input_hash : String
  pub action_hash : String
  pub idempotency_key : String
  pub risk_level : RiskLevel
  pub requested_by : String
  pub requested_at : DateTime
  pub timeout : ℤ
  pub is_dry_run : Bool
  pub status : ActionExecutionStatus
  pub policy_decision : Option ActionPolicyDecision
  pub authorization : Option PreActionAuthorization
  pub receipt : Option ActionReceipt
  pub postcondition_status : ActionPostconditionStatus
  pub policy_task_context_version : Option ℕ
  pub execution_owner_id : Option String
  pub version : ℕ
  pub created_at : DateTime
  pub updated_at : DateTime
