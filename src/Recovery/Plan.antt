-- ===== src/Recovery/Plan.antt =====
-- src/runmantle/recovery.py: `RecoveryPlan`, its guards and its hash.
use runmantle.Prelude.{
  String, ◌<>◌, Bool, false, not, Option, none, some, List, [], ◌∷◌, map, any, is_empty, ◌==◌,
  Guard, Result, ok, value_error, ◌>>=◌, ◌>>◌, raise_if, if◌then◌else◌,
}
use runmantle.Value.{DateTime}
use runmantle.Validation.{require_non_empty, require_aware, require_unique}
use runmantle.Contracts.{RiskLevel, risk_value}
use runmantle.Serialization.{Data, DataItems, DataEntries, Primitives}
use runmantle.Serialization.Codec.{SafeJsonCodec, JsonText, dumps}
use runmantle.Recovery.{RecoveryAction}

-- An evaluator is known by what `_callable_identity` says of it.
pub record RecoveryPrecondition : Type 0 where
  pub name : String
  pub description : String
  pub evaluator : String

-- A provider is known by its class and by what `_callable_identity` says of its method.
pub record RecoveryPostcondition : Type 0 where
  pub name : String
  pub description : String
  pub evidence_type : Option String
  pub required : Bool
  pub provider : String
  pub provider_acquire : String
  pub provider_identity : String
  pub provider_configuration : DataEntries

pub record RecoveryPlan : Type 0 where
  pub plan_id : String
  pub task_id : String
  pub actions : List RecoveryAction
  pub proposed_by : String
  pub failure_diagnosis : String
  pub context_reference : Option String
  pub declared_recovery_capability : Option String
  pub risk_level : RiskLevel
  pub approval_required : Bool
  pub preconditions : List RecoveryPrecondition
  pub postconditions : List RecoveryPostcondition
  pub compensation_id : Option String
  pub created_at : DateTime
  pub plan_hash : String

-- `SafeJsonCodec()`.
abbrev pub default_codec : SafeJsonCodec
default_codec = record { max_bytes = 8388608; max_depth = 64; max_collection_items = 100000 }

abbrev optional : Option String → Data
optional none = Data.null
optional (some s) = Data.str s

abbrev items_of : List Data → DataItems
items_of [] = DataItems.nil
items_of (v ∷ vs) = DataItems.cons v (items_of vs)

abbrev entries_of : List (String × Data) → DataEntries
entries_of [] = DataEntries.end
entries_of ((k, v) ∷ es) = DataEntries.entry k v (entries_of es)

abbrev object : List (String × Data) → Data
object es = Data.mapping (entries_of es)

abbrev describe_precondition : RecoveryPrecondition → Data
describe_precondition c = object (
    ("name", Data.str c.name)
    ∷ ("description", Data.str c.description)
    ∷ ("evaluator", Data.str c.evaluator)
    ∷ [])

abbrev describe_postcondition : RecoveryPostcondition → Data
describe_postcondition c = object (
    ("name", Data.str c.name)
    ∷ ("description", Data.str c.description)
    ∷ ("evidence_type", optional c.evidence_type)
    ∷ ("required", Data.bool c.required)
    ∷ ("provider", Data.str c.provider)
    ∷ ("provider_acquire", Data.str c.provider_acquire)
    ∷ ("provider_identity", Data.str c.provider_identity)
    ∷ ("provider_configuration", Data.mapping c.provider_configuration)
    ∷ [])

-- What the hash is made of: every field but the hash.
unfoldable pub plan_snapshot : RecoveryPlan → Data
unfolding risk_value
plan_snapshot plan = object (
    ("plan_id", Data.str plan.plan_id)
    ∷ ("task_id", Data.str plan.task_id)
    ∷ (
      "action_hashes",
      Data.sequence (items_of (map (λ (a : RecoveryAction). Data.str a.action_hash) plan.actions)),
    )
    ∷ ("proposed_by", Data.str plan.proposed_by)
    ∷ ("failure_diagnosis", Data.str plan.failure_diagnosis)
    ∷ ("context_reference", optional plan.context_reference)
    ∷ ("declared_recovery_capability", optional plan.declared_recovery_capability)
    ∷ ("risk_level", Data.str (risk_value plan.risk_level))
    ∷ ("approval_required", Data.bool plan.approval_required)
    ∷ ("preconditions", Data.sequence (items_of (map describe_precondition plan.preconditions)))
    ∷ ("postconditions", Data.sequence (items_of (map describe_postcondition plan.postconditions)))
    ∷ ("compensation_id", optional plan.compensation_id)
    ∷ ("created_at", Data.datetime plan.created_at)
    ∷ [])

-- `self.context_reference or f"task:{self.task_id}"`.
abbrev pub context_or_task : Option String → String → String
context_or_task none task_id = "task:" <> task_id
context_or_task (some s) task_id = if s == "" then "task:" <> task_id else s

-- The declared capability, or that of the only action.
abbrev pub declared_capability : Option String → List RecoveryAction → Option String
declared_capability (some c) actions = some c
declared_capability none (a ∷ []) = some a.capability
declared_capability none _ = none

abbrev pub differs_from : Option String → List RecoveryAction → Bool
differs_from none actions = false
differs_from (some c) actions = any (λ a. not (a.capability == c)) actions

module _ (p : Primitives) (t : JsonText) (sha256 : String → String) where
  -- The plan with the fields that `__post_init__` fills in.
  abbrev pub completed_plan : RecoveryPlan → RecoveryPlan
  completed_plan plan = record plan {
    context_reference = some (context_or_task plan.context_reference plan.task_id);
    declared_recovery_capability =
        declared_capability plan.declared_recovery_capability plan.actions;
  }

  abbrev pub with_hash : RecoveryPlan → Result RecoveryPlan
  with_hash plan = do
    encoded ← dumps p t default_codec (plan_snapshot plan)
    ok (record plan { plan_hash = "sha256:" <> sha256 encoded })

  abbrev pub check_plan : RecoveryPlan → Guard
  check_plan plan = do
    require_non_empty plan.plan_id "recovery plan id"
    require_non_empty plan.task_id "recovery plan task_id"
    require_non_empty plan.proposed_by "recovery plan proposed_by"
    require_non_empty plan.failure_diagnosis "recovery failure diagnosis"
    require_aware plan.created_at "recovery plan created_at must be aware"
    raise_if (is_empty plan.actions) (value_error "a recovery plan requires at least one action")
    require_unique (map (λ (a : RecoveryAction). a.action_id) plan.actions)
        "recovery action ids must be unique within a plan"
    require_unique (map (λ (c : RecoveryPrecondition). c.name) plan.preconditions)
        "recovery precondition names must be unique"
    require_unique (map (λ (c : RecoveryPostcondition). c.name) plan.postconditions)
        "recovery postcondition names must be unique"
    raise_if
        (differs_from (declared_capability plan.declared_recovery_capability plan.actions)
          plan.actions)
        (value_error "declared recovery capability does not match actions")

  -- `RecoveryPlan(…)`; the hash that the argument carries is not looked at.
  unfoldable pub construct_plan : RecoveryPlan → Result RecoveryPlan
  unfolding require_non_empty require_aware require_unique dumps plan_snapshot
  construct_plan plan = do check_plan plan; with_hash (completed_plan plan)
