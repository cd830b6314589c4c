-- ===== src/Telemetry.antt =====
-- src/runmantle/telemetry.py: the lifecycle events.
pub mod Describe
pub mod Names
pub mod Buffered
use runmantle.Prelude.{
  ℕ, String, Bool, Option, none, some, List, [], ◌∷◌, ltb, Guard, value_error, ◌>>=◌, ◌>>◌,
  raise_if,
}
use runmantle.Value.{DateTime, Entries}
use runmantle.Validation.{require_non_empty_attributes, require_aware}
use runmantle.Contracts.{TaskStatus}

pub data LifecycleEventType : Type 0 where
  state_transition task_started worker_started worker_completed : LifecycleEventType
  worker_failed task_progress tool_action_requested evidence_collected : LifecycleEventType
  agent_reported_completion verification_result : LifecycleEventType
  recovery_requested recovery_blocked runtime_confirmation_received : LifecycleEventType
  approval_requested approval_received approval_revoked approval_consumed : LifecycleEventType
  checkpoint_saved task_resumed action_requested action_policy_decided : LifecycleEventType
  action_authorized action_awaiting_approval action_blocked : LifecycleEventType
  action_execution_started action_executor_succeeded action_execution_failed : LifecycleEventType
  action_execution_unknown action_duplicate_prevented : LifecycleEventType
  action_dry_run_completed action_postcondition_evidence : LifecycleEventType
  action_postcondition_failed action_postconditions_completed : LifecycleEventType
  recovery_awaiting_approval recovery_preflight_confirmed : LifecycleEventType
  recovery_execution_started recovery_executor_succeeded : LifecycleEventType
  recovery_execution_failed recovery_execution_unknown : LifecycleEventType
  recovery_postcondition_evidence recovery_postcondition_failed : LifecycleEventType
  recovery_outcome_verified recovery_duplicate_prevented recovery_confirmed : LifecycleEventType
  task_failed worker_event : LifecycleEventType

pub record LifecycleEvent : Type 0 where
  pub event_type : LifecycleEventType
  pub task_id : String
  pub correlation_id : String
  pub worker_id : String
  pub occurred_at : DateTime
  pub sequence : ℕ
  pub state : TaskStatus
  pub previous_state : Option TaskStatus
  pub name : Option String
  pub details : Entries

-- The guards of `LifecycleEvent(…)`.
unfoldable pub check_event : LifecycleEvent → Guard
unfolding require_non_empty_attributes require_aware
check_event e = do
  require_non_empty_attributes "event" (
      (e.task_id, "task_id")
      ∷ (e.correlation_id, "correlation_id")
      ∷ (e.worker_id, "worker_id")
      ∷ [])
  require_aware e.occurred_at "event timestamp must be timezone-aware"
  raise_if (ltb e.sequence 1) (value_error "event sequence must be positive")
