-- ===== src/Telemetry/Names.antt =====
-- src/runmantle/telemetry.py: the values of `LifecycleEventType`.
use runmantle.Prelude.{String}
use runmantle.Telemetry.{LifecycleEventType}

unfoldable pub event_type_value : LifecycleEventType → String
event_type_value LifecycleEventType.state_transition = "task.state_transition"
event_type_value LifecycleEventType.task_started = "task.started"
event_type_value LifecycleEventType.worker_started = "worker.started"
event_type_value LifecycleEventType.worker_completed = "worker.completed"
event_type_value LifecycleEventType.worker_failed = "worker.failed"
event_type_value LifecycleEventType.task_progress = "task.progress"
event_type_value LifecycleEventType.tool_action_requested = "tool_action.requested"
event_type_value LifecycleEventType.evidence_collected = "evidence.collected"
event_type_value LifecycleEventType.agent_reported_completion = "agent.reported_completion"
event_type_value LifecycleEventType.verification_result = "verification.result"
event_type_value LifecycleEventType.recovery_requested = "recovery.requested"
event_type_value LifecycleEventType.recovery_blocked = "recovery.blocked"
event_type_value LifecycleEventType.runtime_confirmation_received = "runtime.confirmation_received"
event_type_value LifecycleEventType.approval_requested = "approval.requested"
event_type_value LifecycleEventType.approval_received = "approval.received"
event_type_value LifecycleEventType.approval_revoked = "approval.revoked"
event_type_value LifecycleEventType.approval_consumed = "approval.consumed"
event_type_value LifecycleEventType.checkpoint_saved = "checkpoint.saved"
event_type_value LifecycleEventType.task_resumed = "task.resumed"
event_type_value LifecycleEventType.action_requested = "action.requested"
event_type_value LifecycleEventType.action_policy_decided = "action.policy_decided"
event_type_value LifecycleEventType.action_authorized = "action.authorized"
event_type_value LifecycleEventType.action_awaiting_approval = "action.awaiting_approval"
event_type_value LifecycleEventType.action_blocked = "action.blocked"
event_type_value LifecycleEventType.action_execution_started = "action.execution_started"
event_type_value LifecycleEventType.action_executor_succeeded = "action.executor_succeeded"
event_type_value LifecycleEventType.action_execution_failed = "action.execution_failed"
event_type_value LifecycleEventType.action_execution_unknown = "action.execution_unknown"
event_type_value LifecycleEventType.action_duplicate_prevented = "action.duplicate_prevented"
event_type_value LifecycleEventType.action_dry_run_completed = "action.dry_run_completed"
event_type_value LifecycleEventType.action_postcondition_evidence = "action.postcondition_evidence"
event_type_value LifecycleEventType.action_postcondition_failed = "action.postcondition_failed"
event_type_value LifecycleEventType.action_postconditions_completed =
    "action.postconditions_completed"
event_type_value LifecycleEventType.recovery_awaiting_approval = "recovery.awaiting_approval"
event_type_value LifecycleEventType.recovery_preflight_confirmed = "recovery.preflight_confirmed"
event_type_value LifecycleEventType.recovery_execution_started = "recovery.execution_started"
event_type_value LifecycleEventType.recovery_executor_succeeded = "recovery.executor_succeeded"
event_type_value LifecycleEventType.recovery_execution_failed = "recovery.execution_failed"
event_type_value LifecycleEventType.recovery_execution_unknown = "recovery.execution_unknown"
event_type_value LifecycleEventType.recovery_postcondition_evidence =
    "recovery.postcondition_evidence"
event_type_value LifecycleEventType.recovery_postcondition_failed = "recovery.postcondition_failed"
event_type_value LifecycleEventType.recovery_outcome_verified = "recovery.outcome_verified"
event_type_value LifecycleEventType.recovery_duplicate_prevented = "recovery.duplicate_prevented"
event_type_value LifecycleEventType.recovery_confirmed = "recovery.confirmed"
event_type_value LifecycleEventType.task_failed = "task.failed"
event_type_value LifecycleEventType.worker_event = "worker.event"
