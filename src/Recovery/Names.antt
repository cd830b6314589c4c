-- ===== src/Recovery/Names.antt =====
-- src/runmantle/recovery.py: the values of the enumerations of a recovery.
use runmantle.Prelude.{String}
use runmantle.Recovery.{RecoveryStatus, RecoveryReasonCode}

unfoldable pub recovery_status_value : RecoveryStatus → String
recovery_status_value RecoveryStatus.planned = "planned"
recovery_status_value RecoveryStatus.dry_run = "dry_run"
recovery_status_value RecoveryStatus.blocked = "blocked"
recovery_status_value RecoveryStatus.approval_required = "approval_required"
recovery_status_value RecoveryStatus.awaiting_approval = "awaiting_approval"
recovery_status_value RecoveryStatus.awaiting_preflight_confirmation =
    "awaiting_preflight_confirmation"
recovery_status_value RecoveryStatus.awaiting_runtime_confirmation = "awaiting_runtime_confirmation"
recovery_status_value RecoveryStatus.authorized = "authorized"
recovery_status_value RecoveryStatus.executing = "executing"
recovery_status_value RecoveryStatus.executor_succeeded = "executor_succeeded"
recovery_status_value RecoveryStatus.postconditions_satisfied = "postconditions_satisfied"
recovery_status_value RecoveryStatus.postcondition_failed = "postcondition_failed"
recovery_status_value RecoveryStatus.verified = "verified"
recovery_status_value RecoveryStatus.unknown = "unknown"
recovery_status_value RecoveryStatus.runtime_confirmed = "runtime_confirmed"
recovery_status_value RecoveryStatus.failed = "failed"
recovery_status_value RecoveryStatus.duplicate_prevented = "duplicate_prevented"

unfoldable pub reason_code_value : RecoveryReasonCode → String
reason_code_value RecoveryReasonCode.unsupported_capability = "unsupported_capability"
reason_code_value RecoveryReasonCode.capability_unavailable = "capability_unavailable"
reason_code_value RecoveryReasonCode.recovery_not_supported = "recovery_not_supported"
reason_code_value RecoveryReasonCode.task_mismatch = "task_mismatch"
reason_code_value RecoveryReasonCode.invalid_task_state = "invalid_task_state"
reason_code_value RecoveryReasonCode.idempotency_mismatch = "idempotency_mismatch"
reason_code_value RecoveryReasonCode.risk_exceeds_capability = "risk_exceeds_capability"
reason_code_value RecoveryReasonCode.policy_denied = "policy_denied"
reason_code_value RecoveryReasonCode.approval_required = "approval_required"
reason_code_value RecoveryReasonCode.approval_rejected = "approval_rejected"
reason_code_value RecoveryReasonCode.approval_expired = "approval_expired"
reason_code_value RecoveryReasonCode.approval_hash_mismatch = "approval_hash_mismatch"
reason_code_value RecoveryReasonCode.preflight_confirmation_required =
    "preflight_confirmation_required"
reason_code_value RecoveryReasonCode.preflight_confirmation_rejected =
    "preflight_confirmation_rejected"
reason_code_value RecoveryReasonCode.runtime_confirmation_required = "runtime_confirmation_required"
reason_code_value RecoveryReasonCode.runtime_confirmation_rejected = "runtime_confirmation_rejected"
reason_code_value RecoveryReasonCode.duplicate_idempotency_key = "duplicate_idempotency_key"
reason_code_value RecoveryReasonCode.executor_unavailable = "executor_unavailable"
reason_code_value RecoveryReasonCode.execution_failed = "execution_failed"
reason_code_value RecoveryReasonCode.execution_interrupted = "execution_interrupted"
reason_code_value RecoveryReasonCode.precondition_failed = "precondition_failed"
reason_code_value RecoveryReasonCode.postcondition_failed = "postcondition_failed"
reason_code_value RecoveryReasonCode.outcome_not_verified = "outcome_not_verified"
reason_code_value RecoveryReasonCode.dry_run_complete = "dry_run_complete"
reason_code_value RecoveryReasonCode.executed = "executed"
