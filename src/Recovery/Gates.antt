-- ===== src/Recovery/Gates.antt =====
-- src/runmantle/recovery.py: the gates of `InMemoryRecoveryExecutor`, each a refusal or nothing.
use runmantle.Prelude.{
  String, ◌<>◌, Bool, not, ◌&&◌, ◌||◌, Option, none, some, ltb, contains, ◌==◌, if◌then◌else◌,
}
use runmantle.Contracts.{TaskStatus, status_value}
use runmantle.Verification.{TaskContract}
use runmantle.Capabilities.{CapabilityDeclaration}
use runmantle.Recovery.{
  RecoveryStatus, blocked, RecoveryReasonCode, capability_unavailable, recovery_not_supported,
  invalid_task_state, idempotency_mismatch, risk_exceeds_capability, policy_denied,
  approval_rejected, runtime_confirmation_required, runtime_confirmation_rejected, RecoveryAction,
  RecoveryPolicy, RuntimeConfirmation, RecoveryApproval, RecoveryActionResult, risk_rank,
  holds_status,
}

-- `_result`.
abbrev pub action_result :
    RecoveryAction
    → RecoveryStatus
    → RecoveryReasonCode
    → String
    → Option RuntimeConfirmation
    → Option String
    → RecoveryActionResult
action_result action status code text confirmation error_type = record {
  action_id = action.action_id;
  capability = action.capability;
  status = status;
  code = code;
  text = text;
  runtime_confirmation = confirmation;
  error_type = error_type;
}

abbrev refuse : RecoveryAction → RecoveryReasonCode → String → Option RecoveryActionResult
refuse action code text = some (action_result action blocked code text none none)

unfoldable pub exceeds_risk : CapabilityDeclaration → RecoveryPolicy → TaskContract → Bool
unfolding risk_rank
exceeds_risk d policy contract =
    let task_risk = risk_rank contract.risk_level in
    ltb (risk_rank d.maximum_risk_level) task_risk
    || ltb (risk_rank policy.maximum_risk_level) task_risk

unfoldable pub check_declaration_and_policy :
    RecoveryPolicy
    → RecoveryAction
    → CapabilityDeclaration
    → TaskContract
    → TaskStatus
    → Option RecoveryActionResult
check_declaration_and_policy policy action d contract task_state =
    if not d.available
    then refuse action capability_unavailable "the runtime capability is currently unavailable"
    else if not d.recovery_supported
    then refuse action recovery_not_supported "the declaration does not support recovery execution"
    else if not (holds_status d.supported_task_states task_state)
        || not (holds_status policy.allowed_task_states task_state)
    then refuse action invalid_task_state
        ("capability is not allowed while the task is " <> status_value task_state)
    else if not (contains policy.allowed_capabilities action.capability)
    then refuse action policy_denied "recovery policy does not allow this capability"
    else if exceeds_risk d policy contract
    then refuse action risk_exceeds_capability
        "task risk exceeds the capability or policy recovery limit"
    else if d.requires_idempotency && not (action.idempotency_key == contract.idempotency_key)
    then refuse action idempotency_mismatch
        "recovery idempotency key does not match the task contract"
    else none

unfoldable pub valid_approval : RecoveryAction → RecoveryApproval → Bool
valid_approval action a =
    a.action_id == action.action_id
    && a.capability == action.capability
    && a.idempotency_key == action.idempotency_key
    && a.approved

unfoldable pub valid_confirmation : RecoveryAction → RuntimeConfirmation → Bool
valid_confirmation action c =
    c.action_id == action.action_id
    && c.capability == action.capability
    && c.idempotency_key == action.idempotency_key
    && c.supported
    && c.safe

abbrev pub approval_needed : RecoveryPolicy → RecoveryAction → CapabilityDeclaration → Bool
approval_needed policy action d =
    d.requires_approval || contains policy.approval_required_capabilities action.capability

abbrev pub confirmation_needed : RecoveryPolicy → CapabilityDeclaration → Bool
confirmation_needed policy d =
    d.requires_runtime_confirmation || policy.require_runtime_confirmation

abbrev pub needed_approval : RecoveryAction → Option RecoveryApproval → Option RecoveryActionResult
needed_approval action none = some (
    action_result action RecoveryStatus.approval_required RecoveryReasonCode.approval_required
      "the recovery action requires explicit approval" none none)
needed_approval action (some a) =
    if valid_approval action a
    then none
    else refuse action approval_rejected "the supplied approval does not approve this exact action"

unfoldable pub check_approval :
    RecoveryPolicy
    → RecoveryAction
    → CapabilityDeclaration
    → Option RecoveryApproval
    → Option RecoveryActionResult
check_approval policy action d approval =
    if approval_needed policy action d then needed_approval action approval else none

abbrev pub needed_confirmation :
    RecoveryAction → Option RuntimeConfirmation → Option RecoveryActionResult
needed_confirmation action none = some (
    action_result action RecoveryStatus.awaiting_runtime_confirmation runtime_confirmation_required
      "the runtime must confirm capability support and safety" none none)
needed_confirmation action (some c) =
    if valid_confirmation action c
    then none
    else some (
        action_result action blocked runtime_confirmation_rejected
          "runtime confirmation was unsafe, unsupported, or mismatched" (some c) none)

unfoldable pub check_runtime_confirmation :
    RecoveryPolicy
    → RecoveryAction
    → CapabilityDeclaration
    → Option RuntimeConfirmation
    → Option RecoveryActionResult
check_runtime_confirmation policy action d confirmation =
    if confirmation_needed policy d then needed_confirmation action confirmation else none
