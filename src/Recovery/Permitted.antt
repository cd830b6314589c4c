-- ===== src/Recovery/Permitted.antt =====
-- A handler is called behind every gate only, and no key is executed twice.
use runmantle.Prelude.{
  ap, ◌≤◌, ◌≡◌, refl, Bool, true, false, Option, none, some, contains, eq_iff, if◌then◌else◌, arith,
}
use runmantle.Contracts.{TaskStatus}
use runmantle.Verification.{TaskContract}
use runmantle.Capabilities.{CapabilityDeclaration, CapabilityRegistry, get_declaration}
use runmantle.Recovery.{
  RecoveryAction, RecoveryPolicy, RuntimeConfirmation, RecoveryApproval, RecoveryActionResult,
  risk_rank, holds_status,
}
use runmantle.Recovery.Gates.{
  check_declaration_and_policy, exceeds_risk, valid_approval, valid_confirmation, approval_needed,
  confirmation_needed, check_approval, check_runtime_confirmation, needed_approval,
  needed_confirmation,
}
use runmantle.Recovery.Executor.{
  Handler, Handlers, key_of, Executor, is_reserved, Decision, stops, calls, gate_declared,
  or_refused, handler_decision, get_handler,
}

-- The declaration and the policy both allow the action in this state.
pub record IsAllowed (policy : RecoveryPolicy) (action : RecoveryAction) (contract : TaskContract)
    (task_state : TaskStatus) (d : CapabilityDeclaration) : Type 0 where
  pub available : d.available ≡ true
  pub recovery_supported : d.recovery_supported ≡ true
  pub state_supported : holds_status d.supported_task_states task_state ≡ true
  pub state_allowed : holds_status policy.allowed_task_states task_state ≡ true
  pub capability_allowed : contains policy.allowed_capabilities action.capability ≡ true
  pub within_declaration : risk_rank contract.risk_level ≤ risk_rank d.maximum_risk_level
  pub within_policy : risk_rank contract.risk_level ≤ risk_rank policy.maximum_risk_level
  pub same_key : d.requires_idempotency ≡ true → action.idempotency_key ≡ contract.idempotency_key

-- Everything that has to hold before a handler is called.
pub record IsPermitted (registry : CapabilityRegistry) (policy : RecoveryPolicy)
    (action : RecoveryAction) (contract : TaskContract) (task_state : TaskStatus)
    (confirmation : Option RuntimeConfirmation) (approval : Option RecoveryApproval)
    (is_dry_run : Bool) (s : Executor) : Type 0 where
  pub declaration : CapabilityDeclaration
  pub declared : get_declaration action.capability registry ≡ some declaration
  pub is_allowed : IsAllowed policy action contract task_state declaration
  pub unreserved : is_reserved s (key_of action) ≡ false
  pub approved :
      approval_needed policy action declaration ≡ true
      → (a : RecoveryApproval) × (approval ≡ some a) × (valid_approval action a ≡ true)
  pub confirmed :
      confirmation_needed policy declaration ≡ true
      → (c : RuntimeConfirmation) × (confirmation ≡ some c) × (valid_confirmation action c ≡ true)
  pub live : is_dry_run ≡ false

check_declaration_and_policy-IsAllowed :
    (policy : RecoveryPolicy) (action : RecoveryAction) (contract : TaskContract)
    → (task_state : TaskStatus) (d : CapabilityDeclaration)
    → check_declaration_and_policy policy action d contract task_state ≡ none
    → IsAllowed policy action contract task_state d
unfolding check_declaration_and_policy exceeds_risk
check_declaration_and_policy-IsAllowed policy action contract task_state d h = record {
  available = ground arith;
  recovery_supported = ground arith;
  state_supported = ground arith;
  state_allowed = ground arith;
  capability_allowed = ground arith;
  within_declaration = ground arith;
  within_policy = ground arith;
  same_key =
      λ needed. ground (arith, needed, eq_iff action.idempotency_key contract.idempotency_key);
}

needed_approval-valid :
    (action : RecoveryAction) (approval : Option RecoveryApproval)
    → needed_approval action approval ≡ none
    → (a : RecoveryApproval) × (approval ≡ some a) × (valid_approval action a ≡ true)
needed_approval-valid action none h = cc (h)
needed_approval-valid action (some a) h = (a, refl, ground arith)

needed_confirmation-valid :
    (action : RecoveryAction) (confirmation : Option RuntimeConfirmation)
    → needed_confirmation action confirmation ≡ none
    → (c : RuntimeConfirmation) × (confirmation ≡ some c) × (valid_confirmation action c ≡ true)
needed_confirmation-valid action none h = cc (h)
needed_confirmation-valid action (some c) h = (c, refl, ground arith)

check_approval-valid :
    (policy : RecoveryPolicy) (action : RecoveryAction) (d : CapabilityDeclaration)
    → (approval : Option RecoveryApproval) → check_approval policy action d approval ≡ none
    → approval_needed policy action d ≡ true
    → (a : RecoveryApproval) × (approval ≡ some a) × (valid_approval action a ≡ true)
unfolding check_approval
check_approval-valid policy action d approval h needed =
    needed_approval-valid action approval (rw needed at h)

check_confirmation-valid :
    (policy : RecoveryPolicy) (action : RecoveryAction) (d : CapabilityDeclaration)
    → (confirmation : Option RuntimeConfirmation)
    → check_runtime_confirmation policy action d confirmation ≡ none
    → confirmation_needed policy d ≡ true
    → (c : RuntimeConfirmation) × (confirmation ≡ some c) × (valid_confirmation action c ≡ true)
unfolding check_runtime_confirmation
check_confirmation-valid policy action d confirmation h needed =
    needed_confirmation-valid action confirmation (rw needed at h)

or_refused-calls :
    (registry : CapabilityRegistry) (policy : RecoveryPolicy) (handlers : Handlers)
    → (refusal : Option RecoveryActionResult) (next : Decision) (handler : Handler)
    → or_refused registry policy handlers refusal next ≡ calls handler
    → (refusal ≡ none) × (next ≡ calls handler)
or_refused-calls registry policy handlers none next handler h = (refl, h)
or_refused-calls registry policy handlers (some r) next handler h = cc (h)

if_stops :
    (b : Bool) (result : RecoveryActionResult) (next : Decision) (handler : Handler)
    → (if b then stops result else next) ≡ calls handler
    → (b ≡ false) × (next ≡ calls handler)
if_stops false result next handler h = (refl, h)
if_stops true result next handler h = cc (h)

module _ (registry : CapabilityRegistry) (policy : RecoveryPolicy) (handlers : Handlers) where
  calls-injective : {x y : Handler} → calls x ≡ calls y → x ≡ y
  calls-injective {x} h = ap (λ d. elim d [ stops _ ↦ x | calls y ↦ y ]) h

  handler_decision-handler :
      (action : RecoveryAction) (confirmation : Option RuntimeConfirmation) (o : Option Handler)
      (handler : Handler)
      → handler_decision registry policy handlers action confirmation o ≡ calls handler
      → o ≡ some handler
  handler_decision-handler action confirmation none handler h = cc (h)
  handler_decision-handler action confirmation (some found) handler h = ap some (calls-injective h)

  pub gate_declared-IsPermitted :
      (action : RecoveryAction) (contract : TaskContract) (task_state : TaskStatus)
      → (confirmation : Option RuntimeConfirmation) (approval : Option RecoveryApproval)
      → (is_dry_run : Bool) (s : Executor) (d : CapabilityDeclaration) (handler : Handler)
      → get_declaration action.capability registry ≡ some d
      → gate_declared registry policy handlers action contract task_state confirmation approval
          is_dry_run s d
        ≡ calls handler
      → IsPermitted registry policy action contract task_state confirmation approval is_dry_run s
        × (get_handler action.capability handlers ≡ some handler)
  unfolding gate_declared
  gate_declared-IsPermitted action contract task_state confirmation approval is_dry_run s d handler
        found h =
      let (allowed, h1) =
        or_refused-calls registry policy handlers
          (check_declaration_and_policy policy action d contract task_state) _ handler h in
      let (unreserved, h2) = if_stops (is_reserved s (key_of action)) _ _ handler h1 in
      let (approved, h3) =
        or_refused-calls registry policy handlers (check_approval policy action d approval) _
          handler h2 in
      let (confirmed, h4) =
        or_refused-calls registry policy handlers
          (check_runtime_confirmation policy action d confirmation) _ handler h3 in
      let (live, h5) = if_stops is_dry_run _ _ handler h4 in
      (
        record {
          declaration = d;
          declared = found;
          is_allowed =
              check_declaration_and_policy-IsAllowed policy action contract task_state d allowed;
          unreserved = unreserved;
          approved = check_approval-valid policy action d approval approved;
          confirmed = check_confirmation-valid policy action d confirmation confirmed;
          live = live;
        },
        handler_decision-handler action confirmation (get_handler action.capability handlers)
            handler h5,
      )
