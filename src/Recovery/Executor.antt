-- ===== src/Recovery/Executor.antt =====
-- src/runmantle/recovery.py: `InMemoryRecoveryExecutor._execute_action`, for one action at a time.
use runmantle.Prelude.{
  String, Bool, ◌&&◌, ◌||◌, Option, none, some, List, [], ◌∷◌, any, Error, error_type, message,
  ◌==◌, if◌then◌else◌,
}
use runmantle.Contracts.{TaskStatus}
use runmantle.Verification.{TaskContract}
use runmantle.Capabilities.{CapabilityDeclaration, CapabilityRegistry, get_declaration}
use runmantle.Recovery.{
  blocked, failed, dry_run, runtime_confirmed, duplicate_prevented, unsupported_capability,
  duplicate_idempotency_key, executor_unavailable, execution_failed, dry_run_complete, executed,
  RecoveryAction, RecoveryPolicy, RuntimeConfirmation, RecoveryApproval, RecoveryActionResult,
}
use runmantle.Recovery.Gates.{
  action_result, check_declaration_and_policy, check_approval, check_runtime_confirmation,
}

-- A handler raises an exception, or it returns.
abbrev pub Handler : Type 0
Handler = RecoveryAction → TaskContract → Option Error

abbrev pub Key : Type 0
Key = String × String

abbrev pub key_of : RecoveryAction → Key
key_of action = (action.capability, action.idempotency_key)

unfoldable pub holds_key : List Key → Key → Bool
holds_key keys (c, i) = any (λ k. k.0 == c && k.1 == i) keys

-- The two sets of keys, and the actions for which a handler was called, the last one first.
pub record Executor : Type 0 where
  pub executed_keys : List Key
  pub in_flight_keys : List Key
  pub called : List RecoveryAction

unfoldable pub is_reserved : Executor → Key → Bool
unfolding holds_key
is_reserved s key = holds_key s.executed_keys key || holds_key s.in_flight_keys key

-- What the gates leave: a result, or a handler to be called.
pub data Decision : Type 0 where
  stops : RecoveryActionResult → Decision
  calls : Handler → Decision

abbrev pub Handlers : Type 0
Handlers = List (String × Handler)

unfoldable pub get_handler : String → Handlers → Option Handler
get_handler name [] = none
get_handler name ((n, handler) ∷ rest) = if n == name then some handler else get_handler name rest

module _ (registry : CapabilityRegistry) (policy : RecoveryPolicy) (handlers : Handlers) where
  abbrev pub handler_decision :
      RecoveryAction → Option RuntimeConfirmation → Option Handler → Decision
  handler_decision action confirmation none = stops (
      action_result action failed executor_unavailable
        "no local recovery handler is registered for this capability" confirmation none)
  handler_decision action confirmation (some handler) = calls handler

  abbrev pub or_refused : Option RecoveryActionResult → Decision → Decision
  or_refused (some refusal) next = stops refusal
  or_refused none next = next

  abbrev duplicate : RecoveryAction → String → RecoveryActionResult
  duplicate action text =
      action_result action duplicate_prevented duplicate_idempotency_key text none none

  -- The gates, in the order of the code.
  unfoldable pub gate_declared :
      RecoveryAction
      → TaskContract
      → TaskStatus
      → Option RuntimeConfirmation
      → Option RecoveryApproval
      → Bool
      → Executor
      → CapabilityDeclaration
      → Decision
  unfolding is_reserved get_handler
  gate_declared action contract task_state confirmation approval is_dry_run s d =
      or_refused (check_declaration_and_policy policy action d contract task_state) (
        if is_reserved s (key_of action)
        then stops
            (duplicate action "this recovery capability and idempotency key already executed")
        else or_refused (check_approval policy action d approval) (
            or_refused (check_runtime_confirmation policy action d confirmation) (
              if is_dry_run
              then stops (
                  action_result action dry_run dry_run_complete
                    "all recovery gates passed; no action was executed" confirmation none)
              else handler_decision action confirmation (get_handler action.capability handlers))))

  abbrev pub gate_found :
      RecoveryAction
      → TaskContract
      → TaskStatus
      → Option RuntimeConfirmation
      → Option RecoveryApproval
      → Bool
      → Executor
      → Option CapabilityDeclaration
      → Decision
  gate_found action contract task_state confirmation approval is_dry_run s none = stops (
      action_result action blocked unsupported_capability
        "the runtime has no declaration for this recovery capability" none none)
  gate_found action contract task_state confirmation approval is_dry_run s (some d) =
      gate_declared action contract task_state confirmation approval is_dry_run s d

  -- `_run_handler`, where no other action runs in between: the key is reserved, the handler is
  -- called, the reservation is dropped, and after a success the key is kept.
  abbrev pub finish :
      RecoveryAction
      → Option RuntimeConfirmation
      → Executor
      → Option Error
      → RecoveryActionResult × Executor
  finish action confirmation s (some e) = (
    action_result action failed execution_failed (message e) confirmation (some (error_type e)),
    s,
  )
  finish action confirmation s none = (
    action_result action runtime_confirmed executed
        "runtime-confirmed recovery executed through the injected handler" confirmation none,
    record s { executed_keys = key_of action ∷ s.executed_keys },
  )

  unfoldable pub run_handler :
      RecoveryAction
      → TaskContract
      → Option RuntimeConfirmation
      → Handler
      → Executor
      → RecoveryActionResult × Executor
  unfolding is_reserved
  run_handler action contract confirmation handler s =
      if is_reserved s (key_of action)
      then (duplicate action "a concurrent recovery already reserved this idempotency key", s)
      else finish action confirmation (record s { called = action ∷ s.called })
          (handler action contract)

  abbrev pub act_on :
      RecoveryAction
      → TaskContract
      → Option RuntimeConfirmation
      → Executor
      → Decision
      → RecoveryActionResult × Executor
  act_on action contract confirmation s (stops result) = (result, s)
  act_on action contract confirmation s (calls handler) =
      run_handler action contract confirmation handler s

  -- `_execute_action`.
  unfoldable pub execute_action :
      RecoveryAction
      → TaskContract
      → TaskStatus
      → Option RuntimeConfirmation
      → Option RecoveryApproval
      → Bool
      → Executor
      → RecoveryActionResult × Executor
  unfolding gate_declared run_handler get_declaration
  execute_action action contract task_state confirmation approval is_dry_run s =
      act_on action contract confirmation s (
        gate_found action contract task_state confirmation approval is_dry_run s
          (get_declaration action.capability registry))
