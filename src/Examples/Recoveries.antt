-- ===== src/Examples/Recoveries.antt =====
-- A recovery action, and the theorems of the executor at it.
use runmantle.Prelude.{◌≡◌, refl, true, false, some, none, [], ◌∷◌, contains}
use runmantle.Value.{end}
use runmantle.Contracts.{low, TaskStatus, status_code}
use runmantle.Capabilities.{CapabilityDeclaration, CapabilityRegistry, get_declaration}
use runmantle.Recovery.{
  RecoveryAction, RecoveryPolicy, safe_default, RuntimeConfirmation, risk_rank, holds_status,
}
use runmantle.Recovery.Gates.{
  check_declaration_and_policy, exceeds_risk, valid_approval, valid_confirmation, check_approval,
  check_runtime_confirmation,
}
use runmantle.Recovery.Executor.{
  Handlers, Executor, Key, is_reserved, holds_key, get_handler, gate_declared, run_handler,
  execute_action,
}
use runmantle.Recovery.Acted.{Acted, Request, unique_keys, serve, serve_all, execute_action-Acted}
use runmantle.Recovery.Interleaving.{
  Keys, Steps, start, next, reserves, fails, returns, reserve, end_failed, end_returned, remove_one,
  no_keys, discard, Steps-unique,
}
use runmantle.Examples.Samples.{at, contract}

abbrev retry_declaration : CapabilityDeclaration
retry_declaration = record {
  name = "retry";
  description = "run the task again";
  safety_notes = [];
  available = true;
  recovery_supported = true;
  supported_task_states = TaskStatus.failed ∷ [];
  requires_idempotency = true;
  maximum_risk_level = low;
  requires_approval = false;
  requires_runtime_confirmation = true;
}

abbrev registry : CapabilityRegistry
registry = retry_declaration ∷ []

abbrev policy : RecoveryPolicy
policy = record safe_default { allowed_capabilities = "retry" ∷ [] }

abbrev handlers : Handlers
handlers = ("retry", λ action contract. none) ∷ []

abbrev retry_action : RecoveryAction
retry_action = record {
  action_id = "r-1";
  capability = "retry";
  idempotency_key = "key";
  reason = "the build failed";
  parameters = end;
  handler_identity = "retry";
  handler_configuration = end;
  action_hash = "h";
}

abbrev confirmation : RuntimeConfirmation
confirmation = record {
  confirmation_id = "n-1";
  action_id = "r-1";
  capability = "retry";
  idempotency_key = "key";
  supported = true;
  safe = true;
  confirmed_at = at 7;
  confirmed_by = "host";
  reason = "the workspace is clean";
  target_hash = none;
}

abbrev retry : Request
retry = record {
  action = retry_action;
  contract = contract;
  task_state = TaskStatus.failed;
  confirmation = some confirmation;
  approval = none;
  is_dry_run = false;
}

abbrev rehearsal : Request
rehearsal = record retry { is_dry_run = true }

abbrev idle : Executor
idle = record { executed_keys = []; in_flight_keys = []; called = [] }

abbrev once : Executor
once = record {
  executed_keys = ("retry", "key") ∷ [];
  in_flight_keys = [];
  called = retry_action ∷ [];
}

recovery_program : Unit {0}
unfolding contains status_code get_declaration risk_rank holds_status check_declaration_and_policy
    exceeds_risk valid_approval valid_confirmation check_approval check_runtime_confirmation
    is_reserved holds_key get_handler gate_declared run_handler execute_action serve_all unique_keys
    discard remove_one reserve end_failed end_returned
recovery_program = tt

-- The second request is prevented.
serve_all_twice : serve_all registry policy handlers (retry ∷ retry ∷ rehearsal ∷ []) idle ≡ once
unfolding recovery_program
serve_all_twice = refl

execute_action-Acted_example :
    Acted registry policy handlers retry_action contract TaskStatus.failed
      (some confirmation)
      none
      false
      idle
      (serve registry policy handlers retry idle)
execute_action-Acted_example = execute_action-Acted registry policy handlers retry idle

abbrev retry_key : Key
retry_key = ("retry", "key")

-- The key is reserved and cannot be reserved again, its handler raises, and then it is reserved once
-- more, and its handler returns.
abbrev tried_again : Keys
tried_again =
    end_returned retry_key
      (reserve retry_key (end_failed retry_key (reserve retry_key (reserve retry_key no_keys))))

second_try : Steps no_keys tried_again
unfolding recovery_program
second_try =
    next
      (next
        (next (next (next start (reserves retry_key)) (reserves retry_key)) (fails retry_key refl))
        (reserves retry_key))
      (returns retry_key refl)

returned_once : tried_again.returned ≡ retry_key ∷ []
unfolding recovery_program
returned_once = refl

Steps-unique_example :
    (unique_keys tried_again.returned ≡ true) × (unique_keys tried_again.running ≡ true)
Steps-unique_example = Steps-unique second_try
