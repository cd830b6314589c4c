-- ===== src/Examples/Plans.antt =====
-- A plan of two actions, the second of which is refused after the first has run.
use runmantle.Prelude.{
  ◌≡◌, refl, String, true, false, some, none, [], ◌∷◌, ok, contains, is_blank, text_length,
}
use runmantle.Value.{end, from_list}
use runmantle.Validation.{
  require_non_empty, require_non_empty_attributes, require_aware, require_unique, has_duplicates,
}
use runmantle.Contracts.{low, TaskStatus, status_code, risk_value}
use runmantle.Serialization.{Json}
use runmantle.Serialization.Codec.{JsonText, dumps, rewrap, is_caught}
use runmantle.Capabilities.{CapabilityDeclaration, get_declaration}
use runmantle.Telemetry.{check_event}
use runmantle.Telemetry.Names.{event_type_value}
use runmantle.Recovery.{RecoveryAction, safe_default, risk_rank, holds_status}
use runmantle.Recovery.Names.{recovery_status_value, reason_code_value}
use runmantle.Recovery.Gates.{
  check_declaration_and_policy, exceeds_risk, valid_approval, valid_confirmation, check_approval,
  check_runtime_confirmation,
}
use runmantle.Recovery.Executor.{
  is_reserved, holds_key, get_handler, gate_declared, run_handler, execute_action,
}
use runmantle.Recovery.Plan.{RecoveryPlan, plan_snapshot, construct_plan}
use runmantle.Recovery.Session.{
  Session, Invocation, get_last, confirmation_for, approval_for, emit_recovery_event, is_confirmed,
  goes_on, emit_recovery_result, note_confirmation, run_action, run_actions, execute,
}
use runmantle.Recovery.Served.{IsNumbered}
use runmantle.Recovery.Whole.{HasLast, Executed, execute-Executed}
use runmantle.Examples.Samples.{at, contract}

unfoldable pub plan_program : Unit {0}
unfolding contains is_blank text_length from_list require_non_empty require_non_empty_attributes
    require_aware require_unique has_duplicates status_code risk_value get_declaration check_event
    event_type_value risk_rank holds_status recovery_status_value reason_code_value
    check_declaration_and_policy exceeds_risk valid_approval valid_confirmation check_approval
    check_runtime_confirmation is_reserved holds_key get_handler gate_declared run_handler
    execute_action plan_snapshot construct_plan get_last confirmation_for approval_for
    emit_recovery_event is_confirmed goes_on emit_recovery_result note_confirmation run_action
    run_actions execute IsNumbered HasLast dumps rewrap is_caught
plan_program = tt

abbrev declaration : CapabilityDeclaration
declaration = record {
  name = "retry";
  description = "run the task again";
  safety_notes = [];
  available = true;
  recovery_supported = true;
  supported_task_states = TaskStatus.failed ∷ [];
  requires_idempotency = false;
  maximum_risk_level = low;
  requires_approval = false;
  requires_runtime_confirmation = false;
}

abbrev action_of : String → String → RecoveryAction
action_of id capability = record {
  action_id = id;
  capability = capability;
  idempotency_key = "key";
  reason = "the build failed";
  parameters = end;
  handler_identity = "handler";
  handler_configuration = end;
  action_hash = "h";
}

abbrev plan : RecoveryPlan
plan = record {
  plan_id = "p-1";
  task_id = contract.task_id;
  actions = action_of "a-1" "retry" ∷ action_of "a-2" "restart" ∷ [];
  proposed_by = "agent";
  failure_diagnosis = "the build failed";
  context_reference = none;
  declared_recovery_capability = none;
  risk_level = low;
  approval_required = true;
  preconditions = [];
  postconditions = [];
  compensation_id = none;
  created_at = at 0;
  plan_hash = "";
}

abbrev call : Invocation
call = record {
  registry = declaration ∷ [];
  policy = record safe_default {
    allowed_capabilities = "retry" ∷ [];
    require_runtime_confirmation = false;
  };
  handlers = ("retry", λ action contract. none) ∷ [];
  clock = at;
  plan = plan;
  contract = contract;
  task_state = TaskStatus.failed;
  confirmations = [];
  approvals = [];
  is_dry_run = false;
  correlation_id = none;
}

abbrev idle : Session
idle = record {
  executor = record { executed_keys = []; in_flight_keys = []; called = [] };
  events = [];
  readings = 0;
}

execute-Executed_example : Executed call idle (execute call idle)
unfolding plan_program
execute-Executed_example =
    execute-Executed call
      (record { task = refl; correlation = refl; worker = refl; aware = λ n. refl }) idle refl

-- The first action has run, and the plan is blocked.
refused_after_run : (execute call idle).1.executor.called ≡ action_of "a-1" "retry" ∷ []
unfolding plan_program
refused_after_run = refl

abbrev texts : JsonText
texts = record {
  print = λ _. ok "{}";
  parse = λ _. ok Json.null;
  utf8_length = λ s. ok (text_length s);
}

abbrev made : RecoveryPlan
made = record plan { context_reference = some "task:task"; plan_hash = "sha256:sha:{}" }
