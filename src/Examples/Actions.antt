-- ===== src/Examples/Actions.antt =====
-- An action that needs an approval, from its request to its receipt.
use runmantle.Prelude.{
  ◌≡◌, ◌↔◌, ◌≤◌, refl, Bool, true, false, some, none, [], ◌∷◌, Result, ok, is_blank, contains, ◌==◌,
  if◌then◌else◌,
}
use runmantle.Value.{pos}
use runmantle.Validation.{require_non_empty, require_non_empty_attributes, require_aware}
use runmantle.Contracts.{low, TaskStatus, status_code}
use runmantle.Serialization.{DataEntries}
use runmantle.Capabilities.{CapabilityDeclaration, get_declaration}
use runmantle.Approvals.{authorizes, state_at, state_by}
use runmantle.Recovery.{risk_rank, holds_status}
use runmantle.Actions.{
  ActionRequest, Precondition, ActionPolicy, ActionPolicyDecision, PreActionAuthorization,
  ActionReceipt, executor_succeeded, construct_policy_decision, construct_authorization,
}
use runmantle.Actions.Policy.{reason_if, denial_reasons, decide_policy, Answer, truth, authorize}
use runmantle.Actions.Allowed.{IsAllowed, decide_policy-IsAllowed}
use runmantle.Actions.Authorized.{IsAuthorized, IsAwaited, authorize-IsAuthorized}
use runmantle.Actions.Store.{
  TaskRow, Store, first_where, find_action, find_approval_row, task_row, action_row,
  action_status_code, action_status_value, require_action_status, put_action, prepare_action,
  record_action_policy, record_action_authorization,
}
use runmantle.Actions.Running.{
  Claim, put_approval, claim_approval, mark_action_executing, action_finish_event, finish_with,
  finish_action,
}
use runmantle.Actions.Steps.{
  Steps, start, next, prepares, decides, authorizes as authorizes_step, starts, finishes, others,
  count_events, is_start, is_consumption, has_started, starts_of, is_consumed,
}
use runmantle.Actions.Started.{flag}
use runmantle.Actions.Interleaved.{new_store, Steps-started_once, Steps-consumed_once}
use runmantle.Examples.Samples.{at, contract}
use runmantle.Examples.Decisions.{granted_approval}

unfoldable pub action_program : Unit {0}
unfolding status_code is_blank contains require_non_empty require_non_empty_attributes require_aware
    get_declaration authorizes state_at state_by risk_rank holds_status construct_policy_decision
    construct_authorization reason_if denial_reasons decide_policy authorize first_where find_action
    find_approval_row task_row action_row action_status_code action_status_value
    require_action_status put_action prepare_action record_action_policy record_action_authorization
    put_approval claim_approval mark_action_executing action_finish_event finish_with finish_action
    count_events has_started
action_program = tt

abbrev request : ActionRequest
request = record {
  action_id = "a-1";
  task_id = "task";
  name = "restart the service";
  required_capability = "restart";
  input = DataEntries.end;
  idempotency_key = "key";
  risk_level = low;
  requested_by = "agent";
  requested_at = at 0;
  execution_handler_id = "handler";
  timeout = pos 30000000;
  preconditions = record { name = "idle"; description = "no requests"; evaluator = "e" } ∷ [];
  postconditions = [];
  metadata = DataEntries.end;
  input_hash = "i";
  action_hash = "h";
}

abbrev declaration : CapabilityDeclaration
declaration = record {
  name = "restart";
  description = "restart the service";
  safety_notes = [];
  available = true;
  recovery_supported = false;
  supported_task_states = TaskStatus.running ∷ [];
  requires_idempotency = true;
  maximum_risk_level = low;
  requires_approval = true;
  requires_runtime_confirmation = false;
}

abbrev policy : ActionPolicy
policy = record {
  allowed_capabilities = "restart" ∷ [];
  allowed_task_states = TaskStatus.running ∷ [];
  maximum_risk_level = low;
  approval_required_capabilities = [];
}

abbrev decision : ActionPolicyDecision
decision = record {
  allowed = true;
  reasons = "all capability and policy checks passed" ∷ [];
  requires_approval = true;
  decided_at = at 2;
  decided_by = "runmantle.action_policy";
}

decide_policy-IsAllowed_example :
    (decision.allowed ≡ true)
    ↔ IsAllowed policy request
        ("restart" ∷ [])
        ("restart" ∷ [])
        TaskStatus.running
        (some declaration)
unfolding action_program
decide_policy-IsAllowed_example =
    decide_policy-IsAllowed (declaration ∷ []) policy request
      (record contract { allowed_capabilities = "restart" ∷ [] }) TaskStatus.running
      ("restart" ∷ []) (at 2) decision refl

abbrev evaluate : Precondition → Result Answer
evaluate _ = ok (truth true)

abbrev authorization : PreActionAuthorization
authorization = record {
  authorized = true;
  reason = "policy, capability, approval, and precondition checks passed";
  evaluated_preconditions =
      record { name = "idle"; passed = true; message = "precondition satisfied" } ∷ [];
  approved_by = some "op";
  authorized_at = at 3;
  awaiting_approval = false;
}

authorize-IsAuthorized_example :
    ((authorization.authorized ≡ true)
      ↔ IsAuthorized evaluate request decision (some granted_approval))
    × ((authorization.awaiting_approval ≡ true)
        ↔ IsAwaited evaluate request decision (some granted_approval) (some true))
unfolding action_program
authorize-IsAuthorized_example =
    authorize-IsAuthorized evaluate request decision (some granted_approval) (some true) (at 3)
      authorization refl

abbrev task : TaskRow
task = record {
  task_id = "task";
  current_state = TaskStatus.running;
  execution_context_version = 1;
}

abbrev receipt : ActionReceipt
receipt = record {
  receipt_id = "r-1";
  action_id = "a-1";
  executor_id = "local";
  status = executor_succeeded;
  action_hash = "h";
  input_hash = "i";
  idempotency_key = "key";
  started_at = at 4;
  finished_at = at 5;
  output = none;
  message = "";
  error_type = none;
  output_hash = none;
}

abbrev claim : Claim
claim = record {
  approval_id = some "a-1";
  approval_request_hash = some "sha256:encoded";
  approval_scope = some "release";
}

abbrev approved_store : Store
approved_store = record (new_store (task ∷ [])) { approvals = granted_approval ∷ [] }

one_unconsumed : (b : Bool) → is_consumed (if b then some granted_approval else none) ≡ false
one_unconsumed true = refl
one_unconsumed false = refl

approved_store-Steps : Steps (new_store (task ∷ [])) approved_store
unfolding action_program
approved_store-Steps =
    next start (others (task ∷ []) (granted_approval ∷ []) (λ id. one_unconsumed ("a-1" == id)))

-- The action is started twice, and finished.
abbrev finished : Store
finished =
    (finish_action (λ _. ok tt) "a-1" 4 receipt
      (mark_action_executing "a-1" 4 (at 4) "i-2" claim
        (mark_action_executing "a-1" 3 (at 4) "i-1" claim
          (record_action_authorization "a-1" 2 authorization
            (record_action_policy "a-1" 1 decision
              (prepare_action request false (at 1) approved_store).1).1).1).1).1).1

finished-Steps : Steps (new_store (task ∷ [])) finished
finished-Steps =
    next
      (next
        (next
          (next
            (next (next approved_store-Steps (prepares request false (at 1)))
              (decides "a-1" 1 decision))
            (authorizes_step "a-1" 2 authorization))
          (starts "a-1" 3 (at 4) "i-1" claim))
        (starts "a-1" 4 (at 4) "i-2" claim))
      (finishes (λ _. ok tt) "a-1" 4 receipt)

Steps-started_once_example :
    (count_events is_start "a-1" finished.events ≡ starts_of (find_action "a-1" finished.actions))
    × (count_events is_start "a-1" finished.events ≤ 1)
Steps-started_once_example = Steps-started_once (task ∷ []) finished "a-1" finished-Steps

-- It has started once, although it was to be started twice.
started_once : count_events is_start "a-1" finished.events ≡ 1
unfolding action_program
started_once = refl

Steps-consumed_once_example :
    (count_events is_consumption "a-1" finished.events
      ≡ flag (is_consumed (find_approval_row "a-1" finished.approvals)))
    × (count_events is_consumption "a-1" finished.events ≤ 1)
Steps-consumed_once_example = Steps-consumed_once (task ∷ []) finished "a-1" finished-Steps

consumed_once : count_events is_consumption "a-1" finished.events ≡ 1
unfolding action_program
consumed_once = refl
