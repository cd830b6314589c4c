-- ===== src/Actions/Store.antt =====
-- src/runmantle/persistence.py: the operations of `SQLiteStore` on actions, each one transaction.
use runmantle.Prelude.{
  ℕ, suc, String, ◌<>◌, Bool, true, false, not, ◌&&◌, ◌||◌, Option, none, some, List, [], ◌∷◌, map,
  any, eqb, Error, Guard, Result, ok, err, raised, ◌>>=◌, ◌>>◌, raise_if, ◌==◌, if◌then◌else◌,
}
use runmantle.Value.{DateTime}
use runmantle.Contracts.{TaskStatus}
use runmantle.Telemetry.{LifecycleEventType}
use runmantle.Approvals.{StoredApproval}
use runmantle.Actions.{
  ActionExecutionStatus, requested, policy_decided, awaiting_approval, authorized, blocked,
  executing, executor_succeeded, failed, unknown, cancelled, dry_run, not_started, ActionRequest,
  ActionPolicyDecision, PreActionAuthorization, StoredAction,
}

-- The columns of a task that the operations on actions read.
pub record TaskRow : Type 0 where
  pub task_id : String
  pub current_state : TaskStatus
  pub execution_context_version : ℕ

-- The tables, and of each event its type and the action or approval it is about, the last one first.
pub record Store : Type 0 where
  pub tasks : List TaskRow
  pub actions : List StoredAction
  pub approvals : List StoredApproval
  pub events : List (LifecycleEventType × String)

abbrev pub concurrent_update : String → Error
concurrent_update m = raised "ConcurrentUpdateError" m

abbrev pub invalid_transition : String → Error
invalid_transition m = raised "InvalidTransitionError" m

abbrev not_found : String → Error
not_found m = raised "TaskNotFoundError" m

-- A transaction that raises is rolled back.
abbrev pub committed {ℓ} : {A : Type ℓ} → Store → Result (A × Store) → Result A × Store
committed s (ok (a, s')) = (ok a, s')
committed s (err e) = (err e, s)

-- `SELECT * … WHERE … = ?` and `fetchone()`.
unfoldable pub first_where {ℓ} : {A : Type ℓ} → (A → Bool) → List A → Option A
first_where test [] = none
first_where test (x ∷ xs) = let rest = first_where test xs in if test x then some x else rest

abbrev pub or_raise {ℓ} : {A : Type ℓ} → Option A → Error → Result A
or_raise (some a) e = ok a
or_raise none e = err e

unfoldable pub find_action : String → List StoredAction → Option StoredAction
unfolding first_where
find_action action_id actions = first_where (λ a. a.action_id == action_id) actions

unfoldable pub find_approval_row : String → List StoredApproval → Option StoredApproval
unfolding first_where
find_approval_row approval_id approvals =
    first_where (λ (a : StoredApproval). a.request.approval_id == approval_id) approvals

unfoldable pub task_row : Store → String → Result TaskRow
unfolding first_where
task_row s task_id =
    or_raise (first_where (λ (t : TaskRow). t.task_id == task_id) s.tasks)
      (not_found ("durable task '" <> task_id <> "' does not exist"))

unfoldable pub action_row : Store → String → Result StoredAction
unfolding find_action
action_row s action_id =
    or_raise (find_action action_id s.actions)
      (not_found ("durable action '" <> action_id <> "' does not exist"))

unfoldable pub action_status_code : ActionExecutionStatus → ℕ
action_status_code requested = 0
action_status_code policy_decided = 1
action_status_code awaiting_approval = 2
action_status_code authorized = 3
action_status_code blocked = 4
action_status_code executing = 5
action_status_code executor_succeeded = 6
action_status_code failed = 7
action_status_code unknown = 8
action_status_code cancelled = 9
action_status_code dry_run = 10

unfoldable pub action_status_value : ActionExecutionStatus → String
action_status_value requested = "requested"
action_status_value policy_decided = "policy_decided"
action_status_value awaiting_approval = "awaiting_approval"
action_status_value authorized = "authorized"
action_status_value blocked = "blocked"
action_status_value executing = "executing"
action_status_value executor_succeeded = "executor_succeeded"
action_status_value failed = "failed"
action_status_value unknown = "unknown"
action_status_value cancelled = "cancelled"
action_status_value dry_run = "dry_run"

abbrev pub is_status : ActionExecutionStatus → ActionExecutionStatus → Bool
is_status a b = eqb (action_status_code a) (action_status_code b)

abbrev pub require_action_version : StoredAction → ℕ → Guard
require_action_version row expected =
    raise_if (not (eqb row.version expected))
      (concurrent_update "durable action changed concurrently")

unfoldable pub require_action_status : StoredAction → List ActionExecutionStatus → String → Guard
unfolding action_status_code action_status_value
require_action_status row allowed operation = raise_if (not (any (is_status row.status) allowed)) (
    invalid_transition
      ("cannot " <> operation <> " while action is " <> action_status_value row.status))

-- `UPDATE actions SET … WHERE action_id = ?`, with the row as it is afterwards.
unfoldable pub put_action : StoredAction → List StoredAction → List StoredAction
put_action row actions = map (λ a. if a.action_id == row.action_id then row else a) actions

abbrev pub update_action : StoredAction → LifecycleEventType → Store → Store
update_action row event_type s = record s {
  actions = put_action row s.actions;
  events = (event_type, row.action_id) ∷ s.events;
}

abbrev pub new_action : ActionRequest → Bool → DateTime → StoredAction
new_action r is_dry_run now = record {
  action_id = r.action_id;
  task_id = r.task_id;
  name = r.name;
  required_capability = r.required_capability;
  input = r.input;
  input_hash = r.input_hash;
  action_hash = r.action_hash;
  idempotency_key = r.idempotency_key;
  risk_level = r.risk_level;
  requested_by = r.requested_by;
  requested_at = r.requested_at;
  timeout = r.timeout;
  is_dry_run = is_dry_run;
  status = requested;
  policy_decision = none;
  authorization = none;
  receipt = none;
  postcondition_status = not_started;
  policy_task_context_version = none;
  execution_owner_id = none;
  version = 1;
  created_at = now;
  updated_at = now;
}

abbrev same_flag : Bool → Bool → Bool
same_flag true b = b
same_flag false b = not b

abbrev pub has_key : ActionRequest → Bool → StoredAction → Bool
has_key r is_dry_run a =
    a.task_id == r.task_id
    && a.required_capability == r.required_capability
    && a.idempotency_key == r.idempotency_key
    && same_flag a.is_dry_run is_dry_run

abbrev pub are_two : Option StoredAction → Option StoredAction → Bool
are_two (some a) (some b) = not (a.action_id == b.action_id)
are_two _ _ = false

abbrev pub either_row : Option StoredAction → Option StoredAction → Option StoredAction
either_row (some a) by_key = some a
either_row none by_key = by_key

-- A row that is there has to be of this request.
abbrev pub prepared :
    ActionRequest
    → Bool
    → DateTime
    → Store
    → Option StoredAction
    → Result ((StoredAction × Bool) × Store)
prepared r is_dry_run now s (some a) = do
  raise_if
      (not (a.task_id == r.task_id)
        || not (a.action_hash == r.action_hash)
        || not (same_flag a.is_dry_run is_dry_run))
      (concurrent_update "action identity conflicts with persisted content")
  ok ((a, false), s)
prepared r is_dry_run now s none =
    let row = new_action r is_dry_run now in
    ok (
      (row, true),
      record s {
        actions = row ∷ s.actions;
        events = (LifecycleEventType.action_requested, r.action_id) ∷ s.events;
      },
    )

abbrev pub prepare_found :
    ActionRequest → Bool → DateTime → Store → Result ((StoredAction × Bool) × Store)
prepare_found r is_dry_run now s = do
  let by_id = find_action r.action_id s.actions
  let by_key = first_where (has_key r is_dry_run) s.actions
  raise_if (are_two by_id by_key)
      (concurrent_update "action ID and idempotency key identify different actions")
  prepared r is_dry_run now s (either_row by_id by_key)

-- The row, and whether it is new.
unfoldable pub prepare_action :
    ActionRequest → Bool → DateTime → Store → Result (StoredAction × Bool) × Store
unfolding task_row find_action first_where
prepare_action r is_dry_run now s =
    committed s (task_row s r.task_id >>= λ _. prepare_found r is_dry_run now s)

abbrev pub decided_row : StoredAction → TaskRow → ActionPolicyDecision → StoredAction
decided_row action task decision = record action {
  status = policy_decided;
  policy_decision = some decision;
  policy_task_context_version = some task.execution_context_version;
  version = suc action.version;
  updated_at = decision.decided_at;
}

unfoldable pub record_action_policy :
    String → ℕ → ActionPolicyDecision → Store → Result StoredAction × Store
unfolding action_row task_row require_action_status
record_action_policy action_id expected decision s = committed s (do
  action ← action_row s action_id
  require_action_version action expected
  require_action_status action (requested ∷ []) "record an action policy decision"
  task ← task_row s action.task_id
  let row = decided_row action task decision
  ok (row, update_action row LifecycleEventType.action_policy_decided s))

abbrev pub authorization_status : PreActionAuthorization → ActionExecutionStatus
authorization_status a =
    if a.authorized
    then authorized
    else (if a.awaiting_approval then awaiting_approval else blocked)

abbrev pub authorization_event : PreActionAuthorization → LifecycleEventType
authorization_event a =
    if a.authorized
    then LifecycleEventType.action_authorized
    else (if a.awaiting_approval
        then LifecycleEventType.action_awaiting_approval
        else LifecycleEventType.action_blocked)

abbrev pub authorized_row : StoredAction → PreActionAuthorization → StoredAction
authorized_row action a = record action {
  status = authorization_status a;
  authorization = some a;
  version = suc action.version;
  updated_at = a.authorized_at;
}

unfoldable pub record_action_authorization :
    String → ℕ → PreActionAuthorization → Store → Result StoredAction × Store
unfolding action_row task_row require_action_status
record_action_authorization action_id expected a s = committed s (do
  action ← action_row s action_id
  require_action_version action expected
  require_action_status action (policy_decided ∷ awaiting_approval ∷ [])
      "record pre-action authorization"
  task ← task_row s action.task_id
  let row = authorized_row action a
  ok (row, update_action row (authorization_event a) s))
