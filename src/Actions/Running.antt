-- ===== src/Actions/Running.antt =====
-- src/runmantle/persistence.py: the operations of `SQLiteStore` on an action from its start on.
use runmantle.Prelude.{
  ℕ, suc, String, ◌<>◌, Bool, true, false, not, ◌&&◌, ◌||◌, Option, none, some, List, [], ◌∷◌, map,
  eqb, is_some, Error, Guard, Result, ok, err, raised, value_error, ◌>>=◌, ◌>>◌, raise_if, ◌==◌,
  if◌then◌else◌,
}
use runmantle.Value.{DateTime}
use runmantle.Validation.{require_non_empty}
use runmantle.Telemetry.{LifecycleEventType}
use runmantle.Approvals.{StoredApproval, authorizes}
use runmantle.Actions.{
  ActionExecutionStatus, authorized, executing, executor_succeeded, failed, unknown, cancelled,
  dry_run, ActionPostconditionStatus, not_started, pending, completed, ActionReceipt, StoredAction,
}
use runmantle.Actions.Store.{
  Store, committed, concurrent_update, invalid_transition, or_raise, find_approval_row, task_row,
  action_row, require_action_version, require_action_status, update_action,
}

-- The binding of an approval to the start of an action: its identifier, request hash and scope.
pub record Claim : Type 0 where
  pub approval_id : Option String
  pub approval_request_hash : Option String
  pub approval_scope : Option String

abbrev pub is_stale : Option ℕ → ℕ → Bool
is_stale none current = true
is_stale (some bound) current = not (eqb current bound)

abbrev pub is_partial : Claim → Bool
is_partial c =
    (is_some c.approval_id || is_some c.approval_request_hash || is_some c.approval_scope)
    && not (is_some c.approval_id && is_some c.approval_request_hash && is_some c.approval_scope)

abbrev pub consume : DateTime → String → StoredApproval → StoredApproval
consume now consumer a = record a {
  consumed_at = some now;
  consumed_by = some consumer;
  version = suc a.version;
}

-- `UPDATE approvals SET … WHERE approval_id = ?`.
unfoldable pub put_approval : StoredApproval → List StoredApproval → List StoredApproval
put_approval row approvals =
    map
      (λ (a : StoredApproval). if a.request.approval_id == row.request.approval_id then row else a)
      approvals

abbrev pub consumed_store : DateTime → String → StoredApproval → Store → Store
consumed_store now consumer approval s =
    if approval.request.one_time_use
    then record s {
      approvals = put_approval (consume now consumer approval) s.approvals;
      events = (LifecycleEventType.approval_consumed, approval.request.approval_id) ∷ s.events;
    }
    else s

abbrev pub refuse_unless : Bool → Error → Guard
refuse_unless b e = raise_if (not b) e

-- The store after the approval is claimed.
unfoldable pub claim_approval :
    String → DateTime → (hash scope : Option String) → Option String → Store → Result Store
unfolding find_approval_row authorizes put_approval
claim_approval consumer now (some hash) (some scope) (some approval_id) s = do
  approval ←
      or_raise (find_approval_row approval_id s.approvals)
        (invalid_transition "required action approval is missing")
  active ← authorizes approval hash scope now
  refuse_unless active
      (invalid_transition "action approval is expired, revoked, consumed, or mismatched")
  ok (consumed_store now consumer approval s)
claim_approval consumer now hash scope none s = ok s
claim_approval consumer now _ _ (some approval_id) s = err (raised "AssertionError" "")

abbrev pub started_row : StoredAction → DateTime → String → StoredAction
started_row action now owner_id = record action {
  status = executing;
  execution_owner_id = some owner_id;
  version = suc action.version;
  updated_at = now;
}

unfoldable pub mark_action_executing :
    String → ℕ → DateTime → (owner_id : String) → Claim → Store → Result StoredAction × Store
unfolding action_row task_row require_action_status claim_approval
mark_action_executing action_id expected now owner_id claim s = committed s (do
  action ← action_row s action_id
  require_action_version action expected
  require_action_status action (authorized ∷ []) "start action execution"
  task ← task_row s action.task_id
  raise_if (is_stale action.policy_task_context_version task.execution_context_version)
      (invalid_transition "action authority is stale for the current task context")
  raise_if (is_partial claim) (value_error "action approval claim requires all binding fields")
  s' ←
      claim_approval ("action:" <> action_id) now claim.approval_request_hash claim.approval_scope
        claim.approval_id s
  let row = started_row action now owner_id
  ok (row, update_action row LifecycleEventType.action_execution_started s'))

abbrev consumed_before : StoredApproval → String → String → String → Bool
consumed_before a hash scope consumer =
    a.request.one_time_use
    && elim a.consumed_by [ none ↦ false | some c ↦ c == consumer ]
    && a.request.request_hash == hash
    && a.request.required_scope == scope

-- What `consume_approval` does with the row that it found.
abbrev pub consume_found :
    DateTime
    → (hash scope consumer : String) → StoredApproval
    → Store
    → (active : Bool) → Result (StoredApproval × Store)
consume_found now hash scope consumer a s false =
    if consumed_before a hash scope consumer
    then ok (a, s)
    else err (invalid_transition "approval is not an active grant for this exact request and scope")
consume_found now hash scope consumer a s true =
    let consumed = task_row s a.request.task_id >>= λ _.
    ok (consume now consumer a, consumed_store now consumer a s) in
    if a.request.one_time_use then consumed else ok (a, s)

abbrev pub consume_by :
    String → DateTime → (hash scope consumer : String) → Store → Result (StoredApproval × Store)
consume_by approval_id now hash scope consumer s = do
  require_non_empty consumer "approval consumer"
  a ←
      or_raise (find_approval_row approval_id s.approvals)
        (raised "TaskNotFoundError" ("approval '" <> approval_id <> "' does not exist"))
  active ← authorizes a hash scope now
  consume_found now hash scope consumer a s active

unfoldable pub consume_approval :
    String → DateTime → (hash scope consumer : String) → Store → Result StoredApproval × Store
unfolding require_non_empty find_approval_row authorizes task_row put_approval
consume_approval approval_id now hash scope consumer s =
    committed s (consume_by approval_id now hash scope consumer s)

-- `_action_finish_event`, which has no event for the other statuses.
unfoldable pub action_finish_event : ActionExecutionStatus → Option LifecycleEventType
action_finish_event executor_succeeded = some LifecycleEventType.action_executor_succeeded
action_finish_event failed = some LifecycleEventType.action_execution_failed
action_finish_event unknown = some LifecycleEventType.action_execution_unknown
action_finish_event cancelled = some LifecycleEventType.action_execution_failed
action_finish_event dry_run = some LifecycleEventType.action_dry_run_completed
action_finish_event _ = none

-- The statuses that a receipt may follow.
abbrev pub finished_from : ActionExecutionStatus → List ActionExecutionStatus
finished_from cancelled = authorized ∷ []
finished_from dry_run = authorized ∷ []
finished_from _ = executing ∷ []

abbrev pub postconditions_after : ActionExecutionStatus → ActionPostconditionStatus
postconditions_after executor_succeeded = pending
postconditions_after _ = not_started

abbrev pub differs : StoredAction → ActionReceipt → Bool
differs action r =
    not (r.action_hash == action.action_hash)
    || not (r.input_hash == action.input_hash)
    || not (r.idempotency_key == action.idempotency_key)

abbrev pub finished_row : StoredAction → ActionReceipt → StoredAction
finished_row action r = record action {
  status = r.status;
  receipt = some r;
  postcondition_status = postconditions_after r.status;
  version = suc action.version;
  updated_at = r.finished_at;
}

-- `dumps` is the encoding of a receipt, which may raise.
unfoldable pub finish_with :
    (dumps : ActionReceipt → Guard)
    → String
    → ℕ
    → ActionReceipt
    → Store
    → LifecycleEventType
    → Result (StoredAction × Store)
unfolding action_row task_row require_action_status
finish_with dumps action_id expected r s event_type = do
  action ← action_row s action_id
  require_action_version action expected
  require_action_status action (finished_from r.status) "finish action execution"
  raise_if (not (r.action_id == action_id) || differs action r)
      (concurrent_update "action receipt does not match the persisted request")
  dumps r
  task ← task_row s action.task_id
  ok (finished_row action r, update_action (finished_row action r) event_type s)

unfoldable pub finish_action :
    (dumps : ActionReceipt → Guard)
    → String
    → ℕ
    → ActionReceipt
    → Store
    → Result StoredAction × Store
unfolding finish_with action_finish_event
finish_action dumps action_id expected r s = committed s (
    or_raise (action_finish_event r.status) (raised "KeyError" "")
    >>= finish_with dumps action_id expected r s)

abbrev pub is_pending : ActionPostconditionStatus → Bool
is_pending pending = true
is_pending _ = false

abbrev pub completed_row : StoredAction → DateTime → StoredAction
completed_row action now = record action {
  postcondition_status = completed;
  version = suc action.version;
  updated_at = now;
}

unfoldable pub complete_action_postconditions :
    String → ℕ → DateTime → Store → Result StoredAction × Store
unfolding action_row task_row require_action_status
complete_action_postconditions action_id expected now s = committed s (do
  action ← action_row s action_id
  require_action_version action expected
  require_action_status action (executor_succeeded ∷ []) "complete action postconditions"
  raise_if (not (is_pending action.postcondition_status))
      (invalid_transition "action postconditions are not pending completion")
  task ← task_row s action.task_id
  let row = completed_row action now
  ok (row, update_action row LifecycleEventType.action_postconditions_completed s))

abbrev pub unknown_row : StoredAction → DateTime → StoredAction
unknown_row action now = record action {
  status = unknown;
  version = suc action.version;
  updated_at = now;
}

unfoldable pub mark_action_unknown : String → ℕ → DateTime → Store → Result StoredAction × Store
unfolding action_row task_row require_action_status
mark_action_unknown action_id expected now s = committed s (do
  action ← action_row s action_id
  require_action_version action expected
  require_action_status action (executing ∷ []) "mark interrupted action unknown"
  task ← task_row s action.task_id
  let row = unknown_row action now
  ok (row, update_action row LifecycleEventType.action_execution_unknown s))
