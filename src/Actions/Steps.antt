-- ===== src/Actions/Steps.antt =====
-- src/runmantle/persistence.py: the transactions on actions, in any order and from any process.
use runmantle.Prelude.{
  ℕ, suc, ◌≡◌, String, Bool, true, false, Option, none, some, List, [], ◌∷◌, Guard, ok, ◌==◌, ◌&&◌,
  if◌then◌else◌, is_some,
}
use runmantle.Value.{DateTime}
use runmantle.Telemetry.{LifecycleEventType}
use runmantle.Approvals.{StoredApproval}
use runmantle.Actions.{
  ActionExecutionStatus, executing, executor_succeeded, failed, unknown, ActionRequest,
  ActionPolicyDecision, PreActionAuthorization, ActionReceipt, StoredAction,
}
use runmantle.Actions.Store.{
  TaskRow, Store, find_action, find_approval_row, prepare_action, record_action_policy,
  record_action_authorization,
}
use runmantle.Actions.Running.{
  Claim, mark_action_executing, finish_action, complete_action_postconditions, mark_action_unknown,
  consume_approval, claim_approval,
}

-- `consumed_at IS NOT NULL`, and false where there is no such approval.
abbrev pub is_consumed : Option StoredApproval → Bool
is_consumed none = false
is_consumed (some a) = is_some a.consumed_at

-- One transaction. A recovery claims an approval as an action does. The others on the same tables may
-- change the tasks, and add, decide and revoke approvals, but consume none.
pub data Step (s : Store) : Store → Type 0 where
  prepares :
      (request : ActionRequest) (is_dry_run : Bool) (now : DateTime)
      → Step s (prepare_action request is_dry_run now s).1
  decides :
      (action_id : String) (expected : ℕ) (decision : ActionPolicyDecision)
      → Step s (record_action_policy action_id expected decision s).1
  authorizes :
      (action_id : String) (expected : ℕ) (authorization : PreActionAuthorization)
      → Step s (record_action_authorization action_id expected authorization s).1
  starts :
      (action_id : String) (expected : ℕ) (now : DateTime) (owner_id : String) (claim : Claim)
      → Step s (mark_action_executing action_id expected now owner_id claim s).1
  finishes :
      (dumps : ActionReceipt → Guard) (action_id : String) (expected : ℕ) (receipt : ActionReceipt)
      → Step s (finish_action dumps action_id expected receipt s).1
  completes :
      (action_id : String) (expected : ℕ) (now : DateTime)
      → Step s (complete_action_postconditions action_id expected now s).1
  gives_up :
      (action_id : String) (expected : ℕ) (now : DateTime)
      → Step s (mark_action_unknown action_id expected now s).1
  consumes :
      (approval_id : String) (now : DateTime) (hash scope consumer : String)
      → Step s (consume_approval approval_id now hash scope consumer s).1
  claims :
      (consumer : String) (now : DateTime) (hash scope approval_id : Option String) {t : Store}
      → claim_approval consumer now hash scope approval_id s ≡ ok t
      → Step s t
  others :
      (tasks : List TaskRow) (approvals : List StoredApproval)
      → ((approval_id : String)
          → is_consumed (find_approval_row approval_id approvals)
            ≡ is_consumed (find_approval_row approval_id s.approvals))
      → Step s (record s { tasks = tasks; approvals = approvals })

pub data Steps (s : Store) : Store → Type 0 where
  start : Steps s s
  next : {t u : Store} → Steps s t → Step t u → Steps s u

-- Events of one type about one subject.
abbrev pub is_start : LifecycleEventType → Bool
is_start LifecycleEventType.action_execution_started = true
is_start _ = false

abbrev pub is_consumption : LifecycleEventType → Bool
is_consumption LifecycleEventType.approval_consumed = true
is_consumption _ = false

unfoldable pub count_events :
    (LifecycleEventType → Bool) → String → List (LifecycleEventType × String) → ℕ
count_events test subject [] = 0
count_events test subject ((event_type, about) ∷ rest) =
    let others = count_events test subject rest in
    if test event_type && about == subject then suc others else others

-- An execution of the action has started.
unfoldable pub has_started : ActionExecutionStatus → Bool
has_started executing = true
has_started executor_succeeded = true
has_started failed = true
has_started unknown = true
has_started _ = false

abbrev pub starts_of : Option StoredAction → ℕ
starts_of none = 0
starts_of (some a) = if has_started a.status then 1 else 0

-- The log has as many starts of each action as its status says.
abbrev pub AreCounted : Store → Type 0
AreCounted s =
    (action_id : String)
    → count_events is_start action_id s.events ≡ starts_of (find_action action_id s.actions)
