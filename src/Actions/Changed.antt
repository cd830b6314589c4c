-- ===== src/Actions/Changed.antt =====
-- What each transaction but the start does to the store.
use runmantle.Prelude.{
  ℕ, ◌+◌, ◌≡◌, refl, sym, ◌∙◌, ap, subst, arith, String, Bool, true, false, ◌&&◌, Option, none,
  some, List, [], ◌∷◌, Error, Result, ok, ◌>>=◌, ◌>>◌, >>=-eq-ok, >>-eq-ok, ok-injective,
  Bool-cases, inl, inr, any, leb, if◌then◌else◌,
}
use runmantle.Telemetry.{LifecycleEventType}
use runmantle.Actions.{
  ActionExecutionStatus, requested, policy_decided, awaiting_approval, authorized, blocked,
  executing, executor_succeeded, failed, unknown, cancelled, dry_run, ActionPolicyDecision,
  PreActionAuthorization, StoredAction,
}
use runmantle.Actions.Store.{
  Store, find_action, update_action, or_raise, action_row, task_row, is_status, action_status_code,
  require_action_version, require_action_status, record_action_policy, record_action_authorization,
  authorization_status, decided_row, authorized_row, authorization_event,
}
use runmantle.Actions.Steps.{is_start, is_consumption, has_started}
use runmantle.Actions.Started.{flag, found-action_id, committed-keeps}

pub or_raise-eq-ok :
    {A : Type 0} (o : Option A) (e : Error) {a : A} → or_raise o e ≡ ok a → o ≡ some a
or_raise-eq-ok none e h = cc (h)
or_raise-eq-ok (some b) e h = ap some (ok-injective h)

pub action_row-found :
    (s : Store) (action_id : String) {a : StoredAction}
    → action_row s action_id ≡ ok a
    → (find_action a.action_id s.actions ≡ some a) × (a.action_id ≡ action_id)
unfolding action_row
action_row-found s action_id {a} h =
    let found = or_raise-eq-ok (find_action action_id s.actions) _ h in
    let same = found-action_id action_id s.actions found in
    (subst (λ x. find_action x s.actions ≡ some a) (sym same) found, same)

-- Of the statuses it only matters which codes are those of a started action.
pub has_started-action_status_code :
    (a : ActionExecutionStatus)
    → has_started a ≡ (leb 5 (action_status_code a) && leb (action_status_code a) 8)
unfolding has_started action_status_code
has_started-action_status_code requested = refl
has_started-action_status_code policy_decided = refl
has_started-action_status_code awaiting_approval = refl
has_started-action_status_code authorized = refl
has_started-action_status_code blocked = refl
has_started-action_status_code executing = refl
has_started-action_status_code executor_succeeded = refl
has_started-action_status_code failed = refl
has_started-action_status_code unknown = refl
has_started-action_status_code cancelled = refl
has_started-action_status_code dry_run = refl

pub is_status-started :
    (a b : ActionExecutionStatus) → is_status a b ≡ true → has_started a ≡ has_started b
is_status-started a b h =
    let same : action_status_code a ≡ action_status_code b = ground arith in
    has_started-action_status_code a
    ∙ ap (λ c. leb 5 c && leb c 8) same
    ∙ sym (has_started-action_status_code b)

pub required :
    (row : StoredAction) (allowed : List ActionExecutionStatus) (operation : String)
    → require_action_status row allowed operation ≡ ok tt
    → any (is_status row.status) allowed ≡ true
unfolding require_action_status
required row allowed operation h = ground arith

pub one_of :
    (a b : ActionExecutionStatus)
    → any (is_status a) (b ∷ []) ≡ true
    → has_started a ≡ has_started b
one_of a b h = is_status-started a b (ground arith)

-- A transaction that consumes no approval changes nothing, or it replaces a row and logs an event, which
-- is a start exactly where the status becomes one of a started action.
pub data Changed (s : Store) : Store → Type 0 where
  unchanged : Changed s s
  updated :
      (old row : StoredAction) (event_type : LifecycleEventType)
      → is_consumption event_type ≡ false
      → find_action row.action_id s.actions ≡ some old
      → flag (has_started row.status) ≡ flag (is_start event_type) + flag (has_started old.status)
      → Changed s (update_action row event_type s)

-- The start of each transaction: it reads the row, and checks its version and its status.
pub opened :
    {A : Type 0} (s : Store) (action_id : String) (expected : ℕ)
    (allowed : List ActionExecutionStatus) (operation : String) (body : StoredAction → Result A)
    {a : A}
    → (action_row s action_id >>= λ action.
        require_action_version action expected
        >> (require_action_status action allowed operation >> body action))
      ≡ ok a
    → (action : StoredAction) × (find_action action.action_id s.actions ≡ some action)
      × (any (is_status action.status) allowed ≡ true)
      × (body action ≡ ok a)
opened s action_id expected allowed operation body h =
    let (action, found, h1) = >>=-eq-ok (action_row s action_id) _ h in
    let (_, h2) = >>-eq-ok (require_action_version action expected) _ h1 in
    let (status, h3) = >>-eq-ok (require_action_status action allowed operation) _ h2 in
    (action, (action_row-found s action_id found).0, required action allowed operation status, h3)

pub record_action_policy-Changed :
    (action_id : String) (expected : ℕ) (decision : ActionPolicyDecision) (s : Store)
    → Changed s (record_action_policy action_id expected decision s).1
unfolding record_action_policy has_started
record_action_policy-Changed action_id expected decision s =
    committed-keeps {A = StoredAction} (Changed s) s _ unchanged (λ a s' h.
      let (action, found, status, h1) =
        opened s action_id expected (requested ∷ []) "record an action policy decision"
          (λ action. task_row s action.task_id >>= λ task. ok (
            decided_row action task decision,
            update_action (decided_row action task decision)
                LifecycleEventType.action_policy_decided s,
          ))
          h in
      let (task, _, h2) = >>=-eq-ok (task_row s action.task_id) _ h1 in
      subst (Changed s) (ap (λ x. x.1) (ok-injective h2)) (
        updated action (decided_row action task decision) LifecycleEventType.action_policy_decided
          refl found (omega (arith, ap flag (one_of action.status requested status)))))

two_of :
    (a b c : ActionExecutionStatus)
    → any (is_status a) (b ∷ c ∷ []) ≡ true
    → has_started b ≡ has_started c
    → has_started a ≡ has_started b
two_of a b c h same = elim (Bool-cases (is_status a b)) [
  | inl here ↦ is_status-started a b here
  | inr not_here ↦ is_status-started a c (ground arith) ∙ sym same
]

authorization_status-started :
    (a : PreActionAuthorization)
    → (has_started (authorization_status a) ≡ false)
      × (is_start (authorization_event a) ≡ false)
      × (is_consumption (authorization_event a) ≡ false)
unfolding has_started
authorization_status-started a = by_case a.authorized a.awaiting_approval
  where
    by_case :
        (is_authorized waits : Bool)
        → (has_started
              (if is_authorized then authorized else (if waits then awaiting_approval else blocked))
            ≡ false)
          × (is_start (
                if is_authorized
                then LifecycleEventType.action_authorized
                else (if waits
                    then LifecycleEventType.action_awaiting_approval
                    else LifecycleEventType.action_blocked))
              ≡ false)
          × (is_consumption (
                if is_authorized
                then LifecycleEventType.action_authorized
                else (if waits
                    then LifecycleEventType.action_awaiting_approval
                    else LifecycleEventType.action_blocked))
              ≡ false)
    by_case true waits = (refl, refl, refl)
    by_case false true = (refl, refl, refl)
    by_case false false = (refl, refl, refl)

pub record_action_authorization-Changed :
    (action_id : String) (expected : ℕ) (a : PreActionAuthorization) (s : Store)
    → Changed s (record_action_authorization action_id expected a s).1
unfolding record_action_authorization has_started
record_action_authorization-Changed action_id expected a s =
    committed-keeps {A = StoredAction} (Changed s) s _ unchanged (λ _ s' h.
      let (action, found, status, h1) =
        opened s action_id expected (policy_decided ∷ awaiting_approval ∷ [])
          "record pre-action authorization"
          (λ action. task_row s action.task_id >>= λ _. ok (
            authorized_row action a,
            update_action (authorized_row action a) (authorization_event a) s,
          ))
          h in
      let (_, _, h2) = >>=-eq-ok (task_row s action.task_id) _ h1 in
      let (unstarted, no_start, no_consumption) = authorization_status-started a in
      subst (Changed s) (ap (λ x. x.1) (ok-injective h2)) (
        updated action (authorized_row action a) (authorization_event a) no_consumption found (
          omega (
            arith,
            ap flag unstarted,
            ap flag no_start,
            ap flag (two_of action.status policy_decided awaiting_approval status refl),
          ))))
