-- ===== src/Actions/Finished.antt =====
-- What the transactions that finish an action do to the store.
use runmantle.Prelude.{
  some-injective, ℕ, ◌+◌, ◌≡◌, refl, sym, ◌∙◌, ap, subst, arith, String, true, false, not, ◌||◌,
  ◌==◌, some, [], ◌∷◌, Guard, ok, raise_if, ◌>>=◌, ◌>>◌, >>=-eq-ok, >>-eq-ok, ok-injective, any,
  raised,
}
use runmantle.Value.{DateTime}
use runmantle.Telemetry.{LifecycleEventType}
use runmantle.Actions.{
  ActionExecutionStatus, requested, policy_decided, awaiting_approval, authorized, blocked,
  executing, executor_succeeded, failed, unknown, cancelled, dry_run, ActionReceipt, StoredAction,
}
use runmantle.Actions.Store.{
  Store, update_action, or_raise, task_row, concurrent_update, invalid_transition, is_status,
}
use runmantle.Actions.Steps.{is_start, is_consumption, has_started}
use runmantle.Actions.Running.{
  finish_action, finish_with, finished_from, complete_action_postconditions, mark_action_unknown,
  action_finish_event, differs, finished_row, completed_row, unknown_row, is_pending,
}
use runmantle.Actions.Started.{flag, committed-keeps}
use runmantle.Actions.Changed.{Changed, updated, unchanged, opened, or_raise-eq-ok, one_of}

finished_as :
    {n m : ℕ} {known event_type : LifecycleEventType}
    → known ≡ event_type
    → m ≡ n
    → flag (is_start known) ≡ 0
    → is_consumption known ≡ false
    → (n ≡ flag (is_start event_type) + m) × (is_consumption event_type ≡ false)
finished_as same before no_start no_consumption = (
  omega (arith, before, no_start, ap (λ e. flag (is_start e)) same),
  sym (ap is_consumption same) ∙ no_consumption,
)

finished-flags :
    (status a : ActionExecutionStatus) (event_type : LifecycleEventType)
    → action_finish_event status ≡ some event_type
    → any (is_status a) (finished_from status) ≡ true
    → (flag (has_started status) ≡ flag (is_start event_type) + flag (has_started a))
      × (is_consumption event_type ≡ false)
unfolding action_finish_event has_started
finished-flags executor_succeeded a event_type e h =
    finished_as (some-injective e) (ap flag (one_of a executing h)) refl refl
finished-flags failed a event_type e h =
    finished_as (some-injective e) (ap flag (one_of a executing h)) refl refl
finished-flags unknown a event_type e h =
    finished_as (some-injective e) (ap flag (one_of a executing h)) refl refl
finished-flags cancelled a event_type e h =
    finished_as (some-injective e) (ap flag (one_of a authorized h)) refl refl
finished-flags dry_run a event_type e h =
    finished_as (some-injective e) (ap flag (one_of a authorized h)) refl refl
finished-flags requested a event_type e h = cc (e)
finished-flags policy_decided a event_type e h = cc (e)
finished-flags awaiting_approval a event_type e h = cc (e)
finished-flags authorized a event_type e h = cc (e)
finished-flags blocked a event_type e h = cc (e)
finished-flags executing a event_type e h = cc (e)

pub finish_action-Changed :
    (dumps : ActionReceipt → Guard) (action_id : String) (expected : ℕ) (r : ActionReceipt)
    (s : Store)
    → Changed s (finish_action dumps action_id expected r s).1
unfolding finish_action finish_with
finish_action-Changed dumps action_id expected r s =
    committed-keeps {A = StoredAction} (Changed s) s
      (or_raise (action_finish_event r.status) (raised "KeyError" "")
        >>= finish_with dumps action_id expected r s)
      unchanged
      (λ _ s' h.
        let (event_type, known, h1) =
          >>=-eq-ok (or_raise (action_finish_event r.status) (raised "KeyError" ""))
            (finish_with dumps action_id expected r s) h in
        let event = or_raise-eq-ok (action_finish_event r.status) _ known in
        let (action, found, status, h2) =
          opened s action_id expected (finished_from r.status) "finish action execution"
            (λ action.
              raise_if (not (r.action_id == action_id) || differs action r)
                (concurrent_update "action receipt does not match the persisted request")
              >> (dumps r
                  >> (task_row s action.task_id >>= λ _.
                      ok (
                        finished_row action r,
                        update_action (finished_row action r) event_type s,
                      ))))
            h1 in
        let flags = finished-flags r.status action.status event_type event status in
        let (_, h3) =
          >>-eq-ok
            (raise_if (not (r.action_id == action_id) || differs action r)
              (concurrent_update "action receipt does not match the persisted request"))
            _ h2 in
        let (_, h4) = >>-eq-ok (dumps r) _ h3 in
        let (_, _, h5) = >>=-eq-ok (task_row s action.task_id) _ h4 in
        subst (Changed s) (ap (λ x. x.1) (ok-injective h5))
          (updated action (finished_row action r) event_type flags.1 found flags.0))

pub complete_action_postconditions-Changed :
    (action_id : String) (expected : ℕ) (now : DateTime) (s : Store)
    → Changed s (complete_action_postconditions action_id expected now s).1
unfolding complete_action_postconditions
complete_action_postconditions-Changed action_id expected now s =
    committed-keeps {A = StoredAction} (Changed s) s _ unchanged (λ _ s' h.
      let (action, found, status, h1) =
        opened s action_id expected (executor_succeeded ∷ []) "complete action postconditions"
          (λ action.
            raise_if (not (is_pending action.postcondition_status))
              (invalid_transition "action postconditions are not pending completion")
            >> (task_row s action.task_id >>= λ _. ok (
              completed_row action now,
              update_action (completed_row action now)
                  LifecycleEventType.action_postconditions_completed s,
            )))
          h in
      let (_, h2) =
        >>-eq-ok
          (raise_if (not (is_pending action.postcondition_status))
            (invalid_transition "action postconditions are not pending completion"))
          _ h1 in
      let (_, _, h3) = >>=-eq-ok (task_row s action.task_id) _ h2 in
      subst (Changed s) (ap (λ x. x.1) (ok-injective h3)) (
        updated action (completed_row action now) LifecycleEventType.action_postconditions_completed
          refl found (omega arith)))

pub mark_action_unknown-Changed :
    (action_id : String) (expected : ℕ) (now : DateTime) (s : Store)
    → Changed s (mark_action_unknown action_id expected now s).1
unfolding mark_action_unknown has_started
mark_action_unknown-Changed action_id expected now s =
    committed-keeps {A = StoredAction} (Changed s) s _ unchanged (λ _ s' h.
      let (action, found, status, h1) =
        opened s action_id expected (executing ∷ []) "mark interrupted action unknown"
          (λ action. task_row s action.task_id >>= λ _. ok (
            unknown_row action now,
            update_action (unknown_row action now) LifecycleEventType.action_execution_unknown s,
          ))
          h in
      let (_, _, h2) = >>=-eq-ok (task_row s action.task_id) _ h1 in
      subst (Changed s) (ap (λ x. x.1) (ok-injective h2)) (
        updated action (unknown_row action now) LifecycleEventType.action_execution_unknown refl
          found (omega (arith, ap flag (one_of action.status executing status)))))
