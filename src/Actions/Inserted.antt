-- ===== src/Actions/Inserted.antt =====
-- What the preparation of an action does to the store.
use runmantle.Prelude.{
  ◌≡◌, refl, ap, subst, Bool, false, Option, none, some, ◌∷◌, ok, raise_if, ◌>>=◌, >>=-eq-ok,
  >>-eq-ok, ok-injective,
}
use runmantle.Value.{DateTime}
use runmantle.Telemetry.{LifecycleEventType}
use runmantle.Actions.{ActionRequest, StoredAction}
use runmantle.Actions.Store.{
  Store, first_where, find_action, task_row, concurrent_update, prepare_action, prepare_found,
  prepared, either_row, are_two, has_key, new_action,
}
use runmantle.Actions.Steps.{has_started}
use runmantle.Actions.Started.{committed-keeps}

-- A new action, or nothing.
pub data Prepared (s : Store) : Store → Type 0 where
  not_prepared : Prepared s s
  inserted :
      (row : StoredAction)
      → find_action row.action_id s.actions ≡ none
      → has_started row.status ≡ false
      → Prepared s (record s {
        actions = row ∷ s.actions;
        events = (LifecycleEventType.action_requested, row.action_id) ∷ s.events;
      })

pub prepare_action-Prepared :
    (r : ActionRequest) (is_dry_run : Bool) (now : DateTime) (s : Store)
    → Prepared s (prepare_action r is_dry_run now s).1
unfolding prepare_action has_started
prepare_action-Prepared r is_dry_run now s =
    committed-keeps {A = StoredAction × Bool} (Prepared s) s
      (task_row s r.task_id >>= λ _. prepare_found r is_dry_run now s) not_prepared
      (λ a s' h.
        let (_, _, h1) =
          >>=-eq-ok (task_row s r.task_id) (λ _. prepare_found r is_dry_run now s) h in
        let (_, h2) =
          >>-eq-ok
            (raise_if
              (are_two (find_action r.action_id s.actions)
                (first_where (has_key r is_dry_run) s.actions))
              (concurrent_update "action ID and idempotency key identify different actions"))
            _ h1 in
        by_row s' (find_action r.action_id s.actions) (first_where (has_key r is_dry_run) s.actions)
          refl h2)
  where
    by_row :
        (s' : Store) (by_id by_key : Option StoredAction)
        → find_action r.action_id s.actions ≡ by_id
        → {a : StoredAction × Bool}
        → prepared r is_dry_run now s (either_row by_id by_key) ≡ ok (a, s')
        → Prepared s s'
    by_row s' (some row) by_key found h =
        let (_, h1) = >>-eq-ok (raise_if _ _) _ h in
        subst (Prepared s) (ap (λ x. x.1) (ok-injective h1)) not_prepared
    by_row s' none (some row) absent h =
        let (_, h1) = >>-eq-ok (raise_if _ _) _ h in
        subst (Prepared s) (ap (λ x. x.1) (ok-injective h1)) not_prepared
    by_row s' none none absent h =
        subst (Prepared s) (ap (λ x. x.1) (ok-injective h))
          (inserted (new_action r is_dry_run now) absent refl)
