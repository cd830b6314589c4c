-- ===== src/Actions/Once.antt =====
-- What the preparation and the start of an action do to the store.
use runmantle.Prelude.{
  ℕ, ◌≡◌, refl, sym, ◌∙◌, ap, subst, String, ◌<>◌, Bool, true, false, Option, none, some, [], ◌∷◌,
  Error, ok, err, raise_if, ◌>>=◌, ◌>>◌, >>=-eq-ok, >>-eq-ok, ok-injective, Bool-cases, inl, inr,
  is_some, value_error, raised, if◌then◌else◌,
}
use runmantle.Value.{DateTime}
use runmantle.Validation.{require_non_empty}
use runmantle.Telemetry.{LifecycleEventType}
use runmantle.Approvals
use runmantle.Approvals.Authorized.{authorizes-IsAuthorized}
use runmantle.Approvals.{StoredApproval}
use runmantle.Actions.{authorized, StoredAction}
use runmantle.Actions.Store.{
  find_approval_row, Store, find_action, update_action, or_raise, task_row, invalid_transition,
}
use runmantle.Actions.Steps.{has_started}
use runmantle.Actions.Running.{
  Claim, refuse_unless, claim_approval, consumed_store, consume, put_approval, consume_found,
  consume_by, consume_approval, is_stale, is_partial, mark_action_executing, started_row,
}
use runmantle.Actions.Started.{found-key, committed-keeps}
use runmantle.Actions.Changed.{opened, or_raise-eq-ok, one_of}

-- What the claim of an approval does to the store: one that is used once was not consumed, and is now.
pub data Claimed (s : Store) : Store → Type 0 where
  nothing : Claimed s s
  spent :
      (now : DateTime) (action_id : String) (a : StoredApproval)
      → find_approval_row a.request.approval_id s.approvals ≡ some a
      → is_some a.consumed_at ≡ false
      → Claimed s (record s {
        approvals = put_approval (consume now action_id a) s.approvals;
        events = (LifecycleEventType.approval_consumed, a.request.approval_id) ∷ s.events;
      })

-- The start of an action: its row, with the status of a started action, and its event.
pub data Begun (s : Store) : Store → Type 0 where
  not_begun : Begun s s
  begun :
      {claimed : Store} (old row : StoredAction)
      → Claimed s claimed
      → find_action row.action_id s.actions ≡ some old
      → has_started old.status ≡ false
      → has_started row.status ≡ true
      → Begun s (update_action row LifecycleEventType.action_execution_started claimed)

consumed_store-Claimed :
    (now : DateTime) (action_id : String) (a : StoredApproval) (s : Store)
    → find_approval_row a.request.approval_id s.approvals ≡ some a
    → is_some a.consumed_at ≡ false
    → Claimed s (consumed_store now action_id a s)
consumed_store-Claimed now action_id a s found unspent = either a.request.one_time_use
  where
    either :
        (once : Bool)
        → Claimed s (
            if once
            then record s {
              approvals = put_approval (consume now action_id a) s.approvals;
              events = (LifecycleEventType.approval_consumed, a.request.approval_id) ∷ s.events;
            }
            else s)
    either true = spent now action_id a found unspent
    either false = nothing

abbrev pub approval_row_key : StoredApproval → String
approval_row_key a = a.request.approval_id

refused-same :
    {A : Type 0} (b : Bool) (e : Error) {x y : A} → (if b then ok x else err e) ≡ ok y → x ≡ y
refused-same true e h = ok-injective h
refused-same false e h = cc (h)

chosen : {A : Type 0} {b : Bool} {x z : A} (y : A) → b ≡ true → (if b then x else y) ≡ z → x ≡ z
chosen {x} {z} y e h = subst (λ b. (if b then x else y) ≡ z) e h

not_chosen :
    {A : Type 0} {b : Bool} {y z : A} (x : A) → b ≡ false → (if b then x else y) ≡ z → y ≡ z
not_chosen {y} {z} x e h = subst (λ b. (if b then x else y) ≡ z) e h

refuse_unless-true : (b : Bool) (e : Error) → refuse_unless b e ≡ ok tt → b ≡ true
refuse_unless-true true e h = refl
refuse_unless-true false e h = cc (h)

pub claim_approval-Claimed :
    (action_id : String) (now : DateTime) (hash scope approval_id : Option String) (s : Store)
    {s' : Store}
    → claim_approval action_id now hash scope approval_id s ≡ ok s'
    → Claimed s s'
unfolding claim_approval find_approval_row
claim_approval-Claimed action_id now hash scope none s h =
    subst (Claimed s) (ok-injective h) nothing
claim_approval-Claimed action_id now (some hash) (some scope) (some approval_id) s h =
    let (a, read, h1) =
      >>=-eq-ok
        (or_raise (find_approval_row approval_id s.approvals)
          (invalid_transition "required action approval is missing"))
        _ h in
    let (active, evaluated, h2) = >>=-eq-ok (Approvals.authorizes a hash scope now) _ h1 in
    let (accepted, h3) =
      >>-eq-ok
        (refuse_unless active
          (invalid_transition "action approval is expired, revoked, consumed, or mismatched"))
        _ h2 in
    let found = or_raise-eq-ok (find_approval_row approval_id s.approvals) _ read in
    let named = found-key approval_row_key approval_id s.approvals found in
    let is_active = refuse_unless-true active _ accepted in
    let valid = authorizes-IsAuthorized a hash scope now (evaluated ∙ ap ok is_active) in
    subst (Claimed s) (ok-injective h3) (
      consumed_store-Claimed now action_id a s
        (subst (λ x. find_approval_row x s.approvals ≡ some a) (sym named) found)
        valid.not_consumed)
claim_approval-Claimed action_id now none scope (some approval_id) s h = cc (h)
claim_approval-Claimed action_id now (some hash) none (some approval_id) s h = cc (h)

pub consume_approval-Claimed :
    (approval_id : String) (now : DateTime) (hash scope consumer : String) (s : Store)
    → Claimed s (consume_approval approval_id now hash scope consumer s).1
unfolding consume_approval find_approval_row
consume_approval-Claimed approval_id now hash scope consumer s =
    committed-keeps {A = StoredApproval} (Claimed s) s
      (consume_by approval_id now hash scope consumer s) nothing
      (λ _ s' h.
        let (_, h1) = >>-eq-ok (require_non_empty consumer "approval consumer") _ h in
        let (a, read, h2) =
          >>=-eq-ok
            (or_raise (find_approval_row approval_id s.approvals)
              (raised "TaskNotFoundError" ("approval '" <> approval_id <> "' does not exist")))
            _ h1 in
        let (active, evaluated, h3) = >>=-eq-ok (Approvals.authorizes a hash scope now) _ h2 in
        let found = or_raise-eq-ok (find_approval_row approval_id s.approvals) _ read in
        let named = found-key approval_row_key approval_id s.approvals found in
        by_case a active s' evaluated
          (subst (λ x. find_approval_row x s.approvals ≡ some a) (sym named) found) h3)
  where
    by_case :
        (a : StoredApproval) (active : Bool) (s' : Store) {r : StoredApproval}
        → Approvals.authorizes a hash scope now ≡ ok active
        → find_approval_row a.request.approval_id s.approvals ≡ some a
        → consume_found now hash scope consumer a s active ≡ ok (r, s')
        → Claimed s s'
    by_case a false s' evaluated found h =
        subst (Claimed s) (ap (λ x. x.1) (refused-same _ _ h)) nothing
    by_case a true s' evaluated found h =
        let valid = authorizes-IsAuthorized a hash scope now evaluated in
        elim (Bool-cases a.request.one_time_use) [
          | inl once ↦
              let (_, _, h1) =
                >>=-eq-ok (task_row s a.request.task_id)
                  (λ _. ok (consume now consumer a, consumed_store now consumer a s))
                  (chosen _ once h) in
              subst (Claimed s) (ap (λ x. x.1) (ok-injective h1))
                (consumed_store-Claimed now consumer a s found valid.not_consumed)
          | inr often ↦
              subst (Claimed s) (ap (λ x. x.1) (ok-injective (not_chosen _ often h))) nothing
        ]

pub mark_action_executing-Begun :
    (action_id : String) (expected : ℕ) (now : DateTime) (owner_id : String) (claim : Claim)
    (s : Store)
    → Begun s (mark_action_executing action_id expected now owner_id claim s).1
unfolding mark_action_executing has_started
mark_action_executing-Begun action_id expected now owner_id claim s =
    committed-keeps {A = StoredAction} (Begun s) s _ not_begun (λ _ s' h.
      let (action, found, status, h1) =
        opened s action_id expected (authorized ∷ []) "start action execution"
          (λ action. task_row s action.task_id >>= λ task.
            raise_if (is_stale action.policy_task_context_version task.execution_context_version)
              (invalid_transition "action authority is stale for the current task context")
            >> (raise_if (is_partial claim)
                  (value_error "action approval claim requires all binding fields")
                >> (claim_approval ("action:" <> action_id) now claim.approval_request_hash
                      claim.approval_scope claim.approval_id s
                    >>= λ s'. ok (
                      started_row action now owner_id,
                      update_action (started_row action now owner_id)
                          LifecycleEventType.action_execution_started s',
                    ))))
          h in
      let (task, _, h2) = >>=-eq-ok (task_row s action.task_id) _ h1 in
      let (_, h3) =
        >>-eq-ok
          (raise_if (is_stale action.policy_task_context_version task.execution_context_version)
            (invalid_transition "action authority is stale for the current task context"))
          _ h2 in
      let (_, h4) =
        >>-eq-ok
          (raise_if (is_partial claim)
            (value_error "action approval claim requires all binding fields"))
          _ h3 in
      let (claimed, claims, h5) =
        >>=-eq-ok
          (claim_approval ("action:" <> action_id) now claim.approval_request_hash
            claim.approval_scope claim.approval_id s)
          _ h4 in
      subst (Begun s) (ap (λ x. x.1) (ok-injective h5)) (
        begun action (started_row action now owner_id)
          (claim_approval-Claimed ("action:" <> action_id) now claim.approval_request_hash
            claim.approval_scope claim.approval_id s claims)
          found (one_of action.status authorized status) refl))
