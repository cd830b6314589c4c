-- ===== src/Recovery/Served.antt =====
-- What `InMemoryRecoveryExecutor.execute` makes of a plan.
use runmantle.Prelude.{
  ℕ, suc, ◌≡◌, refl, sym, ◌∙◌, arith, true, false, Option, none, some, List, [], ◌∷◌, ◌++◌,
  append-nil, append_assoc, Result, ok, is_blank, Bool-cases, inl, inr, ◌⊎◌, subst, if◌then◌else◌,
}
use runmantle.Value.{Entries}
use runmantle.Validation.{require_non_empty, require_non_empty_attributes, require_aware}
use runmantle.Telemetry.{LifecycleEvent, LifecycleEventType, check_event}
use runmantle.Stateful.{Act, pure, ◌>>=◌, ◌>>◌}
use runmantle.Recovery.{
  RecoveryAction, RuntimeConfirmation, RecoveryActionResult, RecoveryStatus, runtime_confirmed,
  dry_run,
}
use runmantle.Recovery.Executor.{Executor, execute_action}
use runmantle.Recovery.Session.{
  Session, Invocation, resolved_correlation_id, confirmation_for, approval_for, recovery_event,
  emit_recovery_event, emit_recovery_result, is_confirmed, result_details, confirmation_details,
  goes_on, note_confirmation, run_action, run_actions,
}

-- The action ran, or passed as a rehearsal.
abbrev pub IsPassed : RecoveryStatus → Type 0
IsPassed status = (status ≡ runtime_confirmed) ⊎ (status ≡ dry_run)

goes_on-IsPassed : (status : RecoveryStatus) → goes_on status ≡ true → IsPassed status
unfolding goes_on
goes_on-IsPassed runtime_confirmed h = inl refl
goes_on-IsPassed dry_run h = inr refl
goes_on-IsPassed _ h = cc (h)

goes_on-stopped : (status : RecoveryStatus) → goes_on status ≡ false → ¬ IsPassed status
unfolding goes_on
goes_on-stopped status h (inl ran) = let stops = subst (λ x. goes_on x ≡ false) ran h in cc (stops)
goes_on-stopped status h (inr passed) =
    let stops = subst (λ x. goes_on x ≡ false) passed h in cc (stops)

-- One action, with the last confirmation and approval that were given for it.
abbrev pub serve_action : Invocation → RecoveryAction → Executor → RecoveryActionResult × Executor
serve_action call action x =
    execute_action call.registry call.policy call.handlers action call.contract call.task_state
      (confirmation_for call action) (approval_for call action) call.is_dry_run x

-- The actions are served one after the other, up to the first that neither ran nor passed as a
-- rehearsal.
pub data Served (call : Invocation)
    : List RecoveryAction → List RecoveryActionResult → Executor → Executor → Type 0 where
  all_served : {x : Executor} → Served call [] [] x x
  served_last :
      {action : RecoveryAction} {rest : List RecoveryAction} {x : Executor}
      → ¬ IsPassed (serve_action call action x).0.status
      → Served call
          (action ∷ rest)
          ((serve_action call action x).0 ∷ [])
          x
          (serve_action call action x).1
  served :
      {action : RecoveryAction} {rest : List RecoveryAction} {results : List RecoveryActionResult}
      {x y : Executor}
      → IsPassed (serve_action call action x).0.status
      → Served call rest results (serve_action call action x).1 y
      → Served call (action ∷ rest) ((serve_action call action x).0 ∷ results) x y

-- The events count on from one number to another.
unfoldable pub IsNumbered : ℕ → List LifecycleEvent → ℕ → Type 0
IsNumbered n [] m = n ≡ m
IsNumbered n (e ∷ es) m = (e.sequence ≡ suc n) × IsNumbered (suc n) es m

-- The events of the call can be made.
pub record IsNamed (call : Invocation) : Type 0 where
  pub task : is_blank call.plan.task_id ≡ false
  pub correlation : is_blank (resolved_correlation_id call) ≡ false
  pub worker : is_blank call.plan.proposed_by ≡ false
  pub aware : (n : ℕ) → (call.clock n).aware ≡ true

module _ (call : Invocation) (named : IsNamed call) where
  check_recovery_event :
      (event_type : LifecycleEventType) (n : ℕ) (details : Entries) (i : ℕ)
      → check_event (recovery_event call event_type (suc n) details (call.clock i)) ≡ ok tt
  unfolding check_event require_non_empty_attributes require_non_empty require_aware
  check_recovery_event event_type n details i =
      rw (named.task, named.correlation, named.worker, named.aware i) (ground arith)

  -- An event is sent.
  pub emit_lem :
      (event_type : LifecycleEventType) (n : ℕ) (details : Entries) (s : Session)
      → emit_recovery_event call event_type (suc n) details s ≡ (
        ok tt,
        record s {
          readings = suc s.readings;
          events =
              s.events
              ++ (recovery_event call event_type (suc n) details (call.clock s.readings) ∷ []);
        },
      )
  unfolding emit_recovery_event
  emit_lem event_type n details s = rw (check_recovery_event event_type n details s.readings) refl

  -- A run over actions, from the number of the last event.
  pub record Ran (actions : List RecoveryAction) (n : ℕ) (s : Session)
      (outcome : Result (List RecoveryActionResult) × Session) : Type 0 where
    pub results : List RecoveryActionResult
    pub session : Session
    pub events : List LifecycleEvent
    pub last : ℕ
    pub ends : outcome ≡ (ok results, session)
    pub serves : Served call actions results s.executor session.executor
    pub logged : session.events ≡ s.events ++ events
    pub numbered : IsNumbered n events last

  result_event : RecoveryActionResult → ℕ → Session → LifecycleEvent
  result_event result n s =
      recovery_event call
        (if is_confirmed result.status
          then LifecycleEventType.recovery_confirmed
          else LifecycleEventType.recovery_blocked)
        (suc n) (result_details result) (call.clock s.readings)

  confirmation_event : RuntimeConfirmation → ℕ → Session → LifecycleEvent
  confirmation_event c n s =
      recovery_event call LifecycleEventType.runtime_confirmation_received (suc n)
        (confirmation_details c) (call.clock s.readings)

  abbrev after_action : RecoveryAction → ℕ → Session → Session
  after_action action n s =
      let (result, x) = serve_action call action s.executor in
      record s {
        executor = x;
        readings = suc s.readings;
        events = s.events ++ (result_event result n s ∷ []);
      }

  abbrev rest_of :
      RecoveryAction → List RecoveryAction → ℕ → Act Session (List RecoveryActionResult)
  rest_of action rest n = do
    result ← run_action call action
    emit_recovery_result call result (suc n)
    let others = run_actions call rest (suc n) in
        if goes_on result.status
        then (others >>= λ results. pure (result ∷ results))
        else pure (result ∷ [])

  action-Ran :
      (action : RecoveryAction) (rest : List RecoveryAction) (n : ℕ) (s : Session)
      → ((s : Session) → Ran rest (suc n) s (run_actions call rest (suc n) s))
      → Ran (action ∷ rest) n s (rest_of action rest n s)
  unfolding run_action emit_recovery_result IsNumbered result_event
  action-Ran action rest n s others =
      rw
        (emit_lem
          (if is_confirmed (serve_action call action s.executor).0.status
            then LifecycleEventType.recovery_confirmed
            else LifecycleEventType.recovery_blocked)
          n (result_details (serve_action call action s.executor).0)
          (record s { executor = (serve_action call action s.executor).1 }))
        (elim (Bool-cases (goes_on (serve_action call action s.executor).0.status)) [
          | inl more ↦
              let run = others (after_action action n s) in
              record {
                results = (serve_action call action s.executor).0 ∷ run.results;
                session = run.session;
                events = result_event (serve_action call action s.executor).0 n s ∷ run.events;
                last = run.last;
                ends = rw (more, run.ends) refl;
                serves = served (goes_on-IsPassed _ more) run.serves;
                logged = run.logged ∙ append_assoc s.events _ run.events;
                numbered = (refl, run.numbered);
              }
          | inr enough ↦ record {
            results = (serve_action call action s.executor).0 ∷ [];
            session = after_action action n s;
            events = result_event (serve_action call action s.executor).0 n s ∷ [];
            last = suc n;
            ends = rw enough refl;
            serves = served_last (goes_on-stopped _ enough);
            logged = refl;
            numbered = (refl, refl);
          }
        ])

  noted-Ran :
      (o : Option RuntimeConfirmation) (action : RecoveryAction) (rest : List RecoveryAction)
      → (n : ℕ) (s : Session) → ((m : ℕ) (s : Session) → Ran rest m s (run_actions call rest m s))
      → Ran (action ∷ rest) n s ((note_confirmation call o n >>= rest_of action rest) s)
  unfolding note_confirmation IsNumbered confirmation_event
  noted-Ran none action rest n s others = action-Ran action rest n s (others (suc n))
  noted-Ran (some c) action rest n s others =
      let noted : Session = record s {
        readings = suc s.readings;
        events = s.events ++ (confirmation_event c n s ∷ []);
      } in
      let run = action-Ran action rest (suc n) noted (others (suc (suc n))) in
      record {
        results = run.results;
        session = run.session;
        events = confirmation_event c n s ∷ run.events;
        last = run.last;
        ends =
            rw
              (emit_lem LifecycleEventType.runtime_confirmation_received n (confirmation_details c)
                s)
              run.ends;
        serves = run.serves;
        logged = run.logged ∙ append_assoc s.events _ run.events;
        numbered = (refl, run.numbered);
      }

  pub run_actions-Ran :
      (actions : List RecoveryAction) (n : ℕ) (s : Session)
      → Ran actions n s (run_actions call actions n s)
  unfolding run_actions IsNumbered
  run_actions-Ran [] n s = record {
    results = [];
    session = s;
    events = [];
    last = n;
    ends = refl;
    serves = all_served;
    logged = sym (append-nil s.events);
    numbered = refl;
  }
  run_actions-Ran (action ∷ rest) n s =
      noted-Ran (confirmation_for call action) action rest n s (λ m t. run_actions-Ran rest m t)
