-- ===== src/Recovery/Whole.antt =====
-- A whole call of `InMemoryRecoveryExecutor.execute`.
use runmantle.Prelude.{
  ℕ, suc, ◌≡◌, refl, ◌∙◌, false, List, [], ◌∷◌, ◌++◌, is_empty, ◌≢◌, ◌⊎◌, eq_iff, append_assoc,
  Result, ok, ◌==◌, Bool-cases, inl, inr,
}
use runmantle.Telemetry.{LifecycleEvent, LifecycleEventType}
use runmantle.Stateful.{◌>>=◌}
use runmantle.Recovery.{RecoveryAction, RecoveryActionResult, RecoveryStatus, blocked}
use runmantle.Recovery.Executor.{Executor}
use runmantle.Recovery.Session.{
  Session, Invocation, last_status, refuse_plan, mismatch, request_details, RecoveryResult,
  recovery_event, emit_recovery_result, is_confirmed, result_details, run_actions, plan_result,
  execute,
}
use runmantle.Recovery.Served.{
  Served, all_served, served_last, served, IsNumbered, IsNamed, emit_lem, run_actions-Ran,
}

-- The status of the last result.
unfoldable pub HasLast : RecoveryStatus → List RecoveryActionResult → Type 0
HasLast status [] = ⊥
HasLast status (r ∷ []) = r.status ≡ status
HasLast status (r ∷ q ∷ rest) = HasLast status (q ∷ rest)

abbrev request_event : Invocation → Session → LifecycleEvent
request_event call s =
    recovery_event call LifecycleEventType.recovery_requested 1 (request_details call)
      (call.clock s.readings)

-- What a call of `execute` comes to. A plan for another task is refused and changes nothing; the
-- actions of a plan for this task are served in order, and the status is that of the last result.
pub record Executed (call : Invocation) (s : Session) (outcome : Result RecoveryResult × Session)
    : Type 0 where
  pub result : RecoveryResult
  pub session : Session
  pub events : List LifecycleEvent
  pub last : ℕ
  pub ends : outcome ≡ (ok result, session)
  pub acts :
      ((call.plan.task_id ≡ call.contract.task_id)
        × Served call call.plan.actions result.actions s.executor session.executor)
      ⊎ ((call.plan.task_id ≢ call.contract.task_id)
          × (session.executor ≡ s.executor)
          × (result.status ≡ blocked))
  pub status : HasLast result.status result.actions
  pub logged : session.events ≡ s.events ++ events
  pub numbered : IsNumbered 0 events last

module _ (call : Invocation) (named : IsNamed call) where
  last_status-HasLast :
      (r : RecoveryActionResult) (rest : List RecoveryActionResult)
      → HasLast (last_status r rest) (r ∷ rest)
  unfolding HasLast
  last_status-HasLast r [] = refl
  last_status-HasLast r (q ∷ rest) = last_status-HasLast q rest

  Served-nonempty :
      (actions : List RecoveryAction) {results : List RecoveryActionResult} {x y : Executor}
      → is_empty actions ≡ false
      → Served call actions results x y
      → (r : RecoveryActionResult) × (rest : List RecoveryActionResult) × (results ≡ r ∷ rest)
  Served-nonempty (action ∷ rest) given (served_last _) = (_, [], refl)
  Served-nonempty (action ∷ rest) given (served _ _) = (_, _, refl)
  Served-nonempty [] given all_served = cc (given)

  abbrev requested : Session → Session
  requested s = record s {
    readings = suc s.readings;
    events = s.events ++ (request_event call s ∷ []);
  }

  run-Executed :
      (s : Session)
      → is_empty call.plan.actions ≡ false
      → call.plan.task_id ≡ call.contract.task_id
      → Executed call s ((run_actions call call.plan.actions 1 >>= plan_result call) (requested s))
  unfolding IsNumbered
  run-Executed s given same =
      let run = run_actions-Ran call named call.plan.actions 1 (requested s) in
      let (r, rest, shape) = Served-nonempty call.plan.actions given run.serves in
      record {
        result = record {
          plan_id = call.plan.plan_id;
          task_id = call.plan.task_id;
          status = last_status r rest;
          actions = r ∷ rest;
        };
        session = run.session;
        events = request_event call s ∷ run.events;
        last = run.last;
        ends = rw (run.ends, shape) refl;
        acts = inl (same, rw shape at run.serves);
        status = last_status-HasLast r rest;
        logged = run.logged ∙ append_assoc s.events _ run.events;
        numbered = (refl, run.numbered);
      }

  abbrev refusal_event : RecoveryAction → Session → LifecycleEvent
  refusal_event action s =
      recovery_event call LifecycleEventType.recovery_blocked 2 (result_details (mismatch action))
        (call.clock (suc s.readings))

  refused-Executed :
      (actions : List RecoveryAction) (s : Session)
      → is_empty actions ≡ false
      → call.plan.task_id ≢ call.contract.task_id
      → Executed call s (refuse_plan call actions (requested s))
  unfolding IsNumbered emit_recovery_result is_confirmed HasLast
  refused-Executed [] s given other = cc (given)
  refused-Executed (action ∷ rest) s given other = record {
    result = record {
      plan_id = call.plan.plan_id;
      task_id = call.plan.task_id;
      status = blocked;
      actions = mismatch action ∷ [];
    };
    session = record s {
      readings = suc (suc s.readings);
      events = (s.events ++ (request_event call s ∷ [])) ++ (refusal_event action s ∷ []);
    };
    events = request_event call s ∷ refusal_event action s ∷ [];
    last = 2;
    ends =
        rw
          (emit_lem call named LifecycleEventType.recovery_blocked 1
            (result_details (mismatch action)) (requested s))
          refl;
    acts = inr (other, refl, refl);
    status = refl;
    logged = append_assoc s.events _ _;
    numbered = (refl, (refl, refl));
  }

  -- Where the task, the worker and the correlation have names, the plan has an action, and the
  -- clock gives offsets, a call of the in-memory executor on a recovery plan returns a result. A
  -- plan for another task is blocked and changes nothing; otherwise the actions are served in
  -- order, each as it would be alone, up to the first whose result is neither confirmed nor a dry
  -- run. The status is that of the last result, and the events are added behind those that were
  -- sent, numbered from 1 without a gap.
  pub execute-Executed :
      (s : Session) → is_empty call.plan.actions ≡ false → Executed call s (execute call s)
  unfolding execute
  execute-Executed s given =
      rw (emit_lem call named LifecycleEventType.recovery_requested 0 (request_details call) s)
        (elim (Bool-cases (call.plan.task_id == call.contract.task_id)) [
          | inl same ↦
              rw same
                (run-Executed s given ((eq_iff call.plan.task_id call.contract.task_id).0 same))
          | inr other ↦ rw other (
              refused-Executed call.plan.actions s given
                (λ same. cc ((eq_iff call.plan.task_id call.contract.task_id).1 same, other)))
        ])
