-- ===== src/Runtime/Outcome.antt =====
-- `InMemoryRuntime.execute` as a whole: how every execution ends.
use runmantle.Prelude.{
  ℕ, ◌≡◌, subst, refl, inl, inr, String, true, Option, none, some, List, [], ◌∷◌, Error, Result, ok,
  err, Bool-cases, eqb,
}
use runmantle.Contracts.{TaskStatus, running, failed}
use runmantle.Evidence.{EvidenceItem, Hashing}
use runmantle.Evidence.Collection.{EvidenceCollection}
use runmantle.Evidence.Unique.{HasUniqueIds}
use runmantle.Evidence.Collector.{Collector, store_evidence, snapshot}
use runmantle.Evidence.Collector.Ids.{store_evidence-Stored, Stored-unique, snapshot_unique}
use runmantle.Verification.{TaskContract}
use runmantle.Core.{WorkerReport, TaskResult}
use runmantle.Runtime.Monad.{Lifecycle, Clock, Action, pure, ◌>>=◌, ◌>>◌, lift}
use runmantle.Runtime.Lifecycle.{allows, collected}
use runmantle.Runtime.Lifecycle.Steps.{
  IsAware, IsAt, Returns, Returns-bind, Returns_of_eq, Returns-map, collected-IsAt,
  worker_emit-IsAt,
}
use runmantle.Runtime.Execute.{
  WorkerStep, emit_event, record_item, Guarded, report, timed_out, was_cancelled, failed_with,
  Verifier, collect_all,
}
use runmantle.Runtime.Run.{join_evidence, gather, cancelled_fail, settle_outcome}
use runmantle.Runtime.Gathered.{
  Gathered, after_timeout, after_cancellation, after_failure, Unjoined, join_evidence-eq-ok,
  join_evidence-eq-err,
}
use runmantle.Runtime.Progress.{collect_all-IsAt}
use runmantle.Runtime.Settled.{IsSettled, fail-IsSettled, accept_report-IsSettled}
use runmantle.Runtime.Start.{Runtime, notify, after_record, run_step, run_steps, lifecycle_listener}

-- How an outcome of the worker ends: the task is settled, or the reported evidence could not be
-- joined to the recorded, and then that exception escapes and leaves the task running.
pub data Ending (clock : Clock) (contract : TaskContract) (runtime : Runtime)
    (collector : Collector) (outcome : Guarded) (m : Action TaskResult) (s : Lifecycle)
    : Type 0 where
  settled :
      (evidence : EvidenceCollection)
      → Gathered runtime.hashing collector evidence outcome
      → Returns m s
          (λ t s'. IsAt t.status s' × IsSettled clock contract runtime.verifier evidence t)
      → Ending clock contract runtime collector outcome m s
  unjoined :
      (r : WorkerReport) (e : Error)
      → outcome ≡ report r
      → Unjoined runtime.hashing collector r e
      → m s ≡ (err e, s)
      → Ending clock contract runtime collector outcome m s

module _ (clock : Clock) (aware : IsAware clock) where
  notify-IsAt :
      (item : EvidenceItem) (callbacks : List ℕ) (s : Lifecycle) (st : TaskStatus)
      → IsAt st s
      → IsAt st (notify clock item callbacks s)
  unfolding notify
  notify-IsAt item [] s st g = g
  notify-IsAt item (c ∷ cs) s st g = elim (Bool-cases (eqb c lifecycle_listener)) [
    | inl ours ↦ rw ours (
        notify-IsAt item cs (collected clock item s).1 st
          (collected-IsAt clock aware item s st g).after)
    | inr other ↦ rw other (notify-IsAt item cs s st g)
  ]

  after_record-IsAt :
      (r : Result (EvidenceItem × List ℕ)) (c : Collector) (s : Lifecycle) (st : TaskStatus)
      → IsAt st s
      → IsAt st (after_record clock (r, c) s).1 × ((after_record clock (r, c) s).0 ≡ c)
  after_record-IsAt (ok (item, callbacks)) c s st g = (notify-IsAt item callbacks s st g, refl)
  after_record-IsAt (err e) c s st g = (g, refl)

  -- Whatever the worker does through its context, the lifecycle stays where it is and the
  -- collector's identifiers stay unique.
  run_step-keeps :
      (h : Hashing) (w : WorkerStep) (c : Collector) (s : Lifecycle) (st : TaskStatus)
      → IsAt st s
      → HasUniqueIds c.items
      → IsAt st (run_step clock h w c s).1 × HasUniqueIds (run_step clock h w c s).0.items
  unfolding run_step
  run_step-keeps h (emit_event name details event_type) c s st g u =
      (worker_emit-IsAt clock aware name details event_type s st g, u)
  run_step-keeps h (record_item a now fresh) c s st g u =
      let (r, c') = store_evidence h a now fresh c in
      let (kept, same) = after_record-IsAt r c' s st g in
      (kept, rw same (Stored-unique (store_evidence-Stored h a now fresh c) u))

  pub run_steps-keeps :
      (h : Hashing) (ws : List WorkerStep) (c : Collector) (s : Lifecycle) (st : TaskStatus)
      → IsAt st s
      → HasUniqueIds c.items
      → IsAt st (run_steps clock h ws c s).1 × HasUniqueIds (run_steps clock h ws c s).0.items
  unfolding run_steps
  run_steps-keeps h [] c s st g u = (g, u)
  run_steps-keeps h (w ∷ ws) c s st g u =
      let (g', u') = run_step-keeps h w c s st g u in
      run_steps-keeps h ws (run_step clock h w c s).0 (run_step clock h w c s).1 st g' u'

  -- Taking the snapshot of a collector with unique identifiers, and going on with it.
  snapshot-Returns :
      (c : Collector) (f : EvidenceCollection → Action TaskResult) (s : Lifecycle)
      → {Q : TaskResult → Lifecycle → Type 0} → HasUniqueIds c.items
      → Returns (f (record { items = c.items })) s Q
      → Returns (lift (snapshot c) >>= f) s Q
  snapshot-Returns c f s u r =
      Returns_of_eq (lift (snapshot c) >>= f) (f (record { items = c.items })) s
        (rw (snapshot_unique c u)) r

  pub cancelled_fail-IsSettled :
      (contract : TaskContract) (verifier : Option Verifier) (c : Collector) (text : String)
      → (s : Lifecycle) (st : TaskStatus) → allows (some st) failed ≡ true
      → HasUniqueIds c.items
      → IsAt st s
      → Returns (cancelled_fail clock contract c text) s (λ t s'.
        IsAt t.status s' × IsSettled clock contract verifier (record { items = c.items }) t)
  cancelled_fail-IsSettled contract verifier c text s st permitted u g =
      snapshot-Returns c _ s u
        (fail-IsSettled clock aware contract verifier _ _ _ none s st permitted g)

  gather-Returns :
      (contract : TaskContract) (h : Hashing) (c : Collector) (r : WorkerReport)
      → (reported evidence : EvidenceCollection) (s : Lifecycle) (st : TaskStatus)
      → join_evidence h c r ≡ ok (reported, evidence)
      → IsAt st s
      → Returns (gather clock contract h c r) s (λ joined s'. IsAt st s' × (joined ≡ evidence))
  unfolding gather
  gather-Returns contract h c r reported evidence s st e g =
      Returns_of_eq (gather clock contract h c r)
        (collect_all clock contract reported.items >> pure evidence) s (rw e)
        (Returns-bind (collect_all clock contract reported.items) _ s
          (collect_all-IsAt clock aware contract reported.items s st g)
          λ _ s' g'. record { value = evidence; returned = refl; after = (g', refl) })

  report-Ending :
      (contract : TaskContract) (runtime : Runtime) (c : Collector) (r : WorkerReport)
      → (joined : Result (EvidenceCollection × EvidenceCollection)) (s : Lifecycle)
      → HasUniqueIds c.items
      → join_evidence runtime.hashing c r ≡ joined
      → IsAt running s
      → Ending clock contract runtime c
          (report r)
          (settle_outcome clock contract runtime.hashing runtime.verifier c (report r))
          s
  unfolding settle_outcome gather
  report-Ending contract runtime c r (err x) s u e g =
      unjoined r x refl (join_evidence-eq-err runtime.hashing c r x u e) (rw e)
  report-Ending contract runtime c r (ok (reported, evidence)) s u e g =
      settled evidence (join_evidence-eq-ok runtime.hashing c r reported evidence u e) (
        Returns-bind (gather clock contract runtime.hashing c r) _ s
          (gather-Returns contract runtime.hashing c r reported evidence s running e g)
          λ joined s' (g', same).
            Returns-map _ s'
              (accept_report-IsSettled clock aware contract runtime.verifier joined r r.status s'
                refl g')
              λ t s'' (at_end, shape).
                (at_end, subst (λ ev. IsSettled clock contract runtime.verifier ev t) same shape))

  -- Every outcome of the worker ends in one of the two ways.
  pub settle_outcome-Ending :
      (contract : TaskContract) (runtime : Runtime) (c : Collector) (outcome : Guarded)
      → (s : Lifecycle) → HasUniqueIds c.items
      → IsAt running s
      → Ending clock contract runtime c outcome
          (settle_outcome clock contract runtime.hashing runtime.verifier c outcome)
          s
  unfolding settle_outcome allows
  settle_outcome-Ending contract runtime c (report r) s u g =
      report-Ending contract runtime c r (join_evidence runtime.hashing c r) s u refl g
  settle_outcome-Ending contract runtime c timed_out s u g =
      settled (record { items = c.items }) (after_timeout refl)
        (snapshot-Returns c _ s u
          (fail-IsSettled clock aware contract runtime.verifier _ _ _ none s running refl g))
  settle_outcome-Ending contract runtime c (was_cancelled text) s u g =
      settled (record { items = c.items }) (after_cancellation text refl)
        (cancelled_fail-IsSettled contract runtime.verifier c text s running refl u g)
  settle_outcome-Ending contract runtime c (failed_with x) s u g =
      settled (record { items = c.items }) (after_failure x refl)
        (snapshot-Returns c _ s u
          (fail-IsSettled clock aware contract runtime.verifier _ _ _ none s running refl g))
