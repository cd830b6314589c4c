-- ===== src/Runtime/Settled.antt =====
-- A reported completion is verified or it is not: how a task that was reported complete is settled.
use runmantle.Prelude.{
  ℕ, ◌+◌, ◌≡◌, refl, sym, ◌∙◌, ap, subst, ◌⊎◌, inl, inr, true, Option, none, some, List, Result, ok,
  err, default_to, arith,
}
use runmantle.Value.{null, Entries}
use runmantle.Contracts.{
  TaskStatus, running, agent_reported_complete, verifying, verified, failed, inconclusive,
}
use runmantle.Evidence.Collection.{EvidenceCollection}
use runmantle.Verification.{TaskContract, VerificationStatus, VerificationResult}
use runmantle.Verification.Boundary.{IsProven, enforce-verified}
use runmantle.Telemetry.{worker_completed, verification_result}
use runmantle.Core.{WorkerReportedStatus, completed, TaskError, WorkerReport, TaskResult}
use runmantle.Runtime.Monad.{Lifecycle, Clock}
use runmantle.Runtime.Lifecycle.{is_terminal, allows, transition, semantic}
use runmantle.Runtime.Lifecycle.Steps.{
  IsAware, IsAt, Returns, Returns-bind, Returns-map, semantic-IsAt, aside-IsAt,
}
use runmantle.Runtime.Lifecycle.Transitions.{transition-IsAt}
use runmantle.Runtime.Execute.{Verifier, task_status_of, fail}
use runmantle.Runtime.Progress.{IsResult, result-IsResult, fail-IsResult}
use runmantle.Runtime.Run.{
  verdict_of, checked_verdict, conclude, verify_report, settle, accept_report,
}

-- A settled execution: it is in a terminal state, or it was reported complete and there is no
-- verifier; its evidence is the one given; and if it is verified, then the worker had reported
-- completion and the evidence proves the outcome at some reading of the clock.
pub record IsSettled (clock : Clock) (contract : TaskContract) (verifier : Option Verifier)
    (evidence : EvidenceCollection) (r : TaskResult) : Type 0 where
  pub ended :
      (is_terminal r.status ≡ true) ⊎ ((r.status ≡ agent_reported_complete) × (verifier ≡ none))
  pub shown : r.evidence ≡ evidence
  pub reported : r.status ≡ verified → r.reported_status ≡ some completed
  pub proven : r.status ≡ verified → (n : ℕ) × IsProven contract r.evidence.items (clock n).instant

task_status_of-terminal : (v : VerificationStatus) → is_terminal (task_status_of v) ≡ true
unfolding is_terminal task_status_of
task_status_of-terminal v = ground arith

task_status_of-verified :
    (v : VerificationStatus) → task_status_of v ≡ verified → v ≡ VerificationStatus.verified
unfolding task_status_of
task_status_of-verified v h = ground arith

allows-verifying : (st : TaskStatus) → is_terminal st ≡ true → allows (some verifying) st ≡ true
unfolding allows
allows-verifying st h = h

module _ (clock : Clock) (aware : IsAware clock) (contract : TaskContract) where
  -- A verdict that is `verified` is proven.
  abbrev ProvenVerdict : EvidenceCollection → Result VerificationResult → Type 0
  ProvenVerdict evidence verdict =
      (v : VerificationResult)
      → verdict ≡ ok v
      → v.status ≡ VerificationStatus.verified
      → (n : ℕ) × IsProven contract evidence.items (clock n).instant

  verdict_of-IsAt :
      (answer : Result VerificationResult) (evidence : EvidenceCollection) (s : Lifecycle)
      → (st : TaskStatus) → IsAt st s
      → Returns
          (verdict_of clock contract evidence answer)
          s
          (λ verdict s'. IsAt st s' × ProvenVerdict evidence verdict)
  verdict_of-IsAt (err e) evidence s st g = record {
    value = err e;
    returned = refl;
    after = (g, λ v h _. cc (h));
  }
  verdict_of-IsAt (ok w) evidence s st g = record {
    value = _;
    returned = refl;
    after = (
      aside-IsAt s s.emitted_evidence_ids (s.readings + 1) st g,
      λ v h verified.
          (s.readings, (enforce-verified contract evidence (clock s.readings) w v h verified).1),
    );
  }

  conclude-IsSettled :
      (verifier : Option Verifier) (evidence : EvidenceCollection) (r : WorkerReport)
      → (verdict : Result VerificationResult) (s : Lifecycle) → r.status ≡ completed
      → ProvenVerdict evidence verdict
      → IsAt verifying s
      → Returns
          (conclude clock contract evidence r verdict)
          s
          (λ t s'. IsAt t.status s' × IsSettled clock contract verifier evidence t)
  unfolding conclude task_status_of
  conclude-IsSettled verifier evidence r (err e) s done proven g =
      Returns-bind (semantic clock verification_result (some "verification.result") _) _ s
        (semantic-IsAt clock aware verification_result (some "verification.result") _ s verifying
          refl g)
        λ _ s' g'.
          Returns-bind (transition clock inconclusive _) _ s'
            (transition-IsAt clock aware verifying inconclusive _ s'
              (allows-verifying inconclusive
                (task_status_of-terminal VerificationStatus.inconclusive))
              g')
            λ _ s'' g''.
              Returns-map _ s''
                (result-IsResult clock aware contract evidence (some r.status) r.output _ none s''
                  inconclusive g'')
                λ t s3 (at_end, shape). (
                  subst (λ st. IsAt st s3) (sym shape.status) at_end,
                  record {
                    ended = inl (
                        ap is_terminal shape.status
                        ∙ task_status_of-terminal VerificationStatus.inconclusive);
                    shown = shape.evidence_kept;
                    reported = λ v. cc (v, shape.status);
                    proven = λ v. cc (v, shape.status);
                  },
                )
  conclude-IsSettled verifier evidence r (ok v) s done proven g =
      let st = task_status_of v.status in
      Returns-bind (semantic clock verification_result (some "verification.result") _) _ s
        (semantic-IsAt clock aware verification_result (some "verification.result") _ s verifying
          refl g)
        λ _ s' g'.
          Returns-bind (transition clock st _) _ s'
            (transition-IsAt clock aware verifying st _ s'
              (allows-verifying st (task_status_of-terminal v.status)) g')
            λ _ s'' g''.
              Returns-map _ s''
                (result-IsResult clock aware contract evidence (some r.status) r.output _ (some v)
                  s'' st g'')
                λ t s3 (at_end, shape). (
                  subst (λ st. IsAt st s3) (sym shape.status) at_end,
                  record {
                    ended = inl (ap is_terminal shape.status ∙ task_status_of-terminal v.status);
                    shown = shape.evidence_kept;
                    reported = λ _. shape.reported_kept ∙ ap some done;
                    proven = λ e.
                        rw shape.evidence_kept
                          (proven v refl (task_status_of-verified v.status (sym shape.status ∙ e)));
                  },
                )

  verify_report-IsSettled :
      (verifier : Verifier) (option : Option Verifier) (evidence : EvidenceCollection)
      → (r : WorkerReport) (s : Lifecycle) → r.status ≡ completed
      → IsAt agent_reported_complete s
      → Returns
          (verify_report clock contract verifier evidence r)
          s
          (λ t s'. IsAt t.status s' × IsSettled clock contract option evidence t)
  unfolding verify_report allows checked_verdict
  verify_report-IsSettled verifier option evidence r s done g =
      Returns-bind (transition clock verifying _) _ s
        (transition-IsAt clock aware agent_reported_complete verifying _ s refl g)
        λ _ s' g'.
          Returns-bind (checked_verdict clock contract verifier r.output evidence) _ s'
            (verdict_of-IsAt (verifier contract (default_to null r.output) evidence) evidence s'
              verifying g')
            λ verdict s'' (g'', proven).
              conclude-IsSettled option evidence r verdict s'' done proven g''

  settle-IsSettled :
      (verifier : Option Verifier) (evidence : EvidenceCollection) (r : WorkerReport)
      → (s : Lifecycle) → r.status ≡ completed
      → IsAt agent_reported_complete s
      → Returns
          (settle clock contract verifier evidence r)
          s
          (λ t s'. IsAt t.status s' × IsSettled clock contract verifier evidence t)
  settle-IsSettled none evidence r s done g =
      Returns-map _ s
        (result-IsResult clock aware contract evidence (some r.status) r.output r.errors none s
          agent_reported_complete g)
        λ t s' (at_end, shape). (
          subst (λ st. IsAt st s') (sym shape.status) at_end,
          record {
            ended = inr (shape.status, refl);
            shown = shape.evidence_kept;
            reported = λ v. cc (v, shape.status);
            proven = λ v. cc (v, shape.status);
          },
        )
  settle-IsSettled (some verifier) evidence r s done g =
      verify_report-IsSettled verifier (some verifier) evidence r s done g

  failed-IsSettled :
      (verifier : Option Verifier) (evidence : EvidenceCollection)
      → (reported : Option WorkerReportedStatus) (t : TaskResult) (s : Lifecycle)
      → IsAt failed s × IsResult failed evidence reported t
      → IsAt t.status s × IsSettled clock contract verifier evidence t
  unfolding is_terminal
  failed-IsSettled verifier evidence reported t s (at_end, shape) = (
    subst (λ st. IsAt st s) (sym shape.status) at_end,
    record {
      ended = inl (ap is_terminal shape.status);
      shown = shape.evidence_kept;
      reported = λ v. cc (v, shape.status);
      proven = λ v. cc (v, shape.status);
    },
  )

  -- A failure of a running or pending task settles it.
  pub fail-IsSettled :
      (verifier : Option Verifier) (evidence : EvidenceCollection) (details : Entries)
      → (errors : List TaskError) (reported : Option WorkerReportedStatus) (s : Lifecycle)
      → (st : TaskStatus) → allows (some st) failed ≡ true
      → IsAt st s
      → Returns
          (fail clock contract evidence details errors reported)
          s
          (λ t s'. IsAt t.status s' × IsSettled clock contract verifier evidence t)
  fail-IsSettled verifier evidence details errors reported s st permitted g =
      Returns-map _ s
        (fail-IsResult clock aware contract evidence details errors reported s st permitted g)
        (failed-IsSettled verifier evidence reported)

  -- A report, once its evidence is joined, settles the task.
  pub accept_report-IsSettled :
      (verifier : Option Verifier) (evidence : EvidenceCollection) (r : WorkerReport)
      → (status : WorkerReportedStatus) (s : Lifecycle) → r.status ≡ status
      → IsAt running s
      → Returns
          (accept_report clock contract verifier evidence r status)
          s
          (λ t s'. IsAt t.status s' × IsSettled clock contract verifier evidence t)
  unfolding accept_report allows
  accept_report-IsSettled verifier evidence r WorkerReportedStatus.failed s same g =
      fail-IsSettled verifier evidence _ _ (some r.status) s running refl g
  accept_report-IsSettled verifier evidence r completed s same g =
      Returns-bind (semantic clock worker_completed (some "worker.completed") _) _ s
        (semantic-IsAt clock aware worker_completed (some "worker.completed") _ s running refl g)
        λ _ s' g'.
          Returns-bind (transition clock agent_reported_complete _) _ s'
            (transition-IsAt clock aware running agent_reported_complete _ s' refl g')
            λ _ s'' g''. settle-IsSettled verifier evidence r s'' same g''
