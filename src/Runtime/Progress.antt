-- ===== src/Runtime/Progress.antt =====
-- How an execution ends, from the worker's outcome on.
use runmantle.Prelude.{◌≡◌, refl, ap, true, Option, none, some, List, [], ◌∷◌}
use runmantle.Value.{Value, Entries}
use runmantle.Contracts.{TaskStatus, running, failed}
use runmantle.Evidence.{EvidenceItem}
use runmantle.Evidence.Collection.{EvidenceCollection}
use runmantle.Verification.{TaskContract, VerificationResult}
use runmantle.Telemetry.{worker_failed}
use runmantle.Core.{WorkerReportedStatus, TaskError, TaskResult}
use runmantle.Runtime.Monad.{Lifecycle, Clock, pure}
use runmantle.Runtime.Lifecycle.{allows, transition, semantic, collected, timestamps}
use runmantle.Runtime.Lifecycle.Steps.{
  Returns_of_eq, IsAware, IsAt, Returns, Returns-bind, semantic-IsAt, collected-IsAt,
  timestamps-IsAt,
}
use runmantle.Runtime.Lifecycle.Transitions.{transition-IsAt}
use runmantle.Runtime.Execute.{result_at, result, note_worker_failure, note_at, fail, collect_all}

-- The result names its state, its evidence and what was reported.
pub record IsResult (st : TaskStatus) (evidence : EvidenceCollection)
    (reported : Option WorkerReportedStatus) (r : TaskResult) : Type 0 where
  pub status : r.status ≡ st
  pub evidence_kept : r.evidence ≡ evidence
  pub reported_kept : r.reported_status ≡ reported

module _ (clock : Clock) (aware : IsAware clock) (contract : TaskContract) where
  pub collect_all-IsAt :
      (items : List EvidenceItem) (s : Lifecycle) (st : TaskStatus)
      → IsAt st s
      → Returns (collect_all clock contract items) s (λ _. IsAt st)
  unfolding collect_all
  collect_all-IsAt [] s st g = record { value = tt; returned = refl; after = g }
  collect_all-IsAt (item ∷ items) s st g =
      Returns-bind (collected clock item) (λ _. collect_all clock contract items) s
        (collected-IsAt clock aware item s st g) (λ _ s' g'. collect_all-IsAt items s' st g')

  result_at-IsResult :
      (evidence : EvidenceCollection) (reported : Option WorkerReportedStatus)
      → (output : Option Value) (errors : List TaskError) (verification : Option VerificationResult)
      → (s : Lifecycle) (st : TaskStatus) → IsAt st s
      → Returns
          (result_at clock contract (some st) evidence reported output errors verification)
          s
          (λ r s'. IsAt st s' × IsResult st evidence reported r)
  unfolding result_at
  result_at-IsResult evidence reported output errors verification s st g =
      Returns-bind (collect_all clock contract evidence.items) _ s
        (collect_all-IsAt evidence.items s st g)
        λ _ s' g'.
          Returns-bind (timestamps clock) _ s' (timestamps-IsAt clock aware s' st g')
            λ times s'' g''. record {
              value = _;
              returned = refl;
              after = (g'', record { status = refl; evidence_kept = refl; reported_kept = refl });
            }

  pub result-IsResult :
      (evidence : EvidenceCollection) (reported : Option WorkerReportedStatus)
      → (output : Option Value) (errors : List TaskError) (verification : Option VerificationResult)
      → (s : Lifecycle) (st : TaskStatus) → IsAt st s
      → Returns
          (result clock contract evidence reported output errors verification)
          s
          (λ r s'. IsAt st s' × IsResult st evidence reported r)
  unfolding result
  result-IsResult evidence reported output errors verification s st g =
      Returns_of_eq _
        (result_at clock contract (some st) evidence reported output errors verification) s
        (ap (λ o. result_at clock contract o evidence reported output errors verification s)
          g.status)
        (result_at-IsResult evidence reported output errors verification s st g)

  note_worker_failure-IsAt :
      (details : Entries) (s : Lifecycle) (st : TaskStatus)
      → IsAt st s
      → Returns (note_worker_failure clock contract details) s (λ _. IsAt st)
  unfolding note_worker_failure
  note_worker_failure-IsAt details s running g =
      Returns_of_eq _ (semantic clock worker_failed (some "worker.failed") details) s
        (ap (λ o. note_at clock contract o details s) g.status)
        (semantic-IsAt clock aware worker_failed (some "worker.failed") details s running refl g)
  note_worker_failure-IsAt details s st g =
      Returns_of_eq _ (pure tt) s (ap (λ o. note_at clock contract o details s) g.status)
        (record { value = tt; returned = refl; after = g })

  -- A failure before or during the work ends the task as failed.
  pub fail-IsResult :
      (evidence : EvidenceCollection) (details : Entries) (errors : List TaskError)
      → (reported : Option WorkerReportedStatus) (s : Lifecycle) (st : TaskStatus)
      → allows (some st) failed ≡ true
      → IsAt st s
      → Returns
          (fail clock contract evidence details errors reported)
          s
          (λ r s'. IsAt failed s' × IsResult failed evidence reported r)
  unfolding fail
  fail-IsResult evidence details errors reported s st permitted g =
      Returns-bind (note_worker_failure clock contract details) _ s
        (note_worker_failure-IsAt details s st g)
        λ _ s' g'.
          Returns-bind (transition clock failed details) _ s'
            (transition-IsAt clock aware st failed details s' permitted g')
            λ _ s'' g''. result-IsResult evidence reported none errors none s'' failed g''
