-- ===== src/Runtime/Run.antt =====
-- src/runmantle/runtime.py: `InMemoryRuntime._verify` and `InMemoryRuntime.execute`.
use runmantle.Value.Duration.{duration_text}
use runmantle.Prelude.{
  ◌<>◌, ℕ, String, Bool, true, false, Option, none, some, List, [], ◌∷◌, ◌++◌, map, is_some, eqb,
  Error, error_type, message, Guard, Result, ok, err, traverse, if◌then◌else◌, default_to, is_empty,
}
use runmantle.Prelude
use runmantle.Value.{Value, null, bool, str, list, tuple, mapping, Entries, end, entry, from_list}
use runmantle.Contracts.{agent_reported_complete, verifying, inconclusive, CriterionEvaluation}
use runmantle.Evidence.{Hashing}
use runmantle.Evidence.Origin.{as_agent_claim}
use runmantle.Evidence.Collection.{EvidenceCollection, collect, join}
use runmantle.Evidence.Collector.{Collector, snapshot}
use runmantle.Verification.{
  TaskContract, VerificationStatus, VerificationResult, enforce_trust_boundary,
}
use runmantle.Telemetry.{worker_completed, verification_result}
use runmantle.Core.{
  WorkerReportedStatus, completed, reported_value, worker_failure, worker_reported_failure, timeout,
  cancelled, verification_failure, TaskError, WorkerReport, TaskResult,
}
use runmantle.Runtime.Monad.{Clock, Action, pure, lift, ◌>>=◌, ◌>>◌, read}
use runmantle.Runtime.Lifecycle.{transition, semantic}
use runmantle.Runtime.Execute.{
  Guarded, report, timed_out, was_cancelled, failed_with, task_status_of, verification_errors,
  plain_error, Verifier, reason_details, collect_all, result, fail,
}

unfoldable pub verification_value : VerificationStatus → String
verification_value VerificationStatus.verified = "verified"
verification_value VerificationStatus.failed = "failed"
verification_value VerificationStatus.inconclusive = "inconclusive"
verification_value VerificationStatus.awaiting_evidence = "awaiting_evidence"
verification_value VerificationStatus.awaiting_approval = "awaiting_approval"
verification_value VerificationStatus.awaiting_runtime_confirmation =
    "awaiting_runtime_confirmation"

abbrev raised_details : Error → Entries
raised_details e = reason_details "verifier_failure" (some (error_type e))

evaluation_details : CriterionEvaluation → Value
evaluation_details e = mapping (
    entry "name" (str e.name) (
      entry "passed" (bool e.passed) (
        entry "conclusive" (bool e.conclusive) (
          entry "awaiting_approval" (bool e.awaiting_approval)
            (entry "awaiting_runtime_confirmation" (bool e.awaiting_runtime_confirmation) end)))))

pub verdict_details : VerificationResult → Entries
unfolding evaluation_details from_list verification_value
verdict_details v = entry "status" (str (verification_value v.status)) (
    entry "missing_evidence" (tuple (from_list (map str v.missing_evidence))) (
      entry "contradictory_evidence" (tuple (from_list (map str v.contradictory_evidence)))
        (entry "criteria" (list (from_list (map evaluation_details v.criteria))) end)))

abbrev error_of : TaskError → List TaskError → List TaskError
error_of default [] = default ∷ []
error_of default (e ∷ es) = e ∷ es

-- `evidence_collector.snapshot() + reported_evidence`, each reported item made a claim.
unfoldable pub join_evidence :
    Hashing → Collector → WorkerReport → Result (EvidenceCollection × EvidenceCollection)
join_evidence h collector r = Prelude.◌>>=◌ (traverse (as_agent_claim h) r.evidence.items) λ claims.
    Prelude.◌>>=◌ (collect claims) λ reported.
      Prelude.◌>>=◌ (snapshot collector)
        λ recorded. Prelude.◌>>=◌ (join recorded reported) λ evidence. ok (reported, evidence)

module _ (clock : Clock) (contract : TaskContract) where
  abbrev pub verdict_of :
      EvidenceCollection → Result VerificationResult → Action (Result VerificationResult)
  verdict_of evidence (err e) s = pure (err e) s
  verdict_of evidence (ok v) s =
      (do t ← read clock; pure (enforce_trust_boundary contract evidence v t)) s

  -- `verifier.verify(…)` and the trust boundary, under their `try`.
  unfoldable pub checked_verdict :
      Verifier → Option Value → EvidenceCollection → Action (Result VerificationResult)
  checked_verdict verifier output evidence =
      verdict_of evidence (verifier contract (default_to null output) evidence)

  unfoldable pub conclude :
      EvidenceCollection → WorkerReport → Result VerificationResult → Action TaskResult
  conclude evidence r (err e) = do
    semantic clock verification_result (some "verification.result")
        (entry "status" (str "inconclusive") (entry "error_type" (str (error_type e)) end))
    transition clock inconclusive (raised_details e)
    result clock contract evidence (some r.status) r.output
        (r.errors
          ++ record {
            code = verification_failure;
            message = message e;
            error_type = some (error_type e);
          }
            ∷ [])
        none
  conclude evidence r (ok v) = do
    semantic clock verification_result (some "verification.result") (verdict_details v)
    transition clock (task_status_of v.status)
        (entry "verification_status" (str (verification_value v.status)) end)
    result clock contract evidence (some r.status) r.output
        (r.errors ++ verification_errors (task_status_of v.status)) (some v)

  -- `_verify`.
  unfoldable pub verify_report : Verifier → EvidenceCollection → WorkerReport → Action TaskResult
  verify_report verifier evidence r = do
    transition clock verifying end
    verdict ← checked_verdict verifier r.output evidence
    conclude evidence r verdict

  abbrev pub settle : Option Verifier → EvidenceCollection → WorkerReport → Action TaskResult
  settle none evidence r = result clock contract evidence (some r.status) r.output r.errors none
  settle (some verifier) evidence r = verify_report verifier evidence r

  -- The part of `execute` behind the worker's report, with the evidence joined.
  unfoldable pub accept_report :
      Option Verifier → EvidenceCollection → WorkerReport → WorkerReportedStatus → Action TaskResult
  accept_report verifier evidence r WorkerReportedStatus.failed =
      fail clock contract evidence (reason_details "worker_reported_failure" none)
        (error_of (plain_error worker_reported_failure "worker reported failure without an error")
          r.errors)
        (some r.status)
  accept_report verifier evidence r completed = do
    semantic clock worker_completed (some "worker.completed")
        (entry "reported_status" (str (reported_value r.status)) end)
    transition clock agent_reported_complete end
    settle verifier evidence r

  -- The listener's calls for the reported items, and the joined evidence.
  unfoldable pub gather : Hashing → Collector → WorkerReport → Action EvidenceCollection
  gather h collector r = do
    (reported, evidence) ← lift (join_evidence h collector r)
    collect_all clock contract reported.items
    pure evidence

  abbrev pub cancelled_fail : Collector → String → Action TaskResult
  cancelled_fail collector text = do
    evidence ← lift (snapshot collector)
    fail clock contract evidence (reason_details "cancelled" none) (plain_error cancelled text ∷ [])
        none

  -- What `execute` does with the outcome of `_execute_with_guards`.
  unfoldable pub settle_outcome :
      Hashing → Option Verifier → Collector → Guarded → Action TaskResult
  settle_outcome h verifier collector timed_out = do
    evidence ← lift (snapshot collector)
    fail clock contract evidence (reason_details "timeout" none)
        (plain_error timeout ("task exceeded timeout of " <> duration_text contract.timeout) ∷ [])
        none
  settle_outcome h verifier collector (was_cancelled text) = cancelled_fail collector text
  settle_outcome h verifier collector (failed_with e) = do
    evidence ← lift (snapshot collector)
    fail clock contract evidence (reason_details "worker_failure" (some (error_type e)))
        (record { code = worker_failure; message = message e; error_type = some (error_type e) }
          ∷ [])
        none
  settle_outcome h verifier collector (report r) = do
    evidence ← gather h collector r
    accept_report verifier evidence r r.status
