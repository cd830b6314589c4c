-- ===== src/Runtime/Execute.antt =====
-- src/runmantle/runtime.py: `InMemoryRuntime`, over the lifecycle of one execution.
use runmantle.Prelude.{
  ℕ, String, ◌<>◌, Bool, true, false, not, Option, none, some, List, [], ◌∷◌, ◌++◌, map, any,
  is_some, is_blank, is_empty, contains, select, eqb, Error, value_error, runtime_error, error_type,
  message, Guard, Result, ok, err, traverse, if◌then◌else◌, default_to, ◌==◌,
}
use runmantle.Prelude
use runmantle.Value.{DateTime, Value, str, Entries, end, entry}
use runmantle.Validation.{require_non_empty_attributes, require_unique}
use runmantle.Contracts.{
  TaskStatus, running, verified, failed, inconclusive, awaiting_evidence, awaiting_approval,
  awaiting_runtime_confirmation,
}
use runmantle.Evidence.{EvidenceItem}
use runmantle.Evidence.Collection.{EvidenceCollection}
use runmantle.Evidence.Collector.{RecordArguments}
use runmantle.Verification.{TaskContract, VerificationStatus, VerificationResult}
use runmantle.Telemetry.{LifecycleEventType, worker_failed}
use runmantle.Core.{
  WorkerReportedStatus, TaskErrorCode, missing_evidence, verification_failure, TaskError,
  WorkerReport, TaskTimestamps, TaskResult,
}
use runmantle.Runtime.Monad.{Lifecycle, Clock, Action, pure, throw, ◌>>=◌, ◌>>◌, get}
use runmantle.Runtime.Lifecycle.{transition, semantic, collected, timestamps}

pub record Worker : Type 0 where
  pub id : String
  pub name : String
  pub role : String
  pub version : String
  pub capabilities : List String

-- What the worker does through its context while it runs. An exception that a step raises reaches
-- the worker's own code.
pub data WorkerStep : Type 0 where
  emit_event : (name : String) → (details : Entries) → LifecycleEventType → WorkerStep
  record_item : RecordArguments → (now : DateTime) → (fresh_id : String) → WorkerStep

-- How the worker's coroutine ends: it returns, it is cancelled, or it raises. A
-- `TaskCancelledError` is told from the other exceptions.
pub data WorkerEnd : Type 0 where
  returned : WorkerReport → WorkerEnd
  cancelled_error : WorkerEnd
  task_cancelled : (text : String) → WorkerEnd
  raised_error : Error → WorkerEnd

-- What `asyncio.wait` finds: the worker's end if it is done, whether the cancellation came, and how
-- a worker that was still running ends once it is cancelled.
pub record Race : Type 0 where
  pub worker_done : Option WorkerEnd
  pub cancellation_done : Bool
  pub after_cancel : WorkerEnd

pub data Guarded : Type 0 where
  report : WorkerReport → Guarded
  timed_out : Guarded
  was_cancelled : (text : String) → Guarded
  failed_with : Error → Guarded

-- A worker that is done: `return await worker_task`.
abbrev await_done : WorkerEnd → Guarded
await_done (returned r) = report r
await_done cancelled_error = was_cancelled "worker execution was cancelled"
await_done (task_cancelled text) = was_cancelled text
await_done (raised_error e) = failed_with e

-- A worker that was cancelled is awaited with `CancelledError` suppressed; any other exception of
-- its own takes the place of the one that would be raised next.
abbrev await_cancelled : WorkerEnd → Guarded → Guarded
await_cancelled (returned r) next = next
await_cancelled cancelled_error next = next
await_cancelled (task_cancelled text) next = was_cancelled text
await_cancelled (raised_error e) next = failed_with e

-- `_execute_with_guards`.
unfoldable pub execute_with_guards : Race → Guarded
execute_with_guards race = elim race.worker_done [
  | some finished ↦ await_done finished
  | none ↦
      if race.cancellation_done
      then await_cancelled race.after_cancel (was_cancelled "task cancellation was requested")
      else await_cancelled race.after_cancel timed_out
]

-- `_validate_worker`.
unfoldable pub validate_worker : Worker → Guard
unfolding require_non_empty_attributes require_unique
validate_worker w =
    Prelude.◌>>◌
      (require_non_empty_attributes "worker"
        ((w.id, "id") ∷ (w.name, "name") ∷ (w.role, "role") ∷ (w.version, "version") ∷ []))
      (Prelude.◌>>◌
        (Prelude.raise_if (is_empty w.capabilities)
          (value_error "a worker must declare at least one capability"))
        (require_unique w.capabilities "worker capability names must be unique"))

-- `_VERIFICATION_TO_TASK_STATUS`.
unfoldable pub task_status_of : VerificationStatus → TaskStatus
task_status_of VerificationStatus.verified = verified
task_status_of VerificationStatus.failed = failed
task_status_of VerificationStatus.inconclusive = inconclusive
task_status_of VerificationStatus.awaiting_evidence = awaiting_evidence
task_status_of VerificationStatus.awaiting_approval = awaiting_approval
task_status_of VerificationStatus.awaiting_runtime_confirmation = awaiting_runtime_confirmation

abbrev pub plain_error : TaskErrorCode → String → TaskError
plain_error code text = record { code = code; message = text; error_type = none }

-- `_VERIFICATION_ERRORS.get(final_status)`, as the tuple that is appended.
unfoldable pub verification_errors : TaskStatus → List TaskError
verification_errors failed =
    plain_error verification_failure "reported output did not satisfy the acceptance criteria" ∷ []
verification_errors awaiting_evidence =
    plain_error missing_evidence "required evidence has not been collected" ∷ []
verification_errors _ = []

-- `verifier.verify(contract, output, evidence)`.
abbrev pub Verifier : Type 0
Verifier = TaskContract → Value → EvidenceCollection → Result VerificationResult

abbrev pub reason_details : String → Option String → Entries
reason_details reason none = entry "reason" (str reason) end
reason_details reason (some t) = entry "reason" (str reason) (entry "error_type" (str t) end)

abbrev pub optional_list : Option TaskError → List TaskError
optional_list none = []
optional_list (some e) = e ∷ []

module _ (clock : Clock) (contract : TaskContract) where
  unfoldable pub collect_all : List EvidenceItem → Action Unit
  collect_all [] = pure tt
  collect_all (item ∷ items) = do collected clock item; collect_all items

  abbrev task_result :
      Lifecycle
      → TaskStatus
      → EvidenceCollection
      → Option WorkerReportedStatus
      → Option Value
      → List TaskError
      → Option VerificationResult
      → TaskTimestamps
      → TaskResult
  task_result s status evidence reported output errors verification times = record {
    task_id = contract.task_id;
    correlation_id = s.correlation_id;
    status = status;
    reported_status = reported;
    output = output;
    evidence = evidence;
    errors = errors;
    timestamps = times;
    final_verification_result = verification;
  }

  unfoldable pub result_at :
      Option TaskStatus
      → EvidenceCollection
      → Option WorkerReportedStatus
      → Option Value
      → List TaskError
      → Option VerificationResult
      → Action TaskResult
  result_at none evidence reported output errors verification =
      throw (runtime_error "task lifecycle has no status")
  result_at (some st) evidence reported output errors verification = do
    collect_all evidence.items
    times ← timestamps clock
    s ← get
    pure (task_result s st evidence reported output errors verification times)

  -- `_result`, at the status of the lifecycle.
  unfoldable pub result :
      EvidenceCollection
      → Option WorkerReportedStatus
      → Option Value
      → List TaskError
      → Option VerificationResult
      → Action TaskResult
  result evidence reported output errors verification s =
      result_at s.status evidence reported output errors verification s

  abbrev pub note_at : Option TaskStatus → Entries → Action Unit
  note_at (some running) details = semantic clock worker_failed (some "worker.failed") details
  note_at _ details = pure tt

  -- `if lifecycle.status is TaskStatus.RUNNING: …`.
  unfoldable pub note_worker_failure : Entries → Action Unit
  note_worker_failure details s = note_at s.status details s

  -- `_failed`.
  unfoldable pub fail :
      EvidenceCollection
      → Entries
      → List TaskError
      → Option WorkerReportedStatus
      → Action TaskResult
  fail evidence details errors reported = do
    note_worker_failure details
    transition clock failed details
    result evidence reported none errors none
