-- ===== src/Core.antt =====
-- src/runmantle/core.py: what a worker reports and what the runtime returns.
use runmantle.Prelude.{String, Bool, true, false, Option, List}
use runmantle.Value.{DateTime, Value}
use runmantle.Contracts.{TaskStatus, verified}
use runmantle.Evidence.Collection.{EvidenceCollection}
use runmantle.Verification.{VerificationResult}

pub data WorkerReportedStatus : Type 0 where
  completed failed : WorkerReportedStatus

unfoldable pub reported_value : WorkerReportedStatus → String
reported_value completed = "completed"
reported_value failed = "failed"

pub data TaskErrorCode : Type 0 where
  worker_failure worker_reported_failure timeout cancelled : TaskErrorCode
  missing_evidence verification_failure : TaskErrorCode

pub record TaskError : Type 0 where
  pub code : TaskErrorCode
  pub message : String
  pub error_type : Option String

pub record WorkerReport : Type 0 where
  pub status : WorkerReportedStatus
  pub output : Option Value
  pub evidence : EvidenceCollection
  pub errors : List TaskError

pub record TaskTimestamps : Type 0 where
  pub pending_at : DateTime
  pub started_at : Option DateTime
  pub agent_reported_complete_at : Option DateTime
  pub verification_started_at : Option DateTime
  pub finished_at : DateTime

pub record TaskResult : Type 0 where
  pub task_id : String
  pub correlation_id : String
  pub status : TaskStatus
  pub reported_status : Option WorkerReportedStatus
  pub output : Option Value
  pub evidence : EvidenceCollection
  pub errors : List TaskError
  pub timestamps : TaskTimestamps
  pub final_verification_result : Option VerificationResult

-- `succeeded`: `status is VERIFIED`.
unfoldable pub succeeded : TaskResult → Bool
succeeded r = elim r.status [ verified ↦ true | _ ↦ false ]
