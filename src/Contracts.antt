-- ===== src/Contracts.antt =====
-- src/runmantle/contracts.py: the lifecycle states, the risk levels and the evaluations.
use runmantle.Prelude.{ℕ, String, Bool}

pub data RiskLevel : Type 0 where
  low medium high critical : RiskLevel

pub data TaskStatus : Type 0 where
  pending running agent_reported_complete verifying : TaskStatus
  verified failed inconclusive : TaskStatus
  awaiting_evidence awaiting_approval awaiting_runtime_confirmation : TaskStatus

-- The members of a `StrEnum` are their texts.
unfoldable pub risk_value : RiskLevel → String
risk_value low = "low"
risk_value medium = "medium"
risk_value high = "high"
risk_value critical = "critical"

unfoldable pub status_value : TaskStatus → String
status_value pending = "pending"
status_value running = "running"
status_value agent_reported_complete = "agent_reported_complete"
status_value verifying = "verifying"
status_value verified = "verified"
status_value failed = "failed"
status_value inconclusive = "inconclusive"
status_value awaiting_evidence = "awaiting_evidence"
status_value awaiting_approval = "awaiting_approval"
status_value awaiting_runtime_confirmation = "awaiting_runtime_confirmation"

pub status_discrete : Discrete TaskStatus
status_discrete = hlevel

-- One number for each state, by which `is` and `in` compare.
unfoldable pub status_code : TaskStatus → ℕ
status_code pending = 0
status_code running = 1
status_code agent_reported_complete = 2
status_code verifying = 3
status_code verified = 4
status_code failed = 5
status_code inconclusive = 6
status_code awaiting_evidence = 7
status_code awaiting_approval = 8
status_code awaiting_runtime_confirmation = 9

pub record CriterionEvaluation : Type 0 where
  pub name : String
  pub passed : Bool
  pub message : String
  pub conclusive : Bool
  pub awaiting_runtime_confirmation : Bool
  pub awaiting_approval : Bool
