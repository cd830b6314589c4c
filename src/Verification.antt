-- ===== src/Verification.antt =====
-- src/runmantle/verification.py and the contracts of src/runmantle/contracts.py: the criteria as
-- data, the results, and the trust boundary that every verifier's result passes.
pub mod Criteria
pub mod Verifier
pub mod Boundary
pub mod Observed
pub mod Soundness
pub mod Eligible
pub mod Totality
pub mod Verdict
use runmantle.Prelude.{
  ℕ, zero, suc, String, Bool, true, false, Option, none, some, List, [], ◌∷◌, any, leb, ltb,
  is_empty, Result, ok, value_error, ◌>>=◌, ◌>>◌, raise_if, if◌then◌else◌,
}
use runmantle.Value.{DateTime, Value, Entries}
use runmantle.Validation.{require_non_empty}
use runmantle.Contracts.{RiskLevel, CriterionEvaluation}
use runmantle.Evidence.{TrustLevel, rank, runtime_observed, EvidenceItem}
use runmantle.Evidence.Requirement.{EvidenceRequirement, accepts}
use runmantle.Evidence.Collection.{EvidenceCollection}

-- The classes of criteria. `custom` is one that an application writes; `none` from a predicate is
-- the ambiguous `None`.
pub data Criterion : Type 0 where
  declared_condition :
      (name description : String)
      → (predicate : Value → EvidenceCollection → Result (Option Bool))
      → (success_message failure_message : String) → Criterion
  field_equals :
      (name description field_path : String)
      → (expected : Value) → (evidence_type : Option String) → Criterion
  collection_not_empty :
      (name description : String) → (field_path evidence_type : Option String) → Criterion
  runtime_confirmation : (name description confirmation_key : String) → Criterion
  approval : (name description approval_key : String) → Criterion
  custom :
      (name description : String)
      → (evaluate : Value → EvidenceCollection → Result CriterionEvaluation) → Criterion

-- `timeout` is in microseconds.
pub record TaskContract : Type 0 where
  pub task_id : String
  pub objective : String
  pub input : Value
  pub acceptance_criteria : List Criterion
  pub required_evidence : List EvidenceRequirement
  pub allowed_capabilities : List String
  pub risk_level : RiskLevel
  pub timeout : ℕ
  pub idempotency_key : String
  pub metadata : Entries

-- `TaskContract(…)`: the guards of `__post_init__`.
unfoldable pub construct_contract : TaskContract → Result TaskContract
unfolding require_non_empty
construct_contract c = do
  require_non_empty c.task_id "task_id"
  require_non_empty c.objective "objective"
  raise_if (is_empty c.acceptance_criteria)
      (value_error "a task contract requires acceptance criteria")
  raise_if (leb c.timeout 0) (value_error "timeout must be greater than zero")
  require_non_empty c.idempotency_key "idempotency_key"
  ok c

pub data VerificationStatus : Type 0 where
  verified failed inconclusive awaiting_evidence awaiting_approval : VerificationStatus
  awaiting_runtime_confirmation : VerificationStatus

pub record VerificationResult : Type 0 where
  pub status : VerificationStatus
  pub criteria : List CriterionEvaluation
  pub missing_evidence : List String
  pub contradictory_evidence : List String
  pub message : String

abbrev pub trustworthy_boundary_message : String
trustworthy_boundary_message =
    "successful verification requires an explicitly declared runtime-observed or independent evidence requirement"

-- `_declares_trustworthy_requirement`.
unfoldable pub demands_observation : EvidenceRequirement → Bool
demands_observation r = leb (rank runtime_observed) (rank r.minimum_trust_level)

unfoldable pub declares_trustworthy_requirement : TaskContract → Bool
declares_trustworthy_requirement c = any demands_observation c.required_evidence

-- `sum(1 for item in evidence if requirement.accepts(item, at=decision_time))`.
unfoldable pub count_accepted : EvidenceRequirement → DateTime → List EvidenceItem → Result ℕ
count_accepted r at [] = ok 0
count_accepted r at (item ∷ items) = do
  accepted ← accepts r item at
  rest ← count_accepted r at items
  ok (if accepted then suc rest else rest)

-- `_unmet_evidence_requirements`, over the requirements of the contract.
unfoldable pub unmet_requirements :
    List EvidenceRequirement → List EvidenceItem → DateTime → Result (List String)
unfolding count_accepted
unmet_requirements [] items at = ok []
unmet_requirements (r ∷ rs) items at = do
  found ← count_accepted r at items
  rest ← unmet_requirements rs items at
  ok (if ltb found r.minimum_count then r.evidence_type ∷ rest else rest)

abbrev pub no_criteria_result : VerificationStatus → List String → String → VerificationResult
no_criteria_result status missing message = record {
  status = status;
  criteria = [];
  missing_evidence = missing;
  contradictory_evidence = [];
  message = message;
}

-- What `enforce_verification_trust_boundary` does with a verified result.
abbrev withhold : VerificationResult → List String → String → VerificationResult
withhold result missing message = record {
  status = awaiting_evidence;
  criteria = result.criteria;
  missing_evidence = missing;
  contradictory_evidence = [];
  message = message;
}

abbrev grant_if_met : VerificationResult → List String → VerificationResult
grant_if_met result [] = result
grant_if_met result (m ∷ ms) =
    withhold result (m ∷ ms)
      "a verifier returned success without satisfying the declared evidence requirements"

abbrev pub is_verified : VerificationStatus → Bool
is_verified verified = true
is_verified _ = false

unfoldable pub enforce_trust_boundary :
    TaskContract → EvidenceCollection → VerificationResult → DateTime → Result VerificationResult
unfolding declares_trustworthy_requirement
enforce_trust_boundary contract evidence result at =
    if is_verified result.status
    then (if declares_trustworthy_requirement contract
        then (do
          missing ← unmet_requirements contract.required_evidence evidence.items at
          ok (grant_if_met result missing))
        else ok (
            withhold result ("trustworthy_verification_boundary" ∷ [])
              trustworthy_boundary_message))
    else ok result
