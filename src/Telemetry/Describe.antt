-- ===== src/Telemetry/Describe.antt =====
-- src/runmantle/telemetry.py: `task_contract_telemetry`, the description of a contract that the
-- first event carries. It holds hashes of the objective, the input and the key, and no content.
use runmantle.Prelude.{
  ℕ, String, Option, none, some, List, [], ◌∷◌, map, sort_texts, Result, ok, err,
}
use runmantle.Value.{
  pos, Value, null, int, str, seconds, list, mapping, Entries, end, entry, from_list,
}
use runmantle.Contracts.{risk_value}
use runmantle.Evidence.{rank, Hashing, optional_text}
use runmantle.Evidence.Requirement.{EvidenceRequirement}
use runmantle.Verification.{
  Criterion, declared_condition, field_equals, collection_not_empty, runtime_confirmation, approval,
  custom, TaskContract,
}
use runmantle.Verification.Verifier.{criterion_name}

-- `type(item).__name__`. The class of an application's own criterion is not told apart.
unfoldable pub criterion_kind : Criterion → String
criterion_kind (declared_condition _ _ _ _ _) = "DeclaredConditionCriterion"
criterion_kind (field_equals _ _ _ _ _) = "FieldEqualsCriterion"
criterion_kind (collection_not_empty _ _ _ _) = "CollectionNotEmptyCriterion"
criterion_kind (runtime_confirmation _ _ _) = "RuntimeConfirmationCriterion"
criterion_kind (approval _ _ _) = "ApprovalCriterion"
criterion_kind (custom _ _ _) = "AcceptanceCriterion"

describe_criterion : Criterion → Value
unfolding criterion_kind
describe_criterion c =
    mapping (entry "name" (str (criterion_name c)) (entry "kind" (str (criterion_kind c)) end))

abbrev optional_seconds : Option ℕ → Value
optional_seconds none = null
optional_seconds (some n) = seconds n

describe_requirement : EvidenceRequirement → Value
describe_requirement r = mapping (
    entry "evidence_type" (str r.evidence_type) (
      entry "minimum_count" (int (pos r.minimum_count)) (
        entry "minimum_trust_level" (int (pos (rank r.minimum_trust_level)))
          (entry "max_age_seconds" (optional_seconds r.max_age) end))))

keys : Entries → List String
keys end = []
keys (entry k v es) = k ∷ keys es

module _ (h : Hashing) where
  abbrev hash_of : Result String → Option String
  hash_of (ok encoded) = some (h.sha256 encoded)
  hash_of (err e) = none

  unfoldable pub task_contract_telemetry : TaskContract → Entries
  unfolding describe_criterion describe_requirement keys sort_texts from_list
  task_contract_telemetry c = entry "schema_version" (int (pos 1)) (
      entry "task_id" (str c.task_id) (
        entry "objective_hash" (str (h.sha256 c.objective)) (
          entry "input_hash" (optional_text (hash_of (h.dumps c.input))) (
            entry "acceptance_criteria"
              (list (from_list (map describe_criterion c.acceptance_criteria)))
              (entry "required_evidence"
                (list (from_list (map describe_requirement c.required_evidence)))
                (entry "allowed_capabilities"
                  (list (from_list (map str (sort_texts c.allowed_capabilities))))
                  (entry "risk_level" (str (risk_value c.risk_level)) (
                    entry "timeout_seconds" (seconds c.timeout) (
                      entry "idempotency_key_hash" (str (h.sha256 c.idempotency_key)) (
                        entry "metadata_keys"
                          (list (from_list (map str (sort_texts (keys c.metadata))))) end))))))))))
