-- ===== src/Verification/Verifier.antt =====
-- src/runmantle/verification.py: `RuleBasedVerifier`.
use runmantle.Prelude.{
  String, ◌<>◌, Bool, true, false, not, ◌&&◌, ◌||◌, Option, none, some, List, [], ◌∷◌, ◌++◌, any,
  select, is_empty, map, traverse, error_type, message, Result, ok, err, ◌>>=◌, ◌==◌, if◌then◌else◌,
}
use runmantle.Value.{DateTime, Value}
use runmantle.Value.Resolve.{resolve_field}
use runmantle.Value.Equality.{eq_value}
use runmantle.Contracts.{CriterionEvaluation}
use runmantle.Evidence.{EvidenceItem}
use runmantle.Evidence.Requirement.{EvidenceRequirement, accepts}
use runmantle.Evidence.Collection.{EvidenceCollection, collect, of_type}
use runmantle.Verification.{
  Criterion, declared_condition, field_equals, collection_not_empty, runtime_confirmation, approval,
  custom, TaskContract, VerificationStatus, verified, failed, inconclusive, awaiting_evidence,
  awaiting_approval, awaiting_runtime_confirmation, VerificationResult, demands_observation,
  declares_trustworthy_requirement, unmet_requirements, trustworthy_boundary_message,
  no_criteria_result,
}
use runmantle.Verification.Criteria.{
  Classes, item_value, inconclusive_evaluation, conclusive_evaluation, evaluate, is_missing,
}

-- The two mappings of the verifier: answers that the application supplied beforehand.
pub record Answers : Type 0 where
  pub runtime_confirmations : List (String × Bool)
  pub approvals : List (String × Bool)

unfoldable pub answer_for : String → List (String × Bool) → Option Bool
answer_for key [] = none
answer_for key ((k, b) ∷ rest) = if k == key then some b else answer_for key rest

-- `bool(matching) and all(requirement.accepts(item, at=…) for requirement in matching)`.
unfoldable pub accepted_by_all : List EvidenceRequirement → EvidenceItem → DateTime → Result Bool
accepted_by_all [] item at = ok true
accepted_by_all (r ∷ rs) item at = do
  accepted ← accepts r item at
  elim accepted [ true ↦ accepted_by_all rs item at | false ↦ ok false ]

unfoldable pub is_eligible : List EvidenceRequirement → EvidenceItem → DateTime → Result Bool
unfolding accepted_by_all demands_observation
is_eligible requirements item at =
    let matching =
      select (λ r. r.evidence_type == item.type && demands_observation r) requirements in
    if is_empty matching then ok false else accepted_by_all matching item at

unfoldable pub eligible_items :
    List EvidenceRequirement → List EvidenceItem → DateTime → Result (List EvidenceItem)
unfolding is_eligible
eligible_items requirements [] at = ok []
eligible_items requirements (item ∷ items) at = do
  kept ← is_eligible requirements item at
  rest ← eligible_items requirements items at
  ok (if kept then item ∷ rest else rest)

-- `any(value != values[0] for value in values[1:])`, over the values that were found.
unfoldable pub differs_from : Value → List (Option Value) → Bool
differs_from first [] = false
differs_from first (none ∷ vs) = differs_from first vs
differs_from first (some v ∷ vs) = not (eq_value v first) || differs_from first vs

abbrev pub disagree : List (Option Value) → Bool
disagree [] = false
disagree (none ∷ vs) = false
disagree (some v ∷ vs) = differs_from v vs

-- The two lists that `_evidence_consistency` fills.
pub record Consistency : Type 0 where
  pub contradictions : List String
  pub ambiguous : List String

abbrev join_consistency : Consistency → Consistency → Consistency
join_consistency a b = record {
  contradictions = a.contradictions ++ b.contradictions;
  ambiguous = a.ambiguous ++ b.ambiguous;
}

-- What one path adds, from its values.
unfoldable pub add_path : String → List (Option Value) → Consistency → Consistency
unfolding differs_from
add_path label values rest =
    if any is_missing values
    then record rest { ambiguous = label ∷ rest.ambiguous }
    else if disagree values
    then record rest { contradictions = label ∷ rest.contradictions }
    else rest

module _ (k : Classes) where
  -- The inner loop, for the items of one requirement.
  unfoldable pub check_paths : String → List EvidenceItem → List String → Result Consistency
  unfolding traverse add_path
  check_paths evidence_type items [] = ok (record { contradictions = []; ambiguous = [] })
  check_paths evidence_type items (path ∷ paths) = do
    values ← traverse (λ item. resolve_field k.attributes k.digits (item_value item) path) items
    rest ← check_paths evidence_type items paths
    ok (add_path (evidence_type <> "." <> path) values rest)

  unfoldable pub evidence_consistency :
      List EvidenceRequirement → EvidenceCollection → Result Consistency
  unfolding check_paths
  evidence_consistency [] evidence = ok (record { contradictions = []; ambiguous = [] })
  evidence_consistency (r ∷ rs) evidence = do
    items ← of_type evidence r.evidence_type
    found ← check_paths r.evidence_type items.items r.consistent_fields
    rest ← evidence_consistency rs evidence
    ok (join_consistency found rest)

-- `try: return criterion.evaluate(…) except Exception: …`.
abbrev or_inconclusive : String → Result CriterionEvaluation → CriterionEvaluation
or_inconclusive name (ok e) = e
or_inconclusive name (err e) =
    inconclusive_evaluation name ("criterion raised " <> error_type e <> ": " <> message e)

abbrev pub criterion_name : Criterion → String
criterion_name (declared_condition name _ _ _ _) = name
criterion_name (field_equals name _ _ _ _) = name
criterion_name (collection_not_empty name _ _ _) = name
criterion_name (runtime_confirmation name _ _) = name
criterion_name (approval name _ _) = name
criterion_name (custom name _ _) = name

-- An answer supplied beforehand, for the classes that wait for one.
unfoldable pub supplied : Answers → Criterion → Option CriterionEvaluation
unfolding answer_for
supplied answers (approval name _ key) = elim (answer_for key answers.approvals) [
  | some true ↦ some (conclusive_evaluation name true "approval was supplied")
  | some false ↦ some (conclusive_evaluation name false "approval was rejected")
  | none ↦ none
]
supplied answers (runtime_confirmation name _ key) =
    elim (answer_for key answers.runtime_confirmations) [
      | some true ↦ some (conclusive_evaluation name true "runtime confirmation was supplied")
      | some false ↦ some (conclusive_evaluation name false "runtime confirmation was rejected")
      | none ↦ none
    ]
supplied answers _ = none

abbrev pub conclusively_failed : CriterionEvaluation → Bool
conclusively_failed e = e.conclusive && not e.passed

-- The verdict over the evaluations, in the order of the tests.
unfoldable pub decide_status : List CriterionEvaluation → VerificationStatus
decide_status evaluations =
    if any conclusively_failed evaluations
    then failed
    else if any (λ e. e.awaiting_approval) evaluations
    then awaiting_approval
    else if any (λ e. e.awaiting_runtime_confirmation) evaluations
    then awaiting_runtime_confirmation
    else if any (λ e. not e.conclusive) evaluations
    then inconclusive
    else verified

unfoldable pub join_names : List String → String
join_names [] = ""
join_names (x ∷ []) = x
join_names (x ∷ y ∷ xs) = x <> ", " <> join_names (y ∷ xs)

module _ (k : Classes) (answers : Answers) where
  -- `_evaluate`.
  unfoldable pub evaluate_guarded : Value → EvidenceCollection → Criterion → CriterionEvaluation
  evaluate_guarded output evidence c = elim (supplied answers c) [
    | some e ↦ e
    | none ↦ or_inconclusive (criterion_name c) (evaluate k c output evidence)
  ]

  -- The part behind the consistency of the evidence.
  unfoldable pub judge :
      TaskContract → Value → EvidenceCollection → Consistency → VerificationResult
  judge contract output evidence (found) =
      if not (is_empty found.contradictions)
      then record {
        status = failed;
        criteria = [];
        missing_evidence = [];
        contradictory_evidence = found.contradictions;
        message = "required evidence contains contradictory values";
      }
      else if not (is_empty found.ambiguous)
      then no_criteria_result inconclusive [] (
          "required evidence lacks fields needed for a conclusive decision: "
          <> join_names found.ambiguous)
      else let evaluations = map (evaluate_guarded output evidence) contract.acceptance_criteria in
        record {
          status = decide_status evaluations;
          criteria = evaluations;
          missing_evidence = [];
          contradictory_evidence = [];
          message = "";
        }

  -- The part behind the requirements.
  unfoldable pub verify_met :
      TaskContract → Value → EvidenceCollection → DateTime → Result VerificationResult
  verify_met contract output evidence at = do
    eligible ← eligible_items contract.required_evidence evidence.items at
    kept ← collect eligible
    found ← evidence_consistency k contract.required_evidence kept
    ok (judge contract output kept found)

  -- The part behind the trust boundary, with the requirements that are not met.
  unfoldable pub verify_unless_missing :
      TaskContract → Value → EvidenceCollection → DateTime → List String → Result VerificationResult
  verify_unless_missing contract output evidence at [] = verify_met contract output evidence at
  verify_unless_missing contract output evidence at (m ∷ ms) = ok (
      no_criteria_result awaiting_evidence (m ∷ ms)
        "required evidence is missing, expired, or below the minimum trust level")

  -- `verify(…)` at a reading of the verifier's clock.
  unfoldable pub verify :
      TaskContract → Value → EvidenceCollection → DateTime → Result VerificationResult
  verify contract output evidence at =
      if declares_trustworthy_requirement contract
      then (do
        missing ← unmet_requirements contract.required_evidence evidence.items at
        verify_unless_missing contract output evidence at missing)
      else ok (
          no_criteria_result awaiting_evidence ("trustworthy_verification_boundary" ∷ [])
            trustworthy_boundary_message)
