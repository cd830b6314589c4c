-- ===== src/Examples/Verdicts.antt =====
-- Verdicts on the evidence, and the theorems of the verifier at them.
use runmantle.Prelude.{◌≡◌, refl, ◌↔◌, true, ◌∷◌, [], ok, Any, All, arith}
use runmantle.Value.{null}
use runmantle.Contracts.{CriterionEvaluation}
use runmantle.Evidence.Collection.{EvidenceCollection}
use runmantle.Evidence.Requirement.{EvidenceRequirement}
use runmantle.Verification.{VerificationResult, VerificationStatus, enforce_trust_boundary}
use runmantle.Verification.Boundary.{Demands, IsProven, enforce-verified, enforce-proven}
use runmantle.Verification.Observed.{
  HasObserved, IsPositive, IsProven-HasObserved, claims-not-IsProven,
}
use runmantle.Verification.Criteria.{conclusive_evaluation}
use runmantle.Verification.Verifier.{decide_status, verify}
use runmantle.Verification.Verdict.{IsSatisfied, decide_status-verified}
use runmantle.Verification.Soundness.{IsJudged, verify-verified, enforce-verify}
use runmantle.Examples.Samples.{program, at, contract, observed, claimed, classes, no_answers}

abbrev matched : CriterionEvaluation
matched = conclusive_evaluation "passed" true "field 'status' matched the expected value"

abbrev verdict : VerificationResult
verdict = record {
  status = VerificationStatus.verified;
  criteria = matched ∷ [];
  missing_evidence = [];
  contradictory_evidence = [];
  message = "";
}

verify_observed : verify classes no_answers contract null observed (at 9) ≡ ok verdict
unfolding program
verify_observed = refl

verify-claimed :
    verify classes no_answers contract null claimed (at 9)
    ≡ ok (record {
      status = VerificationStatus.awaiting_evidence;
      criteria = [];
      missing_evidence = "test_run" ∷ [];
      contradictory_evidence = [];
      message = "required evidence is missing, expired, or below the minimum trust level";
    })
unfolding program
verify-claimed = refl

enforce_observed : enforce_trust_boundary contract observed verdict (at 9) ≡ ok verdict
unfolding program
enforce_observed = refl

enforce-verified_example : (verdict ≡ verdict) × IsProven contract observed.items 9
enforce-verified_example =
    enforce-verified contract observed (at 9) verdict verdict enforce_observed refl

proof_observed : IsProven contract observed.items 9
proof_observed = (enforce-verified contract observed (at 9) verdict verdict enforce_observed refl).1

enforce-proven_example : enforce_trust_boundary contract observed verdict (at 9) ≡ ok verdict
enforce-proven_example = enforce-proven contract observed (at 9) verdict refl proof_observed

one_needed : All IsPositive contract.required_evidence
one_needed = (omega arith, tt)

IsProven-HasObserved_example :
    Any
      (λ (r : EvidenceRequirement). Demands r × HasObserved 9 observed.items r)
      contract.required_evidence
IsProven-HasObserved_example =
    IsProven-HasObserved contract observed.items 9 one_needed proof_observed

claims-not-IsProven_example : ¬ IsProven contract claimed.items 9
unfolding program
claims-not-IsProven_example = claims-not-IsProven contract claimed.items 9 one_needed (refl, tt)

verify-verified_example :
    IsProven contract observed.items 9
    × ((seen : EvidenceCollection) × IsJudged classes no_answers contract null seen verdict)
verify-verified_example =
    verify-verified classes no_answers contract null observed (at 9) verdict verify_observed refl

enforce-verify_example : enforce_trust_boundary contract observed verdict (at 9) ≡ ok verdict
enforce-verify_example =
    enforce-verify classes no_answers contract null observed (at 9) verdict refl verify_observed

decide_status-verified_example :
    (decide_status (matched ∷ []) ≡ VerificationStatus.verified) ↔ All IsSatisfied (matched ∷ [])
decide_status-verified_example = decide_status-verified (matched ∷ [])
