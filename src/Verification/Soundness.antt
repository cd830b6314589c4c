-- ===== src/Verification/Soundness.antt =====
-- What a verified result of `RuleBasedVerifier` rests on, and that it passes the trust boundary.
use runmantle.Prelude.{
  ◌≡◌, refl, ap, ◌∙◌, inl, inr, true, List, [], ◌∷◌, String, All, map, any, any→Any, Bool-cases, ok,
  >>=-eq-ok, arith,
}
use runmantle.Value.{DateTime, Value}
use runmantle.Evidence.{EvidenceItem}
use runmantle.Evidence.Collection.{EvidenceCollection, collect}
use runmantle.Verification.{
  TaskContract, VerificationStatus, VerificationResult, verified, is_verified, demands_observation,
  declares_trustworthy_requirement, unmet_requirements, enforce_trust_boundary,
}
use runmantle.Verification.Boundary.{IsProven, unmet_requirements-eq-nil, enforce-proven}
use runmantle.Verification.Criteria.{Classes}
use runmantle.Verification.Verdict.{IsSatisfied, decide_status-verified}
use runmantle.Verification.Eligible.{IsEstablished, eligible_items-IsEstablished}
use runmantle.Verification.Verifier.{
  Answers, Consistency, decide_status, evaluate_guarded, eligible_items, evidence_consistency,
  judge, verify_met, verify_unless_missing, verify,
}

-- The evaluations are those of the contract's criteria over the evidence `seen`, which Runmantle
-- observed and which agrees with itself, and every one of them is satisfied.
pub record IsJudged (k : Classes) (answers : Answers) (contract : TaskContract) (output : Value)
    (seen : EvidenceCollection) (result : VerificationResult) : Type 0 where
  pub observed : All IsEstablished seen.items
  pub consistent :
      evidence_consistency k contract.required_evidence seen
      ≡ ok (record { contradictions = []; ambiguous = [] })
  pub evaluations :
      result.criteria ≡ map (evaluate_guarded k answers output seen) contract.acceptance_criteria
  pub satisfied : All IsSatisfied result.criteria

verified_of_test : (s : VerificationStatus) → is_verified s ≡ true → s ≡ verified
verified_of_test s h = ground arith

collect-items :
    (items : List EvidenceItem) (c : EvidenceCollection) → collect items ≡ ok c → items ≡ c.items
unfolding collect
collect-items items c h = ground arith

module _ (k : Classes) (answers : Answers) where
  judge-consistent :
      (contract : TaskContract) (output : Value) (seen : EvidenceCollection) (found : Consistency)
      → (judge k answers contract output seen found).status ≡ verified
      → (found.contradictions ≡ [])
        × (found.ambiguous ≡ [])
        × ((judge k answers contract output seen found).criteria
            ≡ map (evaluate_guarded k answers output seen) contract.acceptance_criteria)
        × (decide_status (judge k answers contract output seen found).criteria ≡ verified)
  unfolding judge
  judge-consistent contract output seen found v = ground arith

  verify_met-verified :
      (contract : TaskContract) (output : Value) (evidence : EvidenceCollection) (at : DateTime)
      → (result : VerificationResult) → verify_met k answers contract output evidence at ≡ ok result
      → result.status ≡ verified
      → (seen : EvidenceCollection) × IsJudged k answers contract output seen result
  unfolding verify_met
  verify_met-verified contract output evidence at result h v =
      let rs = contract.required_evidence in
      let (eligible, e1, h1) = >>=-eq-ok (eligible_items rs evidence.items at) _ h in
      let (kept, e2, h2) = >>=-eq-ok (collect eligible) _ h1 in
      let (found, e3, h3) = >>=-eq-ok (evidence_consistency k rs kept) _ h2 in
      let shape : judge k answers contract output kept found ≡ result = cc (h3) in
      let (c0, a0, evaluated, decided) =
        judge-consistent contract output kept found
          (ap (λ (r : VerificationResult). r.status) shape ∙ v) in
      (
        kept,
        record {
          observed =
              rw (← collect-items eligible kept e2)
                (eligible_items-IsEstablished rs evidence.items at eligible e1);
          consistent = e3 ∙ ap ok (λ i. record { contradictions = c0 i; ambiguous = a0 i });
          evaluations = rw (← shape) evaluated;
          satisfied = rw (← shape) ((decide_status-verified _).0 decided);
        },
      )

  verify_unless_missing-verified :
      (contract : TaskContract) (output : Value) (evidence : EvidenceCollection) (at : DateTime)
      → (missing : List String) (result : VerificationResult)
      → verify_unless_missing k answers contract output evidence at missing ≡ ok result
      → result.status ≡ verified
      → (missing ≡ []) × (verify_met k answers contract output evidence at ≡ ok result)
  unfolding verify_unless_missing
  verify_unless_missing-verified contract output evidence at [] result g v = (refl, g)
  verify_unless_missing-verified contract output evidence at (m ∷ ms) result g v = cc

  -- Where the rule-based verifier answers verified, the evidence proves the outcome at the
  -- decision time, and there is a collection of established items, without contradictory or
  -- missing fields, on which the criteria were evaluated in order and every evaluation is
  -- conclusive, passed and waits for nobody.
  pub verify-verified :
      (contract : TaskContract) (output : Value) (evidence : EvidenceCollection) (at : DateTime)
      → (result : VerificationResult) → verify k answers contract output evidence at ≡ ok result
      → result.status ≡ verified
      → IsProven contract evidence.items at.instant
        × ((seen : EvidenceCollection) × IsJudged k answers contract output seen result)
  unfolding verify declares_trustworthy_requirement verify_unless_missing
  verify-verified contract output evidence at result h v =
      elim (Bool-cases (any demands_observation contract.required_evidence)) [
        | inr undeclared ↦ absurd (ground (arith, rw undeclared at h))
        | inl declared ↦
            let (missing, e, g) =
              >>=-eq-ok (unmet_requirements contract.required_evidence evidence.items at) _
                (rw declared at h) in
            let (none_missing, met) =
              verify_unless_missing-verified contract output evidence at missing result g v in
            (
              record {
                demanded = any→Any demands_observation contract.required_evidence declared;
                met =
                    unmet_requirements-eq-nil contract.required_evidence evidence.items at
                      (e ∙ ap ok none_missing);
              },
              verify_met-verified contract output evidence at result met v,
            )
      ]

  -- At a decision time with an offset, the trust boundary passes on unchanged whatever the
  -- rule-based verifier answers at that time.
  pub enforce-verify :
      (contract : TaskContract) (output : Value) (evidence : EvidenceCollection) (at : DateTime)
      → (result : VerificationResult) → at.aware ≡ true
      → verify k answers contract output evidence at ≡ ok result
      → enforce_trust_boundary contract evidence result at ≡ ok result
  unfolding enforce_trust_boundary
  enforce-verify contract output evidence at result aware h =
      elim (Bool-cases (is_verified result.status)) [
        | inr other ↦ rw other
        | inl claimed ↦
            enforce-proven contract evidence at result aware
              (verify-verified contract output evidence at result h
                (verified_of_test result.status claimed)).0
      ]
