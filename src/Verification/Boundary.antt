-- ===== src/Verification/Boundary.antt =====
-- The trust boundary: what a verified result says of the evidence.
use runmantle.Prelude.{
  ℕ, ◌≤◌, ◌≡◌, refl, sym, ◌∙◌, ap, inl, inr, String, Bool, true, List, [], ◌∷◌, All, Any, any,
  any→Any, count, ltb, Bool-cases, ok, >>=-eq-ok, arith,
}
use runmantle.Value.{DateTime}
use runmantle.Evidence.{EvidenceItem}
use runmantle.Evidence.Requirement.{EvidenceRequirement, accepts, accepts_at, accepts-aware}
use runmantle.Evidence.Collection.{EvidenceCollection}
use runmantle.Verification.{
  TaskContract, VerificationResult, verified, demands_observation, count_accepted,
  unmet_requirements, enforce_trust_boundary, grant_if_met, is_verified,
}

-- Enough items are accepted at the instant `t`.
abbrev pub IsMet : ℕ → List EvidenceItem → EvidenceRequirement → Type 0
IsMet t items r = r.minimum_count ≤ count (accepts_at t r) items

abbrev pub Demands : EvidenceRequirement → Type 0
Demands r = demands_observation r ≡ true

-- The evidence proves the outcome: a requirement asks for observed evidence, and all are met.
pub record IsProven (contract : TaskContract) (items : List EvidenceItem) (t : ℕ) : Type 0 where
  pub demanded : Any Demands contract.required_evidence
  pub met : All (IsMet t items) contract.required_evidence

-- Whatever the clock, an answer of `accepts` is the decision at its instant.
pub accepts-eq-ok :
    (r : EvidenceRequirement) (item : EvidenceItem) (at : DateTime) (b : Bool)
    → accepts r item at ≡ ok b
    → accepts_at at.instant r item ≡ b
unfolding accepts accepts_at
accepts-eq-ok r item at b h = ground arith

pub count_accepted-eq-ok :
    (r : EvidenceRequirement) (at : DateTime) (items : List EvidenceItem) (n : ℕ)
    → count_accepted r at items ≡ ok n
    → count (accepts_at at.instant r) items ≡ n
unfolding count_accepted
count_accepted-eq-ok r at [] n h = ground arith
count_accepted-eq-ok r at (item ∷ items) n h =
    let (b, e1, h1) = >>=-eq-ok (accepts r item at) _ h in
    let (m, e2, h2) = >>=-eq-ok (count_accepted r at items) _ h1 in
    ground (arith, h2, accepts-eq-ok r item at b e1, count_accepted-eq-ok r at items m e2)

pub unmet_requirements-eq-nil :
    (rs : List EvidenceRequirement) (items : List EvidenceItem) (at : DateTime)
    → unmet_requirements rs items at ≡ ok []
    → All (IsMet at.instant items) rs
unfolding unmet_requirements
unmet_requirements-eq-nil [] items at h = tt
unmet_requirements-eq-nil (r ∷ rs) items at h =
    let (n, e1, h1) = >>=-eq-ok (count_accepted r at items) _ h in
    let (rest, e2, h2) = >>=-eq-ok (unmet_requirements rs items at) _ h1 in
    elim (Bool-cases (ltb n r.minimum_count)) [
      | inl short ↦ cc (rw short at h2)
      | inr enough ↦
          let none_left : rest ≡ [] = ground (arith, rw enough at h2) in
          (
            ground (arith, enough, count_accepted-eq-ok r at items n e1),
            unmet_requirements-eq-nil rs items at (e2 ∙ ap ok none_left),
          )
    ]

-- The other way round, at a time with an offset.
pub count_accepted-aware :
    (r : EvidenceRequirement) (at : DateTime) (items : List EvidenceItem)
    → at.aware ≡ true
    → count_accepted r at items ≡ ok (count (accepts_at at.instant r) items)
unfolding count_accepted
count_accepted-aware r at [] h = refl
count_accepted-aware r at (item ∷ items) h =
    rw (accepts-aware r item at h, count_accepted-aware r at items h)

unmet_requirements-met :
    (rs : List EvidenceRequirement) (items : List EvidenceItem) (at : DateTime)
    → at.aware ≡ true
    → All (IsMet at.instant items) rs
    → unmet_requirements rs items at ≡ ok []
unfolding unmet_requirements
unmet_requirements-met [] items at h all_met = refl
unmet_requirements-met (r ∷ rs) items at h all_met =
    rw (count_accepted-aware r at items h, unmet_requirements-met rs items at h all_met.1)
      (ground (arith, all_met.0))

is_verified-verified : (r : VerificationResult) → r.status ≡ verified → is_verified r.status ≡ true
is_verified-verified r h = rw h

grant_if_met-verified :
    (result final : VerificationResult) (missing : List String)
    → grant_if_met result missing ≡ final
    → final.status ≡ verified
    → (final ≡ result) × (missing ≡ [])
grant_if_met-verified result final [] h v = (sym h, refl)
grant_if_met-verified result final (m ∷ ms) h v = cc

-- What the trust boundary passes on as verified is the result that it was given, and the evidence
-- proves the outcome at the decision time: some requirement of the contract asks for evidence that
-- was observed, and every requirement is accepted for as many items as it asks for.
pub enforce-verified :
    (contract : TaskContract) (evidence : EvidenceCollection) (at : DateTime)
    → (result final : VerificationResult)
    → enforce_trust_boundary contract evidence result at ≡ ok final
    → final.status ≡ verified
    → (final ≡ result) × IsProven contract evidence.items at.instant
unfolding enforce_trust_boundary
enforce-verified contract evidence at result final h v =
    elim (Bool-cases (is_verified result.status)) [
      | inr other ↦ absurd (ground (arith, is_verified-verified final v, rw other at h))
      | inl claimed ↦ elim (Bool-cases (any demands_observation contract.required_evidence)) [
        | inr undeclared ↦ absurd (ground (arith, rw (claimed, undeclared) at h))
        | inl declared ↦
            let (missing, e, g) =
              >>=-eq-ok (unmet_requirements contract.required_evidence evidence.items at) _
                (rw (claimed, declared) at h) in
            let granted : grant_if_met result missing ≡ final = cc (g) in
            let (same, none_missing) = grant_if_met-verified result final missing granted v in
            (
              same,
              record {
                demanded = any→Any demands_observation contract.required_evidence declared;
                met =
                    unmet_requirements-eq-nil contract.required_evidence evidence.items at
                      (e ∙ ap ok none_missing);
              },
            )
      ]
    ]

Any→any :
    (p : EvidenceRequirement → Bool) (rs : List EvidenceRequirement)
    → Any (λ r. p r ≡ true) rs
    → any p rs ≡ true
Any→any p [] h = absurd h
Any→any p (r ∷ rs) (inl h) = rw h
Any→any p (r ∷ rs) (inr h) = ground (arith, Any→any p rs h)

-- At a decision time with an offset, the trust boundary passes on unchanged any result whose
-- evidence proves the outcome at that time.
pub enforce-proven :
    (contract : TaskContract) (evidence : EvidenceCollection) (at : DateTime)
    → (result : VerificationResult) → at.aware ≡ true
    → IsProven contract evidence.items at.instant
    → enforce_trust_boundary contract evidence result at ≡ ok result
unfolding enforce_trust_boundary
enforce-proven contract evidence at result h proof = elim (Bool-cases (is_verified result.status)) [
  | inr other ↦ rw other
  | inl claimed ↦ rw (
    claimed,
    Any→any demands_observation contract.required_evidence proof.demanded,
    unmet_requirements-met contract.required_evidence evidence.items at h proof.met,
  )
]
