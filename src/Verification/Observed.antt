-- ===== src/Verification/Observed.antt =====
-- Verified outcomes rest on evidence that Runmantle itself observed.
use runmantle.Prelude.{
  ℕ, ◌≤◌, ◌<◌, ◌≡◌, refl, inl, inr, true, false, List, [], ◌∷◌, All, Any, Any-map, count-pos, arith,
  eq_iff,
}
use runmantle.Evidence.{rank, runtime_observed, EvidenceItem}
use runmantle.Evidence.Origin.{trust_established, effective_trust_level}
use runmantle.Evidence.Trust.{established_of_rank, effective-established}
use runmantle.Evidence.Freshness.{fresh_at}
use runmantle.Evidence.Requirement.{EvidenceRequirement, accepts_at, is_candidate}
use runmantle.Verification.{TaskContract, demands_observation}
use runmantle.Verification.Boundary.{IsMet, Demands, IsProven}

rank_runtime_observed : rank runtime_observed ≡ 30
unfolding rank
rank_runtime_observed = refl

-- An item that Runmantle itself observed: its trust is established, at this level or above.
pub record IsObserved (t : ℕ) (r : EvidenceRequirement) (item : EvidenceItem) : Type 0 where
  pub established : trust_established item ≡ true
  pub trusted : 30 ≤ rank item.trust_level
  pub of_type : item.type ≡ r.evidence_type
  pub is_fresh : fresh_at item t r.max_age ≡ true

pub accepted-IsObserved :
    (t : ℕ) (r : EvidenceRequirement) (item : EvidenceItem)
    → Demands r
    → accepts_at t r item ≡ true
    → IsObserved t r item
unfolding accepts_at is_candidate demands_observation
accepted-IsObserved t r item demanded accepted =
    let high : 30 ≤ rank (effective_trust_level item) =
      ground (arith, accepted, demanded, rank_runtime_observed) in
    let established = established_of_rank item (omega arith) in
    record {
      established = established;
      trusted = rw (effective-established item established) at high;
      of_type = ground (arith, accepted, eq_iff item.type r.evidence_type);
      is_fresh = ground (arith, accepted);
    }

abbrev pub IsPositive : EvidenceRequirement → Type 0
IsPositive r = 0 < r.minimum_count

abbrev pub HasObserved : ℕ → List EvidenceItem → EvidenceRequirement → Type 0
HasObserved t items r = Any (IsObserved t r) items

met-HasObserved :
    (t : ℕ) (items : List EvidenceItem) (r : EvidenceRequirement)
    → IsPositive r
    → IsMet t items r
    → Demands r
    → HasObserved t items r
met-HasObserved t items r pos met demanded =
    Any-map (λ item. accepted-IsObserved t r item demanded) items
      (count-pos (accepts_at t r) items (omega arith))

proof-HasObserved :
    (t : ℕ) (items : List EvidenceItem) (rs : List EvidenceRequirement)
    → All IsPositive rs
    → All (IsMet t items) rs
    → Any Demands rs
    → Any (λ r. Demands r × HasObserved t items r) rs
proof-HasObserved t items [] pos met demanded = absurd demanded
proof-HasObserved t items (r ∷ rs) pos met (inl d) =
    inl (d, met-HasObserved t items r pos.0 met.0 d)
proof-HasObserved t items (r ∷ rs) pos met (inr d) =
    inr (proof-HasObserved t items rs pos.1 met.1 d)

-- Where every requirement asks for at least one item and the evidence proves the outcome, one of
-- the requirements that ask for an observation has an item of its type with an established trust
-- of 30 or more that is fresh at the decision time.
pub IsProven-HasObserved :
    (contract : TaskContract) (items : List EvidenceItem) (t : ℕ)
    → All IsPositive contract.required_evidence
    → IsProven contract items t
    → Any (λ r. Demands r × HasObserved t items r) contract.required_evidence
IsProven-HasObserved contract items t pos proof =
    proof-HasObserved t items contract.required_evidence pos proof.met proof.demanded

no_observed :
    (t : ℕ) (r : EvidenceRequirement) (items : List EvidenceItem)
    → All (λ item. trust_established item ≡ false) items
    → ¬ HasObserved t items r
no_observed t r [] claims h = h
no_observed t r (item ∷ items) claims (inl h) = cc (claims.0, h.established)
no_observed t r (item ∷ items) claims (inr h) = no_observed t r items claims.1 h

no_requirement_observed :
    (t : ℕ) (items : List EvidenceItem) (rs : List EvidenceRequirement)
    → All (λ item. trust_established item ≡ false) items
    → ¬ Any (λ r. Demands r × HasObserved t items r) rs
no_requirement_observed t items [] claims h = h
no_requirement_observed t items (r ∷ rs) claims (inl h) = no_observed t r items claims h.1
no_requirement_observed t items (r ∷ rs) claims (inr h) =
    no_requirement_observed t items rs claims h

-- Where every requirement asks for at least one item, items without an established trust never
-- prove the outcome, whatever level they name.
pub claims-not-IsProven :
    (contract : TaskContract) (items : List EvidenceItem) (t : ℕ)
    → All IsPositive contract.required_evidence
    → All (λ item. trust_established item ≡ false) items
    → ¬ IsProven contract items t
claims-not-IsProven contract items t pos claims proof =
    no_requirement_observed t items contract.required_evidence claims
      (IsProven-HasObserved contract items t pos proof)
