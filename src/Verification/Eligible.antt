-- ===== src/Verification/Eligible.antt =====
-- The evidence that the criteria see: what Runmantle itself observed, and nothing else.
use runmantle.Prelude.{
  ◌≤◌, ◌≡◌, inl, inr, Bool, true, false, ◌&&◌, List, [], ◌∷◌, All, select, is_empty, Bool-cases, ok,
  >>=-eq-ok, if◌then◌else◌, arith, ◌==◌,
}
use runmantle.Value.{DateTime}
use runmantle.Evidence.{rank, EvidenceItem}
use runmantle.Evidence.Origin.{trust_established}
use runmantle.Evidence.Requirement.{EvidenceRequirement, accepts, accepts_at}
use runmantle.Verification.{demands_observation}
use runmantle.Verification.Boundary.{Demands, accepts-eq-ok}
use runmantle.Verification.Observed.{accepted-IsObserved}
use runmantle.Verification.Verifier.{accepted_by_all, is_eligible, eligible_items}

-- The item was observed by Runmantle, for some requirement that the contract declares.
pub record IsEstablished (item : EvidenceItem) : Type 0 where
  pub established : trust_established item ≡ true
  pub trusted : 30 ≤ rank item.trust_level

accepted_by_all-head :
    (r : EvidenceRequirement) (rs : List EvidenceRequirement) (item : EvidenceItem) (at : DateTime)
    → accepted_by_all (r ∷ rs) item at ≡ ok true
    → accepts_at at.instant r item ≡ true
unfolding accepted_by_all
accepted_by_all-head r rs item at h =
    let (b, e, g) = >>=-eq-ok (accepts r item at) _ h in
    ground (arith, accepts-eq-ok r item at b e, g)

matching : List EvidenceRequirement → EvidenceItem → List EvidenceRequirement
matching rs item = select (λ r. r.evidence_type == item.type && demands_observation r) rs

matching-Demands :
    (rs : List EvidenceRequirement) (item : EvidenceItem) → All Demands (matching rs item)
unfolding matching
matching-Demands [] item = tt
matching-Demands (r ∷ rs) item =
    elim (Bool-cases (r.evidence_type == item.type && demands_observation r)) [
      | inl e ↦ rw e (ground (arith, e), matching-Demands rs item)
      | inr e ↦ rw e (matching-Demands rs item)
    ]

matched-IsEstablished :
    (ms : List EvidenceRequirement) (item : EvidenceItem) (at : DateTime)
    → All Demands ms
    → (if is_empty ms then ok false else accepted_by_all ms item at) ≡ ok true
    → IsEstablished item
matched-IsEstablished [] item at demanded h = cc
matched-IsEstablished (r ∷ rs) item at demanded h =
    let seen =
      accepted-IsObserved at.instant r item demanded.0 (accepted_by_all-head r rs item at h) in
    record { established = seen.established; trusted = seen.trusted }

is_eligible-IsEstablished :
    (rs : List EvidenceRequirement) (item : EvidenceItem) (at : DateTime)
    → is_eligible rs item at ≡ ok true
    → IsEstablished item
unfolding is_eligible matching
is_eligible-IsEstablished rs item at h =
    matched-IsEstablished (matching rs item) item at (matching-Demands rs item) h

kept-IsEstablished :
    (rs : List EvidenceRequirement) (item : EvidenceItem) (at : DateTime) (rest : List EvidenceItem)
    → (b : Bool) → is_eligible rs item at ≡ ok b
    → All IsEstablished rest
    → All IsEstablished (if b then item ∷ rest else rest)
kept-IsEstablished rs item at rest true h k = (is_eligible-IsEstablished rs item at h, k)
kept-IsEstablished rs item at rest false h k = k

-- Every item that is eligible for the criteria has an established trust of 30 or more.
pub eligible_items-IsEstablished :
    (rs : List EvidenceRequirement) (items : List EvidenceItem) (at : DateTime)
    → (kept : List EvidenceItem) → eligible_items rs items at ≡ ok kept
    → All IsEstablished kept
unfolding eligible_items
eligible_items-IsEstablished rs [] at kept h = let none_kept : kept ≡ [] = cc (h) in rw none_kept tt
eligible_items-IsEstablished rs (item ∷ items) at kept h =
    let (b, e, h1) = >>=-eq-ok (is_eligible rs item at) _ h in
    let (rest, e2, h2) = >>=-eq-ok (eligible_items rs items at) _ h1 in
    let shape : kept ≡ (if b then item ∷ rest else rest) = cc (h2) in
    rw shape
      (kept-IsEstablished rs item at rest b e (eligible_items-IsEstablished rs items at rest e2))
