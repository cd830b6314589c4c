-- ===== src/Verification/Totality.antt =====
-- What `RuleBasedVerifier` raises at a decision time with an offset.
use runmantle.Prelude.{
  ℕ, Bool, true, false, ◌&&◌, List, [], ◌∷◌, select, is_empty, ◌==◌, if◌then◌else◌,
}
use runmantle.Value.{Value}
use runmantle.Evidence.{EvidenceItem}
use runmantle.Evidence.Requirement.{EvidenceRequirement, accepts_at}
use runmantle.Verification.{demands_observation}

-- The decision whether an item is eligible, at an instant.
accepted_at : ℕ → List EvidenceRequirement → EvidenceItem → Bool
accepted_at t [] item = true
accepted_at t (r ∷ rs) item =
    let rest = accepted_at t rs item in if accepts_at t r item then rest else false

eligible_at : ℕ → List EvidenceRequirement → EvidenceItem → Bool
eligible_at t rs item =
    let matching = select (λ r. r.evidence_type == item.type && demands_observation r) rs in
    if is_empty matching then false else accepted_at t matching item
