-- ===== src/Evidence/Requirement.antt =====
-- src/runmantle/evidence.py: `EvidenceRequirement`.
use runmantle.Prelude.{
  ℕ, ◌<◌, ◌≡◌, String, Bool, true, false, ◌&&◌, Option, none, some, List, ltb, leb, any, is_blank,
  Result, ok, value_error, ◌>>◌, raise_if, ◌==◌, if◌then◌else◌, arith,
}
use runmantle.Value.{DateTime}
use runmantle.Validation.{require_non_empty}
use runmantle.Evidence.{TrustLevel, rank, EvidenceItem}
use runmantle.Evidence.Origin.{effective_trust_level}
use runmantle.Evidence.Freshness.{is_fresh, fresh_at}

-- `max_age` is in microseconds.
pub record EvidenceRequirement : Type 0 where
  pub evidence_type : String
  pub description : String
  pub minimum_count : ℕ
  pub consistent_fields : List String
  pub minimum_trust_level : TrustLevel
  pub max_age : Option ℕ

abbrev no_age : Option ℕ → Bool
no_age none = false
no_age (some age) = leb age 0

-- `EvidenceRequirement(…)`: the guards of `__post_init__`.
unfoldable pub construct_requirement : EvidenceRequirement → Result EvidenceRequirement
unfolding require_non_empty
construct_requirement r = do
  require_non_empty r.evidence_type "evidence_type"
  require_non_empty r.description "evidence requirement description"
  raise_if (ltb r.minimum_count 1) (value_error "minimum_count must be at least one")
  raise_if (any is_blank r.consistent_fields)
      (value_error "consistent field paths must not be empty")
  raise_if (no_age r.max_age) (value_error "evidence max_age must be greater than zero")
  ok r

-- The first two conjuncts, which are read before the freshness is asked for.
unfoldable pub is_candidate : EvidenceRequirement → EvidenceItem → Bool
is_candidate r item =
    item.type == r.evidence_type
    && leb (rank r.minimum_trust_level) (rank (effective_trust_level item))

unfoldable pub accepts : EvidenceRequirement → EvidenceItem → DateTime → Result Bool
unfolding is_candidate is_fresh
accepts r item at = if is_candidate r item then is_fresh item at r.max_age else ok false

-- The decision at an instant.
unfoldable pub accepts_at : ℕ → EvidenceRequirement → EvidenceItem → Bool
accepts_at at r item = is_candidate r item && fresh_at item at r.max_age

-- A constructed requirement asks for at least one item.
pub minimum_count_pos :
    (r r' : EvidenceRequirement) → construct_requirement r ≡ ok r' → 0 < r'.minimum_count
unfolding construct_requirement
minimum_count_pos r r' h = ground arith

-- At a decision time with an offset, `accepts` raises nothing and decides by the type, the
-- effective trust level and the freshness at that instant.
pub accepts-aware :
    (r : EvidenceRequirement) (item : EvidenceItem) (at : DateTime)
    → at.aware ≡ true
    → accepts r item at ≡ ok (accepts_at at.instant r item)
unfolding accepts accepts_at
accepts-aware r item at h = ground arith
