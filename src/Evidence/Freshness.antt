-- ===== src/Evidence/Freshness.antt =====
-- src/runmantle/evidence.py: `EvidenceItem.is_fresh`.
use runmantle.Prelude.{
  ℕ, ◌-◌, Bool, true, false, Option, none, some, leb, ltb, Result, ok, ◌>>◌, if◌then◌else◌,
}
use runmantle.Value.{DateTime}
use runmantle.Validation.{require_aware}
use runmantle.Evidence.{EvidenceItem}

abbrev pub is_expired : Option DateTime → ℕ → Bool
is_expired none at = false
is_expired (some t) at = leb t.instant at

-- `max_age is None or at - collected_at <= max_age`. The difference is taken only where
-- `collected_at` is not after `at`.
abbrev pub within_age : ℕ → ℕ → Option ℕ → Bool
within_age collected_at at none = true
within_age collected_at at (some age) = leb (at - collected_at) age

-- The decision at an instant.
unfoldable pub fresh_at : EvidenceItem → ℕ → Option ℕ → Bool
fresh_at item at max_age =
    if ltb at item.collected_at.instant
    then false
    else if is_expired item.expires_at at
    then false
    else within_age item.collected_at.instant at max_age

unfoldable pub is_fresh : EvidenceItem → DateTime → Option ℕ → Result Bool
unfolding require_aware fresh_at
is_fresh item at max_age = do
  require_aware at "evidence decision time must be timezone-aware"
  ok (fresh_at item at.instant max_age)
