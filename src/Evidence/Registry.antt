-- ===== src/Evidence/Registry.antt =====
-- src/runmantle/evidence.py: `EvidenceProviderRegistry`.
pub mod Sealed
use runmantle.Prelude.{
  ℕ, String, Bool, true, false, not, Option, none, some, List, [], ◌∷◌, eqb, leb, is_some, Guard,
  Result, ok, err, value_error, runtime_error, integrity_error, ◌>>=◌, ◌>>◌, raise_if, ◌==◌,
  if◌then◌else◌,
}
use runmantle.Value.{Entries, mapping, freeze_mapping}
use runmantle.Validation.{require_non_empty}
use runmantle.Evidence.{TrustLevel, agent_claim, rank, AcquisitionMethod, EvidenceItem, Hashing}
use runmantle.Evidence.Origin.{establish_evidence_origin}

-- A provider is known by its identity as an object, `id(provider)`.
pub record ProviderRegistration : Type 0 where
  pub provider : ℕ
  pub provider_identity : String
  pub provider_configuration : Entries
  pub trust_level : TrustLevel
  pub acquisition_method : AcquisitionMethod

-- `EvidenceProviderRegistration(…)`.
unfoldable pub construct_registration : ProviderRegistration → Result ProviderRegistration
unfolding require_non_empty
construct_registration r = do
  require_non_empty r.provider_identity "evidence provider identity"
  raise_if (leb (rank r.trust_level) (rank agent_claim))
      (value_error "trusted provider registration requires elevated trust")
  ok (record r { provider_configuration = freeze_mapping r.provider_configuration })

pub record ProviderRegistry : Type 0 where
  pub registrations : List ProviderRegistration
  pub is_sealed : Bool

abbrev pub new_registry : ProviderRegistry
new_registry = record { registrations = []; is_sealed = false }

unfoldable pub lookup_provider : ℕ → List ProviderRegistration → Option ProviderRegistration
lookup_provider key [] = none
lookup_provider key (r ∷ rs) = if eqb r.provider key then some r else lookup_provider key rs

-- A dictionary's new key. The state is returned on the raising paths too.
unfoldable pub register : ProviderRegistration → ProviderRegistry → Guard × ProviderRegistry
unfolding lookup_provider
register r s =
    if s.is_sealed
    then (err (runtime_error "evidence provider registry is sealed"), s)
    else if is_some (lookup_provider r.provider s.registrations)
    then (err (value_error "evidence provider instance is already registered"), s)
    else (ok tt, record s { registrations = r ∷ s.registrations })

unfoldable pub seal : ProviderRegistry → ProviderRegistry
seal s = record s { is_sealed = true }

module _ (h : Hashing) where
  unfoldable pub check_registration :
      ProviderRegistration → String → Entries → Result (Option ProviderRegistration)
  check_registration r identity configuration = do
    raise_if (not (r.provider_identity == identity))
        (integrity_error "registered provider identity changed")
    registered ← h.dumps (mapping r.provider_configuration)
    supplied ← h.dumps (mapping configuration)
    raise_if (not (registered == supplied))
        (integrity_error "registered provider configuration changed")
    ok (some r)

  unfoldable pub registration_for :
      ℕ → String → Entries → ProviderRegistry → Result (Option ProviderRegistration)
  unfolding lookup_provider check_registration
  registration_for provider identity configuration s =
      elim (lookup_provider provider s.registrations) [
        | none ↦ ok none
        | some r ↦
            if eqb r.provider provider then check_registration r identity configuration else ok none
      ]

  abbrev pub establish_with :
      EvidenceItem → String → Option ProviderRegistration → Result (Option EvidenceItem)
  establish_with item boundary none = ok none
  establish_with item boundary (some r) = do
    established ←
        establish_evidence_origin h item boundary r.provider_identity r.provider_configuration
          r.trust_level r.acquisition_method
    ok (some established)

  -- `_establish(…)`.
  unfoldable pub establish :
      ℕ
      → EvidenceItem
      → (boundary provider_identity : String) → (provider_configuration : Entries)
      → ProviderRegistry
      → Result (Option EvidenceItem)
  unfolding registration_for
  establish provider item boundary identity configuration s = do
    found ← registration_for provider identity configuration s
    establish_with item boundary found
