-- ===== src/Examples/Providers.antt =====
-- A registry with one provider, and the theorems of the registry at it.
use runmantle.Prelude.{◌≡◌, refl, true, some, none, [], ◌∷◌, ok}
use runmantle.Value.{end}
use runmantle.Evidence.{TrustLevel, AcquisitionMethod}
use runmantle.Evidence.Registry.{ProviderRegistration, ProviderRegistry, new_registry, establish}
use runmantle.Evidence.Registry.Sealed.{
  registers, seals, make_calls, make_calls_sealed, Granted, establish-Granted,
}
use runmantle.Examples.Samples.{program, hashing, stripped_item, observed_item}

abbrev pytest : ProviderRegistration
pytest = record {
  provider = 1;
  provider_identity = "pytest";
  provider_configuration = end;
  trust_level = TrustLevel.runtime_observed;
  acquisition_method = AcquisitionMethod.runtime_observed;
}

abbrev impostor : ProviderRegistration
impostor = record pytest { trust_level = TrustLevel.independent }

abbrev sealed_registry : ProviderRegistry
sealed_registry = record { registrations = pytest ∷ []; is_sealed = true }

make_calls-new_registry : make_calls (registers pytest ∷ seals ∷ []) new_registry ≡ sealed_registry
unfolding make_calls
make_calls-new_registry = refl

make_calls_sealed_example :
    make_calls (registers impostor ∷ seals ∷ []) sealed_registry ≡ sealed_registry
make_calls_sealed_example = make_calls_sealed (registers impostor ∷ seals ∷ []) sealed_registry refl

establish_registered :
    establish hashing 1 stripped_item "runtime" "pytest" end sealed_registry
    ≡ ok (some observed_item)
unfolding program establish
establish_registered = refl

establish_unregistered :
    establish hashing 2 stripped_item "runtime" "pytest" end sealed_registry ≡ ok none
unfolding establish
establish_unregistered = refl

establish-Granted_example : Granted hashing 1 "pytest" sealed_registry observed_item
establish-Granted_example =
    establish-Granted hashing 1 stripped_item observed_item "runtime" "pytest" end sealed_registry
      establish_registered
