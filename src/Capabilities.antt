-- ===== src/Capabilities.antt =====
-- src/runmantle/capabilities.py: capability declarations and their registry.
use runmantle.Prelude.{
  String, ◌<>◌, Bool, false, Option, none, some, List, [], ◌∷◌, ◌++◌, is_some, Guard, Result, ok,
  err, value_error, ◌>>◌, ◌==◌, if◌then◌else◌,
}
use runmantle.Validation.{require_non_empty}
use runmantle.Contracts.{RiskLevel, TaskStatus}

pub record CapabilityDeclaration : Type 0 where
  pub name : String
  pub description : String
  pub safety_notes : List String
  pub available : Bool
  pub recovery_supported : Bool
  pub supported_task_states : List TaskStatus
  pub requires_idempotency : Bool
  pub maximum_risk_level : RiskLevel
  pub requires_approval : Bool
  pub requires_runtime_confirmation : Bool

-- `CapabilityDeclaration(…)`.
unfoldable pub construct_declaration : CapabilityDeclaration → Result CapabilityDeclaration
unfolding require_non_empty
construct_declaration d = do
  require_non_empty d.name "capability name"
  require_non_empty d.description "capability description"
  ok d

-- The dictionary, in the order of its insertions.
abbrev pub CapabilityRegistry : Type 0
CapabilityRegistry = List CapabilityDeclaration

unfoldable pub get_declaration : String → CapabilityRegistry → Option CapabilityDeclaration
get_declaration name [] = none
get_declaration name (d ∷ ds) = if d.name == name then some d else get_declaration name ds

unfoldable pub register_declaration :
    CapabilityDeclaration → CapabilityRegistry → Guard × CapabilityRegistry
unfolding get_declaration
register_declaration d registry =
    if is_some (get_declaration d.name registry)
    then (err (value_error ("capability '" <> d.name <> "' is already registered")), registry)
    else (ok tt, registry ++ d ∷ [])

unfoldable pub is_available : String → CapabilityRegistry → Bool
unfolding get_declaration
is_available name registry = elim (get_declaration name registry) [
  | none ↦ false
  | some d ↦ d.available
]
