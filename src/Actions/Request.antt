-- ===== src/Actions/Request.antt =====
-- src/runmantle/actions.py: `ActionRequest.__post_init__`, its guards and its hashes.
use runmantle.Prelude.{
  zero, suc, String, ◌<>◌, Bool, true, false, not, Option, none, some, List, [], ◌∷◌, map, Result,
  ok, value_error, ◌>>=◌, ◌>>◌, raise_if,
}
use runmantle.Value.{ℤ, pos, negsuc}
use runmantle.Validation.{require_non_empty_attributes, require_aware, require_unique}
use runmantle.Contracts.{risk_value}
use runmantle.Serialization.{Data, DataItems, DataEntries, Primitives}
use runmantle.Serialization.Codec.{JsonText, dumps}
use runmantle.Actions.{Precondition, Postcondition, ActionRequest, default_codec}

abbrev optional : Option String → Data
optional none = Data.null
optional (some s) = Data.str s

abbrev items_of : List Data → DataItems
items_of [] = DataItems.nil
items_of (v ∷ vs) = DataItems.cons v (items_of vs)

abbrev entries_of : List (String × Data) → DataEntries
entries_of [] = DataEntries.end
entries_of ((k, v) ∷ es) = DataEntries.entry k v (entries_of es)

abbrev object : List (String × Data) → Data
object es = Data.mapping (entries_of es)

abbrev describe_precondition : Precondition → Data
describe_precondition c = object (
    ("name", Data.str c.name)
    ∷ ("description", Data.str c.description)
    ∷ ("evaluator", Data.str c.evaluator)
    ∷ [])

abbrev describe_postcondition : Postcondition → Data
describe_postcondition c = object (
    ("name", Data.str c.name)
    ∷ ("description", Data.str c.description)
    ∷ ("evidence_type", optional c.evidence_type)
    ∷ ("required", Data.bool c.required)
    ∷ ("provider_identity", Data.str c.provider_identity)
    ∷ ("provider_configuration", Data.mapping c.provider_configuration)
    ∷ [])

abbrev pub is_positive : ℤ → Bool
is_positive (pos zero) = false
is_positive (pos (suc _)) = true
is_positive (negsuc _) = false

module _ (p : Primitives) (t : JsonText) (sha256 : String → String) where
  -- `approval_manifest`: what the action's hash is made of.
  unfoldable pub approval_manifest : ActionRequest → Data
  unfolding risk_value
  approval_manifest r = object (
      ("manifest_version", Data.int (pos 2))
      ∷ ("task_id", Data.str r.task_id)
      ∷ ("name", Data.str r.name)
      ∷ ("required_capability", Data.str r.required_capability)
      ∷ ("input_hash", Data.str r.input_hash)
      ∷ ("idempotency_key", Data.str r.idempotency_key)
      ∷ ("risk_level", Data.str (risk_value r.risk_level))
      ∷ ("requested_by", Data.str r.requested_by)
      ∷ ("execution_handler_id", Data.str r.execution_handler_id)
      ∷ ("metadata", Data.mapping r.metadata)
      ∷ ("timeout_seconds", Data.float (p.total_seconds r.timeout))
      ∷ ("preconditions", Data.sequence (items_of (map describe_precondition r.preconditions)))
      ∷ ("postconditions", Data.sequence (items_of (map describe_postcondition r.postconditions)))
      ∷ [])

  -- `_sha256(codec.dumps(…))`.
  unfoldable pub hash_of : Data → Result String
  unfolding dumps
  hash_of v = do encoded ← dumps p t default_codec v; ok ("sha256:" <> sha256 encoded)

  abbrev pub with_action_hash : ActionRequest → Result ActionRequest
  with_action_hash r = do
    action_hash ← hash_of (approval_manifest r)
    ok (record r { action_hash = action_hash })

  -- `ActionRequest(…)`; the hashes that the argument carries are not looked at.
  unfoldable pub construct_request : ActionRequest → Result ActionRequest
  unfolding require_non_empty_attributes require_aware require_unique hash_of approval_manifest
  construct_request r = do
    require_non_empty_attributes "action request" (
        (r.action_id, "action_id")
        ∷ (r.task_id, "task_id")
        ∷ (r.name, "name")
        ∷ (r.required_capability, "required_capability")
        ∷ (r.idempotency_key, "idempotency_key")
        ∷ (r.requested_by, "requested_by")
        ∷ (r.execution_handler_id, "execution_handler_id")
        ∷ [])
    require_aware r.requested_at "action request timestamp must be timezone-aware"
    raise_if (not (is_positive r.timeout)) (value_error "action timeout must be greater than zero")
    require_unique (map (λ (c : Precondition). c.name) r.preconditions)
        "precondition names must be unique"
    require_unique (map (λ (c : Postcondition). c.name) r.postconditions)
        "postcondition names must be unique"
    input_hash ← hash_of (Data.mapping r.input)
    with_action_hash (record r { input_hash = input_hash })
