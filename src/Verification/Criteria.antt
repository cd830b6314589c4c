-- ===== src/Verification/Criteria.antt =====
-- src/runmantle/verification.py: the evaluation of each class of criterion.
use runmantle.Prelude.{
  ℕ, String, ◌<>◌, Bool, true, false, not, Option, none, some, List, [], ◌∷◌, any, ltb, is_some,
  is_empty, Result, ok, ◌>>=◌, if◌then◌else◌, default_to, length, text_length, traverse,
}
use runmantle.Value.{
  Value, null, str, bytes, list, tuple, mapping, object, count_items, count_entries,
}
use runmantle.Value.Resolve.{Attributes, Digits, resolve_field}
use runmantle.Value.Equality.{eq_value}
use runmantle.Contracts.{CriterionEvaluation}
use runmantle.Evidence.{EvidenceItem}
use runmantle.Evidence.Collection.{EvidenceCollection, of_type}
use runmantle.Verification.{
  Criterion, declared_condition, field_equals, collection_not_empty, runtime_confirmation, approval,
  custom,
}

-- What the application's classes answer: the attributes of a value, and the length of an instance
-- that has one; and what the language makes of digits.
pub record Classes : Type 0 where
  pub attributes : Attributes
  pub object_length : ℕ → String → Option ℕ
  pub digits : Digits

abbrev pub inconclusive_evaluation : String → String → CriterionEvaluation
inconclusive_evaluation name message = record {
  name = name;
  passed = false;
  message = message;
  conclusive = false;
  awaiting_runtime_confirmation = false;
  awaiting_approval = false;
}

abbrev pub conclusive_evaluation : String → Bool → String → CriterionEvaluation
conclusive_evaluation name passed message = record {
  name = name;
  passed = passed;
  message = message;
  conclusive = true;
  awaiting_runtime_confirmation = false;
  awaiting_approval = false;
}

-- `f"{text!r}"`, for a text with no quote, backslash or control character.
abbrev quoted : String → String
quoted s = "'" <> s <> "'"

-- `_item_value`.
unfoldable pub item_value : EvidenceItem → Value
item_value item = elim item.payload [ some es ↦ mapping es | none ↦ default_to null item.content ]

unfoldable pub evaluate_condition :
    String → String → String → Result (Option Bool) → Result CriterionEvaluation
evaluate_condition name success failure result = do
  answer ← result
  ok (elim answer [
    | none ↦ inconclusive_evaluation name "declared condition returned an ambiguous result"
    | some passed ↦ conclusive_evaluation name passed (if passed then success else failure)
  ])

-- `all(value == expected for value in values)`, over the values that were found.
unfoldable pub all_equal_to : Value → List (Option Value) → Bool
all_equal_to expected [] = true
all_equal_to expected (none ∷ vs) = all_equal_to expected vs
all_equal_to expected (some v ∷ vs) =
    let rest = all_equal_to expected vs in if eq_value v expected then rest else false

abbrev pub is_missing : Option Value → Bool
is_missing v = not (is_some v)

unfoldable pub compare_values : String → String → Value → List (Option Value) → CriterionEvaluation
unfolding all_equal_to
compare_values name path expected values =
    if any is_missing values
    then inconclusive_evaluation name ("field " <> quoted path <> " was unavailable")
    else let passed = all_equal_to expected values in
      conclusive_evaluation name passed (
        if passed
        then "field " <> quoted path <> " matched the expected value"
        else "field " <> quoted path <> " contradicted the expected value")

module _ (k : Classes) where
  -- `len(value)`, or `none` where the value has no `__len__`. Of a text it counts code points.
  size_of : Value → Option ℕ
  size_of (str s) = some (text_length s)
  size_of (bytes s) = some (length s)
  size_of (list vs) = some (count_items vs)
  size_of (tuple vs) = some (count_items vs)
  size_of (mapping es) = some (count_entries es)
  size_of (object i c) = k.object_length i c
  size_of _ = none

  unfoldable pub evaluate_field :
      String
      → String
      → Value
      → Option String
      → Value
      → EvidenceCollection
      → Result CriterionEvaluation
  unfolding compare_values resolve_field traverse
  evaluate_field name path expected none output evidence =
      resolve_field k.attributes k.digits output path >>= λ value.
      ok (compare_values name path expected (value ∷ []))
  evaluate_field name path expected (some evidence_type) output evidence = do
    items ← of_type evidence evidence_type
    if is_empty items.items
        then ok (inconclusive_evaluation name "no matching evidence was available")
        else (do
          values ←
              traverse (λ item. resolve_field k.attributes k.digits (item_value item) path)
                items.items
          ok (compare_values name path expected values))

  nonempty_evaluation : String → Option ℕ → CriterionEvaluation
  nonempty_evaluation name none =
      inconclusive_evaluation name "declared collection could not be evaluated"
  nonempty_evaluation name (some n) =
      let passed = ltb 0 n in
      conclusive_evaluation name passed
        (if passed then "collection was non-empty" else "collection was empty")

  abbrev size_of_found : Option Value → Option ℕ
  size_of_found none = none
  size_of_found (some v) = size_of v

  unfoldable pub evaluate_collection :
      String
      → Option String
      → Option String
      → Value
      → EvidenceCollection
      → Result CriterionEvaluation
  unfolding nonempty_evaluation size_of text_length
  evaluate_collection name field_path (some evidence_type) output evidence = do
    items ← of_type evidence evidence_type
    ok (nonempty_evaluation name (some (length items.items)))
  evaluate_collection name field_path none output evidence =
      resolve_field k.attributes k.digits output (default_to "" field_path) >>= λ value.
      ok (nonempty_evaluation name (size_of_found value))

  -- `criterion.evaluate(output, evidence)`.
  unfoldable pub evaluate : Criterion → Value → EvidenceCollection → Result CriterionEvaluation
  unfolding evaluate_condition evaluate_field evaluate_collection
  evaluate (declared_condition name _ predicate success failure) output evidence =
      evaluate_condition name success failure (predicate output evidence)
  evaluate (field_equals name _ path expected evidence_type) output evidence =
      evaluate_field name path expected evidence_type output evidence
  evaluate (collection_not_empty name _ path evidence_type) output evidence =
      evaluate_collection name path evidence_type output evidence
  evaluate (runtime_confirmation name _ key) output evidence =
      ok
        (record (inconclusive_evaluation name
          ("runtime confirmation " <> quoted key <> " is required")) {
            awaiting_runtime_confirmation = true;
          })
  evaluate (approval name _ key) output evidence =
      ok (record (inconclusive_evaluation name ("approval " <> quoted key <> " is required")) {
        awaiting_approval = true;
      })
  evaluate (custom _ _ answer) output evidence = answer output evidence
