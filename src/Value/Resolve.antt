-- ===== src/Value/Resolve.antt =====
-- `_resolve_field` and `_item_value` of src/runmantle/verification.py.
pub mod Raises
use runmantle.Prelude.{
  ℕ, String, Bool, Option, none, some, List, [], ◌∷◌, split_dots, Result, ok, ◌>>=◌, if◌then◌else◌,
}
use runmantle.Value.{Value, list, tuple, mapping, lookup, get_item}

-- `getattr(value, segment)`, or `none` where `hasattr` is false: the classes of the values are
-- Python's and the application's.
abbrev pub Attributes : Type 0
Attributes = Value → String → Option Value

-- `segment.isdigit()` and `int(segment)`, by Unicode's tables. There are texts that `isdigit` holds of
-- and `int` refuses: a superscript two, or more digits than the interpreter converts.
pub record Digits : Type 0 where
  pub isdigit : String → Bool
  pub to_int : String → Result ℕ

module _ (attributes : Attributes) (digits : Digits) where
  at_position : (ℕ → Option Value) → String → Result (Option Value)
  at_position items segment =
      if digits.isdigit segment
      then (do index ← digits.to_int segment; ok (items index))
      else ok none

  at_index : Value → String → Result (Option Value)
  unfolding at_position
  at_index (list items) segment = at_position (get_item items) segment
  at_index (tuple items) segment = at_position (get_item items) segment
  at_index v segment = ok none

  abbrev or_index : Value → String → Option Value → Result (Option Value)
  or_index v segment (some w) = ok (some w)
  or_index v segment none = at_index v segment

  step_into : Value → String → Result (Option Value)
  unfolding at_index
  step_into (mapping es) segment = ok (lookup segment es)
  step_into v segment = or_index v segment (attributes v segment)

  -- The loop over the segments. `none` is `_MISSING`.
  walk : Value → List String → Result (Option Value)
  unfolding step_into
  walk v [] = ok (some v)
  walk v (segment ∷ rest) = do
    found ← step_into v segment
    elim found [ some w ↦ walk w rest | none ↦ ok none ]

  unfoldable pub resolve_field : Value → String → Result (Option Value)
  unfolding walk lookup get_item split_dots
  resolve_field v path = walk v (split_dots path)
