-- ===== src/Serialization/Shape.antt =====
-- src/runmantle/serialization.py: `_validate_decoded_shape`, a loop over an explicit stack.
use runmantle.Prelude.{
  ℕ, zero, suc, ◌+◌, List, [], ◌∷◌, ltb, Guard, ok, err, serialization_error, if◌then◌else◌,
}
use runmantle.Serialization.{Json, JsonItems, JsonEntries}

-- The values that are left, each with its depth, the last one of the stack first.
abbrev pub Stack : Type 0
Stack = List (Json × ℕ)

unfoldable pub push_items : ℕ → JsonItems → Stack → Stack
push_items depth JsonItems.nil stack = stack
push_items depth (JsonItems.cons v vs) stack = push_items depth vs ((v, depth) ∷ stack)

unfoldable pub push_values : ℕ → JsonEntries → Stack → Stack
push_values depth JsonEntries.end stack = stack
push_values depth (JsonEntries.entry k v es) stack = push_values depth es ((v, depth) ∷ stack)

unfoldable pub length_items : JsonItems → ℕ
length_items JsonItems.nil = 0
length_items (JsonItems.cons v vs) = suc (length_items vs)

unfoldable pub length_entries : JsonEntries → ℕ
length_entries JsonEntries.end = 0
length_entries (JsonEntries.entry k v es) = suc (length_entries es)

-- `len(item)` for a container, and the stack with its children.
unfoldable pub own_items : Json → ℕ
unfolding length_items length_entries
own_items (Json.list vs) = length_items vs
own_items (Json.dict es) = length_entries es
own_items _ = 0

unfoldable pub push_children : ℕ → Json → Stack → Stack
unfolding push_items push_values
push_children depth (Json.list vs) stack = push_items depth vs stack
push_children depth (Json.dict es) stack = push_values depth es stack
push_children depth _ stack = stack

pub data ShapeEnd : Type 0 where
  fits too_deep too_many out_of_fuel : ShapeEnd

module _ (max_depth max_items : ℕ) where
  unfoldable pub scan : (fuel : ℕ) → Stack → ℕ → ShapeEnd
  unfolding own_items push_children
  scan fuel [] counted = fits
  scan zero ((v, depth) ∷ stack) counted = out_of_fuel
  scan (suc fuel) ((v, depth) ∷ stack) counted =
      let counted' = counted + own_items v in
      let rest = scan fuel (push_children (depth + 1) v stack) counted' in
      if ltb max_depth depth then too_deep else if ltb max_items counted' then too_many else rest

unfoldable mutual
  -- The number of values in a value, itself counted.
  pub size : Json → ℕ
  size Json.null = 1
  size (Json.bool b) = 1
  size (Json.int i) = 1
  size (Json.float x) = 1
  size (Json.str s) = 1
  size (Json.list vs) = suc (size_items vs)
  size (Json.dict es) = suc (size_entries es)

  pub size_items : JsonItems → ℕ
  size_items JsonItems.nil = 0
  size_items (JsonItems.cons v vs) = size v + size_items vs

  pub size_entries : JsonEntries → ℕ
  size_entries JsonEntries.end = 0
  size_entries (JsonEntries.entry k v es) = size v + size_entries es

abbrev pub shape_guard : ShapeEnd → Guard
shape_guard fits = ok tt
shape_guard too_deep = err (serialization_error "persisted value exceeds the maximum depth")
shape_guard too_many =
    err (serialization_error "persisted value exceeds the maximum collection item count")
shape_guard out_of_fuel = err (serialization_error "")

-- Each round takes one value from the stack, so that the number of values is fuel enough.
unfoldable pub validate_decoded_shape : (max_depth max_items : ℕ) → Json → Guard
unfolding scan
validate_decoded_shape max_depth max_items v =
    shape_guard (scan max_depth max_items (size v) ((v, 1) ∷ []) 0)
