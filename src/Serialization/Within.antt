-- ===== src/Serialization/Within.antt =====
-- The loop of `_validate_decoded_shape` against the depth and the number of the values themselves.
use runmantle.Prelude.{ℕ, suc, ◌+◌, ◌≤◌, ◌≡◌, ◌↔◌, [], ◌∷◌, length, arith}
use runmantle.Serialization.{Json, JsonItems, JsonEntries}
use runmantle.Serialization.Shape.{
  Stack, push_items, push_values, push_children, length_items, length_entries, own_items, size,
  size_items, size_entries,
}

-- No value stands deeper than `max_depth`, where the outermost one stands at `depth`.
unfoldable mutual
  pub IsWithin : ℕ → ℕ → Json → Type 0
  IsWithin max_depth depth (Json.list vs) = (depth ≤ max_depth) × AreWithin max_depth (depth + 1) vs
  IsWithin max_depth depth (Json.dict es) =
      (depth ≤ max_depth) × ValuesWithin max_depth (depth + 1) es
  IsWithin max_depth depth _ = (depth ≤ max_depth) × Unit

  pub AreWithin : ℕ → ℕ → JsonItems → Type 0
  AreWithin max_depth depth JsonItems.nil = Unit
  AreWithin max_depth depth (JsonItems.cons v vs) =
      IsWithin max_depth depth v × AreWithin max_depth depth vs

  pub ValuesWithin : ℕ → ℕ → JsonEntries → Type 0
  ValuesWithin max_depth depth JsonEntries.end = Unit
  ValuesWithin max_depth depth (JsonEntries.entry k v es) =
      IsWithin max_depth depth v × ValuesWithin max_depth depth es

abbrev pub StackWithin : ℕ → Stack → Type 0
StackWithin max_depth [] = Unit
StackWithin max_depth ((v, depth) ∷ stack) =
    IsWithin max_depth depth v × StackWithin max_depth stack

abbrev pub stack_size : Stack → ℕ
stack_size [] = 0
stack_size ((v, depth) ∷ stack) = size v + stack_size stack

pub size_pos : (v : Json) → 1 ≤ size v
unfolding size
size_pos (Json.list vs) = omega arith
size_pos (Json.dict es) = omega arith
size_pos Json.null = omega arith
size_pos (Json.bool b) = omega arith
size_pos (Json.int i) = omega arith
size_pos (Json.float x) = omega arith
size_pos (Json.str s) = omega arith

pub length-le-stack_size : (stack : Stack) → length stack ≤ stack_size stack
length-le-stack_size [] = omega arith
length-le-stack_size ((v, depth) ∷ stack) = omega (arith, size_pos v, length-le-stack_size stack)

length_items-le-size : (vs : JsonItems) → length_items vs ≤ size_items vs
unfolding length_items size_items
length_items-le-size JsonItems.nil = omega arith
length_items-le-size (JsonItems.cons v vs) = omega (arith, size_pos v, length_items-le-size vs)

length_entries-le-size : (es : JsonEntries) → length_entries es ≤ size_entries es
unfolding length_entries size_entries
length_entries-le-size JsonEntries.end = omega arith
length_entries-le-size (JsonEntries.entry k v es) =
    omega (arith, size_pos v, length_entries-le-size es)

pub own_items-lt-size : (v : Json) → suc (own_items v) ≤ size v
unfolding own_items size
own_items-lt-size (Json.list vs) = omega (arith, length_items-le-size vs)
own_items-lt-size (Json.dict es) = omega (arith, length_entries-le-size es)
own_items-lt-size Json.null = omega arith
own_items-lt-size (Json.bool b) = omega arith
own_items-lt-size (Json.int i) = omega arith
own_items-lt-size (Json.float x) = omega arith
own_items-lt-size (Json.str s) = omega arith

-- What pushing does to the measures of the stack.
push_items-measures :
    (depth : ℕ) (vs : JsonItems) (stack : Stack)
    → (stack_size (push_items depth vs stack) ≡ size_items vs + stack_size stack)
      × (length (push_items depth vs stack) ≡ length_items vs + length stack)
unfolding push_items size_items length_items
push_items-measures depth JsonItems.nil stack = (omega arith, omega arith)
push_items-measures depth (JsonItems.cons v vs) stack =
    let (sizes, lengths) = push_items-measures depth vs ((v, depth) ∷ stack) in
    (omega (arith, sizes), omega (arith, lengths))

push_values-measures :
    (depth : ℕ) (es : JsonEntries) (stack : Stack)
    → (stack_size (push_values depth es stack) ≡ size_entries es + stack_size stack)
      × (length (push_values depth es stack) ≡ length_entries es + length stack)
unfolding push_values size_entries length_entries
push_values-measures depth JsonEntries.end stack = (omega arith, omega arith)
push_values-measures depth (JsonEntries.entry k v es) stack =
    let (sizes, lengths) = push_values-measures depth es ((v, depth) ∷ stack) in
    (omega (arith, sizes), omega (arith, lengths))

pub push_children-measures :
    (depth : ℕ) (v : Json) (stack : Stack)
    → (suc (stack_size (push_children depth v stack)) ≡ size v + stack_size stack)
      × (length (push_children depth v stack) ≡ own_items v + length stack)
unfolding push_children size own_items
push_children-measures depth (Json.list vs) stack =
    let (sizes, lengths) = push_items-measures depth vs stack in (omega (arith, sizes), lengths)
push_children-measures depth (Json.dict es) stack =
    let (sizes, lengths) = push_values-measures depth es stack in (omega (arith, sizes), lengths)
push_children-measures depth Json.null stack = (omega arith, omega arith)
push_children-measures depth (Json.bool b) stack = (omega arith, omega arith)
push_children-measures depth (Json.int i) stack = (omega arith, omega arith)
push_children-measures depth (Json.float x) stack = (omega arith, omega arith)
push_children-measures depth (Json.str s) stack = (omega arith, omega arith)

module _ (max_depth : ℕ) where
  push_items-AreWithin :
      (depth : ℕ) (vs : JsonItems) (stack : Stack)
      → StackWithin max_depth (push_items depth vs stack)
        ↔ (AreWithin max_depth depth vs × StackWithin max_depth stack)
  unfolding push_items AreWithin
  push_items-AreWithin depth JsonItems.nil stack = (λ h. (tt, h), λ h. h.1)
  push_items-AreWithin depth (JsonItems.cons v vs) stack =
      let (there, back) = push_items-AreWithin depth vs ((v, depth) ∷ stack) in
      (
        λ h. let (rest, (here, below)) = there h in ((here, rest), below),
        λ h. back (h.0.1, (h.0.0, h.1)),
      )

  push_values-ValuesWithin :
      (depth : ℕ) (es : JsonEntries) (stack : Stack)
      → StackWithin max_depth (push_values depth es stack)
        ↔ (ValuesWithin max_depth depth es × StackWithin max_depth stack)
  unfolding push_values ValuesWithin
  push_values-ValuesWithin depth JsonEntries.end stack = (λ h. (tt, h), λ h. h.1)
  push_values-ValuesWithin depth (JsonEntries.entry k v es) stack =
      let (there, back) = push_values-ValuesWithin depth es ((v, depth) ∷ stack) in
      (
        λ h. let (rest, (here, below)) = there h in ((here, rest), below),
        λ h. back (h.0.1, (h.0.0, h.1)),
      )

  -- A value is within the bound where it stands there and its children are.
  pub push_children-IsWithin :
      (depth : ℕ) (v : Json) (stack : Stack)
      → ((depth ≤ max_depth) × StackWithin max_depth (push_children (depth + 1) v stack))
        ↔ (IsWithin max_depth depth v × StackWithin max_depth stack)
  unfolding push_children IsWithin
  push_children-IsWithin depth (Json.list vs) stack =
      let (there, back) = push_items-AreWithin (depth + 1) vs stack in
      (
        λ h. let (items, below) = there h.1 in ((h.0, items), below),
        λ h. (h.0.0, back (h.0.1, h.1)),
      )
  push_children-IsWithin depth (Json.dict es) stack =
      let (there, back) = push_values-ValuesWithin (depth + 1) es stack in
      (
        λ h. let (items, below) = there h.1 in ((h.0, items), below),
        λ h. (h.0.0, back (h.0.1, h.1)),
      )
  push_children-IsWithin depth Json.null stack = (λ h. ((h.0, tt), h.1), λ h. (h.0.0, h.1))
  push_children-IsWithin depth (Json.bool b) stack = (λ h. ((h.0, tt), h.1), λ h. (h.0.0, h.1))
  push_children-IsWithin depth (Json.int i) stack = (λ h. ((h.0, tt), h.1), λ h. (h.0.0, h.1))
  push_children-IsWithin depth (Json.float x) stack = (λ h. ((h.0, tt), h.1), λ h. (h.0.0, h.1))
  push_children-IsWithin depth (Json.str s) stack = (λ h. ((h.0, tt), h.1), λ h. (h.0.0, h.1))
