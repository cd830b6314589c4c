-- ===== src/Value/Resolve/Raises.antt =====
-- What `_resolve_field` raises.
use runmantle.Prelude.{
  ◌≡◌, refl, String, true, Option, none, some, List, [], ◌∷◌, IsOk, Result, ok, err, ◌>>=◌,
  traverse, split_dots, Bool-cases, inl, inr, ℕ,
}
use runmantle.Value.{Value, list, tuple, mapping}
use runmantle.Value.Resolve.{
  Attributes, Digits, at_position, at_index, or_index, step_into, walk, resolve_field,
}

-- What is raised, if anything, is what `int` raised on a text that `isdigit` holds of.
abbrev pub RaisesOnlyInt {ℓ} : Digits → {A : Type ℓ} → Result A → Type 0
RaisesOnlyInt d (ok a) = Unit
RaisesOnlyInt d (err e) = (s : String) × (d.isdigit s ≡ true) × (d.to_int s ≡ err e)

module _ (d : Digits) {A B : Type 0} where
  pub >>=-RaisesOnlyInt :
      (r : Result A) (next : A → Result B)
      → RaisesOnlyInt d r
      → ((a : A) → RaisesOnlyInt d (next a))
      → RaisesOnlyInt d (r >>= next)
  >>=-RaisesOnlyInt (ok a) next h k = k a
  >>=-RaisesOnlyInt (err e) next h k = h

module _ (d : Digits) {A : Type 0} where
  pub IsOk-RaisesOnlyInt : (r : Result A) → IsOk r → RaisesOnlyInt d r
  IsOk-RaisesOnlyInt r h = rw h.1 tt

module _ (d : Digits) {A B : Type 0} where
  pub traverse-RaisesOnlyInt :
      (f : A → Result B) (xs : List A)
      → ((x : A) → RaisesOnlyInt d (f x))
      → RaisesOnlyInt d (traverse f xs)
  unfolding traverse
  traverse-RaisesOnlyInt f [] h = tt
  traverse-RaisesOnlyInt f (x ∷ xs) h =
      >>=-RaisesOnlyInt d (f x) _ (h x)
        λ _. >>=-RaisesOnlyInt d (traverse f xs) _ (traverse-RaisesOnlyInt f xs h) λ _. tt

module _ (attributes : Attributes) (d : Digits) where
  to_int-RaisesOnlyInt :
      (segment : String) (r : Result ℕ)
      → d.isdigit segment ≡ true
      → d.to_int segment ≡ r
      → RaisesOnlyInt d r
  to_int-RaisesOnlyInt segment (ok i) h g = tt
  to_int-RaisesOnlyInt segment (err e) h g = (segment, h, g)

  at_position-RaisesOnlyInt :
      (items : ℕ → Option Value) (segment : String)
      → RaisesOnlyInt d (at_position attributes d items segment)
  unfolding at_position
  at_position-RaisesOnlyInt items segment = elim (Bool-cases (d.isdigit segment)) [
    | inl digits ↦ rw digits (
        >>=-RaisesOnlyInt d (d.to_int segment) _ (to_int-RaisesOnlyInt segment _ digits refl)
          λ _. tt)
    | inr other ↦ rw other tt
  ]

  at_index-RaisesOnlyInt :
      (v : Value) (segment : String) → RaisesOnlyInt d (at_index attributes d v segment)
  unfolding at_index
  at_index-RaisesOnlyInt (list items) segment = at_position-RaisesOnlyInt _ segment
  at_index-RaisesOnlyInt (tuple items) segment = at_position-RaisesOnlyInt _ segment
  at_index-RaisesOnlyInt v segment = tt

  or_index-RaisesOnlyInt :
      (v : Value) (segment : String) (o : Option Value)
      → RaisesOnlyInt d (or_index attributes d v segment o)
  or_index-RaisesOnlyInt v segment (some w) = tt
  or_index-RaisesOnlyInt v segment none = at_index-RaisesOnlyInt v segment

  step_into-RaisesOnlyInt :
      (v : Value) (segment : String) → RaisesOnlyInt d (step_into attributes d v segment)
  unfolding step_into
  step_into-RaisesOnlyInt (mapping es) segment = tt
  step_into-RaisesOnlyInt v segment = or_index-RaisesOnlyInt v segment (attributes v segment)

  walk-RaisesOnlyInt :
      (v : Value) (segments : List String) → RaisesOnlyInt d (walk attributes d v segments)
  unfolding walk
  walk-RaisesOnlyInt v [] = tt
  walk-RaisesOnlyInt v (segment ∷ rest) =
      >>=-RaisesOnlyInt d (step_into attributes d v segment) _ (step_into-RaisesOnlyInt v segment)
        (going_on λ w. walk-RaisesOnlyInt w rest)
    where
      going_on :
          ((w : Value) → RaisesOnlyInt d (walk attributes d w rest))
          → (found : Option Value)
          → RaisesOnlyInt d (elim found [ some w ↦ walk attributes d w rest | none ↦ ok none ])
      going_on h (some w) = h w
      going_on h none = tt

  pub resolve_field-RaisesOnlyInt :
      (v : Value) (path : String) → RaisesOnlyInt d (resolve_field attributes d v path)
  unfolding resolve_field
  resolve_field-RaisesOnlyInt v path = walk-RaisesOnlyInt v (split_dots path)
