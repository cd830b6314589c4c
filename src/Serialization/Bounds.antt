-- ===== src/Serialization/Bounds.antt =====
-- The bounds that `_validate_decoded_shape` keeps, and that its loop ends.
use runmantle.Prelude.{
  ℕ, zero, suc, ◌+◌, ◌≤◌, ◌≡◌, ◌≢◌, ◌↔◌, refl, ap, false, [], ◌∷◌, ltb, length, ok, arith,
}
use runmantle.Serialization.{Json}
use runmantle.Serialization.Shape.{
  Stack, push_children, own_items, ShapeEnd, fits, too_deep, too_many, out_of_fuel, scan, size,
  shape_guard, validate_decoded_shape,
}
use runmantle.Serialization.Within.{
  IsWithin, StackWithin, stack_size, size_pos, length-le-stack_size, own_items-lt-size,
  push_children-measures, push_children-IsWithin,
}

module _ (max_depth max_items : ℕ) where
  scan-fits :
      (fuel : ℕ) (stack : Stack) (counted : ℕ)
      → scan max_depth max_items fuel stack counted ≡ fits
      → StackWithin max_depth stack
        × (counted ≤ max_items → counted + stack_size stack ≤ max_items + length stack)
  unfolding scan
  scan-fits fuel [] counted h = (tt, λ low. omega arith)
  scan-fits zero ((v, depth) ∷ stack) counted h = cc (h)
  scan-fits (suc fuel) ((v, depth) ∷ stack) counted h =
      let deep : ltb max_depth depth ≡ false = ground arith in
      let few : ltb max_items (counted + own_items v) ≡ false = ground arith in
      let (inside, bound) =
        scan-fits fuel (push_children (depth + 1) v stack) (counted + own_items v)
          (rw (deep, few) at h) in
      let (sizes, lengths) = push_children-measures (depth + 1) v stack in
      (
        (push_children-IsWithin max_depth depth v stack).0 (ground (arith, deep), inside),
        λ low. omega (arith, bound (ground (arith, few)), sizes, lengths),
      )

  within-scan :
      (fuel : ℕ) (stack : Stack) (counted : ℕ)
      → stack_size stack ≤ fuel
      → StackWithin max_depth stack
      → counted + stack_size stack ≤ max_items + length stack
      → scan max_depth max_items fuel stack counted ≡ fits
  unfolding scan
  within-scan fuel [] counted enough inside bound = refl
  within-scan zero ((v, depth) ∷ stack) counted enough inside bound =
      absurd (omega (arith, size_pos v))
  within-scan (suc fuel) ((v, depth) ∷ stack) counted enough inside bound =
      let (sizes, lengths) = push_children-measures (depth + 1) v stack in
      let (deep, below) = (push_children-IsWithin max_depth depth v stack).1 inside in
      let own : counted + own_items v ≤ max_items =
        omega (arith, own_items-lt-size v, length-le-stack_size stack) in
      let rest =
        within-scan fuel (push_children (depth + 1) v stack) (counted + own_items v)
          (omega (arith, sizes)) below (omega (arith, sizes, lengths)) in
      ground (arith, deep, own, rest)

  scan-enough :
      (fuel : ℕ) (stack : Stack) (counted : ℕ)
      → stack_size stack ≤ fuel
      → scan max_depth max_items fuel stack counted ≢ out_of_fuel
  unfolding scan
  scan-enough fuel [] counted enough h = cc (h)
  scan-enough zero ((v, depth) ∷ stack) counted enough h = omega (arith, size_pos v)
  scan-enough (suc fuel) ((v, depth) ∷ stack) counted enough h =
      let (sizes, lengths) = push_children-measures (depth + 1) v stack in
      scan-enough fuel (push_children (depth + 1) v stack) (counted + own_items v)
        (omega (arith, sizes)) (ground arith)

  pub validate-IsWithin :
      (v : Json)
      → (validate_decoded_shape max_depth max_items v ≡ ok tt)
        ↔ (IsWithin max_depth 1 v × (size v ≤ max_items + 1))
  unfolding validate_decoded_shape
  validate-IsWithin v = (
    λ h.
        let (inside, bound) = scan-fits (size v) ((v, 1) ∷ []) 0 (shape_guard-ok _ h) in
        (inside.0, omega (arith, bound (omega arith))),
    λ h.
        ap shape_guard
          (within-scan (size v) ((v, 1) ∷ []) 0 (omega arith) (h.0, tt) (omega (arith, h.1))),
  )
    where
      shape_guard-ok : (e : ShapeEnd) → shape_guard e ≡ ok tt → e ≡ fits
      shape_guard-ok fits h = refl
      shape_guard-ok too_deep h = cc (h)
      shape_guard-ok too_many h = cc (h)
      shape_guard-ok out_of_fuel h = cc (h)

  -- The loop over the stack of decoded values ends within as many rounds as there are values,
  -- whatever the limits.
  pub scan_total : (v : Json) → scan max_depth max_items (size v) ((v, 1) ∷ []) 0 ≢ out_of_fuel
  scan_total v = scan-enough (size v) ((v, 1) ∷ []) 0 (omega arith)
