-- ===== src/Value/Equality.antt =====
-- Python's `==` on the values. `True == 1`, a list is no tuple, the order of a mapping's entries is
-- of no account, and instances of the application's classes are equal if they are one object.
use runmantle.Prelude.{ℕ, Bool, true, false, ◌&&◌, none, some, List, [], ◌∷◌, eqb, ◌==◌}
use runmantle.Value.{
  DateTime, ℤ, pos, negsuc, Value, null, bool, int, str, bytes, moment, seconds, list, tuple,
  mapping, object, Items, nil, cons, Entries, end, entry, lookup, count_entries,
}

eq_int : ℤ → ℤ → Bool
eq_int (pos m) (pos n) = eqb m n
eq_int (negsuc m) (negsuc n) = eqb m n
eq_int _ _ = false

eq_bytes : List ℕ → List ℕ → Bool
eq_bytes [] [] = true
eq_bytes (x ∷ xs) (y ∷ ys) = eqb x y && eq_bytes xs ys
eq_bytes _ _ = false

abbrev bool_int : Bool → ℤ
bool_int true = pos 1
bool_int false = pos 0

eq_bool : Bool → Bool → Bool
eq_bool true b = b
eq_bool false true = false
eq_bool false false = true

eq_moment : DateTime → DateTime → Bool
eq_moment s t = eq_bool s.aware t.aware && eqb s.instant t.instant

unfoldable mutual
  unfolding eq_int eq_bytes eq_bool eq_moment

  pub eq_value : Value → Value → Bool
  eq_value null null = true
  eq_value (bool b) (bool c) = eq_bool b c
  eq_value (bool b) (int j) = eq_int (bool_int b) j
  eq_value (int i) (bool c) = eq_int i (bool_int c)
  eq_value (int i) (int j) = eq_int i j
  eq_value (str s) (str t) = s == t
  eq_value (bytes s) (bytes t) = eq_bytes s t
  eq_value (moment s) (moment t) = eq_moment s t
  eq_value (seconds m) (seconds n) = eqb m n
  eq_value (list vs) (list ws) = eq_items vs ws
  eq_value (tuple vs) (tuple ws) = eq_items vs ws
  eq_value (mapping es) (mapping fs) =
      eqb (count_entries es) (count_entries fs) && entries_within es fs
  eq_value (object i c) (object j d) = eqb i j
  eq_value _ _ = false

  pub eq_items : Items → Items → Bool
  eq_items nil nil = true
  eq_items (cons v vs) (cons w ws) = eq_value v w && eq_items vs ws
  eq_items _ _ = false

  pub entries_within : Entries → Entries → Bool
  entries_within end fs = true
  entries_within (entry k v es) fs = elim (lookup k fs) [
    | some w ↦ eq_value v w && entries_within es fs
    | none ↦ false
  ]
