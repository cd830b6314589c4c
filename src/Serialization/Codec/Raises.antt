-- ===== src/Serialization/Codec/Raises.antt =====
-- What `SafeJsonCodec` raises.
use runmantle.Prelude.{
  ◌⊎◌, inl, inr, ◌||◌, ◌==◌, Bool-cases, ◌≡◌, refl, String, Bool, true, false, not, Error, Result,
  ok, err, value_error, runtime_error, type_error, integrity_error, serialization_error, raised,
  raise_if, ◌>>=◌, ◌>>◌, if◌then◌else◌,
}
use runmantle.Serialization.{is_finite, Data, DataItems, DataEntries, Primitives}
use runmantle.Serialization.Encode.{to_json, to_json_items, to_json_entries}
use runmantle.Serialization.Codec.{wrapped, parsed, is_caught, rewrap, is_parse_error}

-- What is raised, if anything, is an exception that the codec handles.
abbrev pub RaisesCaught {ℓ} : {A : Type ℓ} → Result A → Type 0
RaisesCaught (ok a) = Unit
RaisesCaught (err e) = is_caught e ≡ true

abbrev pub RaisesSerialization {ℓ} : {A : Type ℓ} → Result A → Type 0
RaisesSerialization (ok a) = Unit
RaisesSerialization (err e) = (m : String) × (e ≡ serialization_error m)

abbrev pub is_overflow : Error → Bool
is_overflow (raised name m) = name == "OverflowError"
is_overflow _ = false

-- What is raised, if anything, is an exception that the codec handles, or an `OverflowError`.
abbrev pub RaisesKnown {ℓ} : {A : Type ℓ} → Result A → Type 0
RaisesKnown (ok a) = Unit
RaisesKnown (err e) = (is_caught e || is_overflow e) ≡ true

-- What is raised, if anything, is a serialization error or an `OverflowError`.
abbrev pub RaisesOutside {ℓ} : {A : Type ℓ} → Result A → Type 0
RaisesOutside (ok a) = Unit
RaisesOutside (err e) = ((m : String) × (e ≡ serialization_error m)) ⊎ (is_overflow e ≡ true)

abbrev pub RaisesParse {ℓ} : {A : Type ℓ} → Result A → Type 0
RaisesParse (ok a) = Unit
RaisesParse (err e) = is_parse_error e ≡ true

module _ {A B : Type 0} where
  pub >>=-RaisesCaught :
      (r : Result A) (next : A → Result B)
      → RaisesCaught r
      → ((a : A) → RaisesCaught (next a))
      → RaisesCaught (r >>= next)
  >>=-RaisesCaught (ok a) next h k = k a
  >>=-RaisesCaught (err e) next h k = h

  pub >>=-RaisesKnown :
      (r : Result A) (next : A → Result B)
      → RaisesKnown r
      → ((a : A) → RaisesKnown (next a))
      → RaisesKnown (r >>= next)
  >>=-RaisesKnown (ok a) next h k = k a
  >>=-RaisesKnown (err e) next h k = h

  pub >>=-RaisesOutside :
      (r : Result A) (next : A → Result B)
      → RaisesSerialization r
      → ((a : A) → RaisesOutside (next a))
      → RaisesOutside (r >>= next)
  >>=-RaisesOutside (ok a) next h k = k a
  >>=-RaisesOutside (err e) next h k = inl h

  pub >>=-RaisesSerialization :
      (r : Result A) (next : A → Result B)
      → RaisesSerialization r
      → ((a : A) → RaisesSerialization (next a))
      → RaisesSerialization (r >>= next)
  >>=-RaisesSerialization (ok a) next h k = k a
  >>=-RaisesSerialization (err e) next h k = h

module _ {B : Type 0} where
  pub raise_if-RaisesCaught :
      (b : Bool) (e : Error) (next : Result B)
      → is_caught e ≡ true
      → RaisesCaught next
      → RaisesCaught (raise_if b e >> next)
  raise_if-RaisesCaught true e next h k = h
  raise_if-RaisesCaught false e next h k = k

  pub raise_if-RaisesSerialization :
      (b : Bool) (m : String) (next : Result B)
      → RaisesSerialization next
      → RaisesSerialization (raise_if b (serialization_error m) >> next)
  raise_if-RaisesSerialization true m next k = (m, refl)
  raise_if-RaisesSerialization false m next k = k

  pub raise_if-RaisesKnown :
      (b : Bool) (e : Error) (next : Result B)
      → is_caught e ≡ true
      → RaisesKnown next
      → RaisesKnown (raise_if b e >> next)
  raise_if-RaisesKnown true e next h k = rw h refl
  raise_if-RaisesKnown false e next h k = k

  pub raise_if-RaisesOutside :
      (b : Bool) (m : String) (next : Result B)
      → RaisesOutside next
      → RaisesOutside (raise_if b (serialization_error m) >> next)
  raise_if-RaisesOutside true m next k = inl (m, refl)
  raise_if-RaisesOutside false m next k = k

  pub choice-RaisesCaught :
      (b : Bool) (r s : Result B)
      → RaisesCaught r
      → RaisesCaught s
      → RaisesCaught (if b then r else s)
  choice-RaisesCaught true r s h k = h
  choice-RaisesCaught false r s h k = k

  pub choice-RaisesKnown :
      (b : Bool) (r s : Result B) → RaisesKnown r → RaisesKnown s → RaisesKnown (if b then r else s)
  choice-RaisesKnown true r s h k = h
  choice-RaisesKnown false r s h k = k

  pub RaisesCaught→Known : (r : Result B) → RaisesCaught r → RaisesKnown r
  RaisesCaught→Known (ok b) h = tt
  RaisesCaught→Known (err e) h = rw h refl

  -- Of what `loads` and `dumps` do not handle, only an `OverflowError` is left.
  pub wrapped-RaisesOutside : (r : Result B) → RaisesKnown r → RaisesOutside (wrapped r)
  unfolding rewrap is_caught
  wrapped-RaisesOutside (ok b) h = tt
  wrapped-RaisesOutside (err (value_error m)) h = inl (m, refl)
  wrapped-RaisesOutside (err (type_error m)) h = inl (m, refl)
  wrapped-RaisesOutside (err (integrity_error m)) h = inl (m, refl)
  wrapped-RaisesOutside (err (serialization_error m)) h = inl (m, refl)
  wrapped-RaisesOutside (err (runtime_error m)) h = cc (h)
  wrapped-RaisesOutside (err (raised name m)) h = elim (Bool-cases (is_caught (raised name m))) [
    | inl caught ↦ inl (m, rw caught refl)
    | inr uncaught ↦
        let overflow : is_overflow (raised name m) ≡ true = rw uncaught at h in
        rw uncaught (inr overflow)
  ]

  pub wrapped-RaisesSerialization :
      (r : Result B) → RaisesCaught r → RaisesSerialization (wrapped r)
  unfolding rewrap is_caught
  wrapped-RaisesSerialization (ok b) h = tt
  wrapped-RaisesSerialization (err (value_error m)) h = (m, refl)
  wrapped-RaisesSerialization (err (type_error m)) h = (m, refl)
  wrapped-RaisesSerialization (err (integrity_error m)) h = (m, refl)
  wrapped-RaisesSerialization (err (serialization_error m)) h = (m, refl)
  wrapped-RaisesSerialization (err (runtime_error m)) h = cc
  wrapped-RaisesSerialization (err (raised name m)) h = (m, rw h refl)

  pub parsed-RaisesSerialization : (r : Result B) → RaisesParse r → RaisesSerialization (parsed r)
  parsed-RaisesSerialization (ok b) h = tt
  parsed-RaisesSerialization (err e) h = ("persisted value is not valid JSON", rw h refl)

  pub RaisesSerialization→Caught : (r : Result B) → RaisesSerialization r → RaisesCaught r
  unfolding is_caught
  RaisesSerialization→Caught (ok b) h = tt
  RaisesSerialization→Caught (err e) h = rw h.1 refl

mutual
  unfolding to_json to_json_items to_json_entries

  pub to_json-Raises : (p : Primitives) (v : Data) → RaisesSerialization (to_json p v)
  to_json-Raises p Data.null = tt
  to_json-Raises p (Data.bool b) = tt
  to_json-Raises p (Data.int i) = tt
  to_json-Raises p (Data.float x) = raise_if-RaisesSerialization (not (is_finite x)) _ _ tt
  to_json-Raises p (Data.str s) = tt
  to_json-Raises p (Data.bytes bs) = tt
  to_json-Raises p (Data.datetime t) = raise_if-RaisesSerialization (not t.aware) _ _ tt
  to_json-Raises p (Data.timedelta d) = tt
  to_json-Raises p (Data.path s) = tt
  to_json-Raises p (Data.enum v) = to_json-Raises p v
  to_json-Raises p (Data.dataclass es) =
      >>=-RaisesSerialization _ _ (to_json_entries-Raises p es) (λ _. tt)
  to_json-Raises p (Data.mapping es) =
      >>=-RaisesSerialization _ _ (to_json_entries-Raises p es) (λ _. tt)
  to_json-Raises p Data.mixed_mapping = (_, refl)
  to_json-Raises p (Data.frozenset vs) =
      >>=-RaisesSerialization _ _ (to_json_items-Raises p vs) (λ _. tt)
  to_json-Raises p (Data.sequence vs) =
      >>=-RaisesSerialization _ _ (to_json_items-Raises p vs) (λ _. tt)
  to_json-Raises p (Data.foreign name) = (_, refl)

  to_json_items-Raises :
      (p : Primitives) (vs : DataItems) → RaisesSerialization (to_json_items p vs)
  to_json_items-Raises p DataItems.nil = tt
  to_json_items-Raises p (DataItems.cons v vs) =
      >>=-RaisesSerialization _ _ (to_json-Raises p v)
        (λ _. >>=-RaisesSerialization _ _ (to_json_items-Raises p vs) (λ _. tt))

  to_json_entries-Raises :
      (p : Primitives) (es : DataEntries) → RaisesSerialization (to_json_entries p es)
  to_json_entries-Raises p DataEntries.end = tt
  to_json_entries-Raises p (DataEntries.entry k v es) =
      >>=-RaisesSerialization _ _ (to_json-Raises p v)
        (λ _. >>=-RaisesSerialization _ _ (to_json_entries-Raises p es) (λ _. tt))
