-- ===== src/Serialization/Codec/Loaded.antt =====
-- What a text has gone through that `SafeJsonCodec.loads` returns a value for.
use runmantle.Prelude.{
  ℕ, ◌+◌, ◌≤◌, ◌≡◌, ◌↔◌, refl, String, some, ltb, arith, Error, Result, ok, err, raise_if,
  >>=-eq-ok, >>-eq-ok,
}
use runmantle.Serialization.{Json, Data, Primitives}
use runmantle.Serialization.Decode.{from_json}
use runmantle.Serialization.Shape.{size, validate_decoded_shape}
use runmantle.Serialization.Within.{IsWithin}
use runmantle.Serialization.Bounds.{validate-IsWithin}
use runmantle.Serialization.Codec.{SafeJsonCodec, JsonText, wrapped, parsed, decode, loads}

wrapped-eq-ok : {A : Type 0} (r : Result A) {a : A} → wrapped r ≡ ok a → r ≡ ok a
wrapped-eq-ok (ok a) h = h
wrapped-eq-ok (err e) h = cc

parsed-eq-ok : {A : Type 0} (r : Result A) {a : A} → parsed r ≡ ok a → r ≡ ok a
parsed-eq-ok (ok a) h = h
parsed-eq-ok (err e) h = cc

raise_if-le : (a b : ℕ) (m : Error) → raise_if (ltb a b) m ≡ ok tt → b ≤ a
raise_if-le a b m h = ground arith

le-raise_if : (a b : ℕ) (m : Error) → b ≤ a → raise_if (ltb a b) m ≡ ok tt
le-raise_if a b m h = ground arith

module _ (p : Primitives) (t : JsonText) (c : SafeJsonCodec) where
  -- The text is small enough, it is the JSON of a value that is neither too deep nor too large, and
  -- that value is decoded.
  unfoldable pub IsLoaded : String → Data → Type 0
  IsLoaded s v =
      (bytes : ℕ) × (j : Json) × (t.utf8_length s ≡ ok bytes)
      × (bytes ≤ c.max_bytes)
      × (t.parse s ≡ ok j)
      × IsWithin c.max_depth 1 j
      × (size j ≤ c.max_collection_items + 1)
      × (from_json p j ≡ ok v)

  -- `loads` returns a value exactly when the text has at most the allowed number of bytes, it is
  -- the JSON of a value in which nothing stands deeper than the allowed depth and whose containers
  -- have at most the allowed number of items in all, and that value is decoded as the one
  -- returned.
  pub loads-IsLoaded : (s : String) (v : Data) → (loads p t c (some s) ≡ ok v) ↔ IsLoaded s v
  unfolding loads IsLoaded
  loads-IsLoaded s v = (
    λ h.
        let (bytes, measured, h') = >>=-eq-ok (t.utf8_length s) _ h in
        let (small, h'') = >>-eq-ok (raise_if (ltb c.max_bytes bytes) _) _ h' in
        let (j, read, h''') = >>=-eq-ok (parsed (t.parse s)) _ h'' in
        let (valid, decoded) =
          >>-eq-ok (validate_decoded_shape c.max_depth c.max_collection_items j) _
            (wrapped-eq-ok (decode p t c j) h''') in
        let (within, few) = (validate-IsWithin c.max_depth c.max_collection_items j).0 valid in
        (
          bytes,
          j,
          measured,
          raise_if-le c.max_bytes bytes _ small,
          parsed-eq-ok (t.parse s) read,
          within,
          few,
          decoded,
        ),
    λ (bytes, j, measured, small, read, within, few, decoded).
        rw
          (
            measured,
            le-raise_if c.max_bytes bytes _ small,
            read,
            (validate-IsWithin c.max_depth c.max_collection_items j).1 (within, few),
            decoded,
          )
          refl,
  )
