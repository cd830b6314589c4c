-- ===== src/Serialization/Codec/Wrapped.antt =====
-- The errors of `SafeJsonCodec` are serialization errors, but for the `OverflowError` of two functions
-- of the standard library.
use runmantle.Prelude.{
  ℕ, refl, String, not, ◌&&◌, Option, none, some, List, ltb, Guard, Result, IsOk, ok, err,
  value_error, runtime_error, type_error, integrity_error, serialization_error, raised, ◌>>◌,
}
use runmantle.Serialization.{Float, Json, JsonItems, JsonEntries, Data, DataEntries, Primitives}
use runmantle.Serialization.Encode.{marker_key, to_json}
use runmantle.Serialization.Decode.{
  or_decoding_error, text_value, float_value, decode_bytes, decode_datetime, decode_timedelta,
  decode_path, get_key, only_keys, is_marker, marker_of, from_dict, from_marked, from_json,
  from_json_items, from_json_entries,
}
use runmantle.Serialization.Shape.{
  shape_guard, ShapeEnd, fits, too_deep, too_many, out_of_fuel, validate_decoded_shape,
}
use runmantle.Serialization.Codec.{SafeJsonCodec, JsonText, parsed, is_caught, decode, dumps, loads}
use runmantle.Serialization.Codec.Raises.{
  RaisesKnown, RaisesOutside, >>=-RaisesKnown, >>=-RaisesOutside, raise_if-RaisesKnown,
  raise_if-RaisesOutside, choice-RaisesKnown, RaisesCaught→Known, wrapped-RaisesOutside,
  RaisesCaught, RaisesSerialization, RaisesParse, >>=-RaisesCaught, raise_if-RaisesCaught,
  wrapped-RaisesSerialization, parsed-RaisesSerialization, RaisesSerialization→Caught,
  to_json-Raises,
}

-- What Python's documentation says of the primitives: `timedelta(seconds=…)` and `float(…)` may raise an
-- `OverflowError`, and otherwise they raise only what the codec handles.
abbrev pub AreDocumented : Primitives → Type 0
AreDocumented p =
    ((s : String) → RaisesCaught (p.b64decode s))
    × ((s : String) → RaisesCaught (p.fromisoformat s))
    × ((x : Float) → RaisesKnown (p.timedelta_of x))
    × ((v : Json) → RaisesKnown (p.float_of v))

module _ (p : Primitives) (caught : AreDocumented p) where
  decode_bytes-Raises : (o : Option Json) → RaisesKnown (decode_bytes p o)
  unfolding is_caught
  decode_bytes-Raises none = refl
  decode_bytes-Raises (some v) =
      or_decoding_error-Raises (p.b64decode (text_value p v)) (RaisesCaught→Known _ (caught.0 _))
    where
      or_decoding_error-Raises :
          (r : Result (List ℕ)) → RaisesKnown r → RaisesKnown (or_decoding_error r)
      or_decoding_error-Raises (ok bs) h = tt
      or_decoding_error-Raises (err (value_error m)) h = refl
      or_decoding_error-Raises (err (type_error m)) h = refl
      or_decoding_error-Raises (err (integrity_error m)) h = refl
      or_decoding_error-Raises (err (serialization_error m)) h = refl
      or_decoding_error-Raises (err (runtime_error m)) h = h
      or_decoding_error-Raises (err (raised name m)) h = h

  decode_datetime-Raises : (o : Option Json) → RaisesKnown (decode_datetime p o)
  unfolding is_caught
  decode_datetime-Raises none = refl
  decode_datetime-Raises (some v) =
      >>=-RaisesKnown (p.fromisoformat (text_value p v)) _ (RaisesCaught→Known _ (caught.1 _))
        (λ t. raise_if-RaisesKnown (not t.aware) _ _ refl tt)

  decode_timedelta-Raises : (o : Option Json) → RaisesKnown (decode_timedelta p o)
  unfolding is_caught
  decode_timedelta-Raises none = refl
  decode_timedelta-Raises (some v) =
      >>=-RaisesKnown (float_value p v) _ (float_value-Raises v)
        (λ x. >>=-RaisesKnown (p.timedelta_of x) _ (caught.2 _) (λ _. tt))
    where
      float_value-Raises : (v : Json) → RaisesKnown (float_value p v)
      float_value-Raises (Json.float x) = tt
      float_value-Raises Json.null = caught.3 _
      float_value-Raises (Json.bool b) = caught.3 _
      float_value-Raises (Json.int i) = caught.3 _
      float_value-Raises (Json.str s) = caught.3 _
      float_value-Raises (Json.list vs) = caught.3 _
      float_value-Raises (Json.dict es) = caught.3 _

  decode_path-Raises : (o : Option Json) → RaisesKnown (decode_path p o)
  unfolding is_caught
  decode_path-Raises none = refl
  decode_path-Raises (some v) = tt

  from_marked-Raises : (marker : Json) (es : JsonEntries) → RaisesKnown (from_marked p marker es)
  unfolding from_marked is_caught
  from_marked-Raises marker es =
      choice-RaisesKnown (is_marker "bytes" marker && only_keys marker_key "base64" es) _ _
        (decode_bytes-Raises (get_key "base64" es))
        (choice-RaisesKnown (is_marker "datetime" marker && only_keys marker_key "value" es) _ _
          (decode_datetime-Raises (get_key "value" es))
          (choice-RaisesKnown (is_marker "timedelta" marker && only_keys marker_key "seconds" es) _
            _ (decode_timedelta-Raises (get_key "seconds" es))
            (choice-RaisesKnown (is_marker "path" marker && only_keys marker_key "value" es)
              (decode_path p (get_key "value" es)) _ (decode_path-Raises (get_key "value" es))
              refl)))

  from_dict-Raises :
      (marker : Option Json) (es : JsonEntries) (entries : Result DataEntries)
      → RaisesKnown entries
      → RaisesKnown (from_dict p marker es entries)
  from_dict-Raises none es (ok entries) h = tt
  from_dict-Raises none es (err e) h = h
  from_dict-Raises (some marker) es entries h = from_marked-Raises marker es

  mutual
    unfolding from_json from_json_items from_json_entries

    from_json-Raises : (j : Json) → RaisesKnown (from_json p j)
    from_json-Raises Json.null = tt
    from_json-Raises (Json.bool b) = tt
    from_json-Raises (Json.int i) = tt
    from_json-Raises (Json.float x) = tt
    from_json-Raises (Json.str s) = tt
    from_json-Raises (Json.list vs) =
        >>=-RaisesKnown (from_json_items p vs) _ (from_json_items-Raises vs) (λ _. tt)
    from_json-Raises (Json.dict es) =
        from_dict-Raises (marker_of es) es _ (from_json_entries-Raises es)

    from_json_items-Raises : (vs : JsonItems) → RaisesKnown (from_json_items p vs)
    from_json_items-Raises JsonItems.nil = tt
    from_json_items-Raises (JsonItems.cons v vs) =
        >>=-RaisesKnown (from_json p v) _ (from_json-Raises v)
          (λ _. >>=-RaisesKnown (from_json_items p vs) _ (from_json_items-Raises vs) (λ _. tt))

    from_json_entries-Raises : (es : JsonEntries) → RaisesKnown (from_json_entries p es)
    from_json_entries-Raises JsonEntries.end = tt
    from_json_entries-Raises (JsonEntries.entry k v es) =
        >>=-RaisesKnown (from_json p v) _ (from_json-Raises v)
          (λ _. >>=-RaisesKnown (from_json_entries p es) _ (from_json_entries-Raises es) (λ _. tt))

  validate-Raises :
      (max_depth max_items : ℕ) (j : Json)
      → RaisesSerialization (validate_decoded_shape max_depth max_items j)
  unfolding validate_decoded_shape
  validate-Raises max_depth max_items j = shape_guard-Raises _
    where
      shape_guard-Raises : (e : ShapeEnd) → RaisesSerialization (shape_guard e)
      shape_guard-Raises fits = tt
      shape_guard-Raises too_deep = (_, refl)
      shape_guard-Raises too_many = (_, refl)
      shape_guard-Raises out_of_fuel = (_, refl)

  decode-Raises : (t : JsonText) (c : SafeJsonCodec) (j : Json) → RaisesKnown (decode p t c j)
  decode-Raises t c j = guarded (validate_decoded_shape c.max_depth c.max_collection_items j) (
      RaisesCaught→Known _
        (RaisesSerialization→Caught _ (validate-Raises c.max_depth c.max_collection_items j)))
    where
      guarded : (g : Guard) → RaisesKnown g → RaisesKnown (g >> from_json p j)
      guarded (ok _) h = from_json-Raises j
      guarded (err e) h = h

  -- Where the library's functions on single values raise only errors that the codec handles, or,
  -- `float` and `timedelta`, an OverflowError, the number of bytes of the text is defined, and
  -- `json.loads` raises on it, if anything, a decoding, type or recursion error, `loads` returns,
  -- or raises a serialization error or an OverflowError.
  pub loads-Raises :
      (t : JsonText) (c : SafeJsonCodec) (s : String)
      → IsOk (t.utf8_length s)
      → RaisesParse (t.parse s)
      → RaisesOutside (loads p t c (some s))
  unfolding loads
  loads-Raises t c s measured parses = rw measured.1 (
      raise_if-RaisesOutside (ltb c.max_bytes measured.0) _ _ (
        >>=-RaisesOutside (parsed (t.parse s)) _ (parsed-RaisesSerialization _ parses)
          (λ j. wrapped-RaisesOutside _ (decode-Raises t c j))))

pub dumps-Raises :
    (p : Primitives) (t : JsonText) (c : SafeJsonCodec) (v : Data)
    → ((j : Json) → RaisesCaught (t.print j))
    → ((s : String) → RaisesCaught (t.utf8_length s))
    → RaisesSerialization (dumps p t c v)
unfolding dumps is_caught
dumps-Raises p t c v prints measures = wrapped-RaisesSerialization _ (
    >>=-RaisesCaught (to_json p v) _ (RaisesSerialization→Caught _ (to_json-Raises p v)) (λ j.
      >>=-RaisesCaught (t.print j) _ (prints j) (λ s.
        >>=-RaisesCaught (t.utf8_length s) _ (measures s)
          (λ n. raise_if-RaisesCaught (ltb c.max_bytes n) _ _ refl tt))))
