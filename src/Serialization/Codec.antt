-- ===== src/Serialization/Codec.antt =====
-- src/runmantle/serialization.py: `SafeJsonCodec`.
pub mod Loaded
pub mod Raises
pub mod Wrapped
use runmantle.Prelude.{
  ℕ, String, Bool, true, false, not, ◌||◌, Option, none, some, ltb, ◌==◌, Error, message, Guard,
  Result, ok, err, value_error, runtime_error, type_error, integrity_error, serialization_error,
  raised, ◌>>=◌, ◌>>◌, raise_if, if◌then◌else◌,
}
use runmantle.Serialization.{Json, Data, Primitives}
use runmantle.Serialization.Encode.{to_json}
use runmantle.Serialization.Decode.{from_json}
use runmantle.Serialization.Shape.{validate_decoded_shape}

pub record SafeJsonCodec : Type 0 where
  pub max_bytes : ℕ
  pub max_depth : ℕ
  pub max_collection_items : ℕ

-- `__post_init__`.
unfoldable pub check_limits : SafeJsonCodec → Guard
check_limits c =
    raise_if (ltb c.max_bytes 1 || ltb c.max_depth 1 || ltb c.max_collection_items 1)
      (value_error "safe JSON limits must be positive")

-- What the standard library does with texts: `json.dumps` with sorted keys, `json.loads`, and the
-- number of bytes of a text in UTF-8.
pub record JsonText : Type 0 where
  pub print : Json → Result String
  pub parse : String → Result Json
  pub utf8_length : String → Result ℕ

-- `isinstance(error, (RecursionError, TypeError, ValueError))`. A `raised` error has the name of its
-- class; `value_error` stands for the other subclasses of `ValueError` too.
unfoldable pub is_caught : Error → Bool
is_caught (runtime_error m) = false
is_caught (raised name m) = name == "RecursionError" || name == "JSONDecodeError"
is_caught _ = true

-- The handler at the end of `dumps` and `loads`.
unfoldable pub rewrap : Error → Error
unfolding is_caught
rewrap (serialization_error m) = serialization_error m
rewrap e = if is_caught e then serialization_error (message e) else e

abbrev pub wrapped {ℓ} : {A : Type ℓ} → Result A → Result A
wrapped (ok a) = ok a
wrapped (err e) = err (rewrap e)

-- `except (RecursionError, TypeError, json.JSONDecodeError)`.
unfoldable pub is_parse_error : Error → Bool
is_parse_error (type_error m) = true
is_parse_error (raised name m) = name == "RecursionError" || name == "JSONDecodeError"
is_parse_error _ = false

abbrev pub parsed {ℓ} : {A : Type ℓ} → Result A → Result A
parsed (ok a) = ok a
parsed (err e) =
    err (if is_parse_error e then serialization_error "persisted value is not valid JSON" else e)

module _ (p : Primitives) (t : JsonText) (c : SafeJsonCodec) where
  unfoldable pub dumps : Data → Result String
  unfolding to_json rewrap
  dumps v = wrapped (do
    j ← to_json p v
    encoded ← t.print j
    bytes ← t.utf8_length encoded
    raise_if (ltb c.max_bytes bytes)
        (serialization_error "serialized value exceeds the configured limit")
    ok encoded)

  abbrev pub decode : Json → Result Data
  decode j = do validate_decoded_shape c.max_depth c.max_collection_items j; from_json p j

  -- `none` is an argument that is no text.
  unfoldable pub loads : Option String → Result Data
  unfolding validate_decoded_shape from_json rewrap is_parse_error
  loads none = err (serialization_error "persisted value must be JSON text")
  loads (some s) = do
    bytes ← t.utf8_length s
    raise_if (ltb c.max_bytes bytes)
        (serialization_error "persisted value exceeds the configured limit")
    j ← parsed (t.parse s)
    wrapped (decode j)
