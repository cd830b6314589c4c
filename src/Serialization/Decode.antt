-- ===== src/Serialization/Decode.antt =====
-- src/runmantle/serialization.py: `_from_json`.
use runmantle.Prelude.{
  ℕ, String, Bool, true, false, not, ◌&&◌, ◌||◌, Option, none, some, List, Result, ok, err,
  value_error, serialization_error, ◌>>=◌, ◌>>◌, raise_if, ◌==◌, if◌then◌else◌,
}
use runmantle.Serialization.{
  Float, Json, JsonItems, JsonEntries, Data, DataItems, DataEntries, Primitives,
}
use runmantle.Serialization.Encode.{marker_key}

-- `value.get(key)`. The keys of a dictionary are distinct.
unfoldable pub get_key : String → JsonEntries → Option Json
get_key key JsonEntries.end = none
get_key key (JsonEntries.entry k v es) =
    let rest = get_key key es in if k == key then some v else rest

-- `set(value) == {first, second}`, for two keys that differ.
unfoldable pub only_keys : String → String → JsonEntries → Bool
only_keys first second JsonEntries.end = true
only_keys first second (JsonEntries.entry k v es) =
    (k == first || k == second) && only_keys first second es

abbrev pub is_marker : String → Json → Bool
is_marker kind (Json.str s) = s == kind
is_marker kind _ = false

-- Some value that says it is no plain dictionary: the key is there and holds more than `None`.
abbrev pub present : Option Json → Option Json
present (some Json.null) = none
present v = v

abbrev pub marker_of : JsonEntries → Option Json
marker_of es = present (get_key marker_key es)

abbrev pub or_decoding_error : Result (List ℕ) → Result Data
or_decoding_error (ok bs) = ok (Data.bytes bs)
or_decoding_error (err (value_error m)) =
    err (serialization_error "persisted bytes contain invalid base64")
or_decoding_error (err e) = err e

module _ (p : Primitives) where
  abbrev pub text_value : Json → String
  text_value (Json.str s) = s
  text_value v = p.text_of v

  abbrev pub float_value : Json → Result Float
  float_value (Json.float x) = ok x
  float_value v = p.float_of v

  abbrev bad_marker : Result Data
  bad_marker = err (serialization_error "persisted JSON contains an invalid type marker")

  abbrev pub decode_bytes : Option Json → Result Data
  decode_bytes (some v) = or_decoding_error (p.b64decode (text_value v))
  decode_bytes none = bad_marker

  abbrev pub decode_datetime : Option Json → Result Data
  decode_datetime (some v) = do
    t ← p.fromisoformat (text_value v)
    raise_if (not t.aware) (serialization_error "persisted datetime is not timezone-aware")
    ok (Data.datetime t)
  decode_datetime none = bad_marker

  abbrev pub decode_timedelta : Option Json → Result Data
  decode_timedelta (some v) = do x ← float_value v; d ← p.timedelta_of x; ok (Data.timedelta d)
  decode_timedelta none = bad_marker

  abbrev pub decode_path : Option Json → Result Data
  decode_path (some v) = ok (Data.path (text_value v))
  decode_path none = bad_marker

  -- A dictionary with a marker, which is one of its keys; the other one may be missing.
  unfoldable pub from_marked : Json → JsonEntries → Result Data
  unfolding only_keys get_key
  from_marked marker es =
      if is_marker "bytes" marker && only_keys marker_key "base64" es
      then decode_bytes (get_key "base64" es)
      else if is_marker "datetime" marker && only_keys marker_key "value" es
      then decode_datetime (get_key "value" es)
      else if is_marker "timedelta" marker && only_keys marker_key "seconds" es
      then decode_timedelta (get_key "seconds" es)
      else if is_marker "path" marker && only_keys marker_key "value" es
      then decode_path (get_key "value" es)
      else bad_marker

  abbrev pub from_dict : Option Json → JsonEntries → Result DataEntries → Result Data
  from_dict none es (ok entries) = ok (Data.mapping entries)
  from_dict none es (err e) = err e
  from_dict (some marker) es entries = from_marked marker es

  unfoldable mutual
    unfolding get_key from_marked

    pub from_json : Json → Result Data
    from_json Json.null = ok Data.null
    from_json (Json.bool b) = ok (Data.bool b)
    from_json (Json.int i) = ok (Data.int i)
    from_json (Json.float x) = ok (Data.float x)
    from_json (Json.str s) = ok (Data.str s)
    from_json (Json.list vs) = do items ← from_json_items vs; ok (Data.sequence items)
    from_json (Json.dict es) = from_dict (marker_of es) es (from_json_entries es)

    pub from_json_items : JsonItems → Result DataItems
    from_json_items JsonItems.nil = ok DataItems.nil
    from_json_items (JsonItems.cons v vs) = do
      item ← from_json v
      items ← from_json_items vs
      ok (DataItems.cons item items)

    pub from_json_entries : JsonEntries → Result DataEntries
    from_json_entries JsonEntries.end = ok DataEntries.end
    from_json_entries (JsonEntries.entry k v es) = do
      item ← from_json v
      entries ← from_json_entries es
      ok (DataEntries.entry k item entries)
