-- ===== src/Serialization/Encode.antt =====
-- src/runmantle/serialization.py: `_to_json`.
use runmantle.Prelude.{
  String, ◌<>◌, not, text_le, Result, ok, err, serialization_error, ◌>>=◌, ◌>>◌, raise_if,
  if◌then◌else◌,
}
use runmantle.Serialization.{
  is_finite, Json, JsonItems, JsonEntries, Data, DataItems, DataEntries, Primitives,
}

abbrev pub marker_key : String
marker_key = "$runmantle_type"

-- A dictionary with a type marker and one more key.
abbrev pub marked : String → String → Json → Json
marked kind key v =
    Json.dict
      (JsonEntries.entry marker_key (Json.str kind) (JsonEntries.entry key v JsonEntries.end))

module _ (p : Primitives) where
  -- `sorted(converted, key=_stable_sort_key)`, which keeps the order of equal keys.
  unfoldable pub insert_sorted : Json → JsonItems → JsonItems
  unfolding text_le
  insert_sorted v JsonItems.nil = JsonItems.cons v JsonItems.nil
  insert_sorted v (JsonItems.cons w ws) =
      let rest = insert_sorted v ws in
      if text_le (p.sort_key v) (p.sort_key w)
      then JsonItems.cons v (JsonItems.cons w ws)
      else JsonItems.cons w rest

  unfoldable pub sort_items : JsonItems → JsonItems
  unfolding insert_sorted
  sort_items JsonItems.nil = JsonItems.nil
  sort_items (JsonItems.cons v vs) = insert_sorted v (sort_items vs)

  unfoldable mutual
    unfolding is_finite sort_items

    pub to_json : Data → Result Json
    to_json Data.null = ok Json.null
    to_json (Data.bool b) = ok (Json.bool b)
    to_json (Data.int i) = ok (Json.int i)
    to_json (Data.float x) = do
      raise_if (not (is_finite x)) (serialization_error "non-finite floats are not supported")
      ok (Json.float x)
    to_json (Data.str s) = ok (Json.str s)
    to_json (Data.bytes bs) = ok (marked "bytes" "base64" (Json.str (p.b64encode bs)))
    to_json (Data.datetime t) = do
      raise_if (not t.aware) (serialization_error "datetime values must be timezone-aware")
      ok (marked "datetime" "value" (Json.str (p.isoformat t)))
    to_json (Data.timedelta d) = ok (marked "timedelta" "seconds" (Json.float (p.total_seconds d)))
    to_json (Data.path s) = ok (marked "path" "value" (Json.str s))
    to_json (Data.enum v) = to_json v
    to_json (Data.dataclass es) = do entries ← to_json_entries es; ok (Json.dict entries)
    to_json (Data.mapping es) = do entries ← to_json_entries es; ok (Json.dict entries)
    to_json Data.mixed_mapping = err (serialization_error "JSON object keys must be strings")
    to_json (Data.frozenset vs) = do items ← to_json_items vs; ok (Json.list (sort_items items))
    to_json (Data.sequence vs) = do items ← to_json_items vs; ok (Json.list items)
    to_json (Data.foreign name) =
        err (serialization_error ("value of type " <> name <> " is not safely JSON serializable"))

    pub to_json_items : DataItems → Result JsonItems
    to_json_items DataItems.nil = ok JsonItems.nil
    to_json_items (DataItems.cons v vs) = do
      item ← to_json v
      items ← to_json_items vs
      ok (JsonItems.cons item items)

    pub to_json_entries : DataEntries → Result JsonEntries
    to_json_entries DataEntries.end = ok JsonEntries.end
    to_json_entries (DataEntries.entry k v es) = do
      item ← to_json v
      entries ← to_json_entries es
      ok (JsonEntries.entry k item entries)
