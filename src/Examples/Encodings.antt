-- ===== src/Examples/Encodings.antt =====
-- Values, their JSON, and the theorems of the codec at them.
use runmantle.Prelude.{
  raised, ◌≡◌, arith, refl, String, true, some, [], ◌∷◌, ◌==◌, ok, err, value_error, type_error,
  text_le, text_length, if◌then◌else◌,
}
use runmantle.Value.{pos}
use runmantle.Serialization.{
  Json, JsonItems, JsonEntries, Data, DataItems, DataEntries, Primitives, is_finite,
}
use runmantle.Serialization.Encode.{
  sort_items, insert_sorted, to_json, to_json_items, to_json_entries,
}
use runmantle.Serialization.Decode.{
  get_key, only_keys, from_marked, from_json, from_json_items, from_json_entries,
}
use runmantle.Serialization.Shape.{
  scan, size, size_items, size_entries, own_items, length_items, length_entries, push_items,
  push_values, push_children, validate_decoded_shape, out_of_fuel,
}
use runmantle.Serialization.Within.{IsWithin, AreWithin, ValuesWithin}
use runmantle.Serialization.Bounds.{scan_total}
use runmantle.Serialization.RoundTrip.{
  LacksKey, IsPlain, ArePlainItems, ArePlainEntries, without_classes, items_without_classes,
  entries_without_classes, from_json-to_json,
}
use runmantle.Serialization.Codec.{
  SafeJsonCodec, JsonText, check_limits, is_caught, rewrap, is_parse_error, dumps, loads,
}
use runmantle.Serialization.Codec.Loaded.{IsLoaded, loads-IsLoaded}
use runmantle.Serialization.Codec.Raises.{RaisesOutside, choice-RaisesCaught}
use runmantle.Serialization.Codec.Wrapped.{loads-Raises}
use runmantle.Examples.Samples.{at}

unfoldable pub codec_program : Unit {0}
unfolding is_finite text_le text_length sort_items insert_sorted to_json to_json_items
    to_json_entries get_key only_keys from_marked from_json from_json_items from_json_entries scan
    size size_items size_entries own_items length_items length_entries push_items push_values
    push_children validate_decoded_shape IsWithin AreWithin ValuesWithin LacksKey IsPlain
    ArePlainItems ArePlainEntries without_classes items_without_classes entries_without_classes
    check_limits is_caught rewrap is_parse_error dumps loads IsLoaded
codec_program = tt

-- The library's functions, as far as the samples need them.
abbrev pub primitives : Primitives
primitives = record {
  b64encode = λ _. "AQI=";
  b64decode = λ s. if s == "AQI=" then ok (1 ∷ 2 ∷ []) else err (value_error "Incorrect padding");
  isoformat = λ _. "1970-01-01T00:00:00+00:00";
  fromisoformat = λ s.
      if s == "1970-01-01T00:00:00+00:00"
      then ok (at 0)
      else err (value_error "Invalid isoformat string");
  total_seconds = λ _. record { bits = 4609434218613702656 };
  timedelta_of = λ _. ok (pos 1500000);
  text_of = λ _. "";
  float_of = λ _. err (type_error "float() argument must be a string or a real number");
  sort_key = λ _. "";
}

abbrev sample : Data
sample = Data.dataclass (
    DataEntries.entry "digest" (Data.bytes (1 ∷ 2 ∷ [])) (
      DataEntries.entry "times"
        (Data.sequence (
          DataItems.cons (Data.datetime (at 0))
            (DataItems.cons (Data.timedelta (pos 1500000)) DataItems.nil)))
        (DataEntries.entry "state" (Data.enum (Data.str "done")) DataEntries.end)))

abbrev marked_json : String → String → String → Json
marked_json kind key text = Json.dict (
    JsonEntries.entry "$runmantle_type" (Json.str kind)
      (JsonEntries.entry key (Json.str text) JsonEntries.end))

abbrev sample_json : Json
sample_json = Json.dict (
    JsonEntries.entry "digest" (marked_json "bytes" "base64" "AQI=") (
      JsonEntries.entry "times"
        (Json.list (
          JsonItems.cons (marked_json "datetime" "value" "1970-01-01T00:00:00+00:00") (
            JsonItems.cons
              (Json.dict (
                JsonEntries.entry "$runmantle_type" (Json.str "timedelta") (
                  JsonEntries.entry "seconds" (Json.float (record { bits = 4609434218613702656 }))
                    JsonEntries.end)))
              JsonItems.nil)))
        (JsonEntries.entry "state" (Json.str "done") JsonEntries.end)))

from_json-to_json_example : from_json primitives sample_json ≡ ok (without_classes sample)
unfolding codec_program
from_json-to_json_example =
    from_json-to_json primitives sample
      ((refl, (refl, (refl, tt))), (refl, ((refl, (refl, tt)), (tt, tt)))) sample_json refl

-- A mapping that holds the marker's key is encoded as a value of another type is.
mapping_as_path :
    to_json primitives (
      Data.mapping (
        DataEntries.entry "$runmantle_type"
          (Data.str "path")
          (DataEntries.entry "value" (Data.str "/tmp/x") DataEntries.end)))
    ≡ to_json primitives (Data.path "/tmp/x")
unfolding codec_program
mapping_as_path = refl

scan_total_example : (scan 3 9 (size sample_json) ((sample_json, 1) ∷ []) 0 ≡ out_of_fuel) → ⊥
scan_total_example = scan_total 3 9 sample_json

abbrev codec : SafeJsonCodec
codec = record { max_bytes = 20; max_depth = 2; max_collection_items = 3 }

abbrev nested : Json
nested = Json.list (JsonItems.cons Json.null (JsonItems.cons (Json.bool true) JsonItems.nil))

abbrev texts : JsonText
texts = record {
  print = λ _. ok "[null,true]";
  parse = λ s. if s == "[null,true]" then ok nested else ok (marked_json "set" "value" "");
  utf8_length = λ s. ok (text_length s);
}

loads-IsLoaded_example :
    loads primitives texts codec (some "[null,true]")
    ≡ ok (Data.sequence (DataItems.cons Data.null (DataItems.cons (Data.bool true) DataItems.nil)))
unfolding codec_program
loads-IsLoaded_example =
    (loads-IsLoaded primitives texts codec "[null,true]" (
        Data.sequence (DataItems.cons Data.null (DataItems.cons (Data.bool true) DataItems.nil)))).1
      (
        11,
        nested,
        refl,
        omega arith,
        refl,
        (omega arith, ((omega arith, tt), ((omega arith, tt), tt))),
        omega arith,
        refl,
      )

-- `timedelta(seconds=1e300)` is out of range.
abbrev overflowing : Primitives
overflowing = record primitives {
  timedelta_of = λ _. err (raised "OverflowError" "days=...; must have magnitude <= 999999999");
}

loads-Raises_example : RaisesOutside (loads overflowing texts codec (some "{}"))
unfolding codec_program
loads-Raises_example =
    loads-Raises overflowing
      (
        λ s.
            choice-RaisesCaught (s == "AQI=") (ok (1 ∷ 2 ∷ []))
              (err (value_error "Incorrect padding")) tt refl,
        λ s.
            choice-RaisesCaught (s == "1970-01-01T00:00:00+00:00") (ok (at 0))
              (err (value_error "Invalid isoformat string")) tt refl,
        λ _. refl,
        λ _. refl,
      )
      texts codec "{}" (2, refl) tt
