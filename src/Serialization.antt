-- ===== src/Serialization.antt =====
-- src/runmantle/serialization.py: the values that the codec takes and the JSON that it makes.
pub mod Encode
pub mod Decode
pub mod Shape
pub mod Within
pub mod Bounds
pub mod RoundTrip
pub mod Codec
use runmantle.Prelude.{
  ℕ, suc, ◌+◌, ◌/◌, ◌%◌, String, Bool, true, false, not, ◌&&◌, Option, none, some, List, [], ◌∷◌,
  eqb, Error, Result,
}
use runmantle.Value.{DateTime, ℤ}

-- A float by its 64 bits.
pub record Float : Type 0 where
  pub bits : ℕ

-- `math.isfinite`: the exponent is not all ones.
unfoldable pub is_finite : Float → Bool
is_finite x = not (eqb ((x.bits / 4503599627370496) % 2048) 2047)

-- What `json.loads` gives and `json.dumps` takes.
mutual
  pub data Json : Type 0 where
    null : Json
    bool : Bool → Json
    int : ℤ → Json
    float : Float → Json
    str : String → Json
    list : JsonItems → Json
    dict : JsonEntries → Json

  pub data JsonItems : Type 0 where
    nil : JsonItems
    cons : Json → JsonItems → JsonItems

  pub data JsonEntries : Type 0 where
    end : JsonEntries
    entry : String → Json → JsonEntries → JsonEntries

-- The values that `_to_json` tells apart. An enumeration's member holds its value, unless it is a
-- text or a number itself; a dataclass holds its fields, which `asdict` can copy (it raises a
-- TypeError where one of them is a read-only mapping, and such a dataclass is not among these); a `timedelta` its
-- microseconds; a mapping with a key that is no text stands as `mixed_mapping`; `foreign` is
-- an instance of another class, known by its name.
mutual
  pub data Data : Type 0 where
    null : Data
    bool : Bool → Data
    int : ℤ → Data
    float : Float → Data
    str : String → Data
    bytes : List ℕ → Data
    datetime : DateTime → Data
    timedelta : ℤ → Data
    path : String → Data
    enum : Data → Data
    dataclass : DataEntries → Data
    mapping : DataEntries → Data
    mixed_mapping : Data
    frozenset : DataItems → Data
    sequence : DataItems → Data
    foreign : (class_name : String) → Data

  pub data DataItems : Type 0 where
    nil : DataItems
    cons : Data → DataItems → DataItems

  pub data DataEntries : Type 0 where
    end : DataEntries
    entry : String → Data → DataEntries → DataEntries

-- What the standard library does with single values: base64 with `validate=True`, ISO dates, the
-- seconds of a `timedelta` as a float and back, `str(…)` and `float(…)` of a JSON value that is no text
-- or no float, and `_stable_sort_key`.
pub record Primitives : Type 0 where
  pub b64encode : List ℕ → String
  pub b64decode : String → Result (List ℕ)
  pub isoformat : DateTime → String
  pub fromisoformat : String → Result DateTime
  pub total_seconds : ℤ → Float
  pub timedelta_of : Float → Result ℤ
  pub text_of : Json → String
  pub float_of : Json → Result Float
  pub sort_key : Json → String
