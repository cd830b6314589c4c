-- ===== src/Value.antt =====
-- The dynamic values (`Any`) that outputs, payloads and event details hold, and the look-up of a
-- field by its dotted path (`_resolve_field` of src/runmantle/verification.py).
pub mod Resolve
pub mod Equality
pub mod Freezing
pub mod Duration
use runmantle.Prelude.{
  ℕ, zero, suc, String, Bool, Option, none, some, List, [], ◌∷◌, true, false, ◌==◌, if◌then◌else◌,
}

-- `datetime`: the instant that it stands for, in microseconds, and whether it has an offset.
pub record DateTime : Type 0 where
  pub instant : ℕ
  pub aware : Bool

pub data ℤ : Type 0 where
  pos : ℕ → ℤ
  negsuc : ℕ → ℤ

-- `object` is an instance of a class of the application: its identity and its class's name.
-- `seconds` is the float that `timedelta.total_seconds()` gives, by its microseconds; no other
-- float is among the values.
mutual
  pub data Value : Type 0 where
    null : Value
    bool : Bool → Value
    int : ℤ → Value
    str : String → Value
    bytes : List ℕ → Value
    moment : DateTime → Value
    seconds : (microseconds : ℕ) → Value
    list : Items → Value
    tuple : Items → Value
    mapping : Entries → Value
    object : (identity : ℕ) → (class_name : String) → Value

  pub data Items : Type 0 where
    nil : Items
    cons : Value → Items → Items

  pub data Entries : Type 0 where
    end : Entries
    entry : String → Value → Entries → Entries

-- `segment in mapping` and `mapping[segment]`. An entry that stands further on came later, and a
-- `dict` display keeps the last value of a key.
unfoldable pub lookup : String → Entries → Option Value
lookup k end = none
lookup k (entry j v es) =
    let rest = lookup k es in elim rest [ some w ↦ some w | none ↦ if j == k then some v else none ]

unfoldable pub get_item : Items → ℕ → Option Value
get_item nil i = none
get_item (cons v vs) zero = some v
get_item (cons v vs) (suc i) = get_item vs i

unfoldable pub count_items : Items → ℕ
count_items nil = 0
count_items (cons v vs) = suc (count_items vs)

unfoldable pub count_entries : Entries → ℕ
count_entries end = 0
count_entries (entry k v es) = suc (count_entries es)

-- `bool(mapping)`.
abbrev pub has_entries : Entries → Bool
has_entries end = false
has_entries (entry k v es) = true

unfoldable pub from_list : List Value → Items
from_list [] = nil
from_list (v ∷ vs) = cons v (from_list vs)

-- `_freeze_value` and `_freeze_mapping` of src/runmantle/evidence.py: lists become tuples at every
-- depth. A key of `Entries` is a text, so the guard on the keys has no counterpart, and the
-- read-only view of a mapping is the mapping. There are no sets among the values, so that the clause
-- of `_freeze_value` for them is left out.
unfoldable mutual
  pub freeze_value : Value → Value
  freeze_value null = null
  freeze_value (bool b) = bool b
  freeze_value (int i) = int i
  freeze_value (str s) = str s
  freeze_value (bytes s) = bytes s
  freeze_value (moment t) = moment t
  freeze_value (seconds n) = seconds n
  freeze_value (list vs) = tuple (freeze_items vs)
  freeze_value (tuple vs) = tuple (freeze_items vs)
  freeze_value (mapping es) = mapping (freeze_mapping es)
  freeze_value (object i c) = object i c

  pub freeze_items : Items → Items
  freeze_items nil = nil
  freeze_items (cons v vs) = cons (freeze_value v) (freeze_items vs)

  pub freeze_mapping : Entries → Entries
  freeze_mapping end = end
  freeze_mapping (entry k v es) = entry k (freeze_value v) (freeze_mapping es)
