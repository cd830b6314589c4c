-- ===== src/Serialization/RoundTrip.antt =====
-- What `_from_json` makes of the values that `_to_json` gives.
use runmantle.Prelude.{
  ℕ, ◌≡◌, refl, sym, ap, ◌∙◌, arith, String, true, false, none, List, ◌==◌, ok, >>=-eq-ok, >>-eq-ok,
  ok-injective, raise_if, not,
}
use runmantle.Value.{DateTime, ℤ}
use runmantle.Serialization.{
  is_finite, Json, JsonItems, JsonEntries, Data, DataItems, DataEntries, Primitives,
}
use runmantle.Serialization.Encode.{marker_key, marked, to_json, to_json_items, to_json_entries}
use runmantle.Serialization.Decode.{
  get_key, only_keys, present, from_dict, from_marked, from_json, from_json_items,
  from_json_entries,
}

-- A mapping has no key of this name.
unfoldable pub LacksKey : String → DataEntries → Type 0
LacksKey key DataEntries.end = Unit
LacksKey key (DataEntries.entry k v es) = ((k == key) ≡ false) × LacksKey key es

-- Values that JSON or the marker of a dictionary can keep: no set, no mapping with the key of the
-- marker, and only bytes, times and durations that the texts and the seconds made of them determine.
unfoldable mutual
  pub IsPlain : Primitives → Data → Type 0
  IsPlain p (Data.bytes bs) = p.b64decode (p.b64encode bs) ≡ ok bs
  IsPlain p (Data.datetime t) = p.fromisoformat (p.isoformat t) ≡ ok t
  IsPlain p (Data.timedelta d) = p.timedelta_of (p.total_seconds d) ≡ ok d
  IsPlain p (Data.enum v) = IsPlain p v
  IsPlain p (Data.dataclass es) = LacksKey marker_key es × ArePlainEntries p es
  IsPlain p (Data.mapping es) = LacksKey marker_key es × ArePlainEntries p es
  IsPlain p (Data.frozenset vs) = ⊥
  IsPlain p (Data.sequence vs) = ArePlainItems p vs
  IsPlain p _ = Unit

  pub ArePlainItems : Primitives → DataItems → Type 0
  ArePlainItems p DataItems.nil = Unit
  ArePlainItems p (DataItems.cons v vs) = IsPlain p v × ArePlainItems p vs

  pub ArePlainEntries : Primitives → DataEntries → Type 0
  ArePlainEntries p DataEntries.end = Unit
  ArePlainEntries p (DataEntries.entry k v es) = IsPlain p v × ArePlainEntries p es

-- The same value with each member of an enumeration replaced by its value, and each dataclass by the
-- mapping of its fields.
unfoldable mutual
  pub without_classes : Data → Data
  without_classes (Data.enum v) = without_classes v
  without_classes (Data.dataclass es) = Data.mapping (entries_without_classes es)
  without_classes (Data.mapping es) = Data.mapping (entries_without_classes es)
  without_classes (Data.frozenset vs) = Data.frozenset (items_without_classes vs)
  without_classes (Data.sequence vs) = Data.sequence (items_without_classes vs)
  without_classes v = v

  pub items_without_classes : DataItems → DataItems
  items_without_classes DataItems.nil = DataItems.nil
  items_without_classes (DataItems.cons v vs) =
      DataItems.cons (without_classes v) (items_without_classes vs)

  pub entries_without_classes : DataEntries → DataEntries
  entries_without_classes DataEntries.end = DataEntries.end
  entries_without_classes (DataEntries.entry k v es) =
      DataEntries.entry k (without_classes v) (entries_without_classes es)

module _ (p : Primitives) where
  -- The keys are kept.
  get_key-to_json_entries :
      (key : String) (es : DataEntries) (lacks : LacksKey key es) {entries : JsonEntries}
      → to_json_entries p es ≡ ok entries
      → get_key key entries ≡ none
  unfolding to_json_entries LacksKey get_key
  get_key-to_json_entries key DataEntries.end lacks {entries} h = rw (sym (ok-injective h)) refl
  get_key-to_json_entries key (DataEntries.entry k v es) lacks {entries} h =
      let (item, _, h') = >>=-eq-ok (to_json p v) _ h in
      let (rest, made, h'') = >>=-eq-ok (to_json_entries p es) _ h' in
      let kept = get_key-to_json_entries key es lacks.1 made in
      rw (sym (ok-injective h''), lacks.0) kept

module _ (p : Primitives) where
  dict-restored :
      (entries : JsonEntries) (es : DataEntries)
      → get_key marker_key entries ≡ none
      → from_json_entries p entries ≡ ok es
      → from_json p (Json.dict entries) ≡ ok (Data.mapping es)
  unfolding from_json
  dict-restored entries es absent made =
      ap (λ m. from_dict p (present m) entries (from_json_entries p entries)) absent
      ∙ ap (from_dict p none entries) made

  bytes-restored :
      (bs : List ℕ)
      → p.b64decode (p.b64encode bs) ≡ ok bs
      → from_json p (marked "bytes" "base64" (Json.str (p.b64encode bs))) ≡ ok (Data.bytes bs)
  unfolding from_json from_marked get_key only_keys
  bytes-restored bs h = rw h refl

  timedelta-restored :
      (d : ℤ)
      → p.timedelta_of (p.total_seconds d) ≡ ok d
      → from_json p (marked "timedelta" "seconds" (Json.float (p.total_seconds d)))
        ≡ ok (Data.timedelta d)
  unfolding from_json from_marked get_key only_keys
  timedelta-restored d h = rw h refl

  datetime-restored :
      (t : DateTime)
      → t.aware ≡ true
      → p.fromisoformat (p.isoformat t) ≡ ok t
      → from_json p (marked "datetime" "value" (Json.str (p.isoformat t))) ≡ ok (Data.datetime t)
  unfolding from_json from_marked get_key only_keys
  datetime-restored t aware h = rw (h, aware) refl

  path-restored : (s : String) → from_json p (marked "path" "value" (Json.str s)) ≡ ok (Data.path s)
  unfolding from_json from_marked get_key only_keys
  path-restored s = refl

  mutual
    unfolding to_json to_json_items to_json_entries from_json from_json_items from_json_entries
        IsPlain ArePlainItems ArePlainEntries without_classes items_without_classes
        entries_without_classes is_finite

    value-restored :
        (v : Data) (plain : IsPlain p v) {j : Json}
        → to_json p v ≡ ok j
        → from_json p j ≡ ok (without_classes v)
    value-restored Data.null plain h = rw (sym (ok-injective h)) refl
    value-restored (Data.bool b) plain h = rw (sym (ok-injective h)) refl
    value-restored (Data.int i) plain h = rw (sym (ok-injective h)) refl
    value-restored (Data.float x) plain h =
        rw (sym (ok-injective (>>-eq-ok (raise_if (not (is_finite x)) _) _ h).1)) refl
    value-restored (Data.str s) plain h = rw (sym (ok-injective h)) refl
    value-restored (Data.bytes bs) plain h = rw (sym (ok-injective h)) (bytes-restored bs plain)
    value-restored (Data.datetime t) plain h =
        let (aware, made) = >>-eq-ok (raise_if (not t.aware) _) _ h in
        rw (sym (ok-injective made)) (datetime-restored t (ground arith) plain)
    value-restored (Data.timedelta d) plain h =
        rw (sym (ok-injective h)) (timedelta-restored d plain)
    value-restored (Data.path s) plain h = rw (sym (ok-injective h)) (path-restored s)
    value-restored (Data.enum v) plain h = value-restored v plain h
    value-restored (Data.dataclass es) plain h =
        let (entries, made, h') = >>=-eq-ok (to_json_entries p es) _ h in
        rw (sym (ok-injective h')) (
          dict-restored entries _ (get_key-to_json_entries p marker_key es plain.0 made)
            (entries-restored es plain.1 made))
    value-restored (Data.mapping es) plain h =
        let (entries, made, h') = >>=-eq-ok (to_json_entries p es) _ h in
        rw (sym (ok-injective h')) (
          dict-restored entries _ (get_key-to_json_entries p marker_key es plain.0 made)
            (entries-restored es plain.1 made))
    value-restored Data.mixed_mapping plain h = cc
    value-restored (Data.frozenset vs) plain h = absurd plain
    value-restored (Data.sequence vs) plain h =
        let (items, made, h') = >>=-eq-ok (to_json_items p vs) _ h in
        rw (sym (ok-injective h'), items-restored vs plain made) refl
    value-restored (Data.foreign name) plain h = cc

    items-restored :
        (vs : DataItems) (plain : ArePlainItems p vs) {js : JsonItems}
        → to_json_items p vs ≡ ok js
        → from_json_items p js ≡ ok (items_without_classes vs)
    items-restored DataItems.nil plain h = rw (sym (ok-injective h)) refl
    items-restored (DataItems.cons v vs) plain h =
        let (item, one, h') = >>=-eq-ok (to_json p v) _ h in
        let (items, made, h'') = >>=-eq-ok (to_json_items p vs) _ h' in
        rw (sym (ok-injective h''), value-restored v plain.0 one, items-restored vs plain.1 made)
          refl

    entries-restored :
        (es : DataEntries) (plain : ArePlainEntries p es) {js : JsonEntries}
        → to_json_entries p es ≡ ok js
        → from_json_entries p js ≡ ok (entries_without_classes es)
    entries-restored DataEntries.end plain h = rw (sym (ok-injective h)) refl
    entries-restored (DataEntries.entry k v es) plain h =
        let (item, one, h') = >>=-eq-ok (to_json p v) _ h in
        let (entries, made, h'') = >>=-eq-ok (to_json_entries p es) _ h' in
        rw (sym (ok-injective h''), value-restored v plain.0 one, entries-restored es plain.1 made)
          refl

  -- A value without sets and without mappings that hold the key of the type marker, whose bytes,
  -- times and durations the library restores from their texts and seconds, is decoded, once
  -- encoded, as itself, but that a member of an enumeration has become its value and a dataclass
  -- the mapping of its fields.
  pub from_json-to_json :
      (v : Data)
      → IsPlain p v
      → (j : Json) → to_json p v ≡ ok j
      → from_json p j ≡ ok (without_classes v)
  from_json-to_json v plain j h = value-restored v plain h
