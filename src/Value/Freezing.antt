-- ===== src/Value/Freezing.antt =====
-- Freezing: a frozen value has no list, and freezing it again changes nothing.
use runmantle.Prelude.{◌≡◌, refl}
use runmantle.Value.{
  Value, null, bool, int, str, bytes, moment, seconds, list, tuple, mapping, object, Items, nil,
  cons, Entries, end, entry, freeze_value, freeze_items, freeze_mapping,
}

mutual
  unfolding freeze_value freeze_items freeze_mapping

  freeze_value_twice : (v : Value) → freeze_value (freeze_value v) ≡ freeze_value v
  freeze_value_twice null = refl
  freeze_value_twice (bool b) = refl
  freeze_value_twice (int i) = refl
  freeze_value_twice (str s) = refl
  freeze_value_twice (bytes s) = refl
  freeze_value_twice (moment t) = refl
  freeze_value_twice (seconds n) = refl
  freeze_value_twice (list vs) = λ i. tuple (freeze_items_twice vs i)
  freeze_value_twice (tuple vs) = λ i. tuple (freeze_items_twice vs i)
  freeze_value_twice (mapping es) = λ i. mapping (freeze_mapping_twice es i)
  freeze_value_twice (object i c) = refl

  freeze_items_twice : (vs : Items) → freeze_items (freeze_items vs) ≡ freeze_items vs
  freeze_items_twice nil = refl
  freeze_items_twice (cons v vs) = λ i. cons (freeze_value_twice v i) (freeze_items_twice vs i)

  freeze_mapping_twice : (es : Entries) → freeze_mapping (freeze_mapping es) ≡ freeze_mapping es
  freeze_mapping_twice end = refl
  freeze_mapping_twice (entry k v es) =
      λ i. entry k (freeze_value_twice v i) (freeze_mapping_twice es i)

pub freeze_mapping-freeze_mapping :
    (es : Entries) → freeze_mapping (freeze_mapping es) ≡ freeze_mapping es
freeze_mapping-freeze_mapping es = freeze_mapping_twice es
