-- ===== src/Evidence/Restore.antt =====
-- Persisted items: what `_restore_evidence_origin` gives back, and what it refuses.
use runmantle.Prelude.{
  ◌≡◌, refl, ap, ◌∙◌, String, true, Option, none, some, ok, arith, eq_iff, eq_refl, is_some,
}
use runmantle.Value.{Entries, freeze_mapping, has_entries}
use runmantle.Value.Freezing.{freeze_mapping-freeze_mapping}
use runmantle.Evidence.{
  EvidenceFields, EvidenceItem, token, Hashing, construct, grant_origin, freeze_fields,
  check_fields, calculate_evidence_checksum, calculate_origin_hash, check_checksum, OriginGrant,
  check_origin_hash, frozen,
}
use runmantle.Evidence.Origin.{restore_evidence_origin}
use runmantle.Evidence.Trust.{construct_parts, grant_origin-token}

frozen_twice : (p : Option Entries) → frozen (frozen p) ≡ frozen p
frozen_twice none = refl
frozen_twice (some es) = λ i. some (freeze_mapping-freeze_mapping es i)

-- Freezing the fields again, whatever the checksum, changes nothing.
freeze_fields_twice :
    (f : EvidenceFields) (c : Option String)
    → freeze_fields (record (freeze_fields f) { checksum = c })
      ≡ record (freeze_fields f) { checksum = c }
unfolding freeze_fields
freeze_fields_twice f c = λ i. record f {
  payload = frozen_twice f.payload i;
  provenance = freeze_mapping-freeze_mapping f.provenance i;
  metadata = freeze_mapping-freeze_mapping f.metadata i;
  checksum = c;
}

is_some-frozen : (p : Option Entries) → is_some (frozen p) ≡ is_some p
is_some-frozen none = refl
is_some-frozen (some es) = refl

-- The guards see no difference in the frozen fields.
check_fields-freeze_fields :
    (f : EvidenceFields) (c : Option String)
    → check_fields (record (freeze_fields f) { checksum = c }) ≡ check_fields f
unfolding check_fields freeze_fields
check_fields-freeze_fields f c = rw (is_some-frozen f.payload)

module _ (h : Hashing) where
  construct_of_parts :
      (f : EvidenceFields) (grant : OriginGrant) (item : EvidenceItem) (c : String)
      → check_fields f ≡ ok tt
      → calculate_evidence_checksum h f.content (freeze_fields f).payload ≡ ok c
      → check_checksum f.checksum c ≡ ok tt
      → grant_origin h (record (freeze_fields f) { checksum = some c }) c grant ≡ ok item
      → construct h f grant ≡ ok item
  unfolding construct
  construct_of_parts f grant item c checked summed matched granted =
      rw (checked, summed, matched) granted

  grant_of_parts :
      (f : EvidenceFields) (c : String) (origin : Entries) (k : String)
      → has_entries (freeze_mapping origin) ≡ true
      → calculate_origin_hash h f c (freeze_mapping origin) ≡ ok k
      → grant_origin h f c (token (freeze_mapping origin) (some k))
        ≡ ok (record { fields = f; trust_origin = freeze_mapping origin; origin_hash = some k })
  unfolding grant_origin check_origin_hash
  grant_of_parts f c origin k present hashed =
      rw (freeze_mapping-freeze_mapping origin, present, hashed, eq_refl k)

  -- The stored fields: frozen, with their checksum.
  abbrev stored_fields : EvidenceFields → String → EvidenceFields
  stored_fields f c = record (freeze_fields f) { checksum = some c }

  construct-stored_fields :
      (f : EvidenceFields) (c : String) (grant : OriginGrant) (item : EvidenceItem)
      → check_fields f ≡ ok tt
      → calculate_evidence_checksum h f.content (freeze_fields f).payload ≡ ok c
      → grant_origin h (stored_fields f c) c grant ≡ ok item
      → construct h (stored_fields f c) grant ≡ ok item
  unfolding freeze_fields check_checksum
  construct-stored_fields f c grant item checked summed granted =
      construct_of_parts (stored_fields f c) grant item c
        (check_fields-freeze_fields f (some c) ∙ checked)
        (rw (ap (λ (g : EvidenceFields). g.payload) (freeze_fields_twice f (some c))) summed)
        (rw (eq_refl c)) (rw (freeze_fields_twice f (some c)) granted)

  -- An item that was constructed with the token is restored, from its own fields, origin and
  -- origin hash, as the same item.
  pub restore-construct :
      (f : EvidenceFields) (origin : Entries) (persisted : Option String) (item : EvidenceItem)
      → (k : String) → construct h f (token origin persisted) ≡ ok item
      → item.origin_hash ≡ some k
      → restore_evidence_origin h k item.trust_origin item.fields ≡ ok item
  unfolding restore_evidence_origin
  restore-construct f origin persisted item k e known =
      let (c, checked, summed, matched, granted) =
        construct_parts h f (token origin persisted) item e in
      let (k', present, hashed, _, shape) =
        grant_origin-token h (record (freeze_fields f) { checksum = some c }) c origin persisted
          item granted in
      let same : k' ≡ k = cc (shape, known) in
      rw (shape, ← same)
        (construct-stored_fields f c (token (freeze_mapping origin) (some k')) _ checked summed
          (grant_of_parts (stored_fields f c) c origin k' present hashed))

  -- An item that is restored carries the hash that was stored, has a checksum, and the stored hash
  -- is the one calculated over its own fields, that checksum and its origin.
  pub restore-origin_hash :
      (k : String) (origin : Entries) (f : EvidenceFields) (item : EvidenceItem)
      → restore_evidence_origin h k origin f ≡ ok item
      → (item.origin_hash ≡ some k)
        × ((c : String) × (item.checksum ≡ some c)
            × (calculate_origin_hash h item.fields c item.trust_origin ≡ ok k))
  unfolding restore_evidence_origin check_origin_hash
  restore-origin_hash k origin f item e =
      let (c, _, _, _, granted) = construct_parts h f (token origin (some k)) item e in
      let (k', present, hashed, agreed, shape) =
        grant_origin-token h (stored_fields f c) c origin (some k) item granted in
      let same : k ≡ k' = ground (arith, agreed, eq_iff k k') in
      (rw (shape, same), (c, rw shape, rw (shape, same) hashed))
