-- ===== src/Evidence/Lookup.antt =====
-- Looking an item up by its identifier, after one is appended to a collection.
use runmantle.Prelude.{
  ◌≡◌, refl, String, false, some, List, [], ◌∷◌, ◌++◌, contains, ok, ◌==◌, eq_iff, eq_refl, arith,
  Bool-cases, inl, inr,
}
use runmantle.Validation.{has_duplicates}
use runmantle.Evidence.{EvidenceItem}
use runmantle.Evidence.Collection.{EvidenceCollection, ids, append, find, get}
use runmantle.Evidence.Unique.{collect-eq-ok, ids-append, contains-append}

-- The first item of this identifier.
find-append-new :
    (items : List EvidenceItem) (item : EvidenceItem)
    → contains (ids items) item.evidence_id ≡ false
    → find item.evidence_id (items ++ item ∷ []) ≡ some item
unfolding find contains
find-append-new [] item h = rw (eq_refl item.evidence_id)
find-append-new (i ∷ items) item h = ground (arith, find-append-new items item)

find-append-other :
    (items : List EvidenceItem) (item : EvidenceItem) (id : String)
    → (item.evidence_id == id) ≡ false
    → find id (items ++ item ∷ []) ≡ find id items
unfolding find
find-append-other [] item id h = rw h
find-append-other (i ∷ items) item id h = elim (Bool-cases (i.evidence_id == id)) [
  | inl here ↦ rw here
  | inr elsewhere ↦ rw elsewhere (find-append-other items item id h)
]

duplicate-append :
    (xs : List String) (x : String) → has_duplicates (xs ++ x ∷ []) ≡ false → contains xs x ≡ false
unfolding has_duplicates contains
duplicate-append [] x h = refl
duplicate-append (y ∷ xs) x h =
    ground (arith, contains-append xs x y, eq_iff x y, eq_iff y x, duplicate-append xs x)

-- After an item is appended to a collection, it is the one found under its identifier, and every
-- look-up of another identifier gives what it gave before.
pub get-append :
    (c c' : EvidenceCollection) (item : EvidenceItem)
    → append c item ≡ ok c'
    → (get c' item.evidence_id ≡ some item)
      × ((id : String) → (item.evidence_id == id) ≡ false → get c' id ≡ get c id)
unfolding append get
get-append c c' item made =
    let (shape, unique) = collect-eq-ok (c.items ++ item ∷ []) c' made in
    let new =
      duplicate-append (ids c.items) item.evidence_id (rw (ids-append c.items item) at unique) in
    (
      rw shape (find-append-new c.items item new),
      λ id other. rw shape (find-append-other c.items item id other),
    )
