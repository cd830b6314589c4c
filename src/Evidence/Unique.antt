-- ===== src/Evidence/Unique.antt =====
-- The identifiers of a collection are unique.
use runmantle.Prelude.{
  ◌≡◌, refl, ap, String, Bool, false, ◌||◌, List, [], ◌∷◌, ◌++◌, select, contains, ok, ◌==◌, eq_iff,
  arith,
}
use runmantle.Validation.{has_duplicates}
use runmantle.Evidence.{EvidenceItem}
use runmantle.Evidence.Collection.{EvidenceCollection, ids, collect}

-- The collection was made by `EvidenceCollection(…)`.
abbrev pub HasUniqueIds : List EvidenceItem → Type 0
HasUniqueIds items = has_duplicates (ids items) ≡ false

contains-select :
    (p : EvidenceItem → Bool) (items : List EvidenceItem) (id : String)
    → contains (ids items) id ≡ false
    → contains (ids (select p items)) id ≡ false
unfolding contains
contains-select p [] id h = refl
contains-select p (item ∷ items) id h = ground (arith, contains-select p items id)

-- A part of a collection is a collection.
pub select-HasUniqueIds :
    (p : EvidenceItem → Bool) (items : List EvidenceItem)
    → HasUniqueIds items
    → HasUniqueIds (select p items)
unfolding has_duplicates
select-HasUniqueIds p [] h = refl
select-HasUniqueIds p (item ∷ items) h =
    ground (arith, contains-select p items item.evidence_id, select-HasUniqueIds p items)

pub collect_unique :
    (items : List EvidenceItem) → HasUniqueIds items → collect items ≡ ok (record { items = items })
unfolding collect
collect_unique items h = rw h

-- What was collected is what was given, and its identifiers are unique.
pub collect-eq-ok :
    (items : List EvidenceItem) (c : EvidenceCollection)
    → collect items ≡ ok c
    → (c ≡ record { items = items }) × HasUniqueIds items
unfolding collect
collect-eq-ok items c h = ground arith

pub contains-append :
    (xs : List String) (x y : String) → contains (xs ++ x ∷ []) y ≡ (contains xs y || x == y)
unfolding contains
contains-append [] x y = ground arith
contains-append (z ∷ xs) x y = ground (arith, contains-append xs x y)

-- A new identifier at the end keeps them unique.
has_duplicates-append :
    (xs : List String) (x : String)
    → has_duplicates xs ≡ false
    → contains xs x ≡ false
    → has_duplicates (xs ++ x ∷ []) ≡ false
unfolding has_duplicates contains
has_duplicates-append [] x h k = refl
has_duplicates-append (y ∷ xs) x h k =
    ground (arith, contains-append xs x y, eq_iff x y, eq_iff y x, has_duplicates-append xs x)

pub ids-append :
    (items : List EvidenceItem) (item : EvidenceItem)
    → ids (items ++ item ∷ []) ≡ ids items ++ item.evidence_id ∷ []
ids-append [] item = refl
ids-append (i ∷ items) item = ap (λ (ns : List String). i.evidence_id ∷ ns) (ids-append items item)

pub append-HasUniqueIds :
    (items : List EvidenceItem) (item : EvidenceItem)
    → HasUniqueIds items
    → contains (ids items) item.evidence_id ≡ false
    → HasUniqueIds (items ++ item ∷ [])
append-HasUniqueIds items item h k =
    rw (ids-append items item) (has_duplicates-append (ids items) item.evidence_id h k)
