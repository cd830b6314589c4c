-- ===== src/Evidence/Collection.antt =====
-- src/runmantle/evidence.py: `EvidenceCollection`.
use runmantle.Prelude.{
  String, Option, none, some, List, [], ◌∷◌, ◌++◌, map, select, Result, ok, ◌>>◌, ◌==◌,
  if◌then◌else◌,
}
use runmantle.Validation.{require_unique}
use runmantle.Evidence.{EvidenceItem}

pub record EvidenceCollection : Type 0 where
  pub items : List EvidenceItem

abbrev pub ids : List EvidenceItem → List String
ids items = map (λ item. item.evidence_id) items

-- `EvidenceCollection(items)`.
unfoldable pub collect : List EvidenceItem → Result EvidenceCollection
unfolding require_unique
collect items = do
  require_unique (ids items) "evidence identifiers must be unique within a collection"
  ok (record { items = items })

-- `left + right`.
unfoldable pub join : EvidenceCollection → EvidenceCollection → Result EvidenceCollection
unfolding collect
join left right = collect (left.items ++ right.items)

unfoldable pub append : EvidenceCollection → EvidenceItem → Result EvidenceCollection
unfolding collect
append c item = collect (c.items ++ item ∷ [])

unfoldable pub find : String → List EvidenceItem → Option EvidenceItem
find id [] = none
find id (item ∷ items) = if item.evidence_id == id then some item else find id items

unfoldable pub get : EvidenceCollection → String → Option EvidenceItem
unfolding find
get c id = find id c.items

unfoldable pub of_type : EvidenceCollection → String → Result EvidenceCollection
unfolding collect
of_type c evidence_type = collect (select (λ item. item.type == evidence_type) c.items)
