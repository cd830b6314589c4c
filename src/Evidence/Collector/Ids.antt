-- ===== src/Evidence/Collector/Ids.antt =====
-- What a collector keeps: unique identifiers, and claims only.
use runmantle.Prelude.{
  none, some, Option-cases, ok-injective, subst, ℕ, ◌≡◌, refl, sym, ◌∙◌, ap, inl, inr, String,
  false, ◌||◌, List, [], ◌∷◌, ◌++◌, contains, All, All-append, Error, Result, ok, err, Bool-cases,
  ◌==◌,
}
use runmantle.Value.{DateTime}
use runmantle.Evidence.{EvidenceItem, no_token, Hashing, construct}
use runmantle.Evidence.Origin.{trust_established}
use runmantle.Evidence.Trust.{construct-no_token}
use runmantle.Evidence.Collection.{ids}
use runmantle.Evidence.Unique.{HasUniqueIds, collect_unique, append-HasUniqueIds}
use runmantle.Evidence.Collector.{
  Collector, RecordArguments, recorded_fields, holds_id, add_item, add_constructed, store_evidence,
  record_evidence, Callbacks, call_all, called_back, snapshot, callbacks, duplicate_id,
}

abbrev pub IsClaim : EvidenceItem → Type 0
IsClaim item = trust_established item ≡ false

holds_id-contains :
    (items : List EvidenceItem) (id : String) → holds_id items id ≡ contains (ids items) id
unfolding holds_id contains
holds_id-contains [] id = refl
holds_id-contains (i ∷ items) id = ap (λ b. i.evidence_id == id || b) (holds_id-contains items id)

-- Before the callbacks: `record` raised and kept the collector, or it added one claim, whose identifier
-- was new, behind the items that were there, and has the callbacks to make.
pub data Stored (c : Collector) (r : Result (EvidenceItem × List ℕ)) (c' : Collector) : Type 0 where
  refused : (e : Error) → r ≡ err e → c' ≡ c → Stored c r c'
  added :
      (item : EvidenceItem)
      → r ≡ ok (item, callbacks c.on_record c.listeners)
      → IsClaim item
      → contains (ids c.items) item.evidence_id ≡ false
      → c' ≡ record c { items = c.items ++ item ∷ [] }
      → Stored c r c'

add_item-Stored :
    (c : Collector) (item : EvidenceItem)
    → IsClaim item
    → Stored c (add_item c item).0 (add_item c item).1
unfolding add_item
add_item-Stored c item claim = elim (Bool-cases (holds_id c.items item.evidence_id)) [
  | inl taken ↦ refused (duplicate_id item.evidence_id) (rw taken) (rw taken)
  | inr new ↦
      added item (rw new) claim (sym (holds_id-contains c.items item.evidence_id) ∙ new) (rw new)
]

add_constructed-Stored :
    (c : Collector) (r : Result EvidenceItem)
    → ((item : EvidenceItem) → r ≡ ok item → IsClaim item)
    → Stored c (add_constructed c r).0 (add_constructed c r).1
add_constructed-Stored c (err e) claim = refused e refl refl
add_constructed-Stored c (ok item) claim = add_item-Stored c item (claim item refl)

pub store_evidence-Stored :
    (h : Hashing) (a : RecordArguments) (now : DateTime) (fresh : String) (c : Collector)
    → Stored c (store_evidence h a now fresh c).0 (store_evidence h a now fresh c).1
unfolding store_evidence
store_evidence-Stored h a now fresh c =
    add_constructed-Stored c (construct h (recorded_fields a now fresh) no_token)
      (λ item e. construct-no_token h (recorded_fields a now fresh) item e)

-- What holds of a collector between two calls.
pub record IsSound (c : Collector) : Type 0 where
  pub unique : HasUniqueIds c.items
  pub claims : All IsClaim c.items

pub Stored-unique :
    {c c' : Collector} {r : Result (EvidenceItem × List ℕ)}
    → Stored c r c'
    → HasUniqueIds c.items
    → HasUniqueIds c'.items
Stored-unique (refused e h same) u = rw same u
Stored-unique {c} (added item h claim new shape) u =
    rw shape (append-HasUniqueIds c.items item u new)

pub Stored-claims :
    {c c' : Collector} {r : Result (EvidenceItem × List ℕ)}
    → Stored c r c'
    → All IsClaim c.items
    → All IsClaim c'.items
Stored-claims (refused e h same) k = rw same k
Stored-claims {c} (added item h claim new shape) k =
    rw shape (All-append IsClaim c.items (item ∷ []) k (claim, tt))

pub store_evidence-IsSound :
    (h : Hashing) (a : RecordArguments) (now : DateTime) (fresh : String) (c : Collector)
    → IsSound c
    → IsSound (store_evidence h a now fresh c).1
store_evidence-IsSound h a now fresh c sound =
    let recorded = store_evidence-Stored h a now fresh c in
    record {
      unique = Stored-unique recorded sound.unique;
      claims = Stored-claims recorded sound.claims;
    }

-- The snapshot of a collector whose identifiers are unique gives its items.
pub snapshot_unique :
    (c : Collector) → HasUniqueIds c.items → snapshot c ≡ ok (record { items = c.items })
unfolding snapshot
snapshot_unique c u = collect_unique c.items u

-- The callbacks all returned, or one raised after those before it returned.
pub data Notified (answer : Callbacks) (item : EvidenceItem) (fs : List ℕ)
    : Result EvidenceItem → Type 0 where
  all_returned : All (λ f. answer f item ≡ none) fs → Notified answer item fs (ok item)
  one_raised :
      (before : List ℕ) (f : ℕ) (after : List ℕ) (e : Error)
      → fs ≡ before ++ f ∷ after
      → All (λ g. answer g item ≡ none) before
      → answer f item ≡ some e
      → Notified answer item fs (err e)

-- Of a call of `record`: it raised and kept the collector, or it added one claim, whose identifier
-- was new, behind the items that were there, and made the callbacks.
pub data Recorded (answer : Callbacks) (c : Collector) (r : Result EvidenceItem) (c' : Collector)
    : Type 0 where
  refused : (e : Error) → r ≡ err e → c' ≡ c → Recorded answer c r c'
  added :
      (item : EvidenceItem)
      → Notified answer item (callbacks c.on_record c.listeners) r
      → IsClaim item
      → contains (ids c.items) item.evidence_id ≡ false
      → c' ≡ record c { items = c.items ++ item ∷ [] }
      → Recorded answer c r c'

later-Notified :
    (answer : Callbacks) (item : EvidenceItem) (f : ℕ) (fs : List ℕ) {r : Result EvidenceItem}
    → answer f item ≡ none
    → Notified answer item fs r
    → Notified answer item (f ∷ fs) r
later-Notified answer item f fs h (all_returned hs) = all_returned (h, hs)
later-Notified answer item f fs h (one_raised before g after e shape hs raised_here) =
    one_raised (f ∷ before) g after e (ap (λ (xs : List ℕ). f ∷ xs) shape) (h, hs) raised_here

call_all-Notified :
    (answer : Callbacks) (fs : List ℕ) (item : EvidenceItem)
    → Notified answer item fs (call_all answer fs item)
unfolding call_all
call_all-Notified answer [] item = all_returned tt
call_all-Notified answer (f ∷ fs) item = elim (Option-cases (answer f item)) [
  | inl returned ↦
      rw returned (later-Notified answer item f fs returned (call_all-Notified answer fs item))
  | inr (e, raised_here) ↦ rw raised_here (one_raised [] f fs e refl tt raised_here)
]

called_back-Recorded :
    (answer : Callbacks) (c : Collector) (x : Result (EvidenceItem × List ℕ) × Collector)
    → Stored c x.0 x.1
    → Recorded answer c (called_back answer x).0 (called_back answer x).1
called_back-Recorded answer c (err e, c') (refused d h same) = refused e refl same
called_back-Recorded answer c (ok (item, fs), c') (refused d h same) = cc (h)
called_back-Recorded answer c (err e, c') (added item h claim new shape) = cc (h)
called_back-Recorded answer c (ok (item, fs), c') (added stored h claim new shape) =
    let same = ok-injective h in
    added stored
      (subst
        (λ (y : EvidenceItem × List ℕ).
          Notified answer stored (callbacks c.on_record c.listeners) (call_all answer y.1 y.0))
        (sym same) (call_all-Notified answer (callbacks c.on_record c.listeners) stored))
      claim new shape

-- A call of `record` either raises and keeps the collector, or it adds one item without
-- established trust, whose identifier was not held, behind the items that were there, and then
-- calls the callbacks with it, `on_record` and the listeners in order: it returns the item where
-- all of them return, and else raises what the first that raises does, and the item stays.
pub record_evidence-Recorded :
    (answer : Callbacks) (h : Hashing) (a : RecordArguments) (now : DateTime) (fresh : String)
    (c : Collector)
    → Recorded answer c
        (record_evidence answer h a now fresh c).0
        (record_evidence answer h a now fresh c).1
unfolding record_evidence
record_evidence-Recorded answer h a now fresh c =
    called_back-Recorded answer c (store_evidence h a now fresh c)
      (store_evidence-Stored h a now fresh c)

called_back-collector :
    (answer : Callbacks) (x : Result (EvidenceItem × List ℕ) × Collector)
    → (called_back answer x).1 ≡ x.1
called_back-collector answer (ok _, c) = refl
called_back-collector answer (err e, c) = refl

-- Recording keeps the identifiers of a collector unique and its items without established trust,
-- whatever arguments are given, and whether the callbacks return or raise.
pub record_evidence-IsSound :
    (answer : Callbacks) (h : Hashing) (a : RecordArguments) (now : DateTime) (fresh : String)
    (c : Collector)
    → IsSound c
    → IsSound (record_evidence answer h a now fresh c).1
unfolding record_evidence
record_evidence-IsSound answer h a now fresh c sound =
    subst IsSound (sym (called_back-collector answer (store_evidence h a now fresh c)))
      (store_evidence-IsSound h a now fresh c sound)
