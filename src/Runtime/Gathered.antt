-- ===== src/Runtime/Gathered.antt =====
-- The evidence that an execution ends with, and why reported evidence cannot be joined to it.
use runmantle.Prelude.{
  ◌≡◌, refl, ap, sym, ◌∙◌, subst, false, String, List, [], ◌∷◌, ◌++◌, Any, inl, inr, Error, ok, err,
  traverse, >>=-eq-ok, >>=-eq-err, ok-injective, arith,
}
use runmantle.Validation.{has_duplicates}
use runmantle.Evidence.{EvidenceItem, Hashing}
use runmantle.Evidence.Origin.{as_agent_claim}
use runmantle.Evidence.Collection.{EvidenceCollection, ids, collect, join}
use runmantle.Evidence.Unique.{HasUniqueIds, collect_unique, collect-eq-ok}
use runmantle.Evidence.Collector.{Collector, snapshot}
use runmantle.Evidence.Collector.Ids.{snapshot_unique}
use runmantle.Core.{WorkerReport}
use runmantle.Runtime.Execute.{Guarded, report, timed_out, was_cancelled, failed_with}
use runmantle.Runtime.Run.{join_evidence}

-- The claims made of items, one of each, in order.
pub data AreClaims (h : Hashing) : List EvidenceItem → List EvidenceItem → Type 0 where
  no_claims : AreClaims h [] []
  one_more :
      {items claims : List EvidenceItem} (item claim : EvidenceItem)
      → as_agent_claim h item ≡ ok claim
      → AreClaims h items claims
      → AreClaims h (item ∷ items) (claim ∷ claims)

-- The evidence of a result: what the collector holds, and behind it, where the worker reported, the
-- claims made of what it reported.
pub data Gathered (h : Hashing) (collector : Collector) (evidence : EvidenceCollection)
    : Guarded → Type 0 where
  after_timeout : evidence.items ≡ collector.items → Gathered h collector evidence timed_out
  after_cancellation :
      (text : String)
      → evidence.items ≡ collector.items
      → Gathered h collector evidence (was_cancelled text)
  after_failure :
      (e : Error) → evidence.items ≡ collector.items → Gathered h collector evidence (failed_with e)
  with_report :
      (r : WorkerReport) (claims : List EvidenceItem)
      → AreClaims h r.evidence.items claims
      → evidence.items ≡ collector.items ++ claims
      → Gathered h collector evidence (report r)

-- A reported item cannot be made a claim, or two items have the same identifier.
pub data Unjoined (h : Hashing) (collector : Collector) (r : WorkerReport) (e : Error)
    : Type 0 where
  unclaimed :
      Any (λ item. as_agent_claim h item ≡ err e) r.evidence.items → Unjoined h collector r e
  clashing :
      (claims : List EvidenceItem)
      → AreClaims h r.evidence.items claims
      → ¬ HasUniqueIds (collector.items ++ claims)
      → Unjoined h collector r e

traverse-AreClaims :
    (h : Hashing) (items claims : List EvidenceItem)
    → traverse (as_agent_claim h) items ≡ ok claims
    → AreClaims h items claims
unfolding traverse
traverse-AreClaims h [] claims e = subst (AreClaims h []) (ok-injective e) no_claims
traverse-AreClaims h (item ∷ items) claims e =
    let (claim, e1, g1) = >>=-eq-ok (as_agent_claim h item) _ e in
    let (rest, e2, g2) = >>=-eq-ok (traverse (as_agent_claim h) items) _ g1 in
    subst (AreClaims h (item ∷ items)) (ok-injective g2)
      (one_more item claim e1 (traverse-AreClaims h items rest e2))

pub join_evidence-eq-ok :
    (h : Hashing) (c : Collector) (r : WorkerReport) (reported evidence : EvidenceCollection)
    → HasUniqueIds c.items
    → join_evidence h c r ≡ ok (reported, evidence)
    → Gathered h c evidence (report r)
unfolding join_evidence join
join_evidence-eq-ok h c r reported evidence u e =
    let (claims, e1, g1) = >>=-eq-ok (traverse (as_agent_claim h) r.evidence.items) _ e in
    let (made, e2, g2) = >>=-eq-ok (collect claims) _ g1 in
    let (held, e3, g3) = >>=-eq-ok (snapshot c) _ g2 in
    let (joined, e4, g4) = >>=-eq-ok (join held made) _ g3 in
    let made_items = ap (λ (x : EvidenceCollection). x.items) (collect-eq-ok claims made e2).0 in
    let held_items : held.items ≡ c.items =
      ap (λ (x : EvidenceCollection). x.items) (ok-injective (sym e3 ∙ snapshot_unique c u)) in
    let shape =
      ap (λ (x : EvidenceCollection). x.items)
        (collect-eq-ok (held.items ++ made.items) joined e4).0 in
    let same = ap (λ (x : EvidenceCollection × EvidenceCollection). x.1.items) (ok-injective g4) in
    with_report r claims (traverse-AreClaims h r.evidence.items claims e1) (
      sym same
      ∙ shape
      ∙ ap (λ (xs : List EvidenceItem). xs ++ made.items) held_items
      ∙ ap (λ (ys : List EvidenceItem). c.items ++ ys) made_items)

traverse-unclaimed :
    (h : Hashing) (items : List EvidenceItem) (e : Error)
    → traverse (as_agent_claim h) items ≡ err e
    → Any (λ item. as_agent_claim h item ≡ err e) items
unfolding traverse
traverse-unclaimed h [] e g = cc (g)
traverse-unclaimed h (item ∷ items) e g = elim (>>=-eq-err (as_agent_claim h item) _ g) [
  | inl here ↦ inl here
  | inr (claim, _, g1) ↦ elim (>>=-eq-err (traverse (as_agent_claim h) items) _ g1) [
    | inl later ↦ inr (traverse-unclaimed h items e later)
    | inr (claims, _, g2) ↦ cc (g2)
  ]
]

ids-append_all : (xs ys : List EvidenceItem) → ids (xs ++ ys) ≡ ids xs ++ ids ys
ids-append_all [] ys = refl
ids-append_all (x ∷ xs) ys = ap (λ (ns : List String). x.evidence_id ∷ ns) (ids-append_all xs ys)

has_duplicates-behind :
    (xs ys : List String) → has_duplicates (xs ++ ys) ≡ false → has_duplicates ys ≡ false
unfolding has_duplicates
has_duplicates-behind [] ys h = h
has_duplicates-behind (x ∷ xs) ys h = has_duplicates-behind xs ys (ground arith)

-- Behind others, items with unique identifiers have them by themselves.
behind-HasUniqueIds : (xs ys : List EvidenceItem) → HasUniqueIds (xs ++ ys) → HasUniqueIds ys
behind-HasUniqueIds xs ys h =
    has_duplicates-behind (ids xs) (ids ys)
      (subst (λ ns. has_duplicates ns ≡ false) (ids-append_all xs ys) h)

refused-clashes :
    (items : List EvidenceItem) {e : Error} → collect items ≡ err e → ¬ HasUniqueIds items
refused-clashes items h u = let both = sym h ∙ collect_unique items u in cc (both)

pub join_evidence-eq-err :
    (h : Hashing) (c : Collector) (r : WorkerReport) (e : Error)
    → HasUniqueIds c.items
    → join_evidence h c r ≡ err e
    → Unjoined h c r e
unfolding join_evidence join
join_evidence-eq-err h c r e u g =
    elim (>>=-eq-err (traverse (as_agent_claim h) r.evidence.items) _ g) [
      | inl raised_here ↦ unclaimed (traverse-unclaimed h r.evidence.items e raised_here)
      | inr (claims, made, g1) ↦
          clashing claims (traverse-AreClaims h r.evidence.items claims made) (λ unique.
            let kept = collect_unique claims (behind-HasUniqueIds c.items claims unique) in
            let held = snapshot_unique c u in
            let whole = collect_unique (c.items ++ claims) unique in
            let returns = rw (kept, held, whole) at g1 in cc (returns))
    ]
