-- ===== src/Evidence/Trust.antt =====
-- Elevated trust comes from the module's own token alone.
use runmantle.Prelude.{
  ◌≤◌, ◌<◌, ◌≡◌, String, true, false, Option, some, ok, >>=-eq-ok, >>-eq-ok, arith, inl, inr,
  Bool-cases,
}
use runmantle.Value.{Entries, has_entries, freeze_mapping}
use runmantle.Evidence.{
  agent_claim, rank, agent_reported, EvidenceFields, EvidenceItem, OriginGrant, no_token, token,
  Hashing, construct, grant_origin, freeze_fields, check_fields, calculate_evidence_checksum,
  calculate_origin_hash, check_checksum, check_origin_hash,
}
use runmantle.Evidence.Origin.{trust_established, effective_trust_level, as_agent_claim}

-- An item without a token claims at most what an agent can.
pub rank-effective_trust_level :
    (item : EvidenceItem) → trust_established item ≡ false → rank (effective_trust_level item) ≤ 10
unfolding effective_trust_level rank
rank-effective_trust_level item h = ground arith

-- The other way round: what is trusted above a claim was established.
pub established_of_rank :
    (item : EvidenceItem) → 10 < rank (effective_trust_level item) → trust_established item ≡ true
unfolding effective_trust_level rank
established_of_rank item h = ground arith

pub effective-established :
    (item : EvidenceItem)
    → trust_established item ≡ true
    → effective_trust_level item ≡ item.trust_level
unfolding effective_trust_level
effective-established item h = ground arith

module _ (h : Hashing) where
  -- What a successful construction has done: the shape of its result.
  pub construct_parts :
      (f : EvidenceFields) (grant : OriginGrant) (item : EvidenceItem)
      → construct h f grant ≡ ok item
      → (calculated : String) × (check_fields f ≡ ok tt)
        × (calculate_evidence_checksum h f.content (freeze_fields f).payload ≡ ok calculated)
        × (check_checksum f.checksum calculated ≡ ok tt)
        × (grant_origin h (record (freeze_fields f) { checksum = some calculated }) calculated grant
            ≡ ok item)
  unfolding construct
  construct_parts f grant item e =
      let (checked, e1) = >>-eq-ok _ _ e in
      let (calculated, summed, e2) = >>=-eq-ok _ _ e1 in
      let (matched, e3) = >>-eq-ok _ _ e2 in (calculated, checked, summed, matched, e3)

  -- An item that was constructed without the token has no established trust, whatever level its
  -- fields name.
  pub construct-no_token :
      (f : EvidenceFields) (item : EvidenceItem)
      → construct h f no_token ≡ ok item
      → trust_established item ≡ false
  unfolding trust_established grant_origin
  construct-no_token f item e =
      let (_, _, _, _, granted) = construct_parts f no_token item e in ground (arith, granted)

  -- What a granted origin has gone through.
  pub grant_origin-token :
      (f : EvidenceFields) (calculated : String) (given : Entries) (persisted : Option String)
      → (item : EvidenceItem) → grant_origin h f calculated (token given persisted) ≡ ok item
      → (k : String) × (has_entries (freeze_mapping given) ≡ true)
        × (calculate_origin_hash h f calculated (freeze_mapping given) ≡ ok k)
        × (check_origin_hash persisted k ≡ ok tt)
        × (item ≡ record { fields = f; trust_origin = freeze_mapping given; origin_hash = some k })
  unfolding grant_origin
  grant_origin-token f calculated given persisted item e =
      let origin = freeze_mapping given in
      let hashed = calculate_origin_hash h f calculated origin in
      elim (Bool-cases (has_entries origin)) [
        | inl some_entries ↦
            let (k, e1, e2) = >>=-eq-ok hashed _ (rw some_entries at e) in
            let (e3, e4) = >>-eq-ok (check_origin_hash persisted k) _ e2 in
            (k, some_entries, e1, e3, ground (arith, e4))
        | inr no_entries ↦ absurd (ground (arith, e, no_entries))
      ]

  -- An item that was constructed with the token has an established trust, and its effective level
  -- is the one that its fields name.
  pub construct-token :
      (f : EvidenceFields) (origin : Entries) (persisted : Option String) (item : EvidenceItem)
      → construct h f (token origin persisted) ≡ ok item
      → (trust_established item ≡ true) × (effective_trust_level item ≡ f.trust_level)
  unfolding effective_trust_level freeze_fields
  construct-token f origin persisted item e =
      let (calculated, _, _, _, granted) = construct_parts f (token origin persisted) item e in
      let (k, present, _, _, shape) =
        grant_origin-token _ calculated origin persisted item granted in
      rw shape (ground (arith, present))

  -- The claim made of an item has no established trust, names the level of an agent's claim and
  -- the method of an agent's report, and keeps the identifier and the type.
  pub as_agent_claim-stripped :
      (item claim : EvidenceItem)
      → as_agent_claim h item ≡ ok claim
      → (trust_established claim ≡ false)
        × (claim.trust_level ≡ agent_claim)
        × (claim.acquisition_method ≡ agent_reported)
        × (claim.evidence_id ≡ item.evidence_id)
        × (claim.type ≡ item.type)
  unfolding as_agent_claim grant_origin trust_established freeze_fields
  as_agent_claim-stripped item claim e =
      let (_, _, _, _, granted) =
        construct_parts
          (record item.fields { acquisition_method = agent_reported; trust_level = agent_claim })
          no_token claim e in
      ground (arith, granted)
