-- ===== src/Evidence/Origin.antt =====
-- src/runmantle/evidence.py: where an item's trust comes from, and what of it verification uses.
use runmantle.Prelude.{
  String, Bool, ◌&&◌, none, some, leb, is_some, Result, value_error, ◌>>◌, raise_if, if◌then◌else◌,
}
use runmantle.Value.{pos, int, str, mapping, Entries, end, entry, has_entries}
use runmantle.Validation.{require_non_empty}
use runmantle.Evidence.{
  TrustLevel, agent_claim, rank, AcquisitionMethod, agent_reported, EvidenceFields, EvidenceItem,
  no_token, token, Hashing, construct,
}

unfoldable pub trust_established : EvidenceItem → Bool
trust_established item = is_some item.origin_hash && has_entries item.trust_origin

-- `min` of two members of the enumeration.
abbrev min_level : TrustLevel → TrustLevel → TrustLevel
min_level a b = if leb (rank a) (rank b) then a else b

unfoldable pub effective_trust_level : EvidenceItem → TrustLevel
unfolding trust_established
effective_trust_level item =
    if trust_established item then item.trust_level else min_level item.trust_level agent_claim

-- The mapping that `_establish_evidence_origin` builds.
abbrev pub origin_of : String → String → Entries → Entries
origin_of boundary provider_identity provider_configuration = entry "schema_version" (int (pos 1)) (
    entry "boundary" (str boundary) (
      entry "provider_identity" (str provider_identity)
        (entry "provider_configuration" (mapping provider_configuration) end)))

module _ (h : Hashing) where
  unfoldable pub establish_evidence_origin :
      EvidenceItem
      → (boundary provider_identity : String) → (provider_configuration : Entries) → TrustLevel
      → AcquisitionMethod
      → Result EvidenceItem
  unfolding require_non_empty
  establish_evidence_origin item boundary identity configuration level method = do
    require_non_empty boundary "evidence trust boundary"
    require_non_empty identity "evidence provider identity"
    raise_if (leb (rank level) (rank agent_claim))
        (value_error "established evidence must have elevated trust")
    construct h (record item.fields { acquisition_method = method; trust_level = level })
        (token (origin_of boundary identity configuration) none)

  unfoldable pub restore_evidence_origin : String → Entries → EvidenceFields → Result EvidenceItem
  restore_evidence_origin origin_hash trust_origin values =
      construct h values (token trust_origin (some origin_hash))

  unfoldable pub as_agent_claim : EvidenceItem → Result EvidenceItem
  as_agent_claim item =
      construct h
        (record item.fields { acquisition_method = agent_reported; trust_level = agent_claim })
        no_token
