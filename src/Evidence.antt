-- ===== src/Evidence.antt =====
-- src/runmantle/evidence.py: the trust levels, and the items with their construction.
pub mod Origin
pub mod Freshness
pub mod Requirement
pub mod Collection
pub mod Unique
pub mod Lookup
pub mod Collector
pub mod Registry
pub mod Trust
pub mod Restore
use runmantle.Prelude.{
  ℕ, ◌≤◌, String, ◌<>◌, Bool, true, false, not, ◌&&◌, Option, none, some, leb, is_some, is_blank,
  Guard, Result, ok, err, value_error, integrity_error, ◌>>=◌, ◌>>◌, raise_if, ◌==◌, if◌then◌else◌,
}
use runmantle.Value.{
  DateTime, pos, Value, null, int, str, moment, mapping, Entries, end, entry, has_entries,
  freeze_mapping,
}
use runmantle.Validation.{require_non_empty, require_aware}

-- `EvidenceTrustLevel`, an `IntEnum`: the members are ordered by their numbers.
pub data TrustLevel : Type 0 where
  untrusted agent_claim executor_receipt runtime_observed independent : TrustLevel

unfoldable pub rank : TrustLevel → ℕ
rank untrusted = 0
rank agent_claim = 10
rank executor_receipt = 20
rank runtime_observed = 30
rank independent = 40

pub data AcquisitionMethod : Type 0 where
  agent_reported executor_reported runtime_observed filesystem_inspection : AcquisitionMethod
  callable_provider independent_provider : AcquisitionMethod

unfoldable pub method_value : AcquisitionMethod → String
method_value agent_reported = "agent_reported"
method_value executor_reported = "executor_reported"
method_value AcquisitionMethod.runtime_observed = "runtime_observed"
method_value filesystem_inspection = "filesystem_inspection"
method_value callable_provider = "callable_provider"
method_value independent_provider = "independent_provider"

-- The fields that a caller gives, and those that only `__post_init__` sets.
pub record EvidenceFields : Type 0 where
  pub evidence_id : String
  pub type : String
  pub source : String
  pub collected_at : DateTime
  pub content : Option Value
  pub payload : Option Entries
  pub provenance : Entries
  pub artifact_reference : Option String
  pub checksum : Option String
  pub metadata : Entries
  pub acquisition_method : AcquisitionMethod
  pub trust_level : TrustLevel
  pub expires_at : Option DateTime

pub record EvidenceItem : Type 0 where
  pub fields : EvidenceFields
  pub open fields use *
  pub trust_origin : Entries
  pub origin_hash : Option String

-- The private arguments of the constructor. Only the functions of the module pass the token; with
-- it come the origin, and for a restored item the hash that was stored.
pub data OriginGrant : Type 0 where
  no_token : OriginGrant
  token : (origin : Entries) → (persisted_hash : Option String) → OriginGrant

-- `SafeJsonCodec().dumps`, which may refuse a value, and the digest of `hashlib.sha256`.
pub record Hashing : Type 0 where
  pub dumps : Value → Result String
  pub sha256 : String → String

abbrev pub optional_text : Option String → Value
optional_text none = null
optional_text (some s) = str s

abbrev pub optional_moment : Option DateTime → Value
optional_moment none = null
optional_moment (some t) = moment t

abbrev optional_value : Option Value → Value
optional_value none = null
optional_value (some v) = v

abbrev optional_mapping : Option Entries → Value
optional_mapping none = null
optional_mapping (some es) = mapping es

unfoldable pub check_expiry : DateTime → Option DateTime → Guard
check_expiry collected_at none = ok tt
check_expiry collected_at (some t) = do
  require_aware t "evidence expiry must include timezone information"
  raise_if (leb t.instant collected_at.instant)
      (value_error "evidence expiry must be after collection")

abbrev blank_reference : Option String → Bool
blank_reference none = false
blank_reference (some r) = is_blank r

-- The guards that look at the given fields alone.
unfoldable pub check_fields : EvidenceFields → Guard
unfolding require_non_empty require_aware check_expiry
check_fields f = do
  require_non_empty f.evidence_id "evidence_id"
  require_non_empty f.type "evidence type"
  require_non_empty f.source "evidence source"
  require_aware f.collected_at "collected_at must include timezone information"
  raise_if (not (is_some f.content) && not (is_some f.payload))
      (value_error "evidence requires content or a structured payload")
  raise_if (blank_reference f.artifact_reference)
      (value_error "artifact_reference must not be empty when provided")
  check_expiry f.collected_at f.expires_at

unfoldable pub check_checksum : Option String → String → Guard
check_checksum none calculated = ok tt
check_checksum (some c) calculated =
    raise_if (not (c == calculated))
      (integrity_error "caller-provided evidence checksum does not match its content")

unfoldable pub check_origin_hash : Option String → String → Guard
check_origin_hash none calculated = ok tt
check_origin_hash (some c) calculated =
    raise_if (not (c == calculated))
      (integrity_error "persisted evidence origin hash does not match")

abbrev frozen : Option Entries → Option Entries
frozen none = none
frozen (some es) = some (freeze_mapping es)

unfoldable pub freeze_fields : EvidenceFields → EvidenceFields
freeze_fields f = record f {
  payload = frozen f.payload;
  provenance = freeze_mapping f.provenance;
  metadata = freeze_mapping f.metadata;
}

module _ (h : Hashing) where
  unfoldable pub digest : Value → Result String
  digest v = do encoded ← h.dumps v; ok ("sha256:" <> h.sha256 encoded)

  unfoldable pub calculate_evidence_checksum : Option Value → Option Entries → Result String
  unfolding digest
  calculate_evidence_checksum content payload = digest (
      mapping
        (entry "content" (optional_value content) (entry "payload" (optional_mapping payload) end)))

  -- The fields are those of the item, with its checksum calculated and its mappings frozen.
  unfoldable pub calculate_origin_hash : EvidenceFields → String → Entries → Result String
  unfolding digest
  calculate_origin_hash f checksum origin = digest (
      mapping (
        entry "evidence_id" (str f.evidence_id) (
          entry "type" (str f.type) (
            entry "source" (str f.source) (
              entry "collected_at" (moment f.collected_at) (
                entry "checksum" (str checksum) (
                  entry "provenance" (mapping f.provenance) (
                    entry "acquisition_method" (str (method_value f.acquisition_method)) (
                      entry "trust_level" (int (pos (rank f.trust_level))) (
                        entry "expires_at" (optional_moment f.expires_at)
                          (entry "trust_origin" (mapping origin) end)))))))))))

  -- The last part of `__post_init__`: the fields are frozen, and the checksum is calculated.
  unfoldable pub grant_origin : EvidenceFields → String → OriginGrant → Result EvidenceItem
  grant_origin f calculated no_token =
      ok (record { fields = f; trust_origin = end; origin_hash = none })
  grant_origin f calculated (token given persisted) = do
    let origin = freeze_mapping given
    raise_if (not (has_entries origin))
        (integrity_error "trusted evidence requires origin provenance")
    origin_hash ← calculate_origin_hash f calculated origin
    check_origin_hash persisted origin_hash
    ok (record { fields = f; trust_origin = origin; origin_hash = some origin_hash })

  -- `EvidenceItem(…)`.
  unfoldable pub construct : EvidenceFields → OriginGrant → Result EvidenceItem
  unfolding freeze_fields
  construct given grant = do
    check_fields given
    let f = freeze_fields given
    calculated ← calculate_evidence_checksum f.content f.payload
    check_checksum given.checksum calculated
    grant_origin (record f { checksum = some calculated }) calculated grant
