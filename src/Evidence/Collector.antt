-- ===== src/Evidence/Collector.antt =====
-- src/runmantle/evidence.py: `InMemoryEvidenceCollector`.
pub mod Ids
use runmantle.Prelude.{
  ℕ, String, Bool, true, false, Option, none, some, List, [], ◌∷◌, ◌++◌, any, is_blank, Error,
  Result, ok, err, value_error, ◌>>=◌, ◌>>◌, raise_if, ◌==◌, ◌<>◌, if◌then◌else◌, default_to,
}
use runmantle.Value.{DateTime, Value, Entries, end}
use runmantle.Evidence.{
  agent_claim, agent_reported, AcquisitionMethod, TrustLevel, EvidenceFields, EvidenceItem,
  no_token, Hashing, construct,
}
use runmantle.Evidence.Collection.{EvidenceCollection, collect}

-- A callback is known by a number.
pub record Collector : Type 0 where
  pub items : List EvidenceItem
  pub on_record : Option ℕ
  pub listeners : List ℕ

pub record RecordArguments : Type 0 where
  pub evidence_type : String
  pub payload : Option Entries
  pub content : Option Value
  pub source : String
  pub provenance : Option Entries
  pub artifact_reference : Option String
  pub checksum : Option String
  pub metadata : Option Entries
  pub acquisition_method : AcquisitionMethod
  pub trust_level : TrustLevel
  pub expires_at : Option DateTime
  pub evidence_id : Option String

-- `evidence_id or self.id_factory()`: an empty text is falsy.
abbrev pub id_or : Option String → String → String
id_or none fresh = fresh
id_or (some id) fresh = if id == "" then fresh else id

-- The item that the arguments describe. The method and the trust level given are discarded.
unfoldable pub recorded_fields : RecordArguments → DateTime → String → EvidenceFields
recorded_fields a now fresh = record {
  evidence_id = id_or a.evidence_id fresh;
  type = a.evidence_type;
  source = a.source;
  collected_at = now;
  content = a.content;
  payload = a.payload;
  provenance = default_to end a.provenance;
  artifact_reference = a.artifact_reference;
  checksum = a.checksum;
  metadata = default_to end a.metadata;
  acquisition_method = agent_reported;
  trust_level = agent_claim;
  expires_at = a.expires_at;
}

unfoldable pub holds_id : List EvidenceItem → String → Bool
holds_id items id = any (λ existing. existing.evidence_id == id) items

abbrev callbacks : Option ℕ → List ℕ → List ℕ
callbacks none ls = ls
callbacks (some f) ls = f ∷ ls

-- The text of an identifier without quotes and escapes stands in single quotes.
abbrev pub duplicate_id : String → Error
duplicate_id id = value_error ("duplicate evidence id '" <> id <> "'")

-- The part under the lock, and the callbacks that follow it.
unfoldable pub add_item : Collector → EvidenceItem → Result (EvidenceItem × List ℕ) × Collector
unfolding holds_id
add_item c item =
    if holds_id c.items item.evidence_id
    then (err (duplicate_id item.evidence_id), c)
    else (ok (item, callbacks c.on_record c.listeners), record c { items = c.items ++ item ∷ [] })

abbrev add_constructed :
    Collector → Result EvidenceItem → Result (EvidenceItem × List ℕ) × Collector
add_constructed c (ok item) = add_item c item
add_constructed c (err e) = (err e, c)

-- `record(…)` up to its callbacks, at a reading of the clock and with an identifier of the factory.
unfoldable pub store_evidence :
    Hashing
    → RecordArguments
    → DateTime
    → String
    → Collector
    → Result (EvidenceItem × List ℕ) × Collector
unfolding recorded_fields
store_evidence h a now fresh c =
    add_constructed c (construct h (recorded_fields a now fresh) no_token)

-- What the callbacks do with an item: each returns, or raises.
abbrev pub Callbacks : Type 0
Callbacks = ℕ → EvidenceItem → Option Error

abbrev stops_at : Option Error → Result EvidenceItem → Result EvidenceItem
stops_at none rest = rest
stops_at (some e) rest = err e

-- The callbacks, one after the other, up to one that raises.
unfoldable pub call_all : Callbacks → List ℕ → EvidenceItem → Result EvidenceItem
call_all answer [] item = ok item
call_all answer (f ∷ fs) item = stops_at (answer f item) (call_all answer fs item)

abbrev pub called_back :
    Callbacks → Result (EvidenceItem × List ℕ) × Collector → Result EvidenceItem × Collector
called_back answer (ok (item, fs), c) = (call_all answer fs item, c)
called_back answer (err e, c) = (err e, c)

-- `record(…)`. What a callback raises leaves the item in the collector.
unfoldable pub record_evidence :
    Callbacks
    → Hashing
    → RecordArguments
    → DateTime
    → String
    → Collector
    → Result EvidenceItem × Collector
unfolding store_evidence call_all
record_evidence answer h a now fresh c = called_back answer (store_evidence h a now fresh c)

unfoldable pub snapshot : Collector → Result EvidenceCollection
snapshot c = collect c.items

unfoldable pub add_listener : Collector → ℕ → Collector
add_listener c listener = record c { listeners = c.listeners ++ listener ∷ [] }

-- A collector as `InMemoryEvidenceCollector()` makes it.
abbrev pub new_collector : Collector
new_collector = record { items = []; on_record = none; listeners = [] }
