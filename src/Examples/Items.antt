-- ===== src/Examples/Items.antt =====
-- Evidence items, and the theorems of their trust at them.
use runmantle.Prelude.{
  eqb, err, value_error, length, none, some, if◌then◌else◌, [], ◌∷◌, String, ◌==◌, ◌∷◌, [], ◌≡◌,
  refl, false, none, some, ok,
}
use runmantle.Evidence.{
  token, EvidenceItem, no_token, construct, agent_claim, agent_reported, calculate_origin_hash,
}
use runmantle.Evidence.Collection.{EvidenceCollection, append, get}
use runmantle.Evidence.Lookup.{get-append}
use runmantle.Evidence.Origin.{trust_established, restore_evidence_origin, as_agent_claim}
use runmantle.Evidence.Trust.{as_agent_claim-stripped}
use runmantle.Evidence.Restore.{restore-construct, restore-origin_hash}
use runmantle.Evidence.Collector.{Collector, Callbacks, new_collector, record_evidence}
use runmantle.Evidence.Collector.Ids.{
  IsSound, Recorded, record_evidence-Recorded, record_evidence-IsSound,
}
use runmantle.Examples.Samples.{
  program, at, hashing, test_fields, test_origin, observed_item, claimed_item, stripped_item,
  claim_arguments,
}

construct_observed : construct hashing test_fields (token test_origin none) ≡ ok observed_item
unfolding program
construct_observed = refl

construct_claimed : construct hashing test_fields no_token ≡ ok claimed_item
unfolding program
construct_claimed = refl

strip_observed : as_agent_claim hashing observed_item ≡ ok stripped_item
unfolding program
strip_observed = refl

as_agent_claim-stripped_example :
    (trust_established stripped_item ≡ false)
    × (stripped_item.trust_level ≡ agent_claim)
    × (stripped_item.acquisition_method ≡ agent_reported)
    × (stripped_item.evidence_id ≡ observed_item.evidence_id)
    × (stripped_item.type ≡ observed_item.type)
as_agent_claim-stripped_example =
    as_agent_claim-stripped hashing observed_item stripped_item strip_observed

restore-construct_example :
    restore_evidence_origin hashing "sha256:encoded" observed_item.trust_origin observed_item.fields
    ≡ ok observed_item
restore-construct_example =
    restore-construct hashing test_fields test_origin none observed_item "sha256:encoded"
      construct_observed refl

restore_observed :
    restore_evidence_origin hashing "sha256:encoded" test_origin test_fields ≡ ok observed_item
unfolding program
restore_observed = refl

restore-origin_hash_example :
    (observed_item.origin_hash ≡ some "sha256:encoded")
    × ((c : String) × (observed_item.checksum ≡ some c)
        × (calculate_origin_hash hashing observed_item.fields c observed_item.trust_origin
            ≡ ok "sha256:encoded"))
restore-origin_hash_example =
    restore-origin_hash hashing "sha256:encoded" test_origin test_fields observed_item
      restore_observed

-- The callback 3 raises.
abbrev answers : Callbacks
answers f item = if eqb f 3 then some (value_error "no") else none

abbrev watched : Collector
watched = record new_collector { listeners = 2 ∷ 3 ∷ 4 ∷ [] }

record_evidence-Recorded_example :
    Recorded answers watched
      (record_evidence answers hashing claim_arguments (at 4) "e-7" watched).0
      (record_evidence answers hashing claim_arguments (at 4) "e-7" watched).1
record_evidence-Recorded_example =
    record_evidence-Recorded answers hashing claim_arguments (at 4) "e-7" watched

watched-IsSound : IsSound watched
unfolding program
watched-IsSound = record { unique = refl; claims = tt }

record_evidence-IsSound_example :
    IsSound (record_evidence answers hashing claim_arguments (at 4) "e-7" watched).1
record_evidence-IsSound_example =
    record_evidence-IsSound answers hashing claim_arguments (at 4) "e-7" watched watched-IsSound

-- The call raises, and the item stays.
raised_after_append :
    ((record_evidence answers hashing claim_arguments (at 4) "e-7" watched).0
      ≡ err (value_error "no"))
    × (length (record_evidence answers hashing claim_arguments (at 4) "e-7" watched).1.items ≡ 1)
unfolding program
raised_after_append = (refl, refl)

abbrev second_item : EvidenceItem
second_item = record observed_item { fields = record test_fields { evidence_id = "e-2" } }

abbrev pair : EvidenceCollection
pair = record { items = observed_item ∷ second_item ∷ [] }

append-second_item : append (record { items = observed_item ∷ [] }) second_item ≡ ok pair
unfolding program
append-second_item = refl

get-append_example :
    (get pair "e-2" ≡ some second_item)
    × ((id : String)
        → ("e-2" == id) ≡ false
        → get pair id ≡ get (record { items = observed_item ∷ [] }) id)
get-append_example =
    get-append (record { items = observed_item ∷ [] }) pair second_item append-second_item
