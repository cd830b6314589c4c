-- ===== src/Examples/Samples.antt =====
-- The inputs of the examples: a contract, its evidence, a worker and the ends of its calls.
use runmantle.Prelude.{
  traverse, insert_text, sort_texts, text_length, text_le, ℕ, true, false, none, some, [], ◌∷◌, ok,
  is_digits, to_int, is_blank, contains, split_dots, is_space,
}
use runmantle.Value.{DateTime, null, str, Entries, end, entry, lookup, freeze_value, from_list}
use runmantle.Value.Equality.{eq_value}
use runmantle.Value.Resolve.{resolve_field}
use runmantle.Validation.{
  require_non_empty_attributes, require_unique, require_aware, has_duplicates,
}
use runmantle.Contracts.{low, risk_value, status_value}
use runmantle.Evidence.{
  rank, TrustLevel, agent_claim, AcquisitionMethod, agent_reported, EvidenceFields, EvidenceItem,
  Hashing, calculate_evidence_checksum, calculate_origin_hash, check_origin_hash, check_checksum,
  check_fields, check_expiry, freeze_fields, digest, grant_origin, construct, method_value,
}
use runmantle.Evidence.Origin.{
  trust_established, effective_trust_level, establish_evidence_origin, restore_evidence_origin,
  as_agent_claim, origin_of,
}
use runmantle.Evidence.Freshness.{fresh_at, is_fresh}
use runmantle.Evidence.Requirement.{EvidenceRequirement, is_candidate, accepts, accepts_at}
use runmantle.Evidence.Collection.{EvidenceCollection, collect, of_type, join, append}
use runmantle.Evidence.Collector.{
  RecordArguments, store_evidence, record_evidence, call_all, snapshot, add_listener, new_collector,
  recorded_fields, holds_id, add_item,
}
use runmantle.Verification.{
  Criterion, field_equals, TaskContract, demands_observation, declares_trustworthy_requirement,
  count_accepted, unmet_requirements, enforce_trust_boundary,
}
use runmantle.Verification.Criteria.{Classes, item_value, evaluate, evaluate_field, compare_values}
use runmantle.Verification.Verifier.{
  Answers, eligible_items, is_eligible, accepted_by_all, evidence_consistency, check_paths,
  decide_status, judge, verify, verify_met, verify_unless_missing, evaluate_guarded, supplied,
}
use runmantle.Telemetry.{check_event}
use runmantle.Core.{completed, WorkerReport, reported_value}
use runmantle.Telemetry.Describe.{criterion_kind, task_contract_telemetry}
use runmantle.Runtime.Monad.{Clock}
use runmantle.Runtime.Lifecycle.{
  new_lifecycle, is_terminal, allows, emit, event_of, stamp, semantic, announce, transition,
  collected, worker_emit, stamped, timestamps,
}
use runmantle.Runtime.Execute.{
  collect_all, result_at, result, note_worker_failure, fail, task_status_of, verification_errors,
  Worker, record_item, returned, cancelled_error, execute_with_guards, validate_worker,
}
use runmantle.Runtime.Run.{
  join_evidence, verification_value, checked_verdict, conclude, verify_report, accept_report,
  gather, settle_outcome,
}
use runmantle.Runtime.Start.{
  Runtime, Call, notify, run_step, run_steps, run_worker, work_unless, execute_valid, execute,
}

abbrev pub at : ℕ → DateTime
at n = record { instant = n; aware = true }

abbrev pub clock : Clock
clock n = at n

-- A digest that is its input, of an encoding that tells a number of values apart.
abbrev pub hashing : Hashing
hashing = record { dumps = λ v. ok "encoded"; sha256 = λ s. s }

abbrev pub passed_payload : Entries
passed_payload = entry "status" (str "passed") end

abbrev pub test_fields : EvidenceFields
test_fields = record {
  evidence_id = "e-1";
  type = "test_run";
  source = "ci";
  collected_at = at 5;
  content = none;
  payload = some passed_payload;
  provenance = end;
  artifact_reference = none;
  checksum = none;
  metadata = end;
  acquisition_method = AcquisitionMethod.runtime_observed;
  trust_level = TrustLevel.runtime_observed;
  expires_at = none;
}

abbrev pub test_origin : Entries
test_origin = origin_of "runtime" "pytest" end

-- The item that the runtime established, and the one that carries its fields as a bare claim.
abbrev pub observed_item : EvidenceItem
observed_item = record {
  fields = record test_fields { checksum = some "sha256:encoded" };
  trust_origin = test_origin;
  origin_hash = some "sha256:encoded";
}

abbrev pub claimed_item : EvidenceItem
claimed_item = record {
  fields = record test_fields { checksum = some "sha256:encoded" };
  trust_origin = end;
  origin_hash = none;
}

abbrev pub stripped_item : EvidenceItem
stripped_item = record {
  fields = record test_fields {
    checksum = some "sha256:encoded";
    acquisition_method = agent_reported;
    trust_level = agent_claim;
  };
  trust_origin = end;
  origin_hash = none;
}

abbrev pub test_requirement : EvidenceRequirement
test_requirement = record {
  evidence_type = "test_run";
  description = "the tests were run";
  minimum_count = 1;
  consistent_fields = [];
  minimum_trust_level = TrustLevel.runtime_observed;
  max_age = some 100;
}

abbrev pub passed_criterion : Criterion
passed_criterion =
    field_equals "passed" "the tests passed" "status" (str "passed") (some "test_run")

abbrev pub contract : TaskContract
contract = record {
  task_id = "task";
  objective = "fix the build";
  input = null;
  acceptance_criteria = passed_criterion ∷ [];
  required_evidence = test_requirement ∷ [];
  allowed_capabilities = [];
  risk_level = low;
  timeout = 1000;
  idempotency_key = "key";
  metadata = end;
}

abbrev pub observed : EvidenceCollection
observed = record { items = observed_item ∷ [] }

abbrev pub claimed : EvidenceCollection
claimed = record { items = claimed_item ∷ [] }

abbrev pub classes : Classes
classes = record {
  attributes = λ i k. none;
  object_length = λ i c. none;
  digits = record { isdigit = is_digits; to_int = λ s. ok (to_int 0 s) };
}

abbrev pub no_answers : Answers
no_answers = record { runtime_confirmations = []; approvals = [] }

abbrev pub worker : Worker
worker = record {
  id = "w-1";
  name = "builder";
  role = "engineer";
  version = "1";
  capabilities = "shell" ∷ [];
}

abbrev pub claim_arguments : RecordArguments
claim_arguments = record {
  evidence_type = "test_run";
  payload = some passed_payload;
  content = none;
  source = "worker";
  provenance = none;
  artifact_reference = none;
  checksum = none;
  metadata = none;
  acquisition_method = AcquisitionMethod.runtime_observed;
  trust_level = TrustLevel.independent;
  expires_at = none;
  evidence_id = some "e-1";
}

abbrev pub report_of : EvidenceCollection → WorkerReport
report_of evidence = record { status = completed; output = none; evidence = evidence; errors = [] }

-- A worker that records a claim and then reports completion with the evidence given.
abbrev pub reporting : EvidenceCollection → Call
reporting evidence = record {
  correlation_id = none;
  fresh_id = "c-1";
  collector = new_collector;
  is_cancelled = false;
  steps = record_item claim_arguments (at 4) "e-7" ∷ [];
  race = record {
    worker_done = some (returned (report_of evidence));
    cancellation_done = false;
    after_cancel = cancelled_error;
  };
}

abbrev pub runtime : Runtime
runtime = record {
  verifier = some (λ c output evidence. verify classes no_answers c output evidence (at 9));
  hashing = hashing;
}

-- The definitions that the examples compute with.
unfoldable pub program : Unit {0}
unfolding rank is_blank contains split_dots is_space lookup freeze_value from_list eq_value
    resolve_field require_non_empty_attributes require_unique require_aware has_duplicates
    calculate_evidence_checksum calculate_origin_hash check_origin_hash check_checksum check_fields
    check_expiry freeze_fields digest grant_origin construct method_value trust_established
    effective_trust_level establish_evidence_origin restore_evidence_origin as_agent_claim fresh_at
    is_fresh is_candidate accepts accepts_at collect of_type join append store_evidence
    record_evidence call_all snapshot add_listener recorded_fields holds_id add_item
    demands_observation declares_trustworthy_requirement count_accepted unmet_requirements
    enforce_trust_boundary item_value evaluate evaluate_field compare_values eligible_items
    is_eligible accepted_by_all evidence_consistency check_paths decide_status judge verify
    verify_met verify_unless_missing evaluate_guarded supplied check_event new_lifecycle is_terminal
    allows execute_with_guards validate_worker join_evidence traverse insert_text sort_texts
    text_length text_le risk_value status_value emit event_of stamp semantic announce transition
    collected worker_emit stamped timestamps collect_all result_at result note_worker_failure fail
    task_status_of verification_errors verification_value checked_verdict conclude verify_report
    accept_report gather settle_outcome notify run_step run_steps run_worker work_unless
    execute_valid execute reported_value criterion_kind task_contract_telemetry
program = tt
