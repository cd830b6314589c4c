-- ===== src/Examples/Executions.antt =====
-- Whole executions, and the theorems of the runtime at them.
use runmantle.Prelude.{
  IsOk, false, ◌≡◌, ◌≢◌, refl, ◌∷◌, [], none, some, ok, err, value_error, All, arith,
}
use runmantle.Value.{end}
use runmantle.Value.Duration.{duration_text}
use runmantle.Contracts.{pending, running, awaiting_evidence, verified}
use runmantle.Evidence.{EvidenceItem, agent_reported, agent_claim}
use runmantle.Evidence.Collection.{EvidenceCollection}
use runmantle.Evidence.Collector.{new_collector}
use runmantle.Evidence.Collector.Ids.{IsSound}
use runmantle.Verification.{VerificationStatus}
use runmantle.Verification.Observed.{IsPositive}
use runmantle.Core.{completed, missing_evidence, TaskResult}
use runmantle.Runtime.Monad.{Lifecycle}
use runmantle.Runtime.Lifecycle.{new_lifecycle, transition}
use runmantle.Runtime.Lifecycle.Steps.{IsNamed, IsAware, IsAt, Returns}
use runmantle.Runtime.Lifecycle.Transitions.{start-IsAt, transition-IsAt}
use runmantle.Runtime.Execute.{plain_error, cancelled_error}
use runmantle.Runtime.Start.{execute, Call}
use runmantle.Runtime.Whole.{Execution, execute-Execution, execute-IsOk}
use runmantle.Runtime.Distrust.{execute-verified}
use runmantle.Examples.Samples.{
  program, at, clock, contract, claimed, worker, runtime, reporting, passed_payload,
}

clock-IsAware : IsAware clock
clock-IsAware n = refl

abbrev started : Lifecycle
started = new_lifecycle "task" "c-1" "w-1"

started-IsNamed : IsNamed started
unfolding program
started-IsNamed = record { task = refl; correlation = refl; worker = refl }

pending_task : Returns (transition clock pending end) started (λ _. IsAt pending)
pending_task = start-IsAt clock clock-IsAware "task" "c-1" "w-1" end started-IsNamed

transition-IsAt_example :
    Returns
      (transition clock running end)
      (transition clock pending end started).1
      (λ _. IsAt running)
unfolding program
transition-IsAt_example =
    transition-IsAt clock clock-IsAware pending running end (transition clock pending end started).1
      refl pending_task.after

abbrev none_reported : EvidenceCollection
none_reported = record { items = [] }

execute-Execution_example :
    Execution clock runtime contract
      (reporting none_reported)
      (execute clock runtime worker contract (reporting none_reported))
unfolding program
execute-Execution_example =
    execute-Execution clock clock-IsAware runtime contract worker (reporting none_reported) refl
      refl refl refl refl

abbrev recorded_claim : EvidenceItem
recorded_claim = record {
  fields = record {
    evidence_id = "e-1";
    type = "test_run";
    source = "worker";
    collected_at = at 4;
    content = none;
    payload = some passed_payload;
    provenance = end;
    artifact_reference = none;
    checksum = some "sha256:encoded";
    metadata = end;
    acquisition_method = agent_reported;
    trust_level = agent_claim;
    expires_at = none;
  };
  trust_origin = end;
  origin_hash = none;
}

abbrev unverified : TaskResult
unverified = record {
  task_id = "task";
  correlation_id = "c-1";
  status = awaiting_evidence;
  reported_status = some completed;
  output = none;
  evidence = record { items = recorded_claim ∷ [] };
  errors = plain_error missing_evidence "required evidence has not been collected" ∷ [];
  timestamps = record {
    pending_at = at 0;
    started_at = some (at 1);
    agent_reported_complete_at = some (at 6);
    verification_started_at = some (at 8);
    finished_at = at 11;
  };
  final_verification_result = some (record {
    status = VerificationStatus.awaiting_evidence;
    criteria = [];
    missing_evidence = "test_run" ∷ [];
    contradictory_evidence = [];
    message = "required evidence is missing, expired, or below the minimum trust level";
  });
}

one_needed_here : All IsPositive contract.required_evidence
one_needed_here = (omega arith, tt)

new_collector-unfilled : IsSound new_collector
unfolding program
new_collector-unfilled = record { unique = refl; claims = tt }

-- A worker that names the highest level for what it records, and reports completion.
execute-unverified :
    (execute clock runtime worker contract (reporting none_reported)).0 ≡ ok unverified
unfolding program
execute-unverified = refl

execute-verified_example : unverified.status ≢ verified
unfolding program
execute-verified_example =
    execute-verified clock runtime contract worker (reporting none_reported) unverified
      clock-IsAware refl refl refl refl one_needed_here new_collector-unfilled execute-unverified

-- An item that the worker both recorded and reported.
execute_duplicate :
    (execute clock runtime worker contract (reporting claimed)).0
    ≡ err (value_error "evidence identifiers must be unique within a collection")
unfolding program
execute_duplicate = refl

left_running : (execute clock runtime worker contract (reporting claimed)).1.status ≡ some running
unfolding program
left_running = refl

half_past : duration_text 1800000000 ≡ "0:30:00"
unfolding duration_text
half_past = refl

days_on : duration_text 183845000007 ≡ "2 days, 3:04:05.000007"
unfolding duration_text
days_on = refl

-- A worker that is still running when its time is over.
abbrev hanging : Call
hanging = record (reporting none_reported) {
  race = record { worker_done = none; cancellation_done = false; after_cancel = cancelled_error };
}

execute-IsOk_example : IsOk (execute clock runtime worker contract hanging).0
unfolding program
execute-IsOk_example =
    execute-IsOk clock clock-IsAware runtime contract worker hanging refl refl refl refl refl
      (λ r h. cc (h))
