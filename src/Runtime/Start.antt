-- ===== src/Runtime/Start.antt =====
-- src/runmantle/runtime.py: `InMemoryRuntime.execute`, up to the worker's end and as a whole.
use runmantle.Prelude.{
  ℕ, String, Bool, true, false, Option, List, [], ◌∷◌, eqb, contains, select, map, Result, ok, err,
  if◌then◌else◌,
}
use runmantle.Value.{str, list, mapping, Entries, end, entry, from_list}
use runmantle.Validation.{require_non_empty}
use runmantle.Contracts.{pending, running, risk_value}
use runmantle.Evidence.{EvidenceItem, Hashing}
use runmantle.Evidence.Collector.{Collector, store_evidence, add_listener, id_or}
use runmantle.Verification.{TaskContract}
use runmantle.Telemetry.Describe.{task_contract_telemetry}
use runmantle.Core.{TaskResult}
use runmantle.Runtime.Monad.{Lifecycle, Clock, Action, lift, ◌>>◌}
use runmantle.Runtime.Lifecycle.{new_lifecycle, transition, collected, worker_emit}
use runmantle.Runtime.Execute.{
  Worker, WorkerStep, emit_event, record_item, Race, execute_with_guards, validate_worker, Verifier,
}
use runmantle.Runtime.Run.{settle_outcome, cancelled_fail}

-- The runtime's own listener among the numbers of a collector's callbacks.
abbrev pub lifecycle_listener : ℕ
lifecycle_listener = 0

-- What a runtime is made of, but for its clock.
pub record Runtime : Type 0 where
  pub verifier : Option Verifier
  pub hashing : Hashing

-- One call of `execute`: the collector that the factory gives, whether the token is cancelled
-- before the start, what the worker does, and how the race between it and the guards ends.
pub record Call : Type 0 where
  pub correlation_id : Option String
  pub fresh_id : String
  pub collector : Collector
  pub is_cancelled : Bool
  pub steps : List WorkerStep
  pub race : Race

abbrev pub worker_details : Worker → Entries
worker_details w = entry "worker_name" (str w.name) (
    entry "worker_role" (str w.role) (
      entry "worker_version" (str w.version)
        (entry "declared_capabilities" (list (from_list (map str w.capabilities))) end)))

abbrev pub contract_details : Hashing → TaskContract → Entries
contract_details h contract =
    entry "task_contract" (mapping (task_contract_telemetry h contract))
      (entry "risk_level" (str (risk_value contract.risk_level)) end)

module _ (clock : Clock) where
  -- The callbacks of a collector. Those of the application do not touch the lifecycle.
  unfoldable pub notify : EvidenceItem → List ℕ → Lifecycle → Lifecycle
  notify item [] s = s
  notify item (c ∷ cs) s =
      notify item cs (if eqb c lifecycle_listener then (collected clock item s).1 else s)

  abbrev pub after_record :
      Result (EvidenceItem × List ℕ) × Collector → Lifecycle → Collector × Lifecycle
  after_record (ok (item, callbacks), c) s = (c, notify item callbacks s)
  after_record (err e, c) s = (c, s)

  unfoldable pub run_step : Hashing → WorkerStep → Collector → Lifecycle → Collector × Lifecycle
  unfolding notify
  run_step h (emit_event name details event_type) c s =
      (c, (worker_emit clock name details event_type s).1)
  run_step h (record_item arguments now fresh) c s =
      after_record (store_evidence h arguments now fresh c) s

  unfoldable pub run_steps :
      Hashing → List WorkerStep → Collector → Lifecycle → Collector × Lifecycle
  unfolding run_step
  run_steps h [] c s = (c, s)
  run_steps h (w ∷ ws) c s = let (c', s') = run_step h w c s in run_steps h ws c' s'

  -- The part of `execute` in which the worker runs.
  unfoldable pub run_worker : Runtime → TaskContract → Call → Collector → Action TaskResult
  run_worker runtime contract call collector s =
      let (c, s') = run_steps runtime.hashing call.steps collector s in
      settle_outcome clock contract runtime.hashing runtime.verifier c
        (execute_with_guards call.race) s'

  -- `if token.is_cancelled: …`, and the start of the worker.
  unfoldable pub work_unless :
      Bool → Runtime → Worker → TaskContract → Call → Collector → Action TaskResult
  work_unless true runtime worker contract call collector =
      cancelled_fail clock contract collector "task cancellation was requested"
  work_unless false runtime worker contract call collector = do
    transition clock running (worker_details worker)
    run_worker runtime contract call collector

  -- `execute`, once the worker and the correlation are valid.
  unfoldable pub execute_valid : Runtime → Worker → TaskContract → Call → Action TaskResult
  unfolding from_list
  execute_valid runtime worker contract call = do
    transition clock pending (contract_details runtime.hashing contract)
    let collector = add_listener call.collector lifecycle_listener
    work_unless call.is_cancelled runtime worker contract call collector

  -- `execute(worker, contract, …)`: the result, or what it raises, and the lifecycle that is left.
  unfoldable pub execute : Runtime → Worker → TaskContract → Call → Result TaskResult × Lifecycle
  execute runtime worker contract call =
      let correlation = id_or call.correlation_id call.fresh_id in
      let s = new_lifecycle contract.task_id correlation worker.id in
      (do
        lift (validate_worker worker)
        lift (require_non_empty correlation "correlation_id")
        execute_valid runtime worker contract call)
        s

-- `contract.allowed_capabilities.intersection(…)`, which the worker's context carries.
unfoldable pub granted_capabilities : TaskContract → Worker → List String
granted_capabilities contract worker =
    select (contains worker.capabilities) contract.allowed_capabilities
