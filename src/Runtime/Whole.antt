-- ===== src/Runtime/Whole.antt =====
-- `InMemoryRuntime.execute` as a whole: what can become of an execution.
use runmantle.Prelude.{
  ◌≢◌, IsOk, ◌≡◌, refl, String, Bool, true, false, is_blank, Error, Result, ok, err,
}
use runmantle.Validation.{require_non_empty}
use runmantle.Contracts.{pending, running}
use runmantle.Evidence.Collection.{EvidenceCollection}
use runmantle.Evidence.Unique.{HasUniqueIds}
use runmantle.Evidence.Collector.{Collector, add_listener, id_or}
use runmantle.Verification.{TaskContract}
use runmantle.Core.{WorkerReport, TaskResult}
use runmantle.Runtime.Monad.{Lifecycle, Clock, Action, ◌>>=◌}
use runmantle.Runtime.Lifecycle.{allows, new_lifecycle, transition}
use runmantle.Runtime.Lifecycle.Steps.{IsNamed, IsAware, IsAt, Returns}
use runmantle.Runtime.Lifecycle.Transitions.{start-IsAt, transition-IsAt}
use runmantle.Runtime.Execute.{Worker, report, execute_with_guards, validate_worker}
use runmantle.Runtime.Run.{settle_outcome}
use runmantle.Runtime.Settled.{IsSettled}
use runmantle.Runtime.Start.{
  Runtime, Call, run_steps, run_worker, work_unless, execute_valid, execute, lifecycle_listener,
  worker_details, contract_details,
}
use runmantle.Runtime.Gathered.{Gathered, Unjoined}
use runmantle.Runtime.Outcome.{
  Ending, settled, unjoined, run_steps-keeps, cancelled_fail-IsSettled, settle_outcome-Ending,
}

abbrev pub listened : Call → Collector
listened call = add_listener call.collector lifecycle_listener

-- The collector after what the worker did.
unfoldable pub AfterWork : Clock → Runtime → Call → Collector → Type 0
AfterWork clock runtime call c =
    (s : Lifecycle) × (c ≡ (run_steps clock runtime.hashing call.steps (listened call) s).0)

-- The evidence: of a call that was cancelled before the worker ran, what the collector held; and else
-- what it holds after the work, with the claims made of a report behind it.
pub data Gained (clock : Clock) (runtime : Runtime) (call : Call) (evidence : EvidenceCollection)
    : Type 0 where
  not_run :
      call.is_cancelled ≡ true
      → evidence.items ≡ call.collector.items
      → Gained clock runtime call evidence
  worked :
      (c : Collector)
      → call.is_cancelled ≡ false
      → AfterWork clock runtime call c
      → Gathered runtime.hashing c evidence (execute_with_guards call.race)
      → Gained clock runtime call evidence

-- The whole execution: settled, or stopped by an exception with the task still running.
pub data Execution (clock : Clock) (runtime : Runtime) (contract : TaskContract) (call : Call)
    (end : Result TaskResult × Lifecycle) : Type 0 where
  completed :
      (t : TaskResult) (evidence : EvidenceCollection)
      → end.0 ≡ ok t
      → IsAt t.status end.1
      → IsSettled clock contract runtime.verifier evidence t
      → Gained clock runtime call evidence
      → Execution clock runtime contract call end
  escaped :
      (r : WorkerReport) (e : Error) (c : Collector)
      → AfterWork clock runtime call c
      → execute_with_guards call.race ≡ report r
      → Unjoined runtime.hashing c r e
      → end.0 ≡ err e
      → IsAt running end.1
      → Execution clock runtime contract call end

bind_of_returned :
    {A B : Type 0} (m : Action A) (f : A → Action B) (s : Lifecycle) (v : A)
    → (m s).0 ≡ ok v
    → (m >>= f) s ≡ f v (m s).1
bind_of_returned m f s v e = rw e

module _ (clock : Clock) (aware : IsAware clock) (runtime : Runtime) (contract : TaskContract) where
  settled-Execution :
      (call : Call) (evidence : EvidenceCollection) (m : Action TaskResult)
      → (s : Lifecycle) → Gained clock runtime call evidence
      → Returns m s
          (λ t s'. IsAt t.status s' × IsSettled clock contract runtime.verifier evidence t)
      → Execution clock runtime contract call (m s)
  settled-Execution call evidence m s gained r =
      completed r.value evidence r.returned r.after.0 r.after.1 gained

  Ending-Execution :
      (call : Call) (c : Collector) (m : Action TaskResult) (s : Lifecycle)
      → call.is_cancelled ≡ false
      → AfterWork clock runtime call c
      → IsAt running s
      → Ending clock contract runtime c (execute_with_guards call.race) m s
      → Execution clock runtime contract call (m s)
  Ending-Execution call c m s live reached g (settled evidence gathered r) =
      settled-Execution call evidence m s (worked c live reached gathered) r
  Ending-Execution call c m s live reached g (unjoined r x reported refused same) =
      escaped r x c reached reported refused (rw same) (rw same g)

  run_worker-Execution :
      (call : Call) (s : Lifecycle)
      → call.is_cancelled ≡ false
      → HasUniqueIds (listened call).items
      → IsAt running s
      → Execution clock runtime contract call
          (run_worker clock runtime contract call (listened call) s)
  unfolding run_worker AfterWork
  run_worker-Execution call s live u g =
      let (g', u') =
        run_steps-keeps clock aware runtime.hashing call.steps (listened call) s running g u in
      let after = run_steps clock runtime.hashing call.steps (listened call) s in
      let outcome = execute_with_guards call.race in
      Ending-Execution call after.0
        (settle_outcome clock contract runtime.hashing runtime.verifier after.0 outcome) after.1
        live (s, refl) g'
        (settle_outcome-Ending clock aware contract runtime after.0 outcome after.1 u' g')

  work_unless-Execution :
      (cancelled : Bool) (worker : Worker) (call : Call) (s : Lifecycle)
      → call.is_cancelled ≡ cancelled
      → HasUniqueIds (listened call).items
      → IsAt pending s
      → Execution clock runtime contract call
          (work_unless clock cancelled runtime worker contract call (listened call) s)
  unfolding work_unless allows add_listener
  work_unless-Execution true worker call s cancelled u g =
      settled-Execution call (record { items = (listened call).items }) _ s (not_run cancelled refl)
        (cancelled_fail-IsSettled clock aware contract runtime.verifier (listened call) _ s pending
          refl u g)
  work_unless-Execution false worker call s live u g =
      let r = transition-IsAt clock aware pending running (worker_details worker) s refl g in
      rw
        (bind_of_returned (transition clock running (worker_details worker)) _ s r.value r.returned)
        (run_worker-Execution call (transition clock running (worker_details worker) s).1 live u
          r.after)

  execute_valid-Execution :
      (worker : Worker) (call : Call) (correlation : String)
      → IsNamed (new_lifecycle contract.task_id correlation worker.id)
      → HasUniqueIds call.collector.items
      → Execution clock runtime contract call (
          execute_valid clock runtime worker contract call
            (new_lifecycle contract.task_id correlation worker.id))
  unfolding execute_valid add_listener
  execute_valid-Execution worker call correlation named u =
      let s = new_lifecycle contract.task_id correlation worker.id in
      let details = contract_details runtime.hashing contract in
      let r = start-IsAt clock aware contract.task_id correlation worker.id details named in
      rw (bind_of_returned (transition clock pending details) _ s r.value r.returned) (
        work_unless-Execution call.is_cancelled worker call (transition clock pending details s).1
          refl u r.after)

  execute_of_valid :
      (worker : Worker) (call : Call)
      → validate_worker worker ≡ ok tt
      → is_blank (id_or call.correlation_id call.fresh_id) ≡ false
      → execute clock runtime worker contract call
        ≡ execute_valid clock runtime worker contract call
            (new_lifecycle contract.task_id (id_or call.correlation_id call.fresh_id) worker.id)
  unfolding execute require_non_empty
  execute_of_valid worker call valid correlated = rw (valid, correlated)

  -- An execution of a valid worker, for a task and a correlation that have names, under a clock
  -- that gives offsets, and with a collector whose identifiers are unique, ends in one of two
  -- ways. Either it returns a result, the lifecycle stands at the result's status with a numbered
  -- log that follows the table of transitions, and the result is settled: it is in a terminal
  -- state, or it was reported complete and there is no verifier; its evidence is what the
  -- collector held at the start, where the call was cancelled before, and else what it holds after
  -- the worker's steps, followed, where the worker reported, by the claims made of the reported
  -- items, one of each and in order; and if it is verified, then the worker reported completion
  -- and the evidence proves the outcome at a reading of the clock. Or the worker returned a report
  -- of which an item cannot be made a claim, or whose claims have identifiers that clash with each
  -- other or with the collector's, `execute` raises that error, and the lifecycle stands at
  -- running.
  pub execute-Execution :
      (worker : Worker) (call : Call)
      → validate_worker worker ≡ ok tt
      → is_blank contract.task_id ≡ false
      → is_blank worker.id ≡ false
      → is_blank (id_or call.correlation_id call.fresh_id) ≡ false
      → HasUniqueIds call.collector.items
      → Execution clock runtime contract call (execute clock runtime worker contract call)
  unfolding new_lifecycle
  execute-Execution worker call valid task_named worker_named correlated u =
      rw (execute_of_valid worker call valid correlated) (
        execute_valid-Execution worker call (id_or call.correlation_id call.fresh_id)
          (record { task = task_named; correlation = correlated; worker = worker_named }) u)

  Execution-IsOk :
      (call : Call) (end : Result TaskResult × Lifecycle)
      → ((r : WorkerReport) → execute_with_guards call.race ≢ report r)
      → Execution clock runtime contract call end
      → IsOk end.0
  Execution-IsOk call end unreported (completed t evidence e g shape gained) = (t, e)
  Execution-IsOk call end unreported (escaped r x c reached reported refused e g) =
      absurd (unreported r reported)

  -- For a valid worker, a task and a correlation that have names, a clock that gives offsets, and
  -- a collector whose identifiers are unique, where the race does not end with a report, because
  -- the worker ran out of time, was cancelled or raised an exception, `execute` returns a result
  -- and raises nothing.
  pub execute-IsOk :
      (worker : Worker) (call : Call)
      → validate_worker worker ≡ ok tt
      → is_blank contract.task_id ≡ false
      → is_blank worker.id ≡ false
      → is_blank (id_or call.correlation_id call.fresh_id) ≡ false
      → HasUniqueIds call.collector.items
      → ((r : WorkerReport) → execute_with_guards call.race ≢ report r)
      → IsOk (execute clock runtime worker contract call).0
  execute-IsOk worker call valid task_named worker_named correlated u unreported =
      Execution-IsOk call (execute clock runtime worker contract call) unreported
        (execute-Execution worker call valid task_named worker_named correlated u)
