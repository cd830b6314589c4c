-- ===== src/Runtime/Distrust.antt =====
-- A worker cannot verify its own outcome: executions whose evidence is claims.
use runmantle.Prelude.{◌≡◌, ◌≢◌, ◌∙◌, ap, false, All, ok, Result, is_blank}
use runmantle.Contracts.{verified}
use runmantle.Evidence.Collector.{add_listener, id_or}
use runmantle.Evidence.Collector.Ids.{IsClaim, IsSound}
use runmantle.Evidence.Collection.{EvidenceCollection}
use runmantle.Verification.{TaskContract}
use runmantle.Verification.Observed.{IsPositive, claims-not-IsProven}
use runmantle.Core.{TaskResult}
use runmantle.Runtime.Monad.{Lifecycle, Clock}
use runmantle.Runtime.Lifecycle.Steps.{IsAware}
use runmantle.Runtime.Execute.{Worker, execute_with_guards, validate_worker}
use runmantle.Runtime.Start.{Runtime, Call, execute}
use runmantle.Runtime.Claims.{Gathered-claims, run_steps-claims}
use runmantle.Runtime.Whole.{
  listened, AfterWork, Gained, not_run, worked, Execution, completed, escaped, execute-Execution,
}

module _ (clock : Clock) (runtime : Runtime) (contract : TaskContract) where
  Gained-claims :
      (call : Call) (evidence : EvidenceCollection)
      → All IsClaim call.collector.items
      → Gained clock runtime call evidence
      → All IsClaim evidence.items
  unfolding AfterWork add_listener
  Gained-claims call evidence k (not_run cancelled same) = rw same k
  Gained-claims call evidence k (worked c live (s, same) gathered) =
      Gathered-claims runtime.hashing c (execute_with_guards call.race) evidence
        (rw same (run_steps-claims clock runtime.hashing call.steps (listened call) s k)) gathered

  Execution-claims :
      (call : Call) (end : Result TaskResult × Lifecycle) (t : TaskResult)
      → All IsClaim call.collector.items
      → All IsPositive contract.required_evidence
      → Execution clock runtime contract call end
      → end.0 ≡ ok t
      → t.status ≢ verified
  Execution-claims call end t k pos (completed t' evidence e g shape gained) returned v =
      let same : t' ≡ t = cc (e, returned) in
      let (n, proof) = shape.proven (ap (λ (r : TaskResult). r.status) same ∙ v) in
      claims-not-IsProven contract t'.evidence.items (clock n).instant pos
        (rw (shape.shown) (Gained-claims call evidence k gained)) proof
  Execution-claims call end t k pos (escaped r x c reached reported refused e g) returned v =
      cc (e, returned)

  -- No worker verifies its own outcome: under a clock that gives offsets, where the worker is
  -- valid, the task and the correlation have names, every requirement asks for at least one item,
  -- and the collector that the factory gives has unique identifiers and holds only items without
  -- an established trust, no execution returns a verified result, whatever the worker records,
  -- emits and reports, and whatever the verifier answers.
  pub execute-verified :
      (worker : Worker) (call : Call) (t : TaskResult)
      → IsAware clock
      → validate_worker worker ≡ ok tt
      → is_blank contract.task_id ≡ false
      → is_blank worker.id ≡ false
      → is_blank (id_or call.correlation_id call.fresh_id) ≡ false
      → All IsPositive contract.required_evidence
      → IsSound call.collector
      → (execute clock runtime worker contract call).0 ≡ ok t
      → t.status ≢ verified
  unfolding add_listener
  execute-verified worker call t aware valid task_named worker_named correlated pos sound returned =
      Execution-claims call (execute clock runtime worker contract call) t sound.claims pos
        (execute-Execution clock aware runtime contract worker call valid task_named worker_named
          correlated sound.unique)
        returned
