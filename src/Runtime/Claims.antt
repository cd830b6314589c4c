-- ===== src/Runtime/Claims.antt =====
-- What the worker gives is claims: no evidence of an execution gains trust on the way.
use runmantle.Prelude.{ℕ, ◌≡◌, refl, List, [], ◌∷◌, All, All-append, Result, ok, err}
use runmantle.Evidence.{EvidenceItem, Hashing}
use runmantle.Evidence.Trust.{as_agent_claim-stripped}
use runmantle.Evidence.Collection.{EvidenceCollection}
use runmantle.Evidence.Collector.{Collector, store_evidence}
use runmantle.Evidence.Collector.Ids.{IsClaim, store_evidence-Stored, Stored-claims}
use runmantle.Runtime.Monad.{Lifecycle, Clock}
use runmantle.Runtime.Execute.{WorkerStep, emit_event, record_item, Guarded}
use runmantle.Runtime.Start.{after_record, run_step, run_steps}
use runmantle.Runtime.Gathered.{
  AreClaims, no_claims, one_more, Gathered, after_timeout, after_cancellation, after_failure,
  with_report,
}

AreClaims-claims :
    (h : Hashing) {items claims : List EvidenceItem} → AreClaims h items claims → All IsClaim claims
AreClaims-claims h no_claims = tt
AreClaims-claims h (one_more item claim made rest) =
    ((as_agent_claim-stripped h item claim made).0, AreClaims-claims h rest)

pub Gathered-claims :
    (h : Hashing) (c : Collector) (outcome : Guarded) (evidence : EvidenceCollection)
    → All IsClaim c.items
    → Gathered h c evidence outcome
    → All IsClaim evidence.items
Gathered-claims h c _ evidence k (after_timeout same) = rw same k
Gathered-claims h c _ evidence k (after_cancellation text same) = rw same k
Gathered-claims h c _ evidence k (after_failure e same) = rw same k
Gathered-claims h c _ evidence k (with_report r claims made same) =
    rw same (All-append IsClaim c.items claims k (AreClaims-claims h made))

after_record-collector :
    (clock : Clock) (r : Result (EvidenceItem × List ℕ)) (c : Collector) (s : Lifecycle)
    → (after_record clock (r, c) s).0 ≡ c
after_record-collector clock (ok _) c s = refl
after_record-collector clock (err e) c s = refl

-- Whatever the worker does through its context, a collector of claims stays one.
pub run_steps-claims :
    (clock : Clock) (h : Hashing) (ws : List WorkerStep) (c : Collector) (s : Lifecycle)
    → All IsClaim c.items
    → All IsClaim (run_steps clock h ws c s).0.items
unfolding run_steps run_step
run_steps-claims clock h [] c s k = k
run_steps-claims clock h (emit_event n d t ∷ ws) c s k =
    run_steps-claims clock h ws c (run_step clock h (emit_event n d t) c s).1 k
run_steps-claims clock h (record_item a now fresh ∷ ws) c s k =
    let (r, c') = store_evidence h a now fresh c in
    run_steps-claims clock h ws (run_step clock h (record_item a now fresh) c s).0
      (run_step clock h (record_item a now fresh) c s).1
      (rw (after_record-collector clock r c' s)
        (Stored-claims (store_evidence-Stored h a now fresh c) k))
