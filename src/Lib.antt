-- ===== src/Lib.antt =====
-- Runmantle: models and proofs of the verified task runtime.
--
-- Runmantle runs a worker on a task contract and does not take the worker's word for the
-- outcome. The worker records evidence and reports a status; a verifier decides from evidence
-- whose origin Runmantle itself established; a trust boundary checks the decision again; and a
-- lifecycle logs each state. The models follow the Python sources function by function:
--
-- - Prelude: texts, lists and exceptions as values (`Result`), shared by all.
-- - Value: the dynamic values (`Any`), `_freeze_value`, `_freeze_mapping`
--   (src/runmantle/evidence.py) and `_resolve_field` (src/runmantle/verification.py).
--   Value/Equality is Python's `==`, Value/Duration is `str(timedelta)`, and Value/Resolve/Raises
--   has what the look-up raises. There are no sets among the values.
-- - Validation: src/runmantle/_validation.py. Contracts: the enumerations of
--   src/runmantle/contracts.py.
-- - Evidence: src/runmantle/evidence.py. `construct` is `EvidenceItem(...)` with its
--   `__post_init__`; the private token of the module is the constructor `token` of
--   `OriginGrant`. Its children are Origin, Freshness, Requirement, Collection, Collector and
--   Registry, one for each class or group of functions, and Unique, Lookup, Collector/Ids,
--   Registry/Sealed, Trust and Restore with the proofs.
-- - Verification: src/runmantle/verification.py and `TaskContract`. Criteria evaluates the
--   classes of criteria, Verifier is `RuleBasedVerifier`, and `enforce_trust_boundary` is
--   `enforce_verification_trust_boundary`. Boundary, Observed, Verdict, Eligible, Soundness and
--   Totality hold the proofs.
-- - Telemetry: `LifecycleEvent` and `task_contract_telemetry` of src/runmantle/telemetry.py.
--   Buffered is `BufferedEventSink`, a function for each section that a thread runs without
--   waiting, and Buffered/Steps their interleavings as a step relation; Queue, Sound, Emitted,
--   Fifo and Blocked hold the proofs, and Names the values of `LifecycleEventType`.
-- - Serialization: src/runmantle/serialization.py. Encode is `_to_json`, Decode `_from_json`,
--   Shape `_validate_decoded_shape`, and Codec `SafeJsonCodec`; Within, Bounds, RoundTrip,
--   Codec/Loaded, Codec/Raises and Codec/Wrapped hold the proofs.
-- - Core: the reports and results of src/runmantle/core.py.
-- - Runtime: src/runmantle/runtime.py. Monad has the state of `_Lifecycle` and the actions on
--   it, Lifecycle its methods, Execute, Run and Start the methods of `InMemoryRuntime`. The
--   children of Lifecycle, and Progress, Settled, Gathered, Outcome, Claims, Whole and Distrust,
--   hold the proofs.
-- - Capabilities: the declarations and the registry of src/runmantle/capabilities.py.
-- - Recovery: src/runmantle/recovery.py. Plan is `RecoveryPlan` with its hash. Of the in-memory
--   executor, Gates has the checks, Executor `_execute_action` and `_run_handler`, for one action
--   at a time, and Session `execute`, the loop over a plan with its events; Interleaving has the
--   critical sections of several executions as a step relation. Permitted, Acted, Bound, Served
--   and Whole hold the proofs, and Names the values of the enumerations.
-- - Actions: src/runmantle/actions.py and the transactions on actions of
--   src/runmantle/persistence.py. Request is `ActionRequest` with its hashes, Policy `_decide_policy`
--   and `_authorize` of `MediatedActionExecutor`. Store and Running are the methods of
--   `SQLiteStore` on actions and the consumption of approvals, each a function on the tables that
--   keeps them where it raises, and Steps their sequences. Allowed, Authorized, Started,
--   Changed, Finished, Once, Inserted and Interleaved hold the proofs.
-- - ActionCache: src/runmantle/verified_action_cache.py. Host is what the application gives, Run
--   the look-up and `execute_or_fallback`; Reused, Unmatched, Kept, FellBack, Executed and Sound hold
--   the proofs.
-- - Stateful: methods that change a state and may raise, as a small monad.
-- - Approvals: src/runmantle/approvals.py, and in Authorized the proofs.
-- - Examples: small inputs, with runs of the program and the theorems at them.
--
-- A function that may raise returns a `Result`; a method that changes its object returns the new
-- state beside the result, on the raising paths too. A clock is a function from the number of
-- its readings to times. Every loop is over a list or a value, but for two that have fuel: the
-- count of decimal digits in Value/Duration, where nine are enough, since a `timedelta` has at
-- most 999999999 days, and the stack of Serialization/Shape, where the number of values is
-- enough, since each round takes one.
--
-- Parameters: the text of JSON and the library's functions on single values that the codec uses
-- (`JsonText`, `Primitives`); the encoder, the decoder and the digest (`Hashing`, `Codec`),
-- `isdigit` and `int` (`Digits`), what the callbacks of a collector raise (`Callbacks`), recovery
-- handlers, the attributes and lengths of application objects (`Classes`), the evaluators
-- of preconditions, the predicates of criteria, the matcher, the executors and the verifier of the
-- action cache (`Host`), the comparison of floats (`Scores`), the case folding and splitting of
-- texts and the order by `repr` (`Language`), custom criteria and verifiers, the identifiers that a
-- factory gives, what a worker does through its context (`WorkerStep`) and how the race between the
-- worker, its timeout and its cancellation ends (`Race`). The collector of an execution is an in-memory one, whatever
-- it holds at the start. Instants are in microseconds from a fixed origin. An event sink that
-- raises, a callback of the application on the collector of an execution that raises, and the
-- interleaving of a worker's steps with other tasks, are not modelled.
--
-- Not modelled: sets and floats among the values of evidence, dataclasses that hold read-only
-- mappings, which `asdict` cannot copy, the loop of the mediated executor, the durable runtime and
-- the rest of its persistence, with the text of its SQL, the file-write cache, the other event
-- sinks, the command line, and the integrations.
pub mod Prelude
pub mod Value
pub mod Validation
pub mod Contracts
pub mod Evidence
pub mod Verification
pub mod Telemetry
pub mod Core
pub mod Runtime
pub mod Approvals
pub mod Capabilities
pub mod Recovery
pub mod Actions
pub mod ActionCache
pub mod Serialization
pub mod Stateful
pub mod Examples
