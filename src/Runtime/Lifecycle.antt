-- ===== src/Runtime/Lifecycle.antt =====
-- src/runmantle/runtime.py: `_Lifecycle`, the state machine of one execution.
pub mod Log
pub mod Steps
pub mod Entered
pub mod Transitions
use runmantle.Prelude.{
  ℕ, ◌+◌, String, Bool, true, false, not, ◌||◌, Option, none, some, List, [], ◌∷◌, ◌++◌, is_some,
  is_blank, contains, Error, value_error, runtime_error, Guard, Result, ok, err, ◌<>◌,
  if◌then◌else◌, default_to,
}
use runmantle.Value.{DateTime, pos, Value, bool, int, str, mapping, Entries, end, entry}
use runmantle.Contracts.{
  TaskStatus, pending, running, agent_reported_complete, verifying, verified, failed, inconclusive,
  awaiting_evidence, awaiting_approval, awaiting_runtime_confirmation, status_value,
}
use runmantle.Evidence.{EvidenceItem, rank, method_value, optional_text, optional_moment}
use runmantle.Evidence.Origin.{trust_established, effective_trust_level}
use runmantle.Telemetry.{
  LifecycleEventType, state_transition, task_started, worker_started, agent_reported_completion,
  task_failed, evidence_collected, task_progress, tool_action_requested, worker_event,
  LifecycleEvent, check_event,
}
use runmantle.Core.{TaskTimestamps}
use runmantle.Runtime.Monad.{
  Lifecycle, Clock, Action, pure, throw, lift, ◌>>=◌, ◌>>◌, get, modify, read,
}

-- `_Lifecycle.__init__`.
unfoldable pub new_lifecycle : String → String → String → Lifecycle
new_lifecycle task_id correlation_id worker_id = record {
  task_id = task_id;
  correlation_id = correlation_id;
  worker_id = worker_id;
  sequence = 0;
  emitted_evidence_ids = [];
  status = none;
  pending_at = none;
  started_at = none;
  agent_reported_complete_at = none;
  verification_started_at = none;
  finished_at = none;
  events = [];
  readings = 0;
}

-- `_TERMINAL_STATES`.
unfoldable pub is_terminal : TaskStatus → Bool
is_terminal pending = false
is_terminal running = false
is_terminal agent_reported_complete = false
is_terminal verifying = false
is_terminal _ = true

-- `_ALLOWED_TRANSITIONS`.
unfoldable pub allows : Option TaskStatus → TaskStatus → Bool
unfolding is_terminal
allows none pending = true
allows none _ = false
allows (some pending) running = true
allows (some pending) failed = true
allows (some pending) _ = false
allows (some running) agent_reported_complete = true
allows (some running) failed = true
allows (some running) _ = false
allows (some agent_reported_complete) verifying = true
allows (some agent_reported_complete) _ = false
allows (some verifying) next = is_terminal next
allows (some _) _ = false

-- The time stamp that a transition leaves.
unfoldable pub stamp : TaskStatus → DateTime → Lifecycle → Lifecycle
stamp pending t s = record s { pending_at = some t }
stamp running t s = record s { started_at = some t }
stamp agent_reported_complete t s = record s { agent_reported_complete_at = some t }
stamp verifying t s = record s { verification_started_at = some t }
stamp _ t s = record s { finished_at = some t }

-- `self._sink.emit(LifecycleEvent(…))`: the event's own guards may raise.
abbrev emit_checked : Guard → LifecycleEvent → Lifecycle → Guard × Lifecycle
emit_checked (ok _) e s = (ok tt, record s { events = s.events ++ e ∷ [] })
emit_checked (err error) e s = (err error, s)

unfoldable pub emit : LifecycleEvent → Action Unit
emit e s = emit_checked (check_event e) e s

unfoldable pub event_of :
    Lifecycle
    → LifecycleEventType
    → DateTime
    → TaskStatus
    → Option TaskStatus
    → Option String
    → Entries
    → LifecycleEvent
event_of s event_type t state previous name details = record {
  event_type = event_type;
  task_id = s.task_id;
  correlation_id = s.correlation_id;
  worker_id = s.worker_id;
  occurred_at = t;
  sequence = s.sequence;
  state = state;
  previous_state = previous;
  name = name;
  details = details;
}

abbrev pub not_started : Error
not_started = runtime_error "task lifecycle has not started"

abbrev status_text : Option TaskStatus → String
status_text none = "None"
status_text (some s) = status_value s

abbrev pub invalid_transition : Option TaskStatus → TaskStatus → Error
invalid_transition previous next =
    runtime_error
      ("invalid task transition from " <> status_text previous <> " to " <> status_value next)

abbrev evidence_details : EvidenceItem → Entries
evidence_details item = entry "evidence_id" (str item.evidence_id) (
    entry "evidence_type" (str item.type) (
      entry "source" (str item.source) (
        entry "artifact_reference" (optional_text item.artifact_reference) (
          entry "checksum" (optional_text item.checksum) (
            entry "acquisition_method" (str (method_value item.acquisition_method)) (
              entry "trust_level" (int (pos (rank item.trust_level))) (
                entry "effective_trust_level" (int (pos (rank (effective_trust_level item)))) (
                  entry "trust_established" (bool (trust_established item)) (
                    entry "trust_origin" (mapping item.trust_origin) (
                      entry "origin_hash" (optional_text item.origin_hash) (
                        entry "expires_at" (optional_moment item.expires_at)
                          (entry "provenance" (mapping item.provenance) end))))))))))))

abbrev is_worker_type : LifecycleEventType → Bool
is_worker_type task_progress = true
is_worker_type tool_action_requested = true
is_worker_type worker_event = true
is_worker_type _ = false

abbrev timestamps_of : Lifecycle → DateTime → DateTime → TaskTimestamps
timestamps_of s pending_at finished = record {
  pending_at = pending_at;
  started_at = s.started_at;
  agent_reported_complete_at = s.agent_reported_complete_at;
  verification_started_at = s.verification_started_at;
  finished_at = finished;
}

module _ (clock : Clock) where
  abbrev semantic_in :
      Option TaskStatus → LifecycleEventType → Option String → Entries → Action Unit
  semantic_in none event_type name details = throw not_started
  semantic_in (some state) event_type name details = do
    modify (λ s. record s { sequence = s.sequence + 1 })
    t ← read clock
    s ← get
    emit (event_of s event_type t state none name details)

  unfoldable pub semantic : LifecycleEventType → Option String → Entries → Action Unit
  unfolding emit event_of
  semantic event_type name details s = semantic_in s.status event_type name details s

  -- The semantic events that follow a transition.
  unfoldable pub announce : TaskStatus → Entries → Action Unit
  announce running details = do
    semantic task_started (some "task.started") details
    semantic worker_started (some "worker.started") details
  announce agent_reported_complete details =
      semantic agent_reported_completion (some "agent.reported_completion") details
  announce failed details = semantic task_failed (some "task.failed") details
  announce _ details = pure tt

  abbrev enter : TaskStatus → Entries → Action Unit
  enter next details = do
    before ← get
    t ← read clock
    modify (λ s. stamp next t (record s { status = some next; sequence = s.sequence + 1 }))
    s ← get
    emit (event_of s state_transition t next before.status none details)
    announce next details

  unfoldable pub transition : TaskStatus → Entries → Action Unit
  unfolding emit
  transition next details s =
      if allows s.status next
      then enter next details s
      else throw (invalid_transition s.status next) s

  unfoldable pub collected : EvidenceItem → Action Unit
  collected item s =
      if contains s.emitted_evidence_ids item.evidence_id
      then pure tt s
      else semantic evidence_collected (some "evidence.collected") (evidence_details item)
          (record s { emitted_evidence_ids = item.evidence_id ∷ s.emitted_evidence_ids })

  unfoldable pub worker_emit : String → Entries → LifecycleEventType → Action Unit
  worker_emit name details event_type s =
      if is_blank name
      then throw (value_error "worker event name must not be empty") s
      else if not (is_some s.status)
      then throw not_started s
      else if not (is_worker_type event_type)
      then throw (value_error "workers may emit only progress or tool/action events") s
      else semantic event_type (some name) details s

  -- `self.finished_at or self._clock()`: the clock is read only where no time was stamped.
  unfoldable pub stamped : Option DateTime → Option DateTime → Action TaskTimestamps
  stamped none finished s = throw (runtime_error "pending timestamp was not recorded") s
  stamped (some t) (some finished) s = pure (timestamps_of s t finished) s
  stamped (some t) none s = (do finished ← read clock; pure (timestamps_of s t finished)) s

  unfoldable pub timestamps : Action TaskTimestamps
  unfolding stamped
  timestamps s = stamped s.pending_at s.finished_at s
