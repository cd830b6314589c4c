-- ===== src/Runtime/Lifecycle/Entered.antt =====
-- What a transition does before its semantic events: it stamps the time and logs one event.
use runmantle.Prelude.{
  ◌+◌, ◌≡◌, refl, ◌∙◌, ap, String, true, none, some, List, [], ◌∷◌, ◌++◌, is_some, is_blank, length,
  length-append, ok, arith,
}
use runmantle.Value.{DateTime, Entries}
use runmantle.Contracts.{
  TaskStatus, pending, running, agent_reported_complete, verifying, verified, failed,
}
use runmantle.Telemetry.{state_transition, LifecycleEvent, check_event}
use runmantle.Runtime.Monad.{Lifecycle, Clock}
use runmantle.Runtime.Lifecycle.{
  is_terminal, allows, stamp, event_of, new_lifecycle, announce, transition,
}
use runmantle.Runtime.Lifecycle.Log.{IsNumbered-append, step, here}
use runmantle.Runtime.Lifecycle.Steps.{IsNamed, IsAware, IsAt, check_event-ok}

-- The edges of the state machine.
pub data Edge : TaskStatus → TaskStatus → Type 0 where
  start_work : Edge pending running
  fail_early : Edge pending failed
  report : Edge running agent_reported_complete
  fail_work : Edge running failed
  begin_verification : Edge agent_reported_complete verifying
  conclude : (next : TaskStatus) → is_terminal next ≡ true → Edge verifying next

pub edge_of : (st next : TaskStatus) → allows (some st) next ≡ true → Edge st next
unfolding allows
edge_of pending running h = start_work
edge_of pending failed h = fail_early
edge_of running agent_reported_complete h = report
edge_of running failed h = fail_work
edge_of agent_reported_complete verifying h = begin_verification
edge_of verifying next h = conclude next h
edge_of _ _ h = cc

-- The lifecycle that a transition has entered, before its events.
stamped_for : TaskStatus → Clock → Lifecycle → Lifecycle
stamped_for next clock s =
    stamp next (clock s.readings)
      (record s { status = some next; sequence = s.sequence + 1; readings = s.readings + 1 })

transition_event : TaskStatus → Entries → Clock → Lifecycle → LifecycleEvent
unfolding stamped_for
transition_event next details clock s =
    event_of (stamped_for next clock s) state_transition (clock s.readings) next s.status none
      details

pub entered : TaskStatus → Entries → Clock → Lifecycle → Lifecycle
unfolding stamped_for transition_event
entered next details clock s = record (stamped_for next clock s) {
  events = (stamped_for next clock s).events ++ transition_event next details clock s ∷ [];
}

-- What stamping leaves alone.
record KeepsRest (s s' : Lifecycle) : Type 0 where
  task : s'.task_id ≡ s.task_id
  correlation : s'.correlation_id ≡ s.correlation_id
  worker : s'.worker_id ≡ s.worker_id
  sequence : s'.sequence ≡ s.sequence
  status : s'.status ≡ s.status
  events : s'.events ≡ s.events

stamp-KeepsRest : (next : TaskStatus) (t : DateTime) (s : Lifecycle) → KeepsRest s (stamp next t s)
unfolding stamp
stamp-KeepsRest pending t s = record {
  task = refl;
  correlation = refl;
  worker = refl;
  sequence = refl;
  status = refl;
  events = refl;
}
stamp-KeepsRest _ t s = record {
  task = refl;
  correlation = refl;
  worker = refl;
  sequence = refl;
  status = refl;
  events = refl;
}

-- The stamps of a lifecycle, as `IsAt` has them.
record IsStamped (st : TaskStatus) (s : Lifecycle) : Type 0 where
  pending_stamped : is_some s.pending_at ≡ true
  finished_stamped : is_some s.finished_at ≡ is_terminal st
  reported_started : is_some s.agent_reported_complete_at ≡ true → is_some s.started_at ≡ true
  verifying_reported :
      is_some s.verification_started_at ≡ true → is_some s.agent_reported_complete_at ≡ true
  running_started : st ≡ running → is_some s.started_at ≡ true
  reported_stamped : st ≡ agent_reported_complete → is_some s.agent_reported_complete_at ≡ true
  verifying_stamped : st ≡ verifying → is_some s.verification_started_at ≡ true
  verified_stamped : st ≡ verified → is_some s.verification_started_at ≡ true

concluded-IsStamped :
    (next : TaskStatus) (clock : Clock) (s : Lifecycle)
    → is_terminal next ≡ true
    → IsAt verifying s
    → IsStamped next (stamped_for next clock s)
unfolding stamped_for stamp is_terminal
concluded-IsStamped pending clock s h g = cc
concluded-IsStamped running clock s h g = cc
concluded-IsStamped agent_reported_complete clock s h g = cc
concluded-IsStamped verifying clock s h g = cc
concluded-IsStamped _ clock s h g = record {
  pending_stamped = g.pending_stamped;
  finished_stamped = refl;
  reported_started = g.reported_started;
  verifying_reported = g.verifying_reported;
  running_started = λ e. cc;
  reported_stamped = λ e. cc;
  verifying_stamped = λ e. cc;
  verified_stamped = λ e. g.verifying_stamped refl;
}

stamped_for-IsStamped :
    {st next : TaskStatus} (edge : Edge st next) (clock : Clock) (s : Lifecycle)
    → IsAt st s
    → IsStamped next (stamped_for next clock s)
unfolding stamped_for stamp is_terminal
stamped_for-IsStamped start_work clock s g = ground arith
stamped_for-IsStamped fail_early clock s g = ground arith
stamped_for-IsStamped report clock s g = ground arith
stamped_for-IsStamped fail_work clock s g = ground arith
stamped_for-IsStamped begin_verification clock s g = ground arith
stamped_for-IsStamped (conclude next h) clock s g = concluded-IsStamped next clock s h g

pub entered-IsAt :
    {st : TaskStatus} (next : TaskStatus) (details : Entries) (clock : Clock) (s : Lifecycle)
    → Edge st next
    → allows s.status next ≡ true
    → IsAt st s
    → IsAt next (entered next details clock s)
unfolding entered transition_event event_of stamped_for
entered-IsAt next details clock s edge ok_edge g =
    let s' = record s {
      status = some next;
      sequence = s.sequence + 1;
      readings = s.readings + 1;
    } in
    let kept = stamp-KeepsRest next (clock s.readings) s' in
    let stamps = stamped_for-IsStamped edge clock s g in
    let e = transition_event next details clock s in
    record {
      status = kept.status;
      named = record {
        task = ap is_blank kept.task ∙ g.named.task;
        correlation = ap is_blank kept.correlation ∙ g.named.correlation;
        worker = ap is_blank kept.worker ∙ g.named.worker;
      };
      numbered =
          rw kept.events
            (IsNumbered-append 0 s.events e g.numbered (omega (arith, g.counted, kept.sequence)));
      counted = omega (
        arith,
        kept.sequence,
        g.counted,
        ap length kept.events,
        length-append (stamped_for next clock s).events (e ∷ []),
      );
      path = rw (kept.status) (
          step e _ g.path
            (record {
              reached = refl;
              allowed = λ _. ok_edge;
              recorded = λ _. refl;
              stayed = λ h. cc (h);
            })
            (ap (λ (es : List LifecycleEvent). es ++ e ∷ []) kept.events));
      pending_stamped = stamps.pending_stamped;
      finished_stamped = stamps.finished_stamped;
      reported_started = stamps.reported_started;
      verifying_reported = stamps.verifying_reported;
      running_started = stamps.running_started;
      reported_stamped = stamps.reported_stamped;
      verifying_stamped = stamps.verifying_stamped;
      verified_stamped = stamps.verified_stamped;
    }

module _ (clock : Clock) (aware : IsAware clock) where
  transition_event-passes :
      (next : TaskStatus) (details : Entries) (s : Lifecycle)
      → IsNamed s
      → check_event (transition_event next details clock s) ≡ ok tt
  unfolding transition_event event_of
  transition_event-passes next details s named =
      let s' = record s {
        status = some next;
        sequence = s.sequence + 1;
        readings = s.readings + 1;
      } in
      let kept = stamp-KeepsRest next (clock s.readings) s' in
      check_event-ok (transition_event next details clock s) (ap is_blank kept.task ∙ named.task)
        (ap is_blank kept.correlation ∙ named.correlation) (ap is_blank kept.worker ∙ named.worker)
        (aware s.readings) (omega (arith, kept.sequence))

  pub transition_lem :
      (next : TaskStatus) (details : Entries) (s : Lifecycle)
      → IsNamed s
      → allows s.status next ≡ true
      → transition clock next details s ≡ announce clock next details (entered next details clock s)
  unfolding transition entered
  transition_lem next details s named h = rw (h, transition_event-passes next details s named)

pub started-IsAt :
    (task correlation worker : String) (details : Entries) (clock : Clock)
    → IsNamed (new_lifecycle task correlation worker)
    → IsAt pending (entered pending details clock (new_lifecycle task correlation worker))
unfolding entered transition_event event_of stamped_for stamp new_lifecycle is_terminal allows
started-IsAt task correlation worker details clock named = record {
  status = refl;
  named = record { task = named.task; correlation = named.correlation; worker = named.worker };
  numbered = (refl, tt);
  counted = refl;
  path =
      step _ _ here
        (record { reached = refl; allowed = λ _. refl; recorded = λ _. refl; stayed = λ h. cc (h) })
        refl;
  pending_stamped = refl;
  finished_stamped = refl;
  reported_started = λ h. cc (h);
  verifying_reported = λ h. cc (h);
  running_started = λ h. cc (h);
  reported_stamped = λ h. cc (h);
  verifying_stamped = λ h. cc (h);
  verified_stamped = λ h. cc (h);
}
