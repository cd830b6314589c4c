-- ===== src/Runtime/Lifecycle/Transitions.antt =====
-- The transitions of a lifecycle: each allowed one succeeds, and each other one is refused.
use runmantle.Prelude.{◌≡◌, refl, String, true, false, some, err}
use runmantle.Value.{Entries}
use runmantle.Contracts.{TaskStatus, pending, running, agent_reported_complete, failed}
use runmantle.Telemetry.{task_started, worker_started, agent_reported_completion, task_failed}
use runmantle.Runtime.Monad.{Lifecycle, Clock}
use runmantle.Runtime.Lifecycle.{
  allows, new_lifecycle, semantic, announce, transition, invalid_transition,
}
use runmantle.Runtime.Lifecycle.Steps.{IsNamed, IsAware, IsAt, Returns, Returns-bind, semantic-IsAt}
use runmantle.Runtime.Lifecycle.Entered.{
  edge_of, entered, entered-IsAt, started-IsAt, transition_lem,
}

module _ (clock : Clock) (aware : IsAware clock) where
  announce-IsAt :
      (next : TaskStatus) (details : Entries) (s : Lifecycle)
      → IsAt next s
      → Returns (announce clock next details) s (λ _. IsAt next)
  unfolding announce
  announce-IsAt running details s g =
      Returns-bind (semantic clock task_started (some "task.started") details)
        (λ _. semantic clock worker_started (some "worker.started") details) s
        (semantic-IsAt clock aware task_started (some "task.started") details s running refl g)
        λ _ s' g'.
          semantic-IsAt clock aware worker_started (some "worker.started") details s' running refl
            g'
  announce-IsAt agent_reported_complete details s g =
      semantic-IsAt clock aware agent_reported_completion (some "agent.reported_completion") details
        s agent_reported_complete refl g
  announce-IsAt failed details s g =
      semantic-IsAt clock aware task_failed (some "task.failed") details s failed refl g
  announce-IsAt _ details s g = record { value = tt; returned = refl; after = g }

  -- Under a clock that gives offsets, an allowed transition of a well-formed lifecycle returns,
  -- and the lifecycle is then well formed at the next state: its log is numbered and follows the
  -- table, and its time stamps fit.
  pub transition-IsAt :
      (st next : TaskStatus) (details : Entries) (s : Lifecycle)
      → allows (some st) next ≡ true
      → IsAt st s
      → Returns (transition clock next details) s (λ _. IsAt next)
  transition-IsAt st next details s h g =
      let permitted : allows s.status next ≡ true = rw g.status h in
      let e = transition_lem clock aware next details s g.named permitted in
      let r =
        announce-IsAt next details (entered next details clock s)
          (entered-IsAt next details clock s (edge_of st next h) permitted g) in
      record { value = r.value; returned = rw e r.returned; after = rw e r.after }

  -- The first transition of a new lifecycle, whose names are given.
  pub start-IsAt :
      (task correlation worker : String) (details : Entries)
      → IsNamed (new_lifecycle task correlation worker)
      → Returns
          (transition clock pending details)
          (new_lifecycle task correlation worker)
          (λ _. IsAt pending)
  unfolding allows announce new_lifecycle
  start-IsAt task correlation worker details named =
      let s = new_lifecycle task correlation worker in
      let e = transition_lem clock aware pending details s named refl in
      record {
        value = tt;
        returned = rw e;
        after = rw e (started-IsAt task correlation worker details clock named);
      }

  -- A transition that the table does not allow raises the error of an invalid transition and
  -- leaves the lifecycle as it was.
  pub transition_refused :
      (next : TaskStatus) (details : Entries) (s : Lifecycle)
      → allows s.status next ≡ false
      → transition clock next details s ≡ (err (invalid_transition s.status next), s)
  unfolding transition
  transition_refused next details s h = rw h
