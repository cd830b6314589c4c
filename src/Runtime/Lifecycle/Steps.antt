-- ===== src/Runtime/Lifecycle/Steps.antt =====
-- What each method of `_Lifecycle` does in a started task that is well formed.
use runmantle.Prelude.{
  ℕ, ◌+◌, ◌≤◌, ◌≡◌, refl, sym, ◌∙◌, ap, String, true, false, Option, none, some, List, [], ◌∷◌,
  ◌++◌, is_some, is_blank, contains, length, length-append, ok, Bool-cases, arith, inl, inr,
}
use runmantle.Value.{DateTime, Entries}
use runmantle.Contracts.{TaskStatus, running, agent_reported_complete, verifying, verified}
use runmantle.Evidence.{EvidenceItem}
use runmantle.Telemetry.{LifecycleEventType, evidence_collected, LifecycleEvent, check_event}
use runmantle.Runtime.Monad.{Lifecycle, Clock, Action, ◌>>=◌}
use runmantle.Runtime.Lifecycle.{
  is_terminal, event_of, semantic, collected, worker_emit, stamped, timestamps, evidence_details,
  is_worker_type,
}
use runmantle.Runtime.Lifecycle.Log.{IsNumbered, IsNumbered-append, is_transition, IsPath, step}

-- The names that every event has to carry.
pub record IsNamed (s : Lifecycle) : Type 0 where
  pub task : is_blank s.task_id ≡ false
  pub correlation : is_blank s.correlation_id ≡ false
  pub worker : is_blank s.worker_id ≡ false

abbrev pub IsAware : Clock → Type 0
IsAware clock = (n : ℕ) → (clock n).aware ≡ true

-- The task is in the state `st`, its log is numbered and tells how it came there, and its time
-- stamps are those of the states that it has passed.
pub record IsAt (st : TaskStatus) (s : Lifecycle) : Type 0 where
  pub status : s.status ≡ some st
  pub named : IsNamed s
  pub numbered : IsNumbered 0 s.events
  pub counted : s.sequence ≡ length s.events
  pub path : IsPath none s.events s.status
  pub pending_stamped : is_some s.pending_at ≡ true
  pub finished_stamped : is_some s.finished_at ≡ is_terminal st
  pub reported_started : is_some s.agent_reported_complete_at ≡ true → is_some s.started_at ≡ true
  pub verifying_reported :
      is_some s.verification_started_at ≡ true → is_some s.agent_reported_complete_at ≡ true
  pub running_started : st ≡ running → is_some s.started_at ≡ true
  pub reported_stamped : st ≡ agent_reported_complete → is_some s.agent_reported_complete_at ≡ true
  pub verifying_stamped : st ≡ verifying → is_some s.verification_started_at ≡ true
  pub verified_stamped : st ≡ verified → is_some s.verification_started_at ≡ true

pub check_event-ok :
    (e : LifecycleEvent)
    → is_blank e.task_id ≡ false
    → is_blank e.correlation_id ≡ false
    → is_blank e.worker_id ≡ false
    → e.occurred_at.aware ≡ true
    → 1 ≤ e.sequence
    → check_event e ≡ ok tt
unfolding check_event
check_event-ok e a b c d n = ground arith

-- The lifecycle after one more event.
abbrev logged : Lifecycle → LifecycleEvent → Lifecycle
logged s e = record s {
  sequence = s.sequence + 1;
  readings = s.readings + 1;
  events = s.events ++ e ∷ [];
}

module _ (clock : Clock) (aware : IsAware clock) where
  semantic_lem :
      (event_type : LifecycleEventType) (name : Option String) (details : Entries) (s : Lifecycle)
      → {st : TaskStatus} → IsNamed s
      → s.status ≡ some st
      → semantic clock event_type name details s ≡ (
        ok tt,
        logged s (
            event_of
              (record s { sequence = s.sequence + 1 })
              event_type
              (clock s.readings)
              st
              none
              name
              details),
      )
  unfolding semantic
  semantic_lem event_type name details s {st} named e =
      let event =
        event_of (record s { sequence = s.sequence + 1 }) event_type (clock s.readings) st none name
          details in
      let passes =
        check_event-ok event named.task named.correlation named.worker (aware s.readings)
          (omega arith) in
      ground (arith, e, passes)

-- An action that returns from `s`, in a lifecycle with `Q`.
pub record Returns {A : Type 0} (m : Action A) (s : Lifecycle) (Q : A → Lifecycle → Type 0)
    : Type 0 where
  pub value : A
  pub returned : (m s).0 ≡ ok value
  pub after : Q value (m s).1

module _ {A : Type 0} where
  -- Where two actions do the same from a lifecycle, one returns as the other does.
  pub Returns_of_eq :
      (m n : Action A) (s : Lifecycle) {Q : A → Lifecycle → Type 0}
      → m s ≡ n s
      → Returns n s Q
      → Returns m s Q
  Returns_of_eq m n s e r = record {
    value = r.value;
    returned = rw e r.returned;
    after = rw e r.after;
  }

  pub Returns-map :
      (m : Action A) (s : Lifecycle) {Q R : A → Lifecycle → Type 0}
      → Returns m s Q
      → ((a : A) (s' : Lifecycle) → Q a s' → R a s')
      → Returns m s R
  Returns-map m s r k = record {
    value = r.value;
    returned = r.returned;
    after = k r.value (m s).1 r.after;
  }

module _ {A B : Type 0} where
  pub Returns-bind :
      (m : Action A) (f : A → Action B) (s : Lifecycle)
      → {Q : A → Lifecycle → Type 0} {R : B → Lifecycle → Type 0} → Returns m s Q
      → ((a : A) (s' : Lifecycle) → Q a s' → Returns (f a) s' R)
      → Returns (m >>= f) s R
  Returns-bind m f s r k =
      let next = k r.value (m s).1 r.after in
      record {
        value = next.value;
        returned = rw r.returned next.returned;
        after = rw r.returned next.after;
      }

-- One event that is no transition leaves the task where it is.
pub logged-IsAt :
    (s : Lifecycle) (e : LifecycleEvent) (st : TaskStatus)
    → IsAt st s
    → e.sequence ≡ s.sequence + 1
    → is_transition e.event_type ≡ false
    → e.state ≡ st
    → IsAt st (logged s e)
logged-IsAt s e st g next kind stamped = record {
  status = g.status;
  named = record {
    task = g.named.task;
    correlation = g.named.correlation;
    worker = g.named.worker;
  };
  numbered = IsNumbered-append 0 s.events e g.numbered (omega (arith, g.counted));
  counted = omega (arith, g.counted, length-append s.events (e ∷ []));
  path =
      step e (s.events ++ e ∷ []) g.path
        (record {
          reached = g.status ∙ ap some (sym stamped);
          allowed = λ h. cc (h, kind);
          recorded = λ h. cc (h, kind);
          stayed = λ _. refl;
        })
        refl;
  pending_stamped = g.pending_stamped;
  finished_stamped = g.finished_stamped;
  reported_started = g.reported_started;
  verifying_reported = g.verifying_reported;
  running_started = g.running_started;
  reported_stamped = g.reported_stamped;
  verifying_stamped = g.verifying_stamped;
  verified_stamped = g.verified_stamped;
}

worker_type : (t : LifecycleEventType) → is_worker_type t ≡ true → is_transition t ≡ false
worker_type t h = ground arith

-- The identifiers noted and the readings of the clock do not matter.
pub aside-IsAt :
    (s : Lifecycle) (ids : List String) (n : ℕ) (st : TaskStatus)
    → IsAt st s
    → IsAt st (record s { emitted_evidence_ids = ids; readings = n })
aside-IsAt s ids n st g = record {
  status = g.status;
  named = record {
    task = g.named.task;
    correlation = g.named.correlation;
    worker = g.named.worker;
  };
  numbered = g.numbered;
  counted = g.counted;
  path = g.path;
  pending_stamped = g.pending_stamped;
  finished_stamped = g.finished_stamped;
  reported_started = g.reported_started;
  verifying_reported = g.verifying_reported;
  running_started = g.running_started;
  reported_stamped = g.reported_stamped;
  verifying_stamped = g.verifying_stamped;
  verified_stamped = g.verified_stamped;
}

module _ (clock : Clock) (aware : IsAware clock) where
  pub semantic-IsAt :
      (event_type : LifecycleEventType) (name : Option String) (details : Entries) (s : Lifecycle)
      → (st : TaskStatus) → is_transition event_type ≡ false
      → IsAt st s
      → Returns (semantic clock event_type name details) s (λ _. IsAt st)
  unfolding event_of
  semantic-IsAt event_type name details s st kind g =
      let e = semantic_lem clock aware event_type name details s g.named g.status in
      record { value = tt; returned = rw e; after = rw e (logged-IsAt s _ st g refl kind refl) }

  pub collected-IsAt :
      (item : EvidenceItem) (s : Lifecycle) (st : TaskStatus)
      → IsAt st s
      → Returns (collected clock item) s (λ _. IsAt st)
  unfolding collected
  collected-IsAt item s st g =
      elim (Bool-cases (contains s.emitted_evidence_ids item.evidence_id)) [
        | inl seen ↦ record { value = tt; returned = rw seen; after = rw seen g }
        | inr new ↦
            let noted = record s {
              emitted_evidence_ids = item.evidence_id ∷ s.emitted_evidence_ids;
            } in
            let r =
              semantic-IsAt evidence_collected (some "evidence.collected") (evidence_details item)
                noted st refl
                (aside-IsAt s (item.evidence_id ∷ s.emitted_evidence_ids) s.readings st g) in
            record { value = tt; returned = rw new r.returned; after = rw new r.after }
      ]

  pub worker_emit-IsAt :
      (name : String) (details : Entries) (event_type : LifecycleEventType) (s : Lifecycle)
      → (st : TaskStatus) → IsAt st s
      → IsAt st (worker_emit clock name details event_type s).1
  unfolding worker_emit
  worker_emit-IsAt name details event_type s st g = elim (Bool-cases (is_blank name)) [
    | inl blank ↦ rw blank g
    | inr named ↦ elim (Bool-cases (is_worker_type event_type)) [
      | inr refused ↦ rw (named, ap is_some g.status, refused) g
      | inl accepted ↦
          let r =
            semantic-IsAt event_type (some name) details s st (worker_type event_type accepted) g in
          rw (named, ap is_some g.status, accepted) r.after
    ]
  ]

  stamped-IsAt :
      (t f : Option DateTime) (s : Lifecycle) (st : TaskStatus)
      → is_some t ≡ true
      → IsAt st s
      → Returns (stamped clock t f) s (λ _. IsAt st)
  unfolding stamped
  stamped-IsAt none f s st h g = cc
  stamped-IsAt (some t) (some f) s st h g = record { value = _; returned = refl; after = g }
  stamped-IsAt (some t) none s st h g = record {
    value = _;
    returned = refl;
    after = aside-IsAt s s.emitted_evidence_ids (s.readings + 1) st g;
  }

  pub timestamps-IsAt :
      (s : Lifecycle) (st : TaskStatus) → IsAt st s → Returns (timestamps clock) s (λ _. IsAt st)
  unfolding timestamps
  timestamps-IsAt s st g =
      let r = stamped-IsAt s.pending_at s.finished_at s st g.pending_stamped g in
      record { value = r.value; returned = r.returned; after = r.after }
