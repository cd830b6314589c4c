-- ===== src/Runtime/Lifecycle/Log.antt =====
-- The event log of a lifecycle: its numbers, and the path through the states that it tells.
use runmantle.Prelude.{
  ℕ, suc, ◌+◌, ◌≡◌, Bool, true, false, Option, some, List, [], ◌∷◌, ◌++◌, length, arith,
}
use runmantle.Contracts.{TaskStatus}
use runmantle.Telemetry.{LifecycleEventType, state_transition, LifecycleEvent}
use runmantle.Runtime.Lifecycle.{allows}

-- The events carry the numbers that follow `n`, in order and without a gap.
abbrev pub IsNumbered : ℕ → List LifecycleEvent → Type 0
IsNumbered n [] = Unit
IsNumbered n (e ∷ es) = (e.sequence ≡ suc n) × IsNumbered (suc n) es

pub IsNumbered-append :
    (n : ℕ) (es : List LifecycleEvent) (e : LifecycleEvent)
    → IsNumbered n es
    → e.sequence ≡ suc (n + length es)
    → IsNumbered n (es ++ e ∷ [])
IsNumbered-append n [] e h next = (omega arith, tt)
IsNumbered-append n (f ∷ es) e h next = (h.0, IsNumbered-append (suc n) es e h.1 (omega arith))

abbrev pub is_transition : LifecycleEventType → Bool
is_transition state_transition = true
is_transition _ = false

-- One event, from a state to a state: a transition is allowed and names where it came from; any
-- other event is stamped with the state that the task is in.
pub record IsStep (before : Option TaskStatus) (e : LifecycleEvent) (after : Option TaskStatus)
    : Type 0 where
  pub reached : after ≡ some e.state
  pub allowed : is_transition e.event_type ≡ true → allows before e.state ≡ true
  pub recorded : is_transition e.event_type ≡ true → e.previous_state ≡ before
  pub stayed : is_transition e.event_type ≡ false → before ≡ after

-- The events lead from one state to another.
pub data IsPath (start : Option TaskStatus) : List LifecycleEvent → Option TaskStatus → Type 0 where
  here : IsPath start [] start
  step :
      {es : List LifecycleEvent} {mid after : Option TaskStatus} (e : LifecycleEvent)
      → (log : List LifecycleEvent) → IsPath start es mid
      → IsStep mid e after
      → log ≡ es ++ e ∷ []
      → IsPath start log after
