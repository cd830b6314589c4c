-- ===== src/Telemetry/Buffered/Queue.antt =====
-- The queue of a `BufferedEventSink`: its events, and the signals behind them.
use runmantle.Prelude.{
  ◌≡◌, refl, ◌∙◌, ap, Bool, true, false, Option, none, some, List, [], ◌∷◌, ◌++◌,
}
use runmantle.Telemetry.{LifecycleEvent}

-- The events of a queue, in order.
unfoldable pub events_of : List (Option LifecycleEvent) → List LifecycleEvent
events_of [] = []
events_of (some e ∷ queue) = e ∷ events_of queue
events_of (none ∷ queue) = events_of queue

-- No event stands behind a signal, and there is no signal unless the sink is closed.
unfoldable pub IsOrdered : Bool → List (Option LifecycleEvent) → Type 0
unfolding events_of
IsOrdered closed [] = Unit
IsOrdered closed (some e ∷ queue) = IsOrdered closed queue
IsOrdered closed (none ∷ queue) = (closed ≡ true) × (events_of queue ≡ []) × IsOrdered closed queue

pub events_of-append :
    (queue : List (Option LifecycleEvent)) (e : LifecycleEvent)
    → events_of (queue ++ (some e ∷ [])) ≡ events_of queue ++ (e ∷ [])
unfolding events_of
events_of-append [] e = refl
events_of-append (some d ∷ queue) e =
    ap (λ (es : List LifecycleEvent). d ∷ es) (events_of-append queue e)
events_of-append (none ∷ queue) e = events_of-append queue e

pub events_of-signal :
    (queue : List (Option LifecycleEvent)) → events_of (queue ++ (none ∷ [])) ≡ events_of queue
unfolding events_of
events_of-signal [] = refl
events_of-signal (some d ∷ queue) =
    ap (λ (es : List LifecycleEvent). d ∷ es) (events_of-signal queue)
events_of-signal (none ∷ queue) = events_of-signal queue

-- An open sink has no signal in its queue.
pub open-IsOrdered :
    (queue : List (Option LifecycleEvent)) (e : LifecycleEvent)
    → IsOrdered false queue
    → IsOrdered false (queue ++ (some e ∷ []))
unfolding IsOrdered
open-IsOrdered [] e h = tt
open-IsOrdered (some d ∷ queue) e h = open-IsOrdered queue e h
open-IsOrdered (none ∷ queue) e h = cc (h.0)

pub signal-IsOrdered :
    (queue : List (Option LifecycleEvent))
    → IsOrdered true queue
    → IsOrdered true (queue ++ (none ∷ []))
unfolding IsOrdered events_of
signal-IsOrdered [] h = (refl, refl, tt)
signal-IsOrdered (some d ∷ queue) h = signal-IsOrdered queue h
signal-IsOrdered (none ∷ queue) h = (refl, events_of-signal queue ∙ h.1, signal-IsOrdered queue h.2)

pub closed-IsOrdered :
    (closed : Bool) (queue : List (Option LifecycleEvent))
    → IsOrdered closed queue
    → IsOrdered true queue
unfolding IsOrdered
closed-IsOrdered closed [] h = tt
closed-IsOrdered closed (some d ∷ queue) h = closed-IsOrdered closed queue h
closed-IsOrdered closed (none ∷ queue) h = (refl, h.1, closed-IsOrdered closed queue h.2)
