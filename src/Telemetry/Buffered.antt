-- ===== src/Telemetry/Buffered.antt =====
-- src/runmantle/telemetry.py: `BufferedEventSink`. The two threads share the condition's lock and the
-- queue, which has a lock of its own; each function here is one section between their waits.
pub mod Steps
pub mod Queue
pub mod Sound
pub mod Emitted
pub mod Fifo
pub mod Blocked
use runmantle.Prelude.{
  ℕ, ◌+◌, ◌-◌, String, ◌<>◌, Bool, true, false, not, ◌||◌, Option, none, some, List, [], ◌∷◌, ◌++◌,
  length, ltb, leb, Error, error_type, Guard, Result, ok, err, value_error, raised, ◌>>=◌, ◌>>◌,
  raise_if, if◌then◌else◌,
}
use runmantle.Telemetry.{LifecycleEvent}

pub data BackpressurePolicy : Type 0 where
  block raise drop : BackpressurePolicy

-- Where the draining thread stands: in `queue.get`, in `sink.emit`, before the section that keeps an
-- exception, before the section of `finally`, or at its end.
pub data Drain : Type 0 where
  getting : Drain
  sending : LifecycleEvent → Drain
  failing : Error → Drain
  finishing : Drain
  stopped : Drain

-- Who holds the lock of the condition between two sections: an `emit` that waits in `queue.put`.
pub data Holder : Type 0 where
  nobody : Holder
  putting : LifecycleEvent → Holder

-- The queue holds events and, as `none`, the signal to stop.
pub record Buffer : Type 0 where
  pub policy : BackpressurePolicy
  pub max_queue_size : ℕ
  pub queue : List (Option LifecycleEvent)
  pub pending : ℕ
  pub dropped : ℕ
  pub closed : Bool
  pub failure : Option Error
  pub drain : Drain
  pub holder : Holder

-- `__init__`; of the timeout only its sign matters.
unfoldable pub open_buffer : BackpressurePolicy → ℕ → (timeout_is_positive : Bool) → Result Buffer
open_buffer policy max_queue_size timeout_is_positive = do
  raise_if (ltb max_queue_size 1 || not timeout_is_positive)
      (value_error "event queue size and timeout must be positive")
  ok (record {
    policy = policy;
    max_queue_size = max_queue_size;
    queue = [];
    pending = 0;
    dropped = 0;
    closed = false;
    failure = none;
    drain = getting;
    holder = nobody;
  })

abbrev pub backpressure_error : String → Error
backpressure_error m = raised "EventBackpressureError" m

unfoldable pub is_full : Buffer → Bool
is_full b = leb b.max_queue_size (length b.queue)

abbrev pub enqueue : Option LifecycleEvent → Buffer → Buffer
enqueue item b = record b { queue = b.queue ++ (item ∷ []) }

-- The call of the queue in `emit`. A `put` that blocks keeps the lock.
abbrev pub put_by : BackpressurePolicy → (full : Bool) → LifecycleEvent → Buffer → Guard × Buffer
put_by block full e b = (ok tt, record b { holder = putting e })
put_by raise true e b =
    (err (backpressure_error "event sink queue is full"), record b { pending = b.pending - 1 })
put_by drop true e b = (ok tt, record b { pending = b.pending - 1; dropped = b.dropped + 1 })
put_by _ false e b = (ok tt, enqueue (some e) b)

-- `emit`, up to its wait where the policy is to block.
unfoldable pub begin_emit : LifecycleEvent → Buffer → Guard × Buffer
unfolding is_full
begin_emit e b =
    if b.closed
    then (err (backpressure_error "event sink is closed"), b)
    else put_by b.policy (is_full b) e (record b { pending = b.pending + 1 })

-- The two ends of the wait in `emit`: there is room, or the time is over.
unfoldable pub end_put : LifecycleEvent → Buffer → Buffer
end_put e b = record b { queue = b.queue ++ (some e ∷ []); holder = nobody }

unfoldable pub time_out : Buffer → Guard × Buffer
time_out b = (
  err (backpressure_error "event sink queue is full"),
  record b { pending = b.pending - 1; holder = nobody },
)

-- `_drain`: what `queue.get` gave, what `sink.emit` did, and the sections of `except` and `finally`.
abbrev pub drain_of : Option LifecycleEvent → Drain
drain_of (some e) = sending e
drain_of none = stopped

unfoldable pub take : Option LifecycleEvent → List (Option LifecycleEvent) → Buffer → Buffer
take item rest b = record b { queue = rest; drain = drain_of item }

abbrev drain_after : Guard → Drain
drain_after (ok _) = finishing
drain_after (err e) = failing e

unfoldable pub respond : Guard → Buffer → Buffer
respond r b = record b { drain = drain_after r }

unfoldable pub keep_failure : Error → Buffer → Buffer
keep_failure e b = record b { failure = some e; drain = finishing }

unfoldable pub finish : Buffer → Buffer
finish b = record b { pending = b.pending - 1; drain = getting }

-- `flush`, once nothing is pending and the downstream sink was flushed.
unfoldable pub end_flush : Buffer → Guard
end_flush b = elim b.failure [
  | none ↦ ok tt
  | some e ↦ err (backpressure_error ("downstream event sink failed: " <> error_type e))
]

-- `close`: it marks the sink, and puts the signal into the queue where there is room in time.
unfoldable pub mark_closed : Buffer → Buffer
mark_closed b = record b { closed = true }

unfoldable pub signal : Buffer → Buffer
signal b = enqueue none b

abbrev or_else : Guard → Guard → Guard
or_else (ok _) next = next
or_else (err e) next = err e

-- What `close` raises: the first thing that went wrong.
unfoldable pub close_result : (flushed : Guard) (signalled joined : Bool) (closed : Guard) → Guard
close_result flushed signalled joined closed =
    or_else
      (or_else
        (or_else flushed (
          raise_if (not signalled)
            (backpressure_error "event sink could not enqueue its close signal")))
        (raise_if (not joined) (backpressure_error "event sink thread did not stop")))
      closed
