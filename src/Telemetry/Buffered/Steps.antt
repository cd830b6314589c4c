-- ===== src/Telemetry/Buffered/Steps.antt =====
-- src/runmantle/telemetry.py: the interleavings of the threads of a `BufferedEventSink`, with what was
-- accepted and what was sent.
use runmantle.Prelude.{
  ◌≡◌, Bool, true, false, ◌||◌, Option, none, some, List, [], ◌∷◌, ◌++◌, Error, Guard,
  if◌then◌else◌,
}
use runmantle.Telemetry.{LifecycleEvent}
use runmantle.Telemetry.Buffered.{
  BackpressurePolicy, block, raise, drop, getting, sending, failing, finishing, nobody, putting,
  Buffer, is_full, begin_emit, end_put, time_out, take, respond, keep_failure, finish, mark_closed,
  signal,
}

-- The sink, the events that its queue took, and those that `sink.emit` was called on, in order.
pub record History : Type 0 where
  pub buffer : Buffer
  pub accepted : List LifecycleEvent
  pub sent : List LifecycleEvent

abbrev pub waits : BackpressurePolicy → Bool
waits block = true
waits raise = false
waits drop = false

-- The events that `emit` puts into the queue without a wait.
unfoldable pub taken_at_once : Buffer → LifecycleEvent → List LifecycleEvent
unfolding is_full
taken_at_once b e = if b.closed || waits b.policy || is_full b then [] else e ∷ []

abbrev pub sent_by : Option LifecycleEvent → List LifecycleEvent
sent_by (some e) = e ∷ []
sent_by none = []

-- A step of some thread. A section that takes the lock needs that nobody holds it.
pub data Step (h : History) : History → Type 0 where
  emits :
      (e : LifecycleEvent)
      → h.buffer.holder ≡ nobody
      → Step h (record h {
        buffer = (begin_emit e h.buffer).1;
        accepted = h.accepted ++ taken_at_once h.buffer e;
      })
  puts :
      (e : LifecycleEvent)
      → h.buffer.holder ≡ putting e
      → is_full h.buffer ≡ false
      → Step h (record h { buffer = end_put e h.buffer; accepted = h.accepted ++ (e ∷ []) })
  times_out :
      (e : LifecycleEvent)
      → h.buffer.holder ≡ putting e
      → is_full h.buffer ≡ true
      → Step h (record h { buffer = (time_out h.buffer).1 })
  gets :
      (item : Option LifecycleEvent) (rest : List (Option LifecycleEvent))
      → h.buffer.drain ≡ getting
      → h.buffer.queue ≡ item ∷ rest
      → Step h (record h { buffer = take item rest h.buffer; sent = h.sent ++ sent_by item })
  responds :
      (e : LifecycleEvent) (r : Guard)
      → h.buffer.drain ≡ sending e
      → Step h (record h { buffer = respond r h.buffer })
  fails :
      (e : Error)
      → h.buffer.drain ≡ failing e
      → h.buffer.holder ≡ nobody
      → Step h (record h { buffer = keep_failure e h.buffer })
  finishes :
      h.buffer.drain ≡ finishing
      → h.buffer.holder ≡ nobody
      → Step h (record h { buffer = finish h.buffer })
  closes : h.buffer.holder ≡ nobody → Step h (record h { buffer = mark_closed h.buffer })
  signals :
      h.buffer.closed ≡ true
      → is_full h.buffer ≡ false
      → Step h (record h { buffer = signal h.buffer })

pub data Steps (h : History) : History → Type 0 where
  start : Steps h h
  next : {i j : History} → Steps h i → Step i j → Steps h j
