-- ===== src/Telemetry/Buffered/Emitted.antt =====
-- `BufferedEventSink.emit` up to its wait: its outcomes, and the invariant.
use runmantle.Prelude.{
  ℕ, ◌+◌, ◌-◌, ◌≡◌, refl, ◌∙◌, ap, arith, Bool, true, false, ◌||◌, some, List, [], ◌∷◌, ◌++◌,
  length, length-append, append-nil, err, if◌then◌else◌,
}
use runmantle.Telemetry.{LifecycleEvent}
use runmantle.Telemetry.Buffered.{
  BackpressurePolicy, block, raise, drop, nobody, putting, Buffer, is_full, enqueue, put_by,
  backpressure_error, begin_emit,
}
use runmantle.Telemetry.Buffered.Steps.{History, waits, taken_at_once}
use runmantle.Telemetry.Buffered.Queue.{events_of, events_of-append, open-IsOrdered}
use runmantle.Telemetry.Buffered.Sound.{
  in_put, IsSound, appended, open-HasLeft, keeps-HasLeft, room-le,
}

-- What `emit` does before a wait.
pub data Emitted (e : LifecycleEvent) (b : Buffer) : Buffer → List LifecycleEvent → Type 0 where
  refused : (p d : ℕ) → p ≡ b.pending → Emitted e b (record b { pending = p; dropped = d }) []
  waiting :
      b.closed ≡ false → Emitted e b (record b { pending = b.pending + 1; holder = putting e }) []
  queued :
      b.closed ≡ false
      → is_full b ≡ false
      → Emitted e b (enqueue (some e) (record b { pending = b.pending + 1 })) (e ∷ [])

pub begin_emit-Emitted :
    (e : LifecycleEvent) (b : Buffer) → Emitted e b (begin_emit e b).1 (taken_at_once b e)
unfolding begin_emit taken_at_once is_full
begin_emit-Emitted e b = by_case b.closed b.policy (is_full b) refl refl
  where
    by_case :
        (closed : Bool) (policy : BackpressurePolicy) (full : Bool)
        → b.closed ≡ closed
        → is_full b ≡ full
        → Emitted e b
            (if closed
              then (err (backpressure_error "event sink is closed"), b)
              else put_by policy full e (record b { pending = b.pending + 1 })).1
            (if closed || waits policy || full then [] else e ∷ [])
    by_case true policy full c f = refused b.pending b.dropped refl
    by_case false block full c f = waiting c
    by_case false raise true c f = refused (b.pending + 1 - 1) b.dropped (omega arith)
    by_case false drop true c f = refused (b.pending + 1 - 1) (b.dropped + 1) (omega arith)
    by_case false raise false c f = queued c f
    by_case false drop false c f = queued c f

pub Emitted-IsSound :
    (h : History) (e : LifecycleEvent) {b : Buffer} {es : List LifecycleEvent}
    → IsSound h
    → h.buffer.holder ≡ nobody
    → Emitted e h.buffer b es
    → IsSound (record h { buffer = b; accepted = h.accepted ++ es })
unfolding is_full
Emitted-IsSound h e sound free (refused p d same) = record {
  fifo = append-nil h.accepted ∙ sound.fifo;
  counted = same ∙ sound.counted;
  bounded = sound.bounded;
  ordered = sound.ordered;
  left = keeps-HasLeft h.buffer.drain h.buffer _ (λ c. c) refl sound.left;
  open_for = sound.open_for;
}
Emitted-IsSound h e sound free (waiting is_open) = record {
  fifo = append-nil h.accepted ∙ sound.fifo;
  counted = omega (arith, sound.counted, ap in_put free);
  bounded = sound.bounded;
  ordered = sound.ordered;
  left = keeps-HasLeft h.buffer.drain h.buffer _ (λ c. c) refl sound.left;
  open_for = is_open;
}
Emitted-IsSound h e sound free (queued is_open room) = record {
  fifo = appended h e sound.fifo;
  counted = omega (
    arith,
    sound.counted,
    ap length (events_of-append h.buffer.queue e),
    length-append (events_of h.buffer.queue) (e ∷ []),
  );
  bounded = room-le h.buffer (some e) room;
  ordered = rw is_open (open-IsOrdered h.buffer.queue e (rw is_open at sound.ordered));
  left = open-HasLeft h.buffer.drain h.buffer _ is_open sound.left;
  open_for = sound.open_for;
}
