-- ===== src/Telemetry/Buffered/Fifo.antt =====
-- A `BufferedEventSink` sends what it accepts in order, and counts it until it was sent.
use runmantle.Prelude.{
  ℕ, ◌+◌, ◌≤◌, ◌≡◌, refl, sym, ◌∙◌, ap, subst, arith, Bool, true, ◌||◌, not, none, some, List, [],
  ◌∷◌, ◌++◌, length, length-append, append-nil, append_assoc, ltb, ok, err, raise_if, >>-eq-ok,
  ok-injective, ◌⊎◌, inl, inr,
}
use runmantle.Telemetry.{LifecycleEvent}
use runmantle.Telemetry.Buffered.{
  BackpressurePolicy, stopped, Buffer, open_buffer, is_full, end_put, time_out, take, respond,
  keep_failure, finish, mark_closed, signal,
}
use runmantle.Telemetry.Buffered.Steps.{
  History, Step, Steps, start, next, emits, puts, times_out, gets, responds, fails, finishes,
  closes, signals,
}
use runmantle.Telemetry.Buffered.Queue.{
  events_of, IsOrdered, events_of-append, events_of-signal, open-IsOrdered, signal-IsOrdered,
  closed-IsOrdered,
}
use runmantle.Telemetry.Buffered.Sound.{
  in_drain, in_put, HasLeft, IsOpenFor, IsSound, appended, open-HasLeft, keeps-HasLeft, room-le,
}
use runmantle.Telemetry.Buffered.Emitted.{begin_emit-Emitted, Emitted-IsSound}

pub Step-IsSound : {h i : History} → IsSound h → Step h i → IsSound i
unfolding end_put time_out take respond keep_failure finish mark_closed signal events_of IsOrdered
    is_full
Step-IsSound {h} sound (emits e free) =
    Emitted-IsSound h e sound free (begin_emit-Emitted e h.buffer)
Step-IsSound {h} sound (puts e blocked room) =
    let is_open = subst (λ x. IsOpenFor x h.buffer.closed) blocked sound.open_for in
    record {
      fifo = appended h e sound.fifo;
      counted = omega (
        arith,
        sound.counted,
        ap in_put blocked,
        ap length (events_of-append h.buffer.queue e),
        length-append (events_of h.buffer.queue) (e ∷ []),
      );
      bounded = room-le h.buffer (some e) room;
      ordered = rw is_open (open-IsOrdered h.buffer.queue e (rw is_open at sound.ordered));
      left = open-HasLeft h.buffer.drain h.buffer _ is_open sound.left;
      open_for = tt;
    }
Step-IsSound {h} sound (times_out e blocked full) = record {
  fifo = sound.fifo;
  counted = omega (arith, sound.counted, ap in_put blocked);
  bounded = sound.bounded;
  ordered = sound.ordered;
  left = keeps-HasLeft h.buffer.drain h.buffer _ (λ c. c) refl sound.left;
  open_for = tt;
}
Step-IsSound {h} sound (gets (some e) rest idle taken) = record {
  fifo =
      sound.fifo
      ∙ ap (λ q. h.sent ++ events_of q) taken
      ∙ sym (append_assoc h.sent (e ∷ []) (events_of rest));
  counted = omega (arith, sound.counted, ap in_drain idle, ap (λ q. length (events_of q)) taken);
  bounded = omega (arith, sound.bounded, ap length taken);
  ordered = subst (IsOrdered h.buffer.closed) taken sound.ordered;
  left = tt;
  open_for = sound.open_for;
}
Step-IsSound {h} sound (gets none rest idle taken) =
    let (closed, last, ordered) = subst (IsOrdered h.buffer.closed) taken sound.ordered in
    record {
      fifo =
          sound.fifo
          ∙ ap (λ q. h.sent ++ events_of q) taken
          ∙ sym (append_assoc h.sent [] (events_of rest));
      counted =
          omega (arith, sound.counted, ap in_drain idle, ap (λ q. length (events_of q)) taken);
      bounded = omega (arith, sound.bounded, ap length taken);
      ordered = ordered;
      left = (closed, last);
      open_for = sound.open_for;
    }
Step-IsSound {h} sound (responds e (ok _) busy) = record {
  fifo = sound.fifo;
  counted = omega (arith, sound.counted, ap in_drain busy);
  bounded = sound.bounded;
  ordered = sound.ordered;
  left = tt;
  open_for = sound.open_for;
}
Step-IsSound {h} sound (responds e (err x) busy) = record {
  fifo = sound.fifo;
  counted = omega (arith, sound.counted, ap in_drain busy);
  bounded = sound.bounded;
  ordered = sound.ordered;
  left = tt;
  open_for = sound.open_for;
}
Step-IsSound {h} sound (fails e busy free) = record {
  fifo = sound.fifo;
  counted = omega (arith, sound.counted, ap in_drain busy);
  bounded = sound.bounded;
  ordered = sound.ordered;
  left = tt;
  open_for = sound.open_for;
}
Step-IsSound {h} sound (finishes busy free) = record {
  fifo = sound.fifo;
  counted = omega (arith, sound.counted, ap in_drain busy);
  bounded = sound.bounded;
  ordered = sound.ordered;
  left = tt;
  open_for = sound.open_for;
}
Step-IsSound {h} sound (closes free) = record {
  fifo = sound.fifo;
  counted = sound.counted;
  bounded = sound.bounded;
  ordered = closed-IsOrdered h.buffer.closed h.buffer.queue sound.ordered;
  left = keeps-HasLeft h.buffer.drain h.buffer _ (λ _. refl) refl sound.left;
  open_for = subst (λ x. IsOpenFor x true) (sym free) tt;
}
Step-IsSound {h} sound (signals closed room) = record {
  fifo = sound.fifo ∙ ap (λ es. h.sent ++ es) (sym (events_of-signal h.buffer.queue));
  counted = omega (arith, sound.counted, ap length (events_of-signal h.buffer.queue));
  bounded = room-le h.buffer none room;
  ordered = rw closed (signal-IsOrdered h.buffer.queue (rw closed at sound.ordered));
  left =
      keeps-HasLeft h.buffer.drain h.buffer _ (λ c. c) (events_of-signal h.buffer.queue) sound.left;
  open_for = sound.open_for;
}

Steps-IsSound : {h i : History} → IsSound h → Steps h i → IsSound i
Steps-IsSound sound start = sound
Steps-IsSound sound (next before step) = Step-IsSound (Steps-IsSound sound before) step

-- The history of a sink that was just made.
abbrev pub new_history : Buffer → History
new_history b = record { buffer = b; accepted = []; sent = [] }

open_buffer-IsSound :
    (policy : BackpressurePolicy) (size : ℕ) (positive : Bool) {b : Buffer}
    → open_buffer policy size positive ≡ ok b
    → IsSound (new_history b)
unfolding open_buffer events_of IsOrdered
open_buffer-IsSound policy size positive h =
    let (_, made) = >>-eq-ok (raise_if (ltb size 1 || not positive) _) _ h in
    subst (λ b. IsSound (new_history b)) (ok-injective made)
      (record {
        fifo = refl;
        counted = refl;
        bounded = omega arith;
        ordered = tt;
        left = tt;
        open_for = tt;
      })

-- However the threads that emit to a buffered sink, close it and drain it interleave, from a sink
-- that was just made, the sink is a bounded queue: what it accepted is what was sent, in order,
-- followed by the events in the queue, the queue holds at most as many items as it was made for,
-- and the pending count is the number of events in the queue, in the draining thread and in a
-- waiting `emit`.
pub Steps-fifo :
    (policy : BackpressurePolicy) (size : ℕ) (positive : Bool) (b : Buffer) (h : History)
    → open_buffer policy size positive ≡ ok b
    → Steps (new_history b) h
    → (h.accepted ≡ h.sent ++ events_of h.buffer.queue)
      × (length h.buffer.queue ≤ h.buffer.max_queue_size)
      × (h.buffer.pending
          ≡ length (events_of h.buffer.queue) + in_drain h.buffer.drain + in_put h.buffer.holder)
Steps-fifo policy size positive b h opened steps =
    let sound = Steps-IsSound (open_buffer-IsSound policy size positive opened) steps in
    (sound.fifo, sound.bounded, sound.counted)

-- From a buffered sink that was just made, wherever nothing is pending, which `flush` waits for,
-- or the draining thread has stopped, every event that was accepted was sent, in the order of
-- acceptance.
pub Steps-sent :
    (policy : BackpressurePolicy) (size : ℕ) (positive : Bool) (b : Buffer) (h : History)
    → open_buffer policy size positive ≡ ok b
    → Steps (new_history b) h
    → (h.buffer.pending ≡ 0) ⊎ (h.buffer.drain ≡ stopped)
    → h.accepted ≡ h.sent
unfolding events_of
Steps-sent policy size positive b h opened steps over =
    let sound = Steps-IsSound (open_buffer-IsSound policy size positive opened) steps in
    let none_left : events_of h.buffer.queue ≡ [] = elim over [
      | inl idle ↦ length-zero (events_of h.buffer.queue) (omega (arith, sound.counted, idle))
      | inr left ↦ (subst (λ d. HasLeft d h.buffer) left sound.left).1
    ] in
    sound.fifo ∙ ap (λ es. h.sent ++ es) none_left ∙ append-nil h.sent
  where
    length-zero : (es : List LifecycleEvent) → length es ≡ 0 → es ≡ []
    length-zero [] h = refl
    length-zero (e ∷ es) h = absurd (omega arith)
