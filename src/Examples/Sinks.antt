-- ===== src/Examples/Sinks.antt =====
-- A buffered sink with room for one event, and its theorems.
use runmantle.Prelude.{
  ◌≡◌, ◌≤◌, ◌+◌, ◌⊎◌, inr, refl, true, false, none, some, [], ◌∷◌, ◌++◌, length, ok,
}
use runmantle.Value.{end}
use runmantle.Contracts.{TaskStatus}
use runmantle.Telemetry.{LifecycleEvent, LifecycleEventType}
use runmantle.Telemetry.Buffered.{
  block, sending, getting, finishing, putting, nobody, stopped, Buffer, open_buffer, is_full,
  begin_emit, end_put, time_out, take, respond, keep_failure, finish, mark_closed, signal,
}
use runmantle.Telemetry.Buffered.Queue.{events_of}
use runmantle.Telemetry.Buffered.Sound.{in_drain, in_put}
use runmantle.Telemetry.Buffered.Steps.{
  History, Steps, taken_at_once, start, next, emits, puts, gets, responds, finishes, closes,
  signals,
}
use runmantle.Telemetry.Buffered.Blocked.{IsBlocked, timed_out, Steps-IsBlocked}
use runmantle.Telemetry.Buffered.Fifo.{new_history, Steps-fifo, Steps-sent}
use runmantle.Examples.Samples.{at}

unfoldable pub sink_program : Unit {0}
unfolding open_buffer is_full begin_emit end_put time_out take respond keep_failure finish
    mark_closed signal events_of taken_at_once
sink_program = tt

abbrev event : LifecycleEvent
event = record {
  event_type = LifecycleEventType.task_progress;
  task_id = "task";
  correlation_id = "run";
  worker_id = "worker";
  occurred_at = at 0;
  sequence = 1;
  state = TaskStatus.running;
  previous_state = none;
  name = none;
  details = end;
}

abbrev opened : Buffer
opened = record {
  policy = block;
  max_queue_size = 1;
  queue = [];
  pending = 0;
  dropped = 0;
  closed = false;
  failure = none;
  drain = getting;
  holder = nobody;
}

-- One event is emitted, and the other thread takes it.
abbrev one_taken : History
one_taken = record {
  buffer = record opened { pending = 1; drain = sending event };
  accepted = event ∷ [];
  sent = event ∷ [];
}

one_taken-Steps : Steps (new_history opened) one_taken
unfolding sink_program
one_taken-Steps =
    next (next (next start (emits event refl)) (puts event refl refl))
      (gets (some event) [] refl refl)

Steps-fifo_example :
    (one_taken.accepted ≡ one_taken.sent ++ events_of one_taken.buffer.queue)
    × (length one_taken.buffer.queue ≤ 1)
    × (one_taken.buffer.pending
        ≡ length (events_of one_taken.buffer.queue)
          + in_drain one_taken.buffer.drain
          + in_put one_taken.buffer.holder)
unfolding sink_program
Steps-fifo_example = Steps-fifo block 1 true opened one_taken refl one_taken-Steps

-- The event is sent, the sink is closed, and the thread stops.
abbrev all_done : History
all_done = record {
  buffer = record opened { closed = true; drain = stopped };
  accepted = event ∷ [];
  sent = event ∷ [];
}

all_done-Steps : Steps (new_history opened) all_done
unfolding sink_program
all_done-Steps =
    next
      (next
        (next (next (next one_taken-Steps (responds event (ok tt) refl)) (finishes refl refl))
          (closes refl))
        (signals refl refl))
      (gets none [] refl refl)

Steps-sent_example : all_done.accepted ≡ all_done.sent
unfolding sink_program
Steps-sent_example = Steps-sent block 1 true opened all_done refl all_done-Steps (inr refl)

-- The queue is full, one `emit` waits, and the other thread is in `sink.emit`.
abbrev stuck : History
stuck = record {
  buffer = record opened {
    queue = some event ∷ [];
    pending = 3;
    drain = sending event;
    holder = putting event;
  };
  accepted = event ∷ event ∷ [];
  sent = event ∷ [];
}

-- It is reached from a new sink, and the sink's `emit` returns.
stuck-Steps : Steps (new_history opened) stuck
unfolding sink_program
stuck-Steps =
    next (next (next one_taken-Steps (emits event refl)) (puts event refl refl)) (emits event refl)

abbrev still_stuck : History
still_stuck = record stuck { buffer = record stuck.buffer { drain = finishing } }

Steps-IsBlocked_example :
    IsBlocked event still_stuck.buffer
    ⊎ ((j : History) × Steps stuck j × IsBlocked event j.buffer × Steps (timed_out j) still_stuck)
unfolding sink_program
Steps-IsBlocked_example =
    Steps-IsBlocked event (record { waiting = refl; full = refl; busy = refl })
      (next start (responds event (ok tt) refl))
