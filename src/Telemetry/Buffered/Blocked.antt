-- ===== src/Telemetry/Buffered/Blocked.antt =====
-- An `emit` of a `BufferedEventSink` that waits for room while the other thread is busy.
use runmantle.Prelude.{◌≡◌, refl, sym, arith, subst, Bool, true, false, ok, err, ◌⊎◌, inl, inr}
use runmantle.Telemetry.{LifecycleEvent}
use runmantle.Telemetry.Buffered.{Drain, getting, putting, Buffer, is_full, time_out, respond}
use runmantle.Telemetry.Buffered.Steps.{
  History, Step, Steps, start, next, emits, puts, times_out, gets, responds, fails, finishes,
  closes, signals,
}

abbrev pub is_getting : Drain → Bool
is_getting getting = true
is_getting _ = false

-- `emit` waits for room, the queue is full, and the draining thread is not at the queue.
pub record IsBlocked (e : LifecycleEvent) (b : Buffer) : Type 0 where
  pub waiting : b.holder ≡ putting e
  pub full : is_full b ≡ true
  pub busy : is_getting b.drain ≡ false

abbrev pub timed_out : History → History
timed_out h = record h { buffer = (time_out h.buffer).1 }

Step-IsBlocked :
    (e : LifecycleEvent) {h i : History}
    → IsBlocked e h.buffer
    → Step h i
    → IsBlocked e i.buffer ⊎ (i ≡ timed_out h)
unfolding respond is_full
Step-IsBlocked e blocked (emits _ free) = cc (blocked.waiting)
Step-IsBlocked e blocked (puts _ _ room) = cc (blocked.full)
Step-IsBlocked e blocked (times_out _ _ _) = inr refl
Step-IsBlocked e blocked (gets _ _ idle _) = let busy = blocked.busy in ground (arith, idle)
Step-IsBlocked e blocked (responds _ (ok _) _) =
    inl (record { waiting = blocked.waiting; full = blocked.full; busy = refl })
Step-IsBlocked e blocked (responds _ (err _) _) =
    inl (record { waiting = blocked.waiting; full = blocked.full; busy = refl })
Step-IsBlocked e blocked (fails _ _ free) = cc (blocked.waiting)
Step-IsBlocked e blocked (finishes _ free) = cc (blocked.waiting)
Step-IsBlocked e blocked (closes free) = cc (blocked.waiting)
Step-IsBlocked e blocked (signals _ room) = cc (blocked.full)

-- Where an `emit` of a buffered sink waits for room in a full queue while the draining thread is
-- not waiting at the queue, every run of the threads either is still there or has let that wait
-- time out: no step makes room first.
pub Steps-IsBlocked :
    (e : LifecycleEvent) {h i : History}
    → IsBlocked e h.buffer
    → Steps h i
    → IsBlocked e i.buffer
      ⊎ ((j : History) × Steps h j × IsBlocked e j.buffer × Steps (timed_out j) i)
Steps-IsBlocked e blocked start = inl blocked
Steps-IsBlocked e blocked (next {i = j} before step) = elim (Steps-IsBlocked e blocked before) [
  | inl still ↦ elim (Step-IsBlocked e still step) [
    | inl yet ↦ inl yet
    | inr over ↦ inr (j, before, still, subst (λ k. Steps (timed_out j) k) (sym over) start)
  ]
  | inr (k, until, still, after) ↦ inr (k, until, still, next after step)
]
