-- ===== src/Telemetry/Buffered/Sound.antt =====
-- The invariant of a `BufferedEventSink`, and what keeps its parts.
use runmantle.Prelude.{
  ℕ, ◌+◌, ◌≤◌, ◌≡◌, sym, ◌∙◌, ap, arith, Bool, true, false, Option, some, [], ◌∷◌, ◌++◌, length,
  length-append, append_assoc,
}
use runmantle.Telemetry.{LifecycleEvent}
use runmantle.Telemetry.Buffered.{
  Drain, getting, sending, failing, finishing, stopped, Holder, nobody, putting, Buffer, is_full,
}
use runmantle.Telemetry.Buffered.Steps.{History}
use runmantle.Telemetry.Buffered.Queue.{events_of, IsOrdered, events_of-append}

abbrev pub in_drain : Drain → ℕ
in_drain getting = 0
in_drain (sending e) = 1
in_drain (failing e) = 1
in_drain finishing = 1
in_drain stopped = 0

abbrev pub in_put : Holder → ℕ
in_put nobody = 0
in_put (putting e) = 1

-- A thread that stopped was told to, and left no event in the queue.
abbrev pub HasLeft : Drain → Buffer → Type 0
HasLeft stopped b = (b.closed ≡ true) × (events_of b.queue ≡ [])
HasLeft _ b = Unit

abbrev pub IsOpenFor : Holder → Bool → Type 0
IsOpenFor nobody closed = Unit
IsOpenFor (putting e) closed = closed ≡ false

pub record IsSound (h : History) : Type 0 where
  pub fifo : h.accepted ≡ h.sent ++ events_of h.buffer.queue
  pub counted :
      h.buffer.pending
      ≡ length (events_of h.buffer.queue) + in_drain h.buffer.drain + in_put h.buffer.holder
  pub bounded : length h.buffer.queue ≤ h.buffer.max_queue_size
  pub ordered : IsOrdered h.buffer.closed h.buffer.queue
  pub left : HasLeft h.buffer.drain h.buffer
  pub open_for : IsOpenFor h.buffer.holder h.buffer.closed

pub appended :
    (h : History) (e : LifecycleEvent)
    → h.accepted ≡ h.sent ++ events_of h.buffer.queue
    → h.accepted ++ (e ∷ []) ≡ h.sent ++ events_of (h.buffer.queue ++ (some e ∷ []))
appended h e fifo =
    ap (λ es. es ++ (e ∷ [])) fifo
    ∙ append_assoc h.sent (events_of h.buffer.queue) (e ∷ [])
    ∙ ap (λ es. h.sent ++ es) (sym (events_of-append h.buffer.queue e))

pub open-HasLeft : (d : Drain) (b c : Buffer) → b.closed ≡ false → HasLeft d b → HasLeft d c
open-HasLeft stopped b c is_open left = cc (is_open, left.0)
open-HasLeft getting b c is_open left = tt
open-HasLeft (sending e) b c is_open left = tt
open-HasLeft (failing e) b c is_open left = tt
open-HasLeft finishing b c is_open left = tt

pub keeps-HasLeft :
    (d : Drain) (b c : Buffer)
    → (b.closed ≡ true → c.closed ≡ true)
    → events_of c.queue ≡ events_of b.queue
    → HasLeft d b
    → HasLeft d c
keeps-HasLeft stopped b c closed same left = (closed left.0, same ∙ left.1)
keeps-HasLeft getting b c closed same left = tt
keeps-HasLeft (sending e) b c closed same left = tt
keeps-HasLeft (failing e) b c closed same left = tt
keeps-HasLeft finishing b c closed same left = tt

pub room-le :
    (b : Buffer) (item : Option LifecycleEvent)
    → is_full b ≡ false
    → length (b.queue ++ (item ∷ [])) ≤ b.max_queue_size
unfolding is_full
room-le b item room = ground (arith, length-append b.queue (item ∷ []))
