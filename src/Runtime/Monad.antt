-- ===== src/Runtime/Monad.antt =====
-- Methods that change the lifecycle of one execution and may raise. What was changed before an
-- exception stays changed, so the state comes back beside the error too.
use runmantle.Prelude.{ℕ, ◌+◌, String, Option, List, Error, Result, ok, err}
use runmantle.Value.{DateTime}
use runmantle.Contracts.{TaskStatus}
use runmantle.Telemetry.{LifecycleEvent}

-- The fields of `_Lifecycle`, the events that its sink has received, and the number of times that
-- its clock was read.
pub record Lifecycle : Type 0 where
  pub task_id : String
  pub correlation_id : String
  pub worker_id : String
  pub sequence : ℕ
  pub emitted_evidence_ids : List String
  pub status : Option TaskStatus
  pub pending_at : Option DateTime
  pub started_at : Option DateTime
  pub agent_reported_complete_at : Option DateTime
  pub verification_started_at : Option DateTime
  pub finished_at : Option DateTime
  pub events : List LifecycleEvent
  pub readings : ℕ

-- The clock by its successive readings.
abbrev pub Clock : Type 0
Clock = ℕ → DateTime

abbrev pub Action : Type 0 → Type 0
Action A = Lifecycle → Result A × Lifecycle

module _ {A : Type 0} where
  abbrev pub pure : A → Action A
  pure a s = (ok a, s)

  abbrev pub throw : Error → Action A
  throw e s = (err e, s)

  abbrev pub lift : Result A → Action A
  lift r s = (r, s)

module _ {A B : Type 0} where
  abbrev pub and_then : Result A → (A → Action B) → Action B
  and_then (ok a) f = f a
  and_then (err e) f = throw e

  infixl 5 ◌>>=◌ ◌>>◌
  abbrev pub ◌>>=◌ : Action A → (A → Action B) → Action B
  m >>= f = λ s. let (r, s') = m s in and_then r f s'

  abbrev pub ◌>>◌ : Action A → Action B → Action B
  m >> n = m >>= λ _. n

abbrev pub get : Action Lifecycle
get s = (ok s, s)

abbrev pub modify : (Lifecycle → Lifecycle) → Action Unit
modify f s = (ok tt, f s)

abbrev pub read : Clock → Action DateTime
read clock s = (ok (clock s.readings), record s { readings = s.readings + 1 })
