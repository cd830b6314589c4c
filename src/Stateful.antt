-- ===== src/Stateful.antt =====
-- Methods that change a state and may raise: what was changed before an exception stays changed.
use runmantle.Prelude.{Error, Result, ok, err}

abbrev pub Act : Type 0 → Type 0 → Type 0
Act S A = S → Result A × S

module _ {S A : Type 0} where
  abbrev pub pure : A → Act S A
  pure a s = (ok a, s)

  abbrev pub throw : Error → Act S A
  throw e s = (err e, s)

  abbrev pub lift : Result A → Act S A
  lift r s = (r, s)

module _ {S A B : Type 0} where
  abbrev pub and_then : Result A → (A → Act S B) → Act S B
  and_then (ok a) f = f a
  and_then (err e) f = throw e

  infixl 5 ◌>>=◌ ◌>>◌
  abbrev pub ◌>>=◌ : Act S A → (A → Act S B) → Act S B
  m >>= f = λ s. let (r, s') = m s in and_then r f s'

  abbrev pub ◌>>◌ : Act S A → Act S B → Act S B
  m >> n = m >>= λ _. n
