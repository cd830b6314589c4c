-- ===== src/Recovery/Interleaving.antt =====
-- src/runmantle/recovery.py: the critical sections of `_run_handler`, over the executions of one
-- event loop. Between the two that follow a success there is no `await`, so they are one step.
use runmantle.Prelude.{
  ◌≡◌, refl, ap, sym, ◌∙◌, subst, Bool, true, false, not, ◌&&◌, ◌||◌, List, [], ◌∷◌, select, ◌==◌,
  eq_iff, arith, inl, inr, Bool-cases, if◌then◌else◌,
}
use runmantle.Recovery.Executor.{Key, holds_key}
use runmantle.Recovery.Acted.{unique_keys}

-- The keys of the executor, the key of each handler that runs, and those of the handlers that
-- returned, the last one first. A key may stand in `running` as often as handlers run under it.
pub record Keys : Type 0 where
  pub executed : List Key
  pub in_flight : List Key
  pub running : List Key
  pub returned : List Key

abbrev pub same_key : Key → Key → Bool
same_key a b = a.0 == b.0 && a.1 == b.1

unfoldable pub discard : Key → List Key → List Key
discard key keys = select (λ k. not (same_key k key)) keys

-- One handler under the key has ended.
unfoldable pub remove_one : Key → List Key → List Key
remove_one key [] = []
remove_one key (k ∷ keys) =
    let others = remove_one key keys in if same_key k key then keys else k ∷ others

-- The section that reserves the key, after which the handler runs, or that refuses.
unfoldable pub reserve : Key → Keys → Keys
unfolding holds_key
reserve key s =
    if holds_key s.executed key || holds_key s.in_flight key
    then s
    else record s { in_flight = key ∷ s.in_flight; running = key ∷ s.running }

-- The `finally` of a handler that raised.
unfoldable pub end_failed : Key → Keys → Keys
unfolding discard remove_one
end_failed key s = record s {
  in_flight = discard key s.in_flight;
  running = remove_one key s.running;
}

-- The `finally` of a handler that returned, and the section behind it.
unfoldable pub end_returned : Key → Keys → Keys
unfolding discard remove_one
end_returned key s = record {
  executed = key ∷ s.executed;
  in_flight = discard key s.in_flight;
  running = remove_one key s.running;
  returned = key ∷ s.returned;
}

-- A step of some execution: it comes to the reservation, or its handler, which runs, raises or returns.
pub data Step (s : Keys) : Keys → Type 0 where
  reserves : (key : Key) → Step s (reserve key s)
  fails : (key : Key) → holds_key s.running key ≡ true → Step s (end_failed key s)
  returns : (key : Key) → holds_key s.running key ≡ true → Step s (end_returned key s)

pub data Steps (s : Keys) : Keys → Type 0 where
  start : Steps s s
  next : {t u : Keys} → Steps s t → Step t u → Steps s u

-- What holds between two steps: every handler that runs has its own key, which is in flight.
pub record AreSound (s : Keys) : Type 0 where
  pub logged : s.returned ≡ s.executed
  pub unique : unique_keys s.executed ≡ true
  pub reserved : s.running ≡ s.in_flight
  pub alone : unique_keys s.in_flight ≡ true
  pub apart : (key : Key) → holds_key s.in_flight key ≡ true → holds_key s.executed key ≡ false

same_key-eq : (a b : Key) → same_key a b ≡ true → a ≡ b
same_key-eq a b h =
    let first : a.0 ≡ b.0 = ground (arith, eq_iff a.0 b.0) in
    let second : a.1 ≡ b.1 = ground (arith, eq_iff a.1 b.1) in λ i. (first i, second i)

same_key-discarded :
    (a b c : Key) → same_key a b ≡ false → same_key a c ≡ true → same_key b c ≡ false
same_key-discarded a b c h k = ground (
  arith,
  eq_iff a.0 c.0,
  eq_iff a.1 c.1,
  eq_iff b.0 c.0,
  eq_iff b.1 c.1,
  eq_iff a.0 b.0,
  eq_iff a.1 b.1,
)

-- What is left after a key is discarded was there, and is another key.
holds_key-discard :
    (key other : Key) (keys : List Key)
    → holds_key (discard key keys) other ≡ true
    → (holds_key keys other ≡ true) × (same_key key other ≡ false)
unfolding holds_key discard
holds_key-discard key other [] h = cc (h)
holds_key-discard key other (k ∷ keys) h = elim (Bool-cases (same_key k key)) [
  | inl dropped ↦
      let (there, different) = holds_key-discard key other keys (rw dropped at h) in
      (ground (arith, there), different)
  | inr stays ↦ elim (Bool-cases (same_key k other)) [
    | inl here ↦ (rw here, same_key-discarded k key other stays here)
    | inr elsewhere ↦
        let (there, different) = holds_key-discard key other keys (rw (stays, elsewhere) at h) in
        (ground (arith, there), different)
  ]
]

not-holds_key-discard :
    (key other : Key) (keys : List Key)
    → holds_key keys other ≡ false
    → holds_key (discard key keys) other ≡ false
not-holds_key-discard key other keys h = elim (Bool-cases (holds_key (discard key keys) other)) [
  | inl there ↦ let held = (holds_key-discard key other keys there).0 in cc (held, h)
  | inr absent ↦ absent
]

discard_unique :
    (key : Key) (keys : List Key) → unique_keys keys ≡ true → unique_keys (discard key keys) ≡ true
unfolding unique_keys discard
discard_unique key [] u = refl
discard_unique key (k ∷ keys) u = elim (Bool-cases (holds_key keys k)) [
  | inl again ↦ absurd (ground (arith, rw again at u))
  | inr new ↦
      let others = discard_unique key keys (rw new at u) in
      elim (Bool-cases (same_key k key)) [
        | inl dropped ↦ rw dropped others
        | inr stays ↦ rw (stays, not-holds_key-discard key k keys new) others
      ]
]

discard_absent :
    (key : Key) (keys : List Key) → holds_key keys key ≡ false → discard key keys ≡ keys
unfolding holds_key discard
discard_absent key [] h = refl
discard_absent key (k ∷ keys) h = elim (Bool-cases (same_key k key)) [
  | inl here ↦ absurd (ground (arith, rw here at h))
  | inr other ↦ rw other (ap (λ (ks : List Key). k ∷ ks) (discard_absent key keys (rw other at h)))
]

-- Of a set, the one key that is removed is every one that is discarded.
remove_one-discard :
    (key : Key) (keys : List Key) → unique_keys keys ≡ true → remove_one key keys ≡ discard key keys
unfolding unique_keys remove_one discard
remove_one-discard key [] u = refl
remove_one-discard key (k ∷ keys) u = elim (Bool-cases (holds_key keys k)) [
  | inl again ↦ absurd (ground (arith, rw again at u))
  | inr new ↦ elim (Bool-cases (same_key k key)) [
    | inl here ↦ rw here (
        sym (
          discard_absent key keys
            (subst (λ x. holds_key keys x ≡ false) (same_key-eq k key here) new)))
    | inr other ↦
        rw other (ap (λ (ks : List Key). k ∷ ks) (remove_one-discard key keys (rw new at u)))
  ]
]

reserve-AreSound : (key : Key) (s : Keys) → AreSound s → AreSound (reserve key s)
unfolding reserve unique_keys holds_key
reserve-AreSound key s sound = elim (Bool-cases (holds_key s.executed key)) [
  | inl done ↦ rw done sound
  | inr unexecuted ↦ elim (Bool-cases (holds_key s.in_flight key)) [
    | inl busy ↦ rw (unexecuted, busy) sound
    | inr free ↦ rw (unexecuted, free) (reserved_new unexecuted free)
  ]
]
  where
    reserved_new :
        holds_key s.executed key ≡ false
        → holds_key s.in_flight key ≡ false
        → AreSound (record s { in_flight = key ∷ s.in_flight; running = key ∷ s.running })
    reserved_new unexecuted free = record {
      logged = sound.logged;
      unique = sound.unique;
      reserved = ap (λ (ks : List Key). key ∷ ks) sound.reserved;
      alone = rw free sound.alone;
      apart = λ other h. elim (Bool-cases (same_key key other)) [
        | inl same ↦
            subst (λ k. holds_key s.executed k ≡ false) (same_key-eq key other same) unexecuted
        | inr different ↦ sound.apart other (rw different at h)
      ];
    }

removed : (key : Key) (s : Keys) → AreSound s → remove_one key s.running ≡ discard key s.in_flight
removed key s sound =
    ap (remove_one key) sound.reserved ∙ remove_one-discard key s.in_flight sound.alone

Step-AreSound : {s t : Keys} → AreSound s → Step s t → AreSound t
unfolding unique_keys holds_key end_failed end_returned
Step-AreSound {s} sound (reserves key) = reserve-AreSound key s sound
Step-AreSound {s} sound (fails key running) = record {
  logged = sound.logged;
  unique = sound.unique;
  reserved = removed key s sound;
  alone = discard_unique key s.in_flight sound.alone;
  apart = λ other h. sound.apart other (holds_key-discard key other s.in_flight h).0;
}
Step-AreSound {s} sound (returns key running) =
    let in_flight = subst (λ ks. holds_key ks key ≡ true) sound.reserved running in
    record {
      logged = ap (λ (ks : List Key). key ∷ ks) sound.logged;
      unique = rw (sound.apart key in_flight) sound.unique;
      reserved = removed key s sound;
      alone = discard_unique key s.in_flight sound.alone;
      apart = λ other h.
          let (there, different) = holds_key-discard key other s.in_flight h in
          rw different (sound.apart other there);
    }

pub Steps-AreSound : {s t : Keys} → AreSound s → Steps s t → AreSound t
Steps-AreSound sound start = sound
Steps-AreSound sound (next before step) = Step-AreSound (Steps-AreSound sound before) step

-- An executor as `InMemoryRecoveryExecutor(…)` makes it.
abbrev pub no_keys : Keys
no_keys = record { executed = []; in_flight = []; running = []; returned = [] }

-- However the executions of one event loop interleave, whether their handlers raise or return, and
-- however often a key is tried again, no key has two handlers that run at once, and none has two
-- that returned.
pub Steps-unique :
    {t : Keys} → Steps no_keys t → (unique_keys t.returned ≡ true) × (unique_keys t.running ≡ true)
unfolding unique_keys holds_key
Steps-unique {t} steps =
    let sound =
      Steps-AreSound
        (record {
          logged = refl;
          unique = refl;
          reserved = refl;
          alone = refl;
          apart = λ key h. cc (h);
        })
        steps in
    (rw sound.logged sound.unique, rw sound.reserved sound.alone)
