-- ===== src/Actions/Started.antt =====
-- An action starts at most once, however the transactions interleave.
use runmantle.Prelude.{
  some-injective, ℕ, suc, ◌+◌, ◌≡◌, refl, ◌∙◌, ap, subst, arith, String, Bool, true, false, ◌&&◌,
  ◌==◌, eq_iff, eq_refl, some, List, [], ◌∷◌, map, Result, ok, err, Bool-cases, inl, inr,
  if◌then◌else◌,
}
use runmantle.Telemetry.{LifecycleEventType}
use runmantle.Actions.{StoredAction}
use runmantle.Actions.Store.{Store, first_where, find_action, put_action, update_action, committed}
use runmantle.Actions.Steps.{count_events, is_start, has_started, starts_of, AreCounted}

-- What replacing a row does to the look-ups by a key.
module _ {A : Type 0} (key : A → String) where
  abbrev pub put_row : A → List A → List A
  put_row row rows = map (λ a. if key a == key row then row else a) rows

  pub find-put_same :
      (row : A) (rows : List A) {old : A}
      → first_where (λ a. key a == key row) rows ≡ some old
      → first_where (λ a. key a == key row) (put_row row rows) ≡ some row
  unfolding first_where
  find-put_same row [] h = cc (h)
  find-put_same row (a ∷ rows) h = elim (Bool-cases (key a == key row)) [
    | inl same ↦ rw (same, eq_refl (key row)) refl
    | inr other ↦ rw (other, other) (find-put_same row rows (rw other at h))
  ]

  pub find-put_other :
      (row : A) (name : String) (rows : List A)
      → key row == name ≡ false
      → first_where (λ a. key a == name) (put_row row rows) ≡ first_where (λ a. key a == name) rows
  unfolding first_where
  find-put_other row name [] h = refl
  find-put_other row name (a ∷ rows) h = elim (Bool-cases (key a == key row)) [
    | inl same ↦
        let a_other : key a == name ≡ false = rw ((eq_iff (key a) (key row)).0 same) h in
        rw (same, h, a_other) (find-put_other row name rows h)
    | inr other ↦
        rw other
          (ap (λ rest. if key a == name then some a else rest) (find-put_other row name rows h))
  ]

  pub found-key :
      (name : String) (rows : List A) {a : A}
      → first_where (λ a. key a == name) rows ≡ some a
      → key a ≡ name
  unfolding first_where
  found-key name [] h = cc (h)
  found-key name (b ∷ rows) h = elim (Bool-cases (key b == name)) [
    | inl same ↦
        subst (λ x. key x ≡ name) (some-injective (rw same at h)) ((eq_iff (key b) name).0 same)
    | inr other ↦ found-key name rows (rw other at h)
  ]

abbrev pub action_key : StoredAction → String
action_key a = a.action_id

pub found-action_id :
    (action_id : String) (actions : List StoredAction) {a : StoredAction}
    → find_action action_id actions ≡ some a
    → a.action_id ≡ action_id
unfolding find_action
found-action_id action_id actions h = found-key action_key action_id actions h

abbrev pub flag : Bool → ℕ
flag b = if b then 1 else 0

pub count-here :
    (b : Bool) (others old row : ℕ)
    → others ≡ old
    → row ≡ flag b + old
    → (if b && true then suc others else others) ≡ row
count-here true others old row same step = omega (arith, same, step)
count-here false others old row same step = omega (arith, same, step)

pub count-there : (b : Bool) (others : ℕ) → (if b && false then suc others else others) ≡ others
count-there true others = refl
count-there false others = refl

-- A row is replaced, and an event is logged.
pub update-AreCounted :
    (s : Store) (old row : StoredAction) (event_type : LifecycleEventType)
    → AreCounted s
    → find_action row.action_id s.actions ≡ some old
    → flag (has_started row.status) ≡ flag (is_start event_type) + flag (has_started old.status)
    → AreCounted (update_action row event_type s)
unfolding count_events find_action put_action
update-AreCounted s old row event_type counted found step other =
    elim (Bool-cases (row.action_id == other)) [
      | inl same ↦
          let here = (eq_iff row.action_id other).0 same in
          subst
            (λ x.
              count_events is_start x ((event_type, row.action_id) ∷ s.events)
              ≡ starts_of (find_action x (put_action row s.actions)))
            here
            (rw (find-put_same action_key row s.actions found, eq_refl row.action_id)
              (count-here (is_start event_type) _ _ _ (counted row.action_id ∙ ap starts_of found)
                step))
      | inr different ↦
          rw (different, find-put_other action_key row other s.actions different)
            (count-there (is_start event_type) _ ∙ counted other)
    ]

module _ {A : Type 0} where
  -- A transaction that raises changes nothing.
  pub committed-keeps :
      (P : Store → Type 0) (s : Store) (r : Result (A × Store))
      → P s
      → ((a : A) (s' : Store) → r ≡ ok (a, s') → P s')
      → P (committed s r).1
  committed-keeps P s (ok (a, s')) before after = after a s' refl
  committed-keeps P s (err e) before after = before
