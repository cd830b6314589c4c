-- ===== src/Actions/Authorized.antt =====
-- When `_authorize` authorizes an action, and when the action awaits an approval.
use runmantle.Prelude.{
  ◌≡◌, ◌↔◌, refl, sym, ◌∙◌, ap, Bool, true, false, not, ◌&&◌, ◌||◌, Option, is_some, Result, ok,
  err, All, List, [], ◌∷◌, map, inl, inr, ◌⊎◌,
}
use runmantle.Value.{DateTime}
use runmantle.Approvals.{StoredApproval}
use runmantle.Actions.{
  ActionRequest, Precondition, ActionPolicyDecision, ActionConditionResult, PreActionAuthorization,
}
use runmantle.Actions.Policy.{
  Answer, truth, condition, condition_of, evaluated, all_passed, rejected_by, authorize,
}
use runmantle.Actions.Allowed.{construct_authorization-same}

-- The evaluator of a precondition gave a true value, or a result that passed.
pub data Passes (evaluate : Precondition → Result Answer) (c : Precondition) : Type 0 where
  held : evaluate c ≡ ok (truth true) → Passes evaluate c
  answered :
      (r : ActionConditionResult)
      → evaluate c ≡ ok (condition r)
      → r.passed ≡ true
      → Passes evaluate c

-- Nothing is missing for the action.
pub record IsAuthorized (evaluate : Precondition → Result Answer) (request : ActionRequest)
    (decision : ActionPolicyDecision) (stored : Option StoredApproval) : Type 0 where
  pub allowed : decision.allowed ≡ true
  pub passed : All (Passes evaluate) request.preconditions
  pub approved : (decision.requires_approval ≡ false) ⊎ (is_some stored ≡ true)

-- Nothing but the approval is missing, and it was not refused.
pub record IsAwaited (evaluate : Precondition → Result Answer) (request : ActionRequest)
    (decision : ActionPolicyDecision) (stored : Option StoredApproval) (value : Option Bool)
    : Type 0 where
  pub allowed : decision.allowed ≡ true
  pub passed : All (Passes evaluate) request.preconditions
  pub needed : decision.requires_approval ≡ true
  pub unapproved : is_some stored ≡ false
  pub unrejected : rejected_by value ≡ false

condition_of-Passes :
    (evaluate : Precondition → Result Answer) (c : Precondition) (r : Result Answer)
    → evaluate c ≡ r
    → ((condition_of c r).passed ≡ true) ↔ Passes evaluate c
condition_of-Passes evaluate c (ok (truth true)) h = (λ _. held h, λ _. refl)
condition_of-Passes evaluate c (ok (truth false)) h = (
  λ p. cc (p),
  λ p. elim p [
    | held g ↦ let bad = sym h ∙ g in cc (bad)
    | answered r g q ↦ let bad = sym h ∙ g in cc (bad)
  ],
)
condition_of-Passes evaluate c (ok (condition r)) h = (
  λ p. answered r h p,
  λ p. elim p [
    | held g ↦ let bad = sym h ∙ g in cc (bad)
    | answered q g passed ↦ let same = sym h ∙ g in cc (same, passed)
  ],
)
condition_of-Passes evaluate c (err e) h = (
  λ p. cc (p),
  λ p. elim p [
    | held g ↦ let bad = sym h ∙ g in cc (bad)
    | answered r g q ↦ let bad = sym h ∙ g in cc (bad)
  ],
)

all_passed-Passes :
    (evaluate : Precondition → Result Answer) (cs : List Precondition)
    → (all_passed evaluate (map (λ c. condition_of c (evaluate c)) cs) ≡ true)
      ↔ All (Passes evaluate) cs
all_passed-Passes evaluate [] = (λ _. tt, λ _. refl)
all_passed-Passes evaluate (c ∷ cs) =
    let (there, back) = condition_of-Passes evaluate c (evaluate c) refl in
    let (forth, home) = all_passed-Passes evaluate cs in
    let first = (condition_of c (evaluate c)).passed in
    let rest = all_passed evaluate (map (λ c. condition_of c (evaluate c)) cs) in
    (
      λ h. (there (and_parts first rest h).0, forth (and_parts first rest h).1),
      λ (h, hs). rw (back h, home hs) refl,
    )
  where
    and_parts : (a b : Bool) → (a && b) ≡ true → (a ≡ true) × (b ≡ true)
    and_parts true true h = (refl, refl)
    and_parts true false h = cc (h)
    and_parts false b h = cc (h)

-- The results of an allowed action are those of its preconditions.
evaluated-Passes :
    (evaluate : Precondition → Result Answer) (request : ActionRequest)
    (decision : ActionPolicyDecision)
    → decision.allowed ≡ true
    → (all_passed evaluate (evaluated evaluate request decision) ≡ true)
      ↔ All (Passes evaluate) request.preconditions
evaluated-Passes evaluate request decision h =
    rw h (all_passed-Passes evaluate request.preconditions)

authorized_parts :
    (allowed passed needed given : Bool)
    → ((allowed && passed && (not needed || given)) ≡ true)
      ↔ ((allowed ≡ true) × (passed ≡ true) × ((needed ≡ false) ⊎ (given ≡ true)))
authorized_parts true true true true = (λ h. (refl, refl, inr refl), λ h. refl)
authorized_parts true true true false =
    (λ h. cc (h), λ h. elim (h.2) [ inl n ↦ cc (n) | inr g ↦ cc (g) ])
authorized_parts true true false given = (λ h. (refl, refl, inl refl), λ h. refl)
authorized_parts true false needed given = (λ h. cc (h), λ h. cc (h.1))
authorized_parts false passed needed given = (λ h. cc (h), λ h. cc (h.0))

awaited_parts :
    (allowed passed needed given rejected : Bool)
    → ((allowed && passed && needed && not given && not rejected) ≡ true) ↔ (
        (allowed ≡ true) × (passed ≡ true) × (needed ≡ true) × (given ≡ false) × (rejected ≡ false))
awaited_parts true true true false false = (λ h. (refl, refl, refl, refl, refl), λ h. refl)
awaited_parts true true true false true = (λ h. cc (h), λ (_, _, _, _, r). cc (r))
awaited_parts true true true true rejected = (λ h. cc (h), λ (_, _, _, g, _). cc (g))
awaited_parts true true false given rejected = (λ h. cc (h), λ (_, _, n, _, _). cc (n))
awaited_parts true false needed given rejected = (λ h. cc (h), λ h. cc (h.1))
awaited_parts false passed needed given rejected = (λ h. cc (h), λ h. cc (h.0))

-- Where the mediated executor's authorization of an action is constructed, the action is
-- authorized exactly when the decision allows it, the evaluator of every precondition returned,
-- with a true value or with a result that passed, and an active approval is stored where the
-- decision asks for one; and it awaits an approval exactly when it is allowed, every precondition
-- passed in this way, an approval is asked for, none is active, and none was refused.
pub authorize-IsAuthorized :
    (evaluate : Precondition → Result Answer) (request : ActionRequest)
    (decision : ActionPolicyDecision) (stored : Option StoredApproval) (value : Option Bool)
    (now : DateTime) (a : PreActionAuthorization)
    → authorize evaluate request decision stored value now ≡ ok a
    → ((a.authorized ≡ true) ↔ IsAuthorized evaluate request decision stored)
      × ((a.awaiting_approval ≡ true) ↔ IsAwaited evaluate request decision stored value)
unfolding authorize
authorize-IsAuthorized evaluate request decision stored value now a h =
    let same = construct_authorization-same _ h in
    let made = ap (λ (b : PreActionAuthorization). b.authorized) same in
    let waits = ap (λ (b : PreActionAuthorization). b.awaiting_approval) same in
    let passed = all_passed evaluate (evaluated evaluate request decision) in
    let (there, back) =
      authorized_parts decision.allowed passed decision.requires_approval (is_some stored) in
    let (forth, home) =
      awaited_parts decision.allowed passed decision.requires_approval (is_some stored)
        (rejected_by value) in
    (
      (
        λ authorized.
            let (allowed, all_pass, approved) = there (made ∙ authorized) in
            record {
              allowed = allowed;
              passed = (evaluated-Passes evaluate request decision allowed).0 all_pass;
              approved = approved;
            },
        λ i.
            sym made
            ∙ back (
              i.allowed,
              (evaluated-Passes evaluate request decision i.allowed).1 i.passed,
              i.approved,
            ),
      ),
      (
        λ waiting.
            let (allowed, all_pass, needed, unapproved, unrejected) = forth (waits ∙ waiting) in
            record {
              allowed = allowed;
              passed = (evaluated-Passes evaluate request decision allowed).0 all_pass;
              needed = needed;
              unapproved = unapproved;
              unrejected = unrejected;
            },
        λ i.
            sym waits
            ∙ home (
              i.allowed,
              (evaluated-Passes evaluate request decision i.allowed).1 i.passed,
              i.needed,
              i.unapproved,
              i.unrejected,
            ),
      ),
    )
