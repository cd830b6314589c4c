-- ===== src/Recovery/Bound.antt =====
-- The hash of a `RecoveryPlan` and the fields that it is made of.
use runmantle.Prelude.{
  ◌≡◌, refl, subst, String, ◌<>◌, Bool, true, false, Option, none, some, List, [], ◌∷◌, ◌==◌, ok,
  >>=-eq-ok, >>-eq-ok, ok-injective, Bool-cases, inl, inr, if◌then◌else◌,
}
use runmantle.Serialization.{Primitives}
use runmantle.Serialization.Codec.{JsonText, dumps}
use runmantle.Recovery.{RecoveryAction}
use runmantle.Recovery.Plan.{
  RecoveryPlan, default_codec, plan_snapshot, context_or_task, declared_capability, completed_plan,
  check_plan, construct_plan,
}

either_way : (b : Bool) (s : String) → (if b then s else s) ≡ s
either_way true s = refl
either_way false s = refl

context_or_task-twice :
    (o : Option String) (task_id : String)
    → context_or_task (some (context_or_task o task_id)) task_id ≡ context_or_task o task_id
context_or_task-twice none task_id = either_way ("task:" <> task_id == "") ("task:" <> task_id)
context_or_task-twice (some s) task_id = elim (Bool-cases (s == "")) [
  | inl e ↦ rw e (either_way ("task:" <> task_id == "") ("task:" <> task_id))
  | inr e ↦ rw (e, e) refl
]

declared_capability-twice :
    (o : Option String) (actions : List RecoveryAction)
    → declared_capability (declared_capability o actions) actions ≡ declared_capability o actions
declared_capability-twice (some c) actions = refl
declared_capability-twice none [] = refl
declared_capability-twice none (a ∷ []) = refl
declared_capability-twice none (a ∷ b ∷ rest) = refl

module _ (p : Primitives) (t : JsonText) (sha256 : String → String) where
  -- The plan is complete, its guards hold, and its hash is that of its other fields.
  pub record IsBound (plan : RecoveryPlan) : Type 0 where
    pub checked : check_plan p t sha256 plan ≡ ok tt
    pub complete : completed_plan p t sha256 plan ≡ plan
    pub encoded : String
    pub snapshot : dumps p t default_codec (plan_snapshot plan) ≡ ok encoded
    pub hashed : plan.plan_hash ≡ "sha256:" <> sha256 encoded

  pub construct_plan-IsBound :
      (plan made : RecoveryPlan) → construct_plan p t sha256 plan ≡ ok made → IsBound made
  unfolding construct_plan plan_snapshot
  construct_plan-IsBound plan made h =
      let (checked, h') = >>-eq-ok (check_plan p t sha256 plan) _ h in
      let (encoded, snapshot, h'') =
        >>=-eq-ok (dumps p t default_codec (plan_snapshot (completed_plan p t sha256 plan))) _ h' in
      subst IsBound (ok-injective h'') (record {
        checked =
            rw (declared_capability-twice plan.declared_recovery_capability plan.actions) checked;
        complete = λ i. record plan {
          context_reference = some (context_or_task-twice plan.context_reference plan.task_id i);
          declared_recovery_capability =
              declared_capability-twice plan.declared_recovery_capability plan.actions i;
          plan_hash = "sha256:" <> sha256 encoded;
        };
        encoded = encoded;
        snapshot = snapshot;
        hashed = refl;
      })
