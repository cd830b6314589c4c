-- ===== src/Verification/Verdict.antt =====
-- The verdict over the evaluations of the criteria.
use runmantle.Prelude.{
  ◌≡◌, refl, ◌↔◌, inl, inr, true, false, not, List, [], ◌∷◌, any, All, Any, Bool-cases, arith,
}
use runmantle.Contracts.{CriterionEvaluation}
use runmantle.Verification.{verified, failed}
use runmantle.Verification.Verifier.{decide_status, conclusively_failed}

-- The evaluation is conclusive, passed, and waits for nobody.
pub record IsSatisfied (e : CriterionEvaluation) : Type 0 where
  pub conclusive : e.conclusive ≡ true
  pub passed : e.passed ≡ true
  pub no_approval : e.awaiting_approval ≡ false
  pub no_confirmation : e.awaiting_runtime_confirmation ≡ false

-- The four tests of the verdict, all of them negative.
abbrev NoObjection : List CriterionEvaluation → Type 0
NoObjection es =
    (any conclusively_failed es ≡ false)
    × (any (λ e. e.awaiting_approval) es ≡ false)
    × (any (λ e. e.awaiting_runtime_confirmation) es ≡ false)
    × (any (λ e. not e.conclusive) es ≡ false)

NoObjection-IsSatisfied : (es : List CriterionEvaluation) → NoObjection es → All IsSatisfied es
NoObjection-IsSatisfied [] h = tt
NoObjection-IsSatisfied (e ∷ es) h = (ground arith, NoObjection-IsSatisfied es (ground arith))

satisfied-NoObjection : (es : List CriterionEvaluation) → All IsSatisfied es → NoObjection es
satisfied-NoObjection [] h = (refl, refl, refl, refl)
satisfied-NoObjection (e ∷ es) h = ground (arith, satisfied-NoObjection es h.1)

verified-NoObjection :
    (es : List CriterionEvaluation) → decide_status es ≡ verified → NoObjection es
unfolding decide_status
verified-NoObjection es h = ground arith

NoObjection-verified :
    (es : List CriterionEvaluation) → NoObjection es → decide_status es ≡ verified
unfolding decide_status
NoObjection-verified es h = ground arith

-- The verdict over the evaluations is verified exactly when every evaluation is conclusive, passed
-- and waits for neither an approval nor a confirmation.
pub decide_status-verified :
    (es : List CriterionEvaluation) → (decide_status es ≡ verified) ↔ All IsSatisfied es
decide_status-verified es = (
  λ h. NoObjection-IsSatisfied es (verified-NoObjection es h),
  λ h. NoObjection-verified es (satisfied-NoObjection es h),
)

abbrev pub FailsConclusively : CriterionEvaluation → Type 0
FailsConclusively e = (e.conclusive ≡ true) × (e.passed ≡ false)

any-failed :
    (es : List CriterionEvaluation) → (any conclusively_failed es ≡ true) ↔ Any FailsConclusively es
any-failed [] = (λ h. cc, λ h. absurd h)
any-failed (e ∷ es) = (
  λ h. elim (Bool-cases (conclusively_failed e)) [
    | inl c ↦ inl (ground (arith, c))
    | inr n ↦ inr ((any-failed es).0 (ground (arith, h, n)))
  ],
  λ k. elim k [ inl f ↦ ground (arith, f) | inr a ↦ ground (arith, (any-failed es).1 a) ],
)

-- The verdict over the evaluations is failed exactly when some evaluation is conclusive and did
-- not pass.
pub decide_status-failed :
    (es : List CriterionEvaluation) → (decide_status es ≡ failed) ↔ Any FailsConclusively es
unfolding decide_status
decide_status-failed es =
    (λ h. (any-failed es).0 (ground arith), λ h. let found = (any-failed es).1 h in ground arith)
