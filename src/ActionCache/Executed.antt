-- ===== src/ActionCache/Executed.antt =====
-- A whole call of `execute_or_fallback`, whether it returns or raises.
use runmantle.Prelude.{
  ◌≡◌, inl, inr, refl, sym, subst, String, Bool, true, false, Option, none, some, List, [], ◌∷◌,
  Error, ◌↔◌, is_empty, Any, select, All, all→All, All→all, Result, ok, err, Bool-cases,
  if◌then◌else◌,
}
use runmantle.Stateful.{and_then, pure, lift, ◌>>=◌, ◌>>◌}
use runmantle.Serialization.{Primitives}
use runmantle.Serialization.Codec.{JsonText}
use runmantle.ActionCache.{Language, VerifiedActionRecipe, ReuseRequest, is_reusable}
use runmantle.ActionCache.Run.{
  count_failure, count_reuse, fall_back, reuse_result, reuse, count_verified, tick, is_validated,
  with_match, execute_or_fallback,
}
use runmantle.ActionCache.Host.{
  PreconditionResult, CacheMatch, RecipeExecution, RecipeVerification, CacheExecutionResult,
  governed, Session, CacheMetrics, Scores, Host,
}
use runmantle.ActionCache.Reused.{
  with_hit, with_miss, with_failure, IsMatch, IsNew, IsShort, Looked, raises, misses, hits,
  lookup-Looked,
}
use runmantle.ActionCache.Kept.{with_call}
use runmantle.ActionCache.FellBack.{FellBack, fall_back-FellBack}

module _ {Score : Type 0} (o : Scores Score) (host : Host Score) (l : Language) (p : Primitives)
    (t : JsonText) (sha256 : String → String) where
  abbrev pub counted_reuse :
      CacheMatch Score → RecipeExecution → RecipeVerification → Session → Session
  counted_reuse m execution v s =
      if v.verified
      then record s {
        metrics = count_reuse m.recipe.original_token_usage execution.token_usage s.metrics;
      }
      else s

  -- The governed executor was called once, on the recipe of the match.
  pub data Reused (request : ReuseRequest) (m : CacheMatch Score)
      (validation : List PreconditionResult) (s : Session)
      : Result (CacheExecutionResult Score) × Session → Type 0 where
    reuse_raised :
        (e : Error)
        → host.governed_executor m.recipe request ≡ err e
        → Reused request m validation s (err e, with_call (governed m.recipe.recipe_id) s)
    verifier_raised :
        (execution : RecipeExecution) (e : Error)
        → host.governed_executor m.recipe request ≡ ok execution
        → host.verifier request execution (some m.recipe) ≡ err e
        → Reused request m validation s (err e, with_call (governed m.recipe.recipe_id) s)
    reuse_done :
        (execution : RecipeExecution) (v : RecipeVerification)
        → host.governed_executor m.recipe request ≡ ok execution
        → host.verifier request execution (some m.recipe) ≡ ok v
        → Reused request m validation s (
          ok (reuse_result o host l p t sha256 m validation execution v),
          counted_reuse m execution v (with_call (governed m.recipe.recipe_id) s),
        )

  counted_either :
      (b : Bool) (f : CacheMetrics → CacheMetrics) (r : CacheExecutionResult Score) (s : Session)
      → ((if b then tick f else pure tt) >>= λ _. pure r) s
        ≡ (ok r, if b then record s { metrics = f s.metrics } else s)
  counted_either true f r s = refl
  counted_either false f r s = refl

  reuse-Reused :
      (request : ReuseRequest) (m : CacheMatch Score) (validation : List PreconditionResult)
      (s : Session)
      → Reused request m validation s (reuse o host l p t sha256 request m validation s)
  unfolding reuse
  reuse-Reused request m validation s = ran (host.governed_executor m.recipe request) refl
    where
      counted :
          (execution : RecipeExecution) (v : RecipeVerification)
          → host.governed_executor m.recipe request ≡ ok execution
          → host.verifier request execution (some m.recipe) ≡ ok v
          → Reused request m validation s (
              (count_verified o host l p t sha256 m execution v >>= λ _.
              pure (reuse_result o host l p t sha256 m validation execution v))
                (with_call (governed m.recipe.recipe_id) s))
      counted execution v h g =
          subst (Reused request m validation s) (sym (counted_either v.verified _ _ _))
            (reuse_done execution v h g)

      checked :
          (execution : RecipeExecution) (v : Result RecipeVerification)
          → host.governed_executor m.recipe request ≡ ok execution
          → host.verifier request execution (some m.recipe) ≡ v
          → Reused request m validation s (
              and_then v
                (λ v. count_verified o host l p t sha256 m execution v >>= λ _.
                  pure (reuse_result o host l p t sha256 m validation execution v))
                (with_call (governed m.recipe.recipe_id) s))
      checked execution (err e) h g = verifier_raised execution e h g
      checked execution (ok v) h g = counted execution v h g

      ran :
          (execution : Result RecipeExecution)
          → host.governed_executor m.recipe request ≡ execution
          → Reused request m validation s (
              and_then execution
                (λ execution. lift (host.verifier request execution (some m.recipe)) >>= λ v.
                  count_verified o host l p t sha256 m execution v >>= λ _.
                  pure (reuse_result o host l p t sha256 m validation execution v))
                (with_call (governed m.recipe.recipe_id) s))
      ran (err e) h = reuse_raised e h
      ran (ok execution) h =
          checked execution (host.verifier request execution (some m.recipe)) h refl

  is_validated-All :
      (validation : List PreconditionResult)
      → (is_validated o host l p t sha256 validation ≡ true) ↔ (
          (is_empty validation ≡ false)
          × All (λ (c : PreconditionResult). c.passed ≡ true) validation)
  is_validated-All [] = (λ h. cc (h), λ h. cc (h.0))
  is_validated-All (c ∷ rest) = (λ h. (refl, all→All _ (c ∷ rest) h), λ h. All→all _ (c ∷ rest) h.1)

  -- A whole call, where `Missed` is what is known of a request that the lookup found no match for.
  pub data Executed (Missed : Type 0) (request : ReuseRequest) (s : Session)
      : Result (CacheExecutionResult Score) × Session → Type 0 where
    lookup_raised :
        (e : Error)
        → IsNew o host request s.recipes
        → Any
            (λ (r : VerifiedActionRecipe). host.score request r ≡ err e)
            (select is_reusable s.recipes)
        → Executed Missed request s (err e, s)
    validation_raised :
        (m : CacheMatch Score) (e : Error)
        → IsMatch o host request s.recipes m
        → host.validate m.recipe request ≡ err e
        → Executed Missed request s (err e, with_hit s)
    was_reused :
        (m : CacheMatch Score) (validation : List PreconditionResult)
        {x : Result (CacheExecutionResult Score) × Session}
        → IsMatch o host request s.recipes m
        → host.validate m.recipe request ≡ ok validation
        → is_empty validation ≡ false
        → All (λ (c : PreconditionResult). c.passed ≡ true) validation
        → Reused request m validation (with_hit s) x
        → Executed Missed request s x
    was_missed :
        {x : Result (CacheExecutionResult Score) × Session}
        → Missed
        → FellBack o host l p t sha256 request none [] (with_miss s) x
        → Executed Missed request s x
    was_invalid :
        (m : CacheMatch Score) (validation : List PreconditionResult)
        {x : Result (CacheExecutionResult Score) × Session}
        → IsMatch o host request s.recipes m
        → host.validate m.recipe request ≡ ok validation
        → ¬ (
            (is_empty validation ≡ false)
            × All (λ (c : PreconditionResult). c.passed ≡ true) validation)
        → FellBack o host l p t sha256 request (some m) validation (with_failure (with_hit s)) x
        → Executed Missed request s x

  validated-Executed :
      (Missed : Type 0) (request : ReuseRequest) (s : Session) (m : CacheMatch Score)
      (validation : Result (List PreconditionResult))
      → IsMatch o host request s.recipes m
      → host.validate m.recipe request ≡ validation
      → Executed Missed request s (
          and_then validation
            (λ validation.
              if is_validated o host l p t sha256 validation
              then reuse o host l p t sha256 request m validation
              else (tick count_failure
                  >> fall_back o host l p t sha256 request (some m) validation))
            (with_hit s))
  validated-Executed Missed request s m (err e) matched h = validation_raised m e matched h
  validated-Executed Missed request s m (ok validation) matched h =
      elim (Bool-cases (is_validated o host l p t sha256 validation)) [
        | inl valid ↦ rw valid (
            let (some_checks, passed) = (is_validated-All validation).0 valid in
            was_reused m validation matched h some_checks passed
              (reuse-Reused request m validation (with_hit s)))
        | inr invalid ↦ rw invalid (
            was_invalid m validation matched h
              (λ all_passed.
                let valid = (is_validated-All validation).1 all_passed in cc (valid, invalid))
              (fall_back-FellBack o host l p t sha256 request (some m) validation
                (with_failure (with_hit s))))
      ]

  matched-Executed :
      (Missed : Type 0) (request : ReuseRequest) (s : Session)
      (x : Result (Option (CacheMatch Score)) × Session)
      → (IsNew o host request s.recipes → IsShort o host request s.recipes → Missed)
      → Looked o host request s x
      → Executed Missed request s (and_then x.0 (with_match o host l p t sha256 request) x.1)
  unfolding with_match
  matched-Executed Missed request s _ missing (raises e new refused) = lookup_raised e new refused
  matched-Executed Missed request s _ missing (misses new short) =
      was_missed (missing new short)
        (fall_back-FellBack o host l p t sha256 request none [] (with_miss s))
  matched-Executed Missed request s _ missing (hits m matched) =
      validated-Executed Missed request s m _ matched refl

  pub execute_or_fallback-by_lookup :
      (Missed : Type 0) (request : ReuseRequest) (s : Session)
      → (IsNew o host request s.recipes → IsShort o host request s.recipes → Missed)
      → Executed Missed request s (execute_or_fallback o host l p t sha256 request s)
  unfolding execute_or_fallback
  execute_or_fallback-by_lookup Missed request s missing =
      matched-Executed Missed request s _ missing (lookup-Looked o host request s)
