-- ===== src/ActionCache/FellBack.antt =====
-- What the fallback to the normal executor does to the cache.
use runmantle.Prelude.{◌≡◌, refl, String, Option, List, Error, Result, ok, err}
use runmantle.Stateful.{and_then, pure, ◌>>=◌}
use runmantle.Serialization.{Primitives}
use runmantle.Serialization.Codec.{JsonText}
use runmantle.ActionCache.{Language, VerifiedActionRecipe, ReuseRequest}
use runmantle.ActionCache.Run.{keep, fall_back, fallback_result, verify_normal}
use runmantle.ActionCache.Host.{
  PreconditionResult, CacheMatch, RecipeVerification, NormalExecution, CacheExecutionResult,
  Session, Scores, Host,
}
use runmantle.ActionCache.Kept.{KeptBut, unchanged, with_fallback, Kept, keep-Kept, Kept-KeptBut}

module _ {Score : Type 0} (o : Scores Score) (host : Host Score) (l : Language) (p : Primitives)
    (t : JsonText) (sha256 : String → String) where
  -- The normal executor was called once, and its execution verified; a recipe that it gave is
  -- stored where the execution is verified.
  pub data FellBack (request : ReuseRequest) (found : Option (CacheMatch Score))
      (validation : List PreconditionResult) (s : Session)
      : Result (CacheExecutionResult Score) × Session → Type 0 where
    normal_raised :
        (e : Error)
        → host.normal_executor request ≡ err e
        → FellBack request found validation s (err e, with_fallback s)
    verifier_raised :
        (given : NormalExecution) (e : Error)
        → host.normal_executor request ≡ ok given
        → host.verifier request given.result given.recipe ≡ err e
        → FellBack request found validation s (err e, with_fallback s)
    keeping_raised :
        (given : NormalExecution) (v : RecipeVerification) (e : Error) {u : Session}
        → host.normal_executor request ≡ ok given
        → host.verifier request given.result given.recipe ≡ ok v
        → Kept o host l p t sha256 v (with_fallback s) given.recipe (err e, u)
        → FellBack request found validation s (err e, u)
    executed :
        (given : NormalExecution) (v : RecipeVerification) (recipe : Option VerifiedActionRecipe)
        {u : Session}
        → host.normal_executor request ≡ ok given
        → host.verifier request given.result given.recipe ≡ ok v
        → Kept o host l p t sha256 v (with_fallback s) given.recipe (ok recipe, u)
        → FellBack request found validation s
            (ok (fallback_result o host l p t sha256 found validation given.result v recipe), u)

  pub FellBack-KeptBut :
      (request : ReuseRequest) (found : Option (CacheMatch Score))
      (validation : List PreconditionResult) (s : Session)
      {x : Result (CacheExecutionResult Score) × Session}
      → FellBack request found validation s x
      → KeptBut (with_fallback s) x.1
  FellBack-KeptBut request found validation s (normal_raised e _) = unchanged (with_fallback s)
  FellBack-KeptBut request found validation s (verifier_raised given e _ _) =
      unchanged (with_fallback s)
  FellBack-KeptBut request found validation s (keeping_raised given v e _ _ kept) =
      Kept-KeptBut o host l p t sha256 given.recipe v (with_fallback s) kept
  FellBack-KeptBut request found validation s (executed given v recipe _ _ kept) =
      Kept-KeptBut o host l p t sha256 given.recipe v (with_fallback s) kept

  kept-FellBack :
      (request : ReuseRequest) (found : Option (CacheMatch Score))
      (validation : List PreconditionResult) (s : Session) (given : NormalExecution)
      (v : RecipeVerification) (x : Result (Option VerifiedActionRecipe) × Session)
      → host.normal_executor request ≡ ok given
      → host.verifier request given.result given.recipe ≡ ok v
      → Kept o host l p t sha256 v (with_fallback s) given.recipe x
      → FellBack request found validation s (
          and_then x.0
            (λ recipe.
              pure (fallback_result o host l p t sha256 found validation given.result v recipe))
            x.1)
  kept-FellBack request found validation s given v (err e, u) h g kept =
      keeping_raised given v e h g kept
  kept-FellBack request found validation s given v (ok recipe, u) h g kept =
      executed given v recipe h g kept

  pub fall_back-FellBack :
      (request : ReuseRequest) (found : Option (CacheMatch Score))
      (validation : List PreconditionResult) (s : Session)
      → FellBack request found validation s
          (fall_back o host l p t sha256 request found validation s)
  unfolding fall_back
  fall_back-FellBack request found validation s = ran (host.normal_executor request) refl
    where
      checked :
          (given : NormalExecution) (v : Result RecipeVerification)
          → host.normal_executor request ≡ ok given
          → host.verifier request given.result given.recipe ≡ v
          → FellBack request found validation s (
              and_then v
                (λ verification. keep o host l p t sha256 given.recipe verification >>= λ recipe.
                  pure (
                    fallback_result o host l p t sha256 found validation given.result verification
                      recipe))
                (with_fallback s))
      checked given (err e) h g = verifier_raised given e h g
      checked given (ok v) h g =
          kept-FellBack request found validation s given v _ h g
            (keep-Kept o host l p t sha256 given.recipe v (with_fallback s))

      ran :
          (given : Result NormalExecution)
          → host.normal_executor request ≡ given
          → FellBack request found validation s (
              and_then given
                (verify_normal o host l p t sha256 request found validation)
                (with_fallback s))
      ran (err e) h = normal_raised e h
      ran (ok given) h = checked given (host.verifier request given.result given.recipe) h refl
