-- ===== src/ActionCache/Run.antt =====
-- src/runmantle/verified_action_cache.py: `VerifiedActionCache.lookup` and `execute_or_fallback`.
use runmantle.Prelude.{
  ℕ, suc, ◌+◌, ◌-◌, String, Bool, not, ◌&&◌, Option, none, some, List, [], ◌∷◌, all, is_empty,
  select, Result, ok, ◌==◌, if◌then◌else◌, ◌>>=◌ as bind,
}
use runmantle.Stateful.{Act, pure, lift, ◌>>=◌, ◌>>◌}
use runmantle.Serialization.{Primitives}
use runmantle.Serialization.Codec.{JsonText}
use runmantle.ActionCache.{
  Language, VerifiedActionRecipe, ReuseRequest, construct_recipe, store, is_reusable,
}
use runmantle.ActionCache.Host.{
  CacheExecutionResult, CacheMatch, CacheMetrics, Call, Host, NormalExecution, PreconditionResult,
  RecipeExecution, RecipeVerification, Scores, Session, exact, fallback, governed, normal,
  reuse_unverified, reused, similar,
}

-- `next(recipe for recipe in verified if …)`.
unfoldable pub find_exact : String → List VerifiedActionRecipe → Option VerifiedActionRecipe
find_exact wanted [] = none
find_exact wanted (r ∷ rest) =
    let later = find_exact wanted rest in if r.exact_fingerprint == wanted then some r else later

abbrev pub tick : (CacheMetrics → CacheMetrics) → Act Session Unit
tick change s = (ok tt, record s { metrics = change s.metrics })

abbrev pub note_call : Call → Act Session Unit
note_call c s = (ok tt, record s { calls = c ∷ s.calls })

abbrev pub count_hit : CacheMetrics → CacheMetrics
count_hit m = record m { cache_hit = suc m.cache_hit }

abbrev pub count_miss : CacheMetrics → CacheMetrics
count_miss m = record m { cache_miss = suc m.cache_miss }

abbrev pub count_failure : CacheMetrics → CacheMetrics
count_failure m = record m { validation_failure = suc m.validation_failure }

abbrev pub count_fallback : CacheMetrics → CacheMetrics
count_fallback m = record m { fallback = suc m.fallback }

abbrev pub count_reuse : ℕ → ℕ → CacheMetrics → CacheMetrics
count_reuse original used m = record m {
  successful_reuse = suc m.successful_reuse;
  tokens_avoided = m.tokens_avoided + (original - used);
}

module _ {Score : Type 0} (o : Scores Score) (host : Host Score) where
  -- `max` over the candidates, which keeps the first of equal scores.
  unfoldable pub best_from :
      ReuseRequest
      → List VerifiedActionRecipe
      → Score × VerifiedActionRecipe
      → Result (Score × VerifiedActionRecipe)
  best_from request [] best = ok best
  best_from request (r ∷ rest) best =
      bind (host.score request r)
        λ score. best_from request rest (if o.less best.0 score then (score, r) else best)

  unfoldable pub best_of :
      ReuseRequest → List VerifiedActionRecipe → Result (Option (Score × VerifiedActionRecipe))
  unfolding best_from
  best_of request [] = ok none
  best_of request (r ∷ rest) =
      bind (host.score request r)
        λ score. bind (best_from request rest (score, r)) λ best. ok (some best)

  abbrev pub accept_best :
      Option (Score × VerifiedActionRecipe) → Act Session (Option (CacheMatch Score))
  accept_best none = tick count_miss >> pure none
  accept_best (some (score, recipe)) =
      if o.at_most host.threshold score
      then (tick count_hit
          >> pure (some (record { recipe = recipe; kind = similar; score = score })))
      else (tick count_miss >> pure none)

  abbrev pub look_for_similar : ReuseRequest → Act Session (Option (CacheMatch Score))
  look_for_similar request s =
      (lift (best_of request (select is_reusable s.recipes)) >>= accept_best) s

  abbrev pub found_exact :
      ReuseRequest → Option VerifiedActionRecipe → Act Session (Option (CacheMatch Score))
  found_exact request (some recipe) =
      tick count_hit >> pure (some (record { recipe = recipe; kind = exact; score = o.one }))
  found_exact request none = look_for_similar request

  unfoldable pub lookup : ReuseRequest → Act Session (Option (CacheMatch Score))
  unfolding find_exact best_of
  lookup request s =
      found_exact request (find_exact request.exact_fingerprint (select is_reusable s.recipes)) s

  module _ (l : Language) (p : Primitives) (t : JsonText) (sha256 : String → String) where
    -- `self.store(recipe)`.
    abbrev pub store_recipe : VerifiedActionRecipe → Act Session Unit
    store_recipe recipe s =
        (lift (store recipe s.recipes) >>= λ recipes s'. (ok tt, record s' { recipes = recipes })) s

    -- A recipe of a verified execution is kept with the evidence of its verification, which
    -- constructs it again.
    abbrev pub keep :
        Option VerifiedActionRecipe → RecipeVerification → Act Session (Option VerifiedActionRecipe)
    keep none verification = pure none
    keep (some recipe) verification =
        if verification.verified
        then (do
          kept ← lift (
              construct_recipe l p t sha256
                (record recipe { verification_evidence = verification.evidence }))
          _ ← store_recipe kept
          pure (some kept))
        else pure (some recipe)

    abbrev pub fallback_result :
        Option (CacheMatch Score)
        → List PreconditionResult
        → RecipeExecution
        → RecipeVerification
        → Option VerifiedActionRecipe
        → CacheExecutionResult Score
    fallback_result found validation execution verification recipe = record {
      outcome = fallback;
      execution = execution;
      verification = verification;
      recipe = recipe;
      found = found;
      validation = validation;
    }

    abbrev pub verify_normal :
        ReuseRequest
        → Option (CacheMatch Score)
        → List PreconditionResult
        → NormalExecution
        → Act Session (CacheExecutionResult Score)
    verify_normal request found validation given =
        lift (host.verifier request given.result given.recipe) >>= λ verification.
        keep given.recipe verification >>= λ recipe.
        pure (fallback_result found validation given.result verification recipe)

    unfoldable pub fall_back :
        ReuseRequest
        → Option (CacheMatch Score)
        → List PreconditionResult
        → Act Session (CacheExecutionResult Score)
    unfolding construct_recipe store
    fall_back request found validation = do
      _ ← tick count_fallback
      _ ← note_call normal
      given ← lift (host.normal_executor request)
      verify_normal request found validation given

    abbrev pub reuse_result :
        CacheMatch Score
        → List PreconditionResult
        → RecipeExecution
        → RecipeVerification
        → CacheExecutionResult Score
    reuse_result m validation execution verification = record {
      outcome = if verification.verified then reused else reuse_unverified;
      execution = execution;
      verification = verification;
      recipe = some m.recipe;
      found = some m;
      validation = validation;
    }

    abbrev pub count_verified :
        CacheMatch Score → RecipeExecution → RecipeVerification → Act Session Unit
    count_verified m execution verification =
        if verification.verified
        then tick (count_reuse m.recipe.original_token_usage execution.token_usage)
        else pure tt

    unfoldable pub reuse :
        ReuseRequest
        → CacheMatch Score
        → List PreconditionResult
        → Act Session (CacheExecutionResult Score)
    reuse request m validation = do
      _ ← note_call (governed m.recipe.recipe_id)
      execution ← lift (host.governed_executor m.recipe request)
      verification ← lift (host.verifier request execution (some m.recipe))
      _ ← count_verified m execution verification
      pure (reuse_result m validation execution verification)

    abbrev pub is_validated : List PreconditionResult → Bool
    is_validated validation = not (is_empty validation) && all (λ c. c.passed) validation

    unfoldable pub with_match :
        ReuseRequest → Option (CacheMatch Score) → Act Session (CacheExecutionResult Score)
    unfolding fall_back reuse
    with_match request none = fall_back request none []
    with_match request (some m) = do
      validation ← lift (host.validate m.recipe request)
      if is_validated validation
          then reuse request m validation
          else (tick count_failure >> fall_back request (some m) validation)

    unfoldable pub execute_or_fallback : ReuseRequest → Act Session (CacheExecutionResult Score)
    unfolding lookup with_match
    execute_or_fallback request = lookup request >>= with_match request
