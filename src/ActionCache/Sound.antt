-- ===== src/ActionCache/Sound.antt =====
-- The invariant of the cache and its metrics.
use runmantle.Prelude.{
  ◌⊎◌, ◌+◌, ◌≤◌, ◌≡◌, refl, ap, sym, arith, String, true, false, subst, none, some, List, [], ◌∷◌,
  Result, Bool, Bool-cases, inl, inr, if◌then◌else◌,
}
use runmantle.Serialization.{Primitives}
use runmantle.Serialization.Codec.{JsonText}
use runmantle.ActionCache.{Language, ReuseRequest}
use runmantle.ActionCache.Run.{count_hit, count_reuse, execute_or_fallback}
use runmantle.ActionCache.Host.{
  Call, governed, normal, PreconditionResult, CacheMatch, RecipeExecution, RecipeVerification,
  CacheExecutionResult, Session, CacheMetrics, Scores, Host,
}
use runmantle.ActionCache.Reused.{with_hit, with_miss, with_failure}
use runmantle.ActionCache.Kept.{AreReusable, KeptBut, with_call, with_fallback}
use runmantle.ActionCache.FellBack.{FellBack-KeptBut}
use runmantle.ActionCache.Executed.{
  Executed, lookup_raised, validation_raised, was_reused, was_missed, was_invalid, Reused,
  reuse_raised, verifier_raised, reuse_done, counted_reuse, execute_or_fallback-by_lookup,
}

-- Every miss and every failed validation ends in a fallback, and a hit is reused or fails its
-- validation at most once.
pub record IsCounted (m : CacheMetrics) : Type 0 where
  pub fallbacks : m.cache_miss + m.validation_failure ≡ m.fallback
  pub reuses : m.successful_reuse + m.validation_failure ≤ m.cache_hit

-- Only recipes of successful and verified runs are held.
pub record IsSound (s : Session) : Type 0 where
  pub reusable : AreReusable s.recipes
  pub counted : IsCounted s.metrics

hit-IsSound : (s : Session) → IsSound s → IsSound (with_hit s)
hit-IsSound s sound = record {
  reusable = sound.reusable;
  counted = record {
    fallbacks = sound.counted.fallbacks;
    reuses = omega (arith, sound.counted.reuses);
  };
}

missed-IsSound : (s : Session) → IsSound s → IsSound (with_fallback (with_miss s))
missed-IsSound s sound = record {
  reusable = sound.reusable;
  counted = record {
    fallbacks = omega (arith, sound.counted.fallbacks);
    reuses = sound.counted.reuses;
  };
}

invalid-IsSound : (s : Session) → IsSound s → IsSound (with_fallback (with_failure (with_hit s)))
invalid-IsSound s sound = record {
  reusable = sound.reusable;
  counted = record {
    fallbacks = omega (arith, sound.counted.fallbacks);
    reuses = omega (arith, sound.counted.reuses);
  };
}

kept-IsSound : {s t : Session} → KeptBut s t → IsSound s → IsSound t
kept-IsSound {s} {t} kept sound = record {
  reusable = kept.reusable sound.reusable;
  counted = subst IsCounted (sym (ap (λ (x : Session). x.metrics) kept.same)) sound.counted;
}

module _ {Score : Type 0} (o : Scores Score) (host : Host Score) (l : Language) (p : Primitives)
    (t : JsonText) (sha256 : String → String) where
  counted_reuse-IsSound :
      (m : CacheMatch Score) (execution : RecipeExecution) (v : RecipeVerification) (c : Call)
      (s : Session)
      → IsSound s
      → IsSound (counted_reuse o host l p t sha256 m execution v (with_call c (with_hit s)))
  counted_reuse-IsSound m execution v c s sound = either v.verified sound
    where
      either :
          (b : Bool)
          → IsSound s
          → IsSound (
              if b
              then record (with_call c (with_hit s)) {
                metrics =
                    count_reuse m.recipe.original_token_usage execution.token_usage
                      (count_hit s.metrics);
              }
              else with_call c (with_hit s))
      either false sound = record {
        reusable = sound.reusable;
        counted = record {
          fallbacks = sound.counted.fallbacks;
          reuses = omega (arith, sound.counted.reuses);
        };
      }
      either true sound = record {
        reusable = sound.reusable;
        counted = record {
          fallbacks = sound.counted.fallbacks;
          reuses = omega (arith, sound.counted.reuses);
        };
      }

  Reused-IsSound :
      (request : ReuseRequest) (m : CacheMatch Score) (validation : List PreconditionResult)
      (s : Session) {x : Result (CacheExecutionResult Score) × Session}
      → Reused o host l p t sha256 request m validation (with_hit s) x
      → IsSound s
      → IsSound x.1
  Reused-IsSound request m validation s (reuse_raised e _) sound =
      let after = hit-IsSound s sound in
      record { reusable = after.reusable; counted = after.counted }
  Reused-IsSound request m validation s (verifier_raised execution e _ _) sound =
      let after = hit-IsSound s sound in
      record { reusable = after.reusable; counted = after.counted }
  Reused-IsSound request m validation s (reuse_done execution v _ _) sound =
      counted_reuse-IsSound m execution v _ s sound

  Executed-IsSound :
      (request : ReuseRequest) (s : Session) {Missed : Type 0}
      {x : Result (CacheExecutionResult Score) × Session}
      → Executed o host l p t sha256 Missed request s x
      → IsSound s
      → IsSound x.1
  Executed-IsSound request s (lookup_raised e _ _) sound = sound
  Executed-IsSound request s (validation_raised m e _ _) sound = hit-IsSound s sound
  Executed-IsSound request s (was_reused m validation _ _ _ _ ran) sound =
      Reused-IsSound request m validation s ran sound
  Executed-IsSound request s (was_missed _ ran) sound =
      kept-IsSound (FellBack-KeptBut o host l p t sha256 request none [] (with_miss s) ran)
        (missed-IsSound s sound)
  Executed-IsSound request s (was_invalid m validation _ _ _ ran) sound =
      kept-IsSound
        (FellBack-KeptBut o host l p t sha256 request (some m) validation
          (with_failure (with_hit s)) ran)
        (invalid-IsSound s sound)

  -- Any requests, one after the other.
  unfoldable pub execute_all : List ReuseRequest → Session → Session
  unfolding execute_or_fallback
  execute_all [] s = s
  execute_all (request ∷ rest) s =
      execute_all rest (execute_or_fallback o host l p t sha256 request s).1

  -- Over any sequence of calls of the action cache, those that raise included, its invariant is
  -- kept: it holds only recipes of successful and verified runs, the misses and the failed
  -- validations together are the fallbacks, and the reuses and the failed validations together are
  -- at most the hits.
  pub execute_all-IsSound :
      (requests : List ReuseRequest) (s : Session) → IsSound s → IsSound (execute_all requests s)
  unfolding execute_all
  execute_all-IsSound [] s sound = sound
  execute_all-IsSound (request ∷ rest) s sound = execute_all-IsSound rest _ (
      Executed-IsSound request s
        (execute_or_fallback-by_lookup o host l p t sha256 Unit request s (λ _ _. tt)) sound)

  kept_calls : {s u : Session} → KeptBut s u → u.calls ≡ s.calls
  kept_calls kept = ap (λ (x : Session). x.calls) kept.same

  Reused-calls :
      (request : ReuseRequest) (m : CacheMatch Score) (validation : List PreconditionResult)
      (s : Session) {x : Result (CacheExecutionResult Score) × Session}
      → Reused o host l p t sha256 request m validation s x
      → x.1.calls ≡ governed m.recipe.recipe_id ∷ s.calls
  Reused-calls request m validation s (reuse_raised e _) = refl
  Reused-calls request m validation s (verifier_raised execution e _ _) = refl
  Reused-calls request m validation s (reuse_done execution v _ _) = elim (Bool-cases v.verified) [
    | inl good ↦ rw good refl
    | inr bad ↦ rw bad refl
  ]

  Executed-calls :
      (request : ReuseRequest) (s : Session) {Missed : Type 0}
      {x : Result (CacheExecutionResult Score) × Session}
      → Executed o host l p t sha256 Missed request s x
      → (x.1.calls ≡ s.calls) ⊎ ((c : Call) × (x.1.calls ≡ c ∷ s.calls))
  Executed-calls request s (lookup_raised e _ _) = inl refl
  Executed-calls request s (validation_raised m e _ _) = inl refl
  Executed-calls request s (was_reused m validation _ _ _ _ ran) =
      inr (_, Reused-calls request m validation (with_hit s) ran)
  Executed-calls request s (was_missed _ ran) =
      inr (
        normal,
        kept_calls (FellBack-KeptBut o host l p t sha256 request none [] (with_miss s) ran),
      )
  Executed-calls request s (was_invalid m validation _ _ _ ran) = inr (
    normal,
    kept_calls (
        FellBack-KeptBut o host l p t sha256 request (some m) validation (with_failure (with_hit s))
          ran),
  )

  -- A call of the action cache calls at most one executor, the governed or the normal one, and at
  -- most once, also where it raises.
  pub execute_or_fallback-calls :
      (request : ReuseRequest) (s : Session)
      → ((execute_or_fallback o host l p t sha256 request s).1.calls ≡ s.calls)
        ⊎ ((c : Call) × ((execute_or_fallback o host l p t sha256 request s).1.calls ≡ c ∷ s.calls))
  execute_or_fallback-calls request s =
      Executed-calls request s
        (execute_or_fallback-by_lookup o host l p t sha256 Unit request s (λ _ _. tt))
