-- ===== src/Examples/Caching.antt =====
-- A recipe that is learnt from a verified run and reused by the next request.
use runmantle.Prelude.{
  ℕ, ◌≡◌, ◌⊎◌, arith, refl, String, ◌<>◌, true, false, some, none, [], ◌∷◌, ok, err, contains,
  is_blank, text_length, ltb, leb, value_error,
}
use runmantle.Validation.{require_non_empty, require_non_empty_attributes}
use runmantle.Serialization.{Data, DataEntries, Json}
use runmantle.Serialization.Codec.{JsonText}
use runmantle.ActionCache.{
  Language, VerifiedActionRecipe, ReuseRequest, normalize_task_intent, freeze_entries, fingerprint,
  construct_recipe, put_recipe, store,
}
use runmantle.ActionCache.Run.{
  find_exact, best_from, best_of, lookup, fall_back, reuse, with_match, execute_or_fallback,
}
use runmantle.ActionCache.Host.{Call, governed, normal, Session, Scores, Host}
use runmantle.ActionCache.Executed.{Executed}
use runmantle.ActionCache.Sound.{
  IsSound, execute_all, execute_all-IsSound, execute_or_fallback-calls,
}
use runmantle.Examples.Encodings.{codec_program, primitives}

unfoldable pub cache_program : Unit {0}
unfolding codec_program contains is_blank text_length require_non_empty require_non_empty_attributes
    normalize_task_intent freeze_entries fingerprint construct_recipe put_recipe store find_exact
    best_from best_of lookup fall_back reuse with_match execute_or_fallback execute_all
cache_program = tt

abbrev language : Language
language = record { casefold = λ s. s; split = λ s. s ∷ []; sort_by_repr = λ vs. vs }

abbrev texts : JsonText
texts = record {
  print = λ _. ok "{}";
  parse = λ _. ok Json.null;
  utf8_length = λ s. ok (text_length s);
}

abbrev digest : String → String
digest s = "sha:" <> s

abbrev percent : Scores ℕ
percent = record { zero = 0; one = 100; less = ltb; at_most = leb }

abbrev recipe : VerifiedActionRecipe
recipe = record {
  recipe_id = "r-1";
  normalized_task_intent = "restart";
  tool_capability_sequence =
      record { tool = "shell"; capability = "restart"; side_effecting = true } ∷ [];
  relevant_inputs = DataEntries.end;
  preconditions = DataEntries.end;
  execution_strategy = DataEntries.end;
  expected_outcome = DataEntries.end;
  verification_evidence = record { summary = "it answers"; reference = none } ∷ [];
  recipe_version = "1";
  source_task_id = "task";
  source_run_id = "run";
  original_token_usage = 90;
  successful = true;
  verified = true;
  exact_fingerprint = "sha:{}";
}

abbrev request : ReuseRequest
request = record {
  task_id = "task";
  run_id = "run-2";
  task_intent = "restart";
  relevant_inputs = DataEntries.end;
  normalized_task_intent = "restart";
  exact_fingerprint = "sha:{}";
}

abbrev host : Host ℕ
host = record {
  score = λ _ _. ok 0;
  threshold = 80;
  validate = λ _ _. ok (record { name = "idle"; passed = true; message = "no requests" } ∷ []);
  governed_executor = λ _ _. ok (record { output = Data.null; token_usage = 20 });
  normal_executor = λ _.
      ok
        (record { result = record { output = Data.null; token_usage = 90 }; recipe = some recipe });
  verifier = λ _ _ _. ok (record {
    verified = true;
    evidence = record { summary = "it answers"; reference = none } ∷ [];
  });
}

abbrev empty : Session
empty = record {
  recipes = [];
  metrics = record {
    cache_hit = 0;
    cache_miss = 0;
    validation_failure = 0;
    fallback = 0;
    successful_reuse = 0;
    tokens_avoided = 0;
  };
  calls = [];
}

abbrev after : Session
after = execute_all percent host language primitives texts digest (request ∷ request ∷ []) empty

-- The first request is executed, the second reuses its recipe.
learnt : after.calls ≡ governed "r-1" ∷ normal ∷ []
unfolding cache_program
learnt = refl

tokens_saved : after.metrics.tokens_avoided ≡ 70
unfolding cache_program
tokens_saved = refl

-- A recipe that its author did not mark as verified makes the call raise after the execution.
abbrev cautious : Host ℕ
cautious = record host {
  normal_executor = λ _. ok (record {
    result = record { output = Data.null; token_usage = 90 };
    recipe = some (record recipe { verified = false });
  });
}

result_lost :
    (execute_or_fallback percent cautious language primitives texts digest request empty).0
    ≡ err (value_error "only successful, verified recipes may be cached")
unfolding cache_program
result_lost = refl

execute_all-IsSound_example : IsSound after
execute_all-IsSound_example =
    execute_all-IsSound percent host language primitives texts digest (request ∷ request ∷ []) empty
      (record { reusable = tt; counted = record { fallbacks = refl; reuses = omega arith } })

execute_or_fallback-calls_example :
    ((execute_or_fallback percent host language primitives texts digest request empty).1.calls ≡ [])
    ⊎ ((c : Call) × ((execute_or_fallback percent host language primitives texts digest request
            empty).1.calls
          ≡ c ∷ []))
execute_or_fallback-calls_example =
    execute_or_fallback-calls percent host language primitives texts digest request empty
