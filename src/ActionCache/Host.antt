-- ===== src/ActionCache/Host.antt =====
-- src/runmantle/verified_action_cache.py: matches, metrics, results, and what the application gives.
use runmantle.Prelude.{ℕ, String, Bool, Option, List, Result}
use runmantle.Serialization.{Data}
use runmantle.ActionCache.{VerificationEvidence, VerifiedActionRecipe, ReuseRequest}

pub record PreconditionResult : Type 0 where
  pub name : String
  pub passed : Bool
  pub message : String

pub data CacheMatchKind : Type 0 where
  exact parameterized similar : CacheMatchKind

pub record CacheMatch (Score : Type 0) : Type 0 where
  pub recipe : VerifiedActionRecipe
  pub kind : CacheMatchKind
  pub score : Score

pub record CacheMetrics : Type 0 where
  pub cache_hit : ℕ
  pub cache_miss : ℕ
  pub validation_failure : ℕ
  pub fallback : ℕ
  pub successful_reuse : ℕ
  pub tokens_avoided : ℕ

pub record RecipeExecution : Type 0 where
  pub output : Data
  pub token_usage : ℕ

pub record RecipeVerification : Type 0 where
  pub verified : Bool
  pub evidence : List VerificationEvidence

pub record NormalExecution : Type 0 where
  pub result : RecipeExecution
  pub recipe : Option VerifiedActionRecipe

pub data CacheOutcome : Type 0 where
  reused reuse_unverified fallback : CacheOutcome

pub record CacheExecutionResult (Score : Type 0) : Type 0 where
  pub outcome : CacheOutcome
  pub execution : RecipeExecution
  pub verification : RecipeVerification
  pub recipe : Option VerifiedActionRecipe
  pub found : Option (CacheMatch Score)
  pub validation : List PreconditionResult

-- A call that may have side effects.
pub data Call : Type 0 where
  governed : (recipe_id : String) → Call
  normal : Call

-- The cache, and the calls that were made, the last one first.
pub record Session : Type 0 where
  pub recipes : List VerifiedActionRecipe
  pub metrics : CacheMetrics
  pub calls : List Call

-- Floats, as far as scores need them.
pub record Scores (Score : Type 0) : Type 0 where
  pub zero : Score
  pub one : Score
  pub less : Score → Score → Bool
  pub at_most : Score → Score → Bool

-- What the application gives: the matcher and its threshold, the check of the present state, the
-- two executors and the verifier.
pub record Host (Score : Type 0) : Type 0 where
  pub score : ReuseRequest → VerifiedActionRecipe → Result Score
  pub threshold : Score
  pub validate : VerifiedActionRecipe → ReuseRequest → Result (List PreconditionResult)
  pub governed_executor : VerifiedActionRecipe → ReuseRequest → Result RecipeExecution
  pub normal_executor : ReuseRequest → Result NormalExecution
  pub verifier :
      ReuseRequest → RecipeExecution → Option VerifiedActionRecipe → Result RecipeVerification
