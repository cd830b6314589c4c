-- ===== src/ActionCache.antt =====
-- src/runmantle/verified_action_cache.py: recipes, requests, and the table of recipes.
pub mod Host
pub mod Run
pub mod Reused
pub mod Unmatched
pub mod Kept
pub mod FellBack
pub mod Executed
pub mod Sound
use runmantle.Prelude.{
  ℕ, suc, ◌+◌, ◌-◌, String, ◌<>◌, Bool, true, false, not, ◌&&◌, ◌||◌, Option, none, some, List, [],
  ◌∷◌, all, any, is_empty, select, Guard, Result, ok, err, value_error, ◌>>=◌, ◌>>◌, raise_if, ◌==◌,
  if◌then◌else◌,
}
use runmantle.Validation.{require_non_empty, require_non_empty_attributes}
use runmantle.Serialization.{Data, DataItems, DataEntries, Primitives}
use runmantle.Serialization.Codec.{JsonText, dumps}
use runmantle.Actions.{default_codec}

-- What the language does with texts and sets: `casefold`, `split`, and `sorted(…, key=repr)`.
pub record Language : Type 0 where
  pub casefold : String → String
  pub split : String → List String
  pub sort_by_repr : DataItems → DataItems

-- `" ".join(…)`.
abbrev joined : List String → String
joined [] = ""
joined (w ∷ []) = w
joined (w ∷ v ∷ rest) = w <> " " <> joined (v ∷ rest)

unfoldable pub normalize_task_intent : Language → String → Result String
unfolding require_non_empty
normalize_task_intent l intent =
    let normalized = joined (l.split (l.casefold intent)) in
    require_non_empty normalized "normalized task intent" >> ok normalized

-- `_freeze`, of values whose mappings have texts as keys.
unfoldable mutual
  pub freeze : Language → Data → Data
  freeze l (Data.mapping es) = Data.mapping (freeze_entries l es)
  freeze l (Data.sequence vs) = Data.sequence (freeze_items l vs)
  freeze l (Data.frozenset vs) = Data.sequence (l.sort_by_repr (freeze_items l vs))
  freeze l v = v

  pub freeze_items : Language → DataItems → DataItems
  freeze_items l DataItems.nil = DataItems.nil
  freeze_items l (DataItems.cons v vs) = DataItems.cons (freeze l v) (freeze_items l vs)

  pub freeze_entries : Language → DataEntries → DataEntries
  freeze_entries l DataEntries.end = DataEntries.end
  freeze_entries l (DataEntries.entry k v es) =
      DataEntries.entry k (freeze l v) (freeze_entries l es)

pub record RecipeStep : Type 0 where
  pub tool : String
  pub capability : String
  pub side_effecting : Bool

pub record VerificationEvidence : Type 0 where
  pub summary : String
  pub reference : Option String

-- A count of tokens is a natural number, since the constructors refuse any other.
pub record VerifiedActionRecipe : Type 0 where
  pub recipe_id : String
  pub normalized_task_intent : String
  pub tool_capability_sequence : List RecipeStep
  pub relevant_inputs : DataEntries
  pub preconditions : DataEntries
  pub execution_strategy : DataEntries
  pub expected_outcome : DataEntries
  pub verification_evidence : List VerificationEvidence
  pub recipe_version : String
  pub source_task_id : String
  pub source_run_id : String
  pub original_token_usage : ℕ
  pub successful : Bool
  pub verified : Bool
  pub exact_fingerprint : String

pub record ReuseRequest : Type 0 where
  pub task_id : String
  pub run_id : String
  pub task_intent : String
  pub relevant_inputs : DataEntries
  pub normalized_task_intent : String
  pub exact_fingerprint : String

module _ (l : Language) (p : Primitives) (t : JsonText) (sha256 : String → String) where
  unfoldable pub fingerprint : String → DataEntries → Result String
  unfolding dumps
  fingerprint intent inputs = do
    encoded ← dumps p t default_codec (
        Data.mapping (
          DataEntries.entry "normalized_intent" (Data.str intent)
            (DataEntries.entry "relevant_inputs" (Data.mapping inputs) DataEntries.end)))
    ok (sha256 encoded)

  -- The last two fields are calculated.
  unfoldable pub construct_request : ReuseRequest → Result ReuseRequest
  unfolding require_non_empty normalize_task_intent freeze_entries fingerprint
  construct_request r = do
    require_non_empty r.task_id "reuse task_id"
    require_non_empty r.run_id "reuse run_id"
    intent ← normalize_task_intent l r.task_intent
    let inputs = freeze_entries l r.relevant_inputs
    exact ← fingerprint intent inputs
    ok (record r {
      normalized_task_intent = intent;
      relevant_inputs = inputs;
      exact_fingerprint = exact;
    })

  unfoldable pub construct_recipe : VerifiedActionRecipe → Result VerifiedActionRecipe
  unfolding require_non_empty_attributes normalize_task_intent freeze_entries fingerprint
  construct_recipe r = do
    require_non_empty_attributes "recipe" (
        (r.recipe_id, "recipe_id")
        ∷ (r.normalized_task_intent, "normalized_task_intent")
        ∷ (r.recipe_version, "recipe_version")
        ∷ (r.source_task_id, "source_task_id")
        ∷ (r.source_run_id, "source_run_id")
        ∷ [])
    raise_if (is_empty r.tool_capability_sequence)
        (value_error "a recipe requires at least one tool/capability step")
    raise_if (is_empty r.verification_evidence)
        (value_error "a recipe requires verification evidence")
    intent ← normalize_task_intent l r.normalized_task_intent
    let inputs = freeze_entries l r.relevant_inputs
    exact ← fingerprint intent inputs
    ok (record r {
      normalized_task_intent = intent;
      relevant_inputs = inputs;
      preconditions = freeze_entries l r.preconditions;
      execution_strategy = freeze_entries l r.execution_strategy;
      expected_outcome = freeze_entries l r.expected_outcome;
      exact_fingerprint = exact;
    })

-- `self._recipes[recipe.recipe_id] = recipe`: a key that is there keeps its place.
unfoldable pub put_recipe :
    VerifiedActionRecipe → List VerifiedActionRecipe → List VerifiedActionRecipe
put_recipe r [] = r ∷ []
put_recipe r (q ∷ rest) =
    let others = put_recipe r rest in if q.recipe_id == r.recipe_id then r ∷ rest else q ∷ others

-- `store`, on the table.
unfoldable pub store :
    VerifiedActionRecipe → List VerifiedActionRecipe → Result (List VerifiedActionRecipe)
unfolding put_recipe
store r recipes = do
  raise_if (not r.successful || not r.verified)
      (value_error "only successful, verified recipes may be cached")
  ok (put_recipe r recipes)

abbrev pub discard : String → List VerifiedActionRecipe → List VerifiedActionRecipe
discard recipe_id recipes =
    select (λ (r : VerifiedActionRecipe). not (r.recipe_id == recipe_id)) recipes

-- The recipes that may be reused.
abbrev pub is_reusable : VerifiedActionRecipe → Bool
is_reusable r = r.successful && r.verified
