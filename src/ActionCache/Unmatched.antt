-- ===== src/ActionCache/Unmatched.antt =====
-- Requests that no recipe of the cache matches.
use runmantle.Prelude.{
  ◌≡◌, inl, inr, refl, ap, ◌∙◌, true, false, Bool, none, some, List, [], ◌∷◌, All, select, ok,
  ok-injective, some-injective, >>=-eq-ok, if◌then◌else◌,
}
use runmantle.ActionCache.{VerifiedActionRecipe, ReuseRequest, is_reusable}
use runmantle.ActionCache.Run.{best_from, best_of}
use runmantle.ActionCache.Host.{Scores, Host}
use runmantle.ActionCache.Reused.{IsNew, IsShort}

-- A threshold that a score reaches is reached by every score that is not less, as with floats
-- other than NaN.
pub record AreOrdered {Score : Type 0} (o : Scores Score) : Type 0 where
  pub of_less :
      (threshold a b : Score)
      → o.less a b ≡ true
      → o.at_most threshold b ≡ false
      → o.at_most threshold a ≡ false
  pub of_not_less :
      (threshold a b : Score)
      → o.less a b ≡ false
      → o.at_most threshold a ≡ false
      → o.at_most threshold b ≡ false

module _ {Score : Type 0} (o : Scores Score) (host : Host Score) where
  -- The matcher gives the recipe a score below the threshold.
  abbrev pub IsBelow : ReuseRequest → VerifiedActionRecipe → Type 0
  IsBelow request r =
      (score : Score) × (host.score request r ≡ ok score) × (o.at_most host.threshold score ≡ false)

  -- Of the recipes that may be reused, none has the fingerprint of the request, and each has a
  -- score below the threshold.
  pub record IsUnmatched (request : ReuseRequest) (recipes : List VerifiedActionRecipe)
      : Type 0 where
    pub new : IsNew o host request recipes
    pub below : All (IsBelow request) (select is_reusable recipes)

  module _ (ordered : AreOrdered o) where
    better_below :
        (r : VerifiedActionRecipe) (best : Score × VerifiedActionRecipe) (score : Score) (b : Bool)
        → o.less best.0 score ≡ b
        → o.at_most host.threshold (if b then (score, r) else best).0 ≡ false
        → (o.at_most host.threshold best.0 ≡ false) × (o.at_most host.threshold score ≡ false)
    better_below r best score true h below =
        (ordered.of_less host.threshold best.0 score h below, below)
    better_below r best score false h below =
        (below, ordered.of_not_less host.threshold best.0 score h below)

    best_from-IsBelow :
        (request : ReuseRequest) (recipes : List VerifiedActionRecipe)
        (best found : Score × VerifiedActionRecipe)
        → best_from o host request recipes best ≡ ok found
        → o.at_most host.threshold found.0 ≡ false
        → (o.at_most host.threshold best.0 ≡ false) × All (IsBelow request) recipes
    unfolding best_from
    best_from-IsBelow request [] best found h below =
        let same =
          ap (λ (c : Score × VerifiedActionRecipe). o.at_most host.threshold c.0)
            (ok-injective h) in
        (same ∙ below, tt)
    best_from-IsBelow request (r ∷ rest) best found h below =
        let (score, given, h1) = >>=-eq-ok (host.score request r) _ h in
        let (next, others) = best_from-IsBelow request rest _ found h1 below in
        let (old, new) = better_below r best score (o.less best.0 score) refl next in
        (old, ((score, given, new), others))

    best_of-IsBelow :
        (request : ReuseRequest) (recipes : List VerifiedActionRecipe)
        (found : Score × VerifiedActionRecipe)
        → best_of o host request recipes ≡ ok (some found)
        → o.at_most host.threshold found.0 ≡ false
        → All (IsBelow request) recipes
    unfolding best_of
    best_of-IsBelow request [] found h below = tt
    best_of-IsBelow request (r ∷ rest) found h below =
        let (score, given, h1) = >>=-eq-ok (host.score request r) _ h in
        let (best, chosen, h2) = >>=-eq-ok (best_from o host request rest (score, r)) _ h1 in
        let same : best ≡ found = some-injective (ok-injective h2) in
        let best_below =
          ap (λ (c : Score × VerifiedActionRecipe). o.at_most host.threshold c.0) same ∙ below in
        let (first, others) = best_from-IsBelow request rest (score, r) best chosen best_below in
        ((score, given, first), others)

    best_of-empty :
        (request : ReuseRequest) (recipes : List VerifiedActionRecipe)
        → best_of o host request recipes ≡ ok none
        → All (IsBelow request) recipes
    unfolding best_of
    best_of-empty request [] h = tt
    best_of-empty request (r ∷ rest) h =
        let (score, _, h1) = >>=-eq-ok (host.score request r) _ h in
        let (best, _, h2) = >>=-eq-ok (best_from o host request rest (score, r)) _ h1 in cc (h2)

    pub short-IsUnmatched :
        (request : ReuseRequest) (recipes : List VerifiedActionRecipe)
        → IsNew o host request recipes
        → IsShort o host request recipes
        → IsUnmatched request recipes
    short-IsUnmatched request recipes new (inl nothing) = record {
      new = new;
      below = best_of-empty request (select is_reusable recipes) nothing;
    }
    short-IsUnmatched request recipes new (inr (best, chosen, low)) = record {
      new = new;
      below = best_of-IsBelow request (select is_reusable recipes) best chosen low;
    }
