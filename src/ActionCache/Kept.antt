-- ===== src/ActionCache/Kept.antt =====
-- What becomes of the recipe that a normal execution gives.
use runmantle.Prelude.{
  ◌≡◌, inl, inr, refl, sym, subst, String, Bool, true, false, not, ◌&&◌, ◌||◌, Option, none, some,
  List, [], ◌∷◌, All, Error, Result, ok, err, raise_if, ok-injective, >>-eq-ok, Bool-cases, ◌==◌,
}
use runmantle.Stateful.{and_then}
use runmantle.Serialization.{Primitives}
use runmantle.Serialization.Codec.{JsonText}
use runmantle.ActionCache.{
  Language, VerifiedActionRecipe, construct_recipe, is_reusable, put_recipe, store,
}
use runmantle.ActionCache.Run.{count_fallback, keep, store_recipe}
use runmantle.ActionCache.Host.{RecipeVerification, Call, normal, Session, Scores, Host}

-- Every recipe of the cache comes from a successful and verified run.
abbrev pub AreReusable : List VerifiedActionRecipe → Type 0
AreReusable recipes = All (λ r. is_reusable r ≡ true) recipes

put_recipe-AreReusable :
    (r : VerifiedActionRecipe) (recipes : List VerifiedActionRecipe)
    → is_reusable r ≡ true
    → AreReusable recipes
    → AreReusable (put_recipe r recipes)
unfolding put_recipe
put_recipe-AreReusable r [] good all_good = (good, tt)
put_recipe-AreReusable r (q ∷ rest) good (first, others) =
    elim (Bool-cases (q.recipe_id == r.recipe_id)) [
      | inl same ↦ rw same (good, others)
      | inr other ↦ rw other (first, put_recipe-AreReusable r rest good others)
    ]

accepted-is_reusable :
    (a b : Bool) (e : Error) → raise_if (not a || not b) e ≡ ok tt → (a && b) ≡ true
accepted-is_reusable true true e h = refl
accepted-is_reusable true false e h = cc (h)
accepted-is_reusable false b e h = cc (h)

store-eq-ok :
    (r : VerifiedActionRecipe) (recipes : List VerifiedActionRecipe)
    {after : List VerifiedActionRecipe}
    → store r recipes ≡ ok after
    → (is_reusable r ≡ true) × (after ≡ put_recipe r recipes)
unfolding store
store-eq-ok r recipes h =
    let (accepted, h1) = >>-eq-ok (raise_if (not r.successful || not r.verified) _) _ h in
    (accepted-is_reusable r.successful r.verified _ accepted, sym (ok-injective h1))

abbrev pub with_call : Call → Session → Session
with_call c s = record s { calls = c ∷ s.calls }

abbrev pub with_fallback : Session → Session
with_fallback s = record s { metrics = count_fallback s.metrics; calls = normal ∷ s.calls }

-- Only the recipes differ, and they stay reusable.
pub record KeptBut (s t : Session) : Type 0 where
  pub same : t ≡ record s { recipes = t.recipes }
  pub reusable : AreReusable s.recipes → AreReusable t.recipes

pub unchanged : (s : Session) → KeptBut s s
unchanged s = record { same = refl; reusable = λ h. h }

module _ {Score : Type 0} (o : Scores Score) (host : Host Score) (l : Language) (p : Primitives)
    (t : JsonText) (sha256 : String → String) where
  -- The recipe with the evidence of the verification, constructed again.
  abbrev pub constructed : VerifiedActionRecipe → RecipeVerification → Result VerifiedActionRecipe
  constructed r v = construct_recipe l p t sha256 (record r { verification_evidence = v.evidence })

  -- What becomes of the recipe that the normal executor gave.
  pub data Kept (v : RecipeVerification) (s : Session)
      : Option VerifiedActionRecipe → Result (Option VerifiedActionRecipe) × Session → Type 0 where
    none_given : Kept v s none (ok none, s)
    unverified :
        (r : VerifiedActionRecipe) → v.verified ≡ false → Kept v s (some r) (ok (some r), s)
    not_constructed :
        (r : VerifiedActionRecipe) (e : Error)
        → v.verified ≡ true
        → constructed r v ≡ err e
        → Kept v s (some r) (err e, s)
    not_stored :
        (r made : VerifiedActionRecipe) (e : Error)
        → v.verified ≡ true
        → constructed r v ≡ ok made
        → store made s.recipes ≡ err e
        → Kept v s (some r) (err e, s)
    stored :
        (r made : VerifiedActionRecipe) {after : List VerifiedActionRecipe}
        → v.verified ≡ true
        → constructed r v ≡ ok made
        → is_reusable made ≡ true
        → after ≡ put_recipe made s.recipes
        → Kept v s (some r) (ok (some made), record s { recipes = after })

  storing-Kept :
      (r made : VerifiedActionRecipe) (v : RecipeVerification) (s : Session)
      (after : Result (List VerifiedActionRecipe))
      → v.verified ≡ true
      → constructed r v ≡ ok made
      → store made s.recipes ≡ after
      → Kept v s (some r) (
          and_then {S = Session} after
            (λ recipes s'. (ok (some made), record s' { recipes = recipes }))
            s)
  storing-Kept r made v s (err e) good h g = not_stored r made e good h g
  storing-Kept r made v s (ok after) good h g =
      let (can, same) = store-eq-ok made s.recipes g in stored r made good h can same

  stored_both :
      (made : VerifiedActionRecipe) (s : Session) (after : Result (List VerifiedActionRecipe))
      → (let (x, s') =
            and_then {S = Session} after
              (λ recipes s'. (ok (tt {0}), record s' { recipes = recipes }))
              s in
          and_then x (λ _. λ s3. (ok (some made), s3)) s')
        ≡ and_then {S = Session} after
            (λ recipes s'. (ok (some made), record s' { recipes = recipes }))
            s
  stored_both made s (err e) = refl
  stored_both made s (ok after) = refl

  constructed-Kept :
      (r : VerifiedActionRecipe) (v : RecipeVerification) (s : Session)
      (made : Result VerifiedActionRecipe)
      → v.verified ≡ true
      → constructed r v ≡ made
      → Kept v s (some r) (
          and_then {S = Session} made
            (λ kept. λ s'.
              let (x, s'') = store_recipe o host l p t sha256 kept s' in
              and_then x (λ _. λ s3. (ok (some kept), s3)) s'')
            s)
  constructed-Kept r v s (err e) good h = not_constructed r e good h
  constructed-Kept r v s (ok made) good h =
      subst (Kept v s (some r)) (sym (stored_both made s (store made s.recipes)))
        (storing-Kept r made v s (store made s.recipes) good h refl)

  pub keep-Kept :
      (recipe : Option VerifiedActionRecipe) (v : RecipeVerification) (s : Session)
      → Kept v s recipe (keep o host l p t sha256 recipe v s)
  keep-Kept none v s = none_given
  keep-Kept (some r) v s = elim (Bool-cases v.verified) [
    | inl good ↦ simp (good) (constructed-Kept r v s _ good refl)
    | inr bad ↦ simp (bad) (unverified r bad)
  ]

  pub Kept-KeptBut :
      (recipe : Option VerifiedActionRecipe) (v : RecipeVerification) (s : Session)
      {x : Result (Option VerifiedActionRecipe) × Session}
      → Kept v s recipe x
      → KeptBut s x.1
  Kept-KeptBut recipe v s none_given = unchanged s
  Kept-KeptBut recipe v s (unverified r _) = unchanged s
  Kept-KeptBut recipe v s (not_constructed r e _ _) = unchanged s
  Kept-KeptBut recipe v s (not_stored r made e _ _ _) = unchanged s
  Kept-KeptBut recipe v s (stored r made _ _ can same) = record {
    same = refl;
    reusable = λ all_good.
        subst AreReusable (sym same) (put_recipe-AreReusable made s.recipes can all_good);
  }
