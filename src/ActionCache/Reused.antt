-- ===== src/ActionCache/Reused.antt =====
-- What a call of `execute_or_fallback` does, step by step.
use runmantle.Prelude.{
  some-injective, ◌≡◌, ◌≢◌, ◌⊎◌, inl, inr, refl, ◌∙◌, ap, sym, String, Bool, true, false, Option,
  none, some, List, [], ◌∷◌, All, Any, select, Error, Result, ok, err, eq_iff, Bool-cases, subst,
  ok-injective, >>=-eq-ok, >>=-eq-err, if◌then◌else◌, ◌==◌,
}
use runmantle.Stateful.{and_then}
use runmantle.ActionCache.{VerifiedActionRecipe, ReuseRequest, is_reusable}
use runmantle.ActionCache.Run.{
  find_exact, count_hit, count_miss, count_failure, best_from, best_of, accept_best, found_exact,
  lookup,
}
use runmantle.ActionCache.Host.{exact, similar, CacheMatch, Session, Scores, Host}

abbrev pub Holds : VerifiedActionRecipe → List VerifiedActionRecipe → Type 0
Holds r recipes = Any (λ (q : VerifiedActionRecipe). q ≡ r) recipes

abbrev pub with_hit : Session → Session
with_hit s = record s { metrics = count_hit s.metrics }

abbrev pub with_miss : Session → Session
with_miss s = record s { metrics = count_miss s.metrics }

abbrev pub with_failure : Session → Session
with_failure s = record s { metrics = count_failure s.metrics }

select-Holds :
    (recipes : List VerifiedActionRecipe) (r : VerifiedActionRecipe)
    → Holds r (select is_reusable recipes)
    → Holds r recipes × (is_reusable r ≡ true)
select-Holds [] r h = elim h [ ]
select-Holds (q ∷ rest) r h = elim (Bool-cases (is_reusable q)) [
  | inl can ↦ elim (rw can at h) [
    | inl here ↦ (inl here, ap is_reusable (sym here) ∙ can)
    | inr later ↦ let (there, good) = select-Holds rest r later in (inr there, good)
  ]
  | inr cannot ↦ let (there, good) = select-Holds rest r (rw cannot at h) in (inr there, good)
]

find_exact-Holds :
    (wanted : String) (recipes : List VerifiedActionRecipe) (r : VerifiedActionRecipe)
    → find_exact wanted recipes ≡ some r
    → Holds r recipes × (r.exact_fingerprint ≡ wanted)
unfolding find_exact
find_exact-Holds wanted [] r h = cc (h)
find_exact-Holds wanted (q ∷ rest) r h = elim (Bool-cases (q.exact_fingerprint == wanted)) [
  | inl same ↦
      let here = some-injective (rw same at h) in
      (
        inl here,
        ap (λ (x : VerifiedActionRecipe). x.exact_fingerprint) (sym here)
            ∙ (eq_iff q.exact_fingerprint wanted).0 same,
      )
  | inr other ↦
      let (there, fits) = find_exact-Holds wanted rest r (rw other at h) in (inr there, fits)
]

find_exact-none :
    (wanted : String) (recipes : List VerifiedActionRecipe)
    → find_exact wanted recipes ≡ none
    → All (λ (r : VerifiedActionRecipe). r.exact_fingerprint ≢ wanted) recipes
unfolding find_exact
find_exact-none wanted [] h = tt
find_exact-none wanted (q ∷ rest) h = elim (Bool-cases (q.exact_fingerprint == wanted)) [
  | inl same ↦ let found = rw same at h in cc (found)
  | inr other ↦ (
    λ same. let equal = (eq_iff q.exact_fingerprint wanted).1 same in cc (equal, other),
    find_exact-none wanted rest (rw other at h),
  )
]

module _ {Score : Type 0} (o : Scores Score) (host : Host Score) where
  -- No recipe that may be reused has the fingerprint of the request.
  abbrev pub IsNew : ReuseRequest → List VerifiedActionRecipe → Type 0
  IsNew request recipes =
      All (λ (r : VerifiedActionRecipe). r.exact_fingerprint ≢ request.exact_fingerprint)
        (select is_reusable recipes)

  -- The recipe is in the cache, from a successful and verified run, and it has the fingerprint of
  -- the request, or none has and the matcher gave it a score that reaches the threshold.
  pub record IsMatch (request : ReuseRequest) (recipes : List VerifiedActionRecipe)
      (m : CacheMatch Score) : Type 0 where
    pub held : Holds m.recipe recipes
    pub reusable : is_reusable m.recipe ≡ true
    pub fits :
        ((m.kind ≡ exact) × (m.recipe.exact_fingerprint ≡ request.exact_fingerprint))
        ⊎ ((m.kind ≡ similar)
            × IsNew request recipes
            × (host.score request m.recipe ≡ ok m.score)
            × (o.at_most host.threshold m.score ≡ true))

  -- A candidate with the score that the matcher gave it.
  abbrev IsScored : ReuseRequest → List VerifiedActionRecipe → Score × VerifiedActionRecipe → Type 0
  IsScored request recipes c = Holds c.1 recipes × (host.score request c.1 ≡ ok c.0)

  better-IsScored :
      (request : ReuseRequest) (recipes : List VerifiedActionRecipe) (b : Bool)
      (new best : Score × VerifiedActionRecipe)
      → IsScored request recipes new
      → IsScored request recipes best
      → IsScored request recipes (if b then new else best)
  better-IsScored request recipes true new best h g = h
  better-IsScored request recipes false new best h g = g

  best_from-IsScored :
      (request : ReuseRequest) (all_recipes recipes : List VerifiedActionRecipe)
      (best : Score × VerifiedActionRecipe) {found : Score × VerifiedActionRecipe}
      → ((r : VerifiedActionRecipe) → Holds r recipes → Holds r all_recipes)
      → IsScored request all_recipes best
      → best_from o host request recipes best ≡ ok found
      → IsScored request all_recipes found
  unfolding best_from
  best_from-IsScored request held [] best within scored h =
      subst (IsScored request held) (ok-injective h) scored
  best_from-IsScored request held (r ∷ rest) best within scored h =
      let (score, given, h1) = >>=-eq-ok (host.score request r) _ h in
      best_from-IsScored request held rest _ (λ q later. within q (inr later))
        (better-IsScored request held (o.less best.0 score) (score, r) best
          (within r (inl refl), given) scored)
        h1

  best_of-IsScored :
      (request : ReuseRequest) (recipes : List VerifiedActionRecipe)
      {found : Score × VerifiedActionRecipe}
      → best_of o host request recipes ≡ ok (some found)
      → IsScored request recipes found
  unfolding best_of
  best_of-IsScored request [] h = cc (h)
  best_of-IsScored request (r ∷ rest) h =
      let (score, given, h1) = >>=-eq-ok (host.score request r) _ h in
      let (best, chosen, h2) = >>=-eq-ok (best_from o host request rest (score, r)) _ h1 in
      subst (IsScored request (r ∷ rest)) (some-injective (ok-injective h2)) (
        best_from-IsScored request (r ∷ rest) rest (score, r) (λ q later. inr later)
          (inl refl, given) chosen)

  best_from-eq-err :
      (request : ReuseRequest) (recipes : List VerifiedActionRecipe)
      (best : Score × VerifiedActionRecipe) {e : Error}
      → best_from o host request recipes best ≡ err e
      → Any (λ (r : VerifiedActionRecipe). host.score request r ≡ err e) recipes
  unfolding best_from
  best_from-eq-err request [] best h = cc (h)
  best_from-eq-err request (r ∷ rest) best h = elim (>>=-eq-err (host.score request r) _ h) [
    | inl here ↦ inl here
    | inr (score, _, h1) ↦ inr (best_from-eq-err request rest _ h1)
  ]

  best_of-eq-err :
      (request : ReuseRequest) (recipes : List VerifiedActionRecipe) {e : Error}
      → best_of o host request recipes ≡ err e
      → Any (λ (r : VerifiedActionRecipe). host.score request r ≡ err e) recipes
  unfolding best_of
  best_of-eq-err request [] h = cc (h)
  best_of-eq-err request (r ∷ rest) h = elim (>>=-eq-err (host.score request r) _ h) [
    | inl here ↦ inl here
    | inr (score, _, h1) ↦ elim (>>=-eq-err (best_from o host request rest (score, r)) _ h1) [
      | inl later ↦ inr (best_from-eq-err request rest (score, r) later)
      | inr (best, _, h2) ↦ cc (h2)
    ]
  ]

  -- The best candidate does not reach the threshold, or there is none.
  abbrev pub IsShort : ReuseRequest → List VerifiedActionRecipe → Type 0
  IsShort request recipes =
      (best_of o host request (select is_reusable recipes) ≡ ok none)
      ⊎ ((best : Score × VerifiedActionRecipe) × (best_of o host request
              (select is_reusable recipes)
            ≡ ok (some best))
          × (o.at_most host.threshold best.0 ≡ false))

  -- What `lookup` finds and counts.
  pub data Looked (request : ReuseRequest) (s : Session)
      : Result (Option (CacheMatch Score)) × Session → Type 0 where
    raises :
        (e : Error)
        → IsNew request s.recipes
        → Any
            (λ (r : VerifiedActionRecipe). host.score request r ≡ err e)
            (select is_reusable s.recipes)
        → Looked request s (err e, s)
    misses :
        IsNew request s.recipes
        → IsShort request s.recipes
        → Looked request s (ok none, with_miss s)
    hits :
        (m : CacheMatch Score)
        → IsMatch request s.recipes m
        → Looked request s (ok (some m), with_hit s)

  accepted :
      (request : ReuseRequest) (s : Session) (score : Score) (recipe : VerifiedActionRecipe)
      → IsNew request s.recipes
      → best_of o host request (select is_reusable s.recipes) ≡ ok (some (score, recipe))
      → Looked request s (accept_best o host (some (score, recipe)) s)
  accepted request s score recipe new chosen =
      let (held, given) = best_of-IsScored request (select is_reusable s.recipes) chosen in
      let (there, good) = select-Holds s.recipes recipe held in
      elim (Bool-cases (o.at_most host.threshold score)) [
        | inl enough ↦ rw enough (
            hits (record { recipe = recipe; kind = similar; score = score })
              (record { held = there; reusable = good; fits = inr (refl, new, given, enough) }))
        | inr short ↦ rw short (misses new (inr ((score, recipe), chosen, short)))
      ]

  similar-Looked :
      (request : ReuseRequest) (s : Session) (r : Result (Option (Score × VerifiedActionRecipe)))
      → IsNew request s.recipes
      → best_of o host request (select is_reusable s.recipes) ≡ r
      → Looked request s (and_then r (accept_best o host) s)
  similar-Looked request s (err e) new h =
      raises e new (best_of-eq-err request (select is_reusable s.recipes) h)
  similar-Looked request s (ok none) new h = misses new (inl h)
  similar-Looked request s (ok (some (score, recipe))) new h = accepted request s score recipe new h

  found-Looked :
      (request : ReuseRequest) (s : Session) (found : Option VerifiedActionRecipe)
      → find_exact request.exact_fingerprint (select is_reusable s.recipes) ≡ found
      → Looked request s (found_exact o host request found s)
  found-Looked request s none h =
      similar-Looked request s _
        (find_exact-none request.exact_fingerprint (select is_reusable s.recipes) h) refl
  found-Looked request s (some r) h =
      let (held, fits) =
        find_exact-Holds request.exact_fingerprint (select is_reusable s.recipes) r h in
      let (there, good) = select-Holds s.recipes r held in
      hits (record { recipe = r; kind = exact; score = o.one })
        (record { held = there; reusable = good; fits = inl (refl, fits) })

  pub lookup-Looked :
      (request : ReuseRequest) (s : Session) → Looked request s (lookup o host request s)
  unfolding lookup
  lookup-Looked request s = found-Looked request s _ refl
