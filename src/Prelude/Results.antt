-- ===== src/Prelude/Results.antt =====
-- Python's exceptions as values. A function that may raise returns a `Result`.
use Prim.Native.String.{String}
use mathlib.Core.Path.{◌≡◌, refl}
use mathlib.Core.Logic.{◌⊎◌, inl, inr}
use mathlib.Core.Bool.{Bool, true, false}
use mathlib.Core.List.{List, [], ◌∷◌}

-- The exceptions that the modelled code raises or meets. `raised` is an exception of
-- application code: its type name and its text.
pub data Error : Type 0 where
  value_error runtime_error type_error integrity_error serialization_error : String → Error
  raised : (type_name text : String) → Error

-- `str(error)` and `type(error).__name__`.
abbrev pub message : Error → String
message (value_error m) = m
message (runtime_error m) = m
message (type_error m) = m
message (integrity_error m) = m
message (serialization_error m) = m
message (raised _ m) = m

abbrev pub error_type : Error → String
error_type (value_error m) = "ValueError"
error_type (runtime_error m) = "RuntimeError"
error_type (type_error m) = "TypeError"
error_type (integrity_error m) = "EvidenceIntegrityError"
error_type (serialization_error m) = "SerializationError"
error_type (raised t m) = t

pub data Result {ℓ} (A : Type ℓ) : Type ℓ where
  err : (raised_error : Error) → Result A
  ok : (returned : A) → Result A

-- The function returns.
abbrev pub IsOk {ℓ} : {A : Type ℓ} → Result A → Type ℓ
IsOk {A} r = (a : A) × (r ≡ ok a)

-- A check that only raises.
abbrev pub Guard : Type 0
Guard = Result (Unit {0})

-- `if test: raise error`.
abbrev pub raise_if : Bool → Error → Guard
raise_if true e = err e
raise_if false e = ok tt

infixl 5 ◌>>=◌ ◌>>◌
abbrev pub ◌>>=◌ {ℓ κ} : {A : Type ℓ} {B : Type κ} → Result A → (A → Result B) → Result B
err e >>= next = err e
ok a >>= next = next a

abbrev pub ◌>>◌ {κ} : {B : Type κ} → Guard → Result B → Result B
err e >> next = err e
ok _ >> next = next

pub ok-injective {ℓ} : {A : Type ℓ} {x y : A} → ok x ≡ ok y → x ≡ y
ok-injective h = cc

-- What a chain that returns has gone through.
pub >>=-eq-ok {ℓ κ} :
    {A : Type ℓ} {B : Type κ} (m : Result A) (next : A → Result B) {b : B}
    → (m >>= next) ≡ ok b
    → (a : A) × (m ≡ ok a) × (next a ≡ ok b)
>>=-eq-ok (err e) next h = cc
>>=-eq-ok (ok a) next h = (a, refl, h)

pub >>=-eq-err {ℓ κ} :
    {A : Type ℓ} {B : Type κ} (m : Result A) (next : A → Result B) {e : Error}
    → (m >>= next) ≡ err e
    → (m ≡ err e) ⊎ ((a : A) × (m ≡ ok a) × (next a ≡ err e))
>>=-eq-err (ok a) next h = inr (a, refl, h)
>>=-eq-err (err d) next h = inl cc

module _ {ℓ} {A B : Type ℓ} where
  pub >>=-IsOk : (m : Result A) (f : A → Result B) (r : IsOk m) → IsOk (f r.0) → IsOk (m >>= f)
  >>=-IsOk m f r s = (s.0, rw r.1 s.1)

module _ {ℓ} {B : Type ℓ} where
  pub >>-eq-ok : (m : Guard) (k : Result B) {b : B} → (m >> k) ≡ ok b → (m ≡ ok tt) × (k ≡ ok b)
  >>-eq-ok (ok tt) k h = (refl, h)
  >>-eq-ok (err e) k h = cc

-- `tuple(f(x) for x in xs)`, where `f` may raise.
unfoldable pub traverse {ℓ κ} :
    {A : Type ℓ} {B : Type κ} → (A → Result B) → List A → Result (List B)
traverse f [] = ok []
traverse f (x ∷ xs) = do y ← f x; ys ← traverse f xs; ok (y ∷ ys)
