-- ===== src/Base/Result.antt =====
-- Go's `(T, error)` results. `errors.WithStack` and `errors.Wrap` add text for the log to an error
-- and are left out.
use Prim.Native.String.{String}
use mathlib.Core.Path.{◌≡◌, refl}
use mathlib.Core.List.{List, [], ◌∷◌}

-- `not_found` is what `apierrors.IsNotFound` accepts; `failure` is any other error of a library.
pub data Error : Type 0 where
  not_found malformed_manager unsupported_type nil_map_write nil_dereference : Error
  malformed_label : String → Error
  failure : String → Error

pub data Result {ℓ} (A : Type ℓ) : Type ℓ where
  ok : A → Result A
  err : Error → Result A

-- `client.IgnoreNotFound`, as the result of a call that returns only an error.
abbrev pub ignore_not_found : Error → Result (Unit {0})
ignore_not_found not_found = ok tt
ignore_not_found e = err e

infixl 10 ◌>>=◌
abbrev pub ◌>>=◌ {ℓ κ} : {A : Type ℓ} {B : Type κ} → Result A → (A → Result B) → Result B
ok a >>= f = f a
err e >>= f = err e

pub >>=-eq-ok {ℓ κ} :
    {A : Type ℓ} {B : Type κ} (m : Result A) (f : A → Result B) (b : B)
    → (m >>= f) ≡ ok b
    → (a : A) × (m ≡ ok a) × (f a ≡ ok b)
>>=-eq-ok (ok a) f b h = (a, refl, h)
>>=-eq-ok (err e) f b h = cc

-- `for i, x := range xs { ys[i] = f(x) }`, with the first failure of `f`.
abbrev pub map_ok {ℓ κ} : {A : Type ℓ} {B : Type κ} → (A → Result B) → List A → Result (List B)
map_ok f [] = ok []
map_ok f (x ∷ xs) = let rest = map_ok f xs in f x >>= λ y. rest >>= λ ys. ok (y ∷ ys)

pub ok-injective {ℓ} : {A : Type ℓ} {a b : A} → ok a ≡ ok b → a ≡ b
ok-injective e = cc
