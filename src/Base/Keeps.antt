-- ===== src/Base/Keeps.antt =====
-- What a call keeps of the world, whether it ends well or fails.
use mathlib.Core.Path.{◌≡◌, refl}
use mathlib.Core.Bool.{Bool, true, false}
use mathlib.Core.List.{List, [], ◌∷◌}
use kubefork_controller.Base.Equality.{if◌then◌else◌}
use kubefork_controller.Base.Lists.{All}
use kubefork_controller.Base.Result.{Result, ok, err}
use kubefork_controller.Base.Exec.{Exec, lift, read, continue, ◌>>=◌, for_each}

abbrev pub Keeps {ℓ κ} : {W : Type 0} {A : Type ℓ} → (W → Type κ) → Exec W A → Type κ
Keeps {W = W} P m = (w : W) → P w → P (m w).1

module _ {ℓ κ μ} {W : Type 0} {A : Type ℓ} {B : Type κ} (P : W → Type μ) where
  continue-keep :
      (r : Result A) (f : A → Exec W B) (w : W)
      → ((a : A) → r ≡ ok a → P w → P (f a w).1)
      → P w
      → P (continue r f w).1
  continue-keep (ok a) f w keep p = keep a refl p
  continue-keep (err e) f w keep p = p

  pub >>=-Keeps :
      (m : Exec W A) (f : A → Exec W B) → Keeps P m → ((a : A) → Keeps P (f a)) → Keeps P (m >>= f)
  unfolding ◌>>=◌
  >>=-Keeps m f first next w p = continue-keep (m w).0 f (m w).1 (λ a _. next a (m w).1) (first w p)

  -- Where the next step keeps it for what a read or a computation really returns.
  pub read->>=-Keeps :
      (g : W → Result A) (f : A → Exec W B)
      → ((w : W) (a : A) → g w ≡ ok a → P w → P (f a w).1)
      → Keeps P (read g >>= f)
  unfolding ◌>>=◌
  read->>=-Keeps g f next w p = continue-keep (g w) f w (next w) p

  pub lift->>=-Keeps :
      (r : Result A) (f : A → Exec W B)
      → ((a : A) → r ≡ ok a → Keeps P (f a))
      → Keeps P (lift r >>= f)
  unfolding ◌>>=◌
  lift->>=-Keeps r f next w p = continue-keep r f w (λ a e. next a e w) p

pub if-Keeps {ℓ κ} :
    {W : Type 0} {A : Type ℓ} (P : W → Type κ) (b : Bool) (m n : Exec W A)
    → Keeps P m
    → Keeps P n
    → Keeps P (if b then m else n)
if-Keeps P true m n first second = first
if-Keeps P false m n first second = second

module _ {ℓ κ} {W : Type 0} {A : Type ℓ} (P : W → Type κ) (body : A → Exec W (Unit {0})) where
  pub for_each-Keeps {μ} :
      (Q : A → Type μ) (xs : List A)
      → ((x : A) → Q x → Keeps P (body x))
      → All Q xs
      → Keeps P (for_each body xs)
  unfolding for_each
  for_each-Keeps Q [] keep _ w p = p
  for_each-Keeps Q (x ∷ xs) keep (q, qs) w p =
      >>=-Keeps P (body x) (λ _. for_each body xs) (keep x q) (λ _. for_each-Keeps Q xs keep qs) w p

  pub for_each-Keeps_all : (xs : List A) → ((x : A) → Keeps P (body x)) → Keeps P (for_each body xs)
  unfolding for_each
  for_each-Keeps_all [] keep w p = p
  for_each-Keeps_all (x ∷ xs) keep w p =
      >>=-Keeps P (body x) (λ _. for_each body xs) (keep x) (λ _. for_each-Keeps_all xs keep) w p
