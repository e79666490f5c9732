-- ===== src/Base/Exec.antt =====
-- Calls that read and write a world and may fail. What was written before a failure stays written,
-- so the world comes back beside an error too.
use mathlib.Core.Path.{◌≡◌, refl, ap, subst, ◌∙◌}
use mathlib.Core.List.{List, [], ◌∷◌, ◌++◌}
use kubefork_controller.Base.Result.{Result, ok, err, Error}

abbrev pub Exec {ℓ} : Type 0 → Type ℓ → Type ℓ
Exec W A = W → Result A × W

module _ {ℓ} {W : Type 0} {A : Type ℓ} where
  abbrev pub pure : A → Exec W A
  pure a w = (ok a, w)

  abbrev pub raise : Error → Exec W A
  raise e w = (err e, w)

  abbrev pub lift : Result A → Exec W A
  lift r w = (r, w)

  -- A call that reads the world and leaves it alone.
  abbrev pub read : (W → Result A) → Exec W A
  read f w = (f w, w)

module _ {ℓ κ} {W : Type 0} {A : Type ℓ} {B : Type κ} where
  abbrev pub continue : Result A → (A → Exec W B) → Exec W B
  continue (ok a) f w = f a w
  continue (err e) f w = (err e, w)

  infixl 10 ◌>>=◌ ◌>>◌
  unfoldable pub ◌>>=◌ : Exec W A → (A → Exec W B) → Exec W B
  ◌>>=◌ m f w = let (r, w') = m w in continue r f w'

  abbrev pub ◌>>◌ : Exec W A → Exec W B → Exec W B
  m >> n = m >>= λ _. n

  continue-eq-ok :
      (r : Result A) (w' : W) (f : A → Exec W B) (w'' : W) (b : B)
      → continue r f w' ≡ (ok b, w'')
      → (a : A) × (r ≡ ok a) × (f a w' ≡ (ok b, w''))
  continue-eq-ok (ok a) w' f w'' b h = (a, refl, h)
  continue-eq-ok (err e) w' f w'' b h = cc (fst-eq h)
    where
      fst-eq : {p q : Result B × W} → p ≡ q → p.0 ≡ q.0
      fst-eq e = λ i. (e i).0

  -- A chain that ends well has steps that end well.
  pub >>=-eq-ok :
      (m : Exec W A) (f : A → Exec W B) (w w'' : W) (b : B)
      → (m >>= f) w ≡ (ok b, w'')
      → (a : A) × (w' : W) × (m w ≡ (ok a, w')) × (f a w' ≡ (ok b, w''))
  unfolding ◌>>=◌
  >>=-eq-ok m f w w'' b h =
      let (a, e, k) = continue-eq-ok (m w).0 (m w).1 f w'' b h in
      (a, (m w).1, (λ i. (e i, (m w).1)), k)

  -- The step after one that ends well, and the end of a chain whose first step fails.
  pub >>=-of-ok :
      (m : Exec W A) (f : A → Exec W B) (w w' : W) (a : A) → m w ≡ (ok a, w') → (m >>= f) w ≡ f a w'
  unfolding ◌>>=◌
  >>=-of-ok m f w w' a e = ap (λ (r : Result A × W). continue r.0 f r.1) e

  pub >>=-of-err :
      (m : Exec W A) (f : A → Exec W B) (w w' : W) (e : Error)
      → m w ≡ (err e, w')
      → (m >>= f) w ≡ (err e, w')
  unfolding ◌>>=◌
  >>=-of-err m f w w' e h = ap (λ (r : Result A × W). continue r.0 f r.1) h

  pub lift->>=-eq-ok :
      (r : Result A) (f : A → Exec W B) (w w'' : W) (b : B)
      → (lift r >>= f) w ≡ (ok b, w'')
      → (a : A) × (r ≡ ok a) × (f a w ≡ (ok b, w''))
  unfolding ◌>>=◌
  lift->>=-eq-ok r f w w'' b h = continue-eq-ok r w f w'' b h

  pub read->>=-eq-ok :
      (g : W → Result A) (f : A → Exec W B) (w w'' : W) (b : B)
      → (read g >>= f) w ≡ (ok b, w'')
      → (a : A) × (g w ≡ ok a) × (f a w ≡ (ok b, w''))
  unfolding ◌>>=◌
  read->>=-eq-ok g f w w'' b h = continue-eq-ok (g w) w f w'' b h

module _ {ℓ} {W : Type 0} {A : Type ℓ} where
  -- `for _, x := range xs { if err := body(x); err != nil { return err } }`
  unfoldable pub for_each : (A → Exec W (Unit {0})) → List A → Exec W (Unit {0})
  for_each body [] = pure tt
  for_each body (x ∷ xs) = let rest = for_each body xs in body x >> rest

  -- What each round keeps, the loop keeps.
  pub for_each_inv {κ} :
      (P : W → Type κ) (body : A → Exec W (Unit {0}))
      → ((x : A) (w w' : W) → body x w ≡ (ok tt, w') → P w → P w')
      → (xs : List A) (w w' : W) → for_each body xs w ≡ (ok tt, w')
      → P w
      → P w'
  unfolding for_each
  for_each_inv P body keep [] w w' e p = subst P (ap (λ (r : Result (Unit {0}) × W). r.1) e) p
  for_each_inv P body keep (x ∷ xs) w w' e p =
      let (u, w₁, first, rest) = >>=-eq-ok (body x) _ w w' tt e in
      for_each_inv P body keep xs w₁ w' rest (keep x w w₁ first p)

  pub for_each-cons :
      (body : A → Exec W (Unit {0})) (x : A) (xs : List A) (w w'' : W)
      → for_each body (x ∷ xs) w ≡ (ok tt, w'')
      → (w' : W) × (body x w ≡ (ok tt, w')) × (for_each body xs w' ≡ (ok tt, w''))
  unfolding for_each
  for_each-cons body x xs w w'' h =
      let (u, w', first, rest) = >>=-eq-ok (body x) _ w w'' tt h in (w', first, rest)

  pub for_each-append :
      (body : A → Exec W (Unit {0})) (xs ys : List A) (w w'' : W)
      → for_each body (xs ++ ys) w ≡ (ok tt, w'')
      → (w' : W) × (for_each body xs w ≡ (ok tt, w')) × (for_each body ys w' ≡ (ok tt, w''))
  unfolding for_each
  for_each-append body [] ys w w'' h = (w, refl, h)
  for_each-append body (x ∷ xs) ys w w'' h =
      let (u, w₁, first, rest) = >>=-eq-ok (body x) _ w w'' tt h in
      let (w', before, after) = for_each-append body xs ys w₁ w'' rest in
      (w', >>=-of-ok (body x) _ w w₁ u first ∙ before, after)
