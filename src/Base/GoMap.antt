-- ===== src/Base/GoMap.antt =====
-- Go's `map[K]V`: its entries in the order in which one `range` loop meets them, each key once.
-- A `nil` map and an empty one read alike; where the code tells them apart, the model has an
-- `Option`.
use mathlib.Core.Path.{◌≡◌, refl}
use mathlib.Core.Option.{Option, none, some}
use mathlib.Core.List.{List, [], ◌∷◌, ◌++◌}
use native.Mathlib.Omega.{arith}
use kubefork_controller.Base.Equality.{Eq, ◌==◌, if◌then◌else◌}

abbrev pub GoMap {ℓ κ} : Type ℓ → Type κ → Type (ℓ ⊔ κ)
GoMap K V = List (K × V)

abbrev pub keys {ℓ κ} : {K : Type ℓ} {V : Type κ} → GoMap K V → List K
keys [] = []
keys ((k, _) ∷ m) = k ∷ keys m

abbrev pub or_else {ℓ} : {V : Type ℓ} → Option V → Option V → Option V
or_else none b = b
or_else (some v) b = some v

module _ {ℓ κ} {K : Type ℓ} {V : Type κ} ⦃e : Eq K⦄ where
  unfoldable pub lookup : K → GoMap K V → Option V
  lookup k [] = none
  lookup k ((j, v) ∷ m) = if k == j then some v else lookup k m

  -- `m[k] = v`
  unfoldable pub insert : K → V → GoMap K V → GoMap K V
  insert k v [] = (k, v) ∷ []
  insert k v ((j, w) ∷ m) = if k == j then (k, v) ∷ m else (j, w) ∷ insert k v m

  -- `delete(m, k)`
  unfoldable pub erase : K → GoMap K V → GoMap K V
  erase k [] = []
  erase k ((j, w) ∷ m) = let rest = erase k m in if k == j then rest else (j, w) ∷ rest

  abbrev pub NodupKeys : GoMap K V → Type κ
  NodupKeys [] = Unit
  NodupKeys ((k, _) ∷ m) = (lookup k m ≡ none) × NodupKeys m

  pub lookup-nil : (k : K) → lookup k [] ≡ none
  unfolding lookup
  lookup-nil k = refl

  pub lookup-cons :
      (j k : K) (v : V) (m : GoMap K V)
      → lookup j ((k, v) ∷ m) ≡ (if j == k then some v else lookup j m)
  unfolding lookup
  lookup-cons j k v m = refl

  pub lookup-insert :
      (j k : K) (v : V) (m : GoMap K V)
      → lookup j (insert k v m) ≡ (if j == k then some v else lookup j m)
  unfolding insert lookup
  lookup-insert j k v [] = refl
  lookup-insert j k v (_ ∷ m) = ground (arith, lookup-insert j k v m)

  pub lookup-erase :
      (j k : K) (m : GoMap K V) → lookup j (erase k m) ≡ (if j == k then none else lookup j m)
  unfolding erase lookup
  lookup-erase j k [] = ground arith
  lookup-erase j k (_ ∷ m) = ground (arith, lookup-erase j k m)

  pub insert-NodupKeys : (k : K) (v : V) (m : GoMap K V) → NodupKeys m → NodupKeys (insert k v m)
  unfolding insert
  insert-NodupKeys k v [] _ = (lookup-nil k, tt)
  insert-NodupKeys k v ((j, _) ∷ m) (fresh, u) =
      ground (arith, insert-NodupKeys k v m u, lookup-insert j k v m)

  -- `for k, v := range n { m[k] = v }`
  unfoldable pub insert_all : GoMap K V → GoMap K V → GoMap K V
  insert_all m [] = m
  insert_all m ((k, v) ∷ n) = insert_all (insert k v m) n

  -- The second map wins. Its own order plays no part, as no key of it stands there twice.
  pub lookup-insert_all :
      (j : K) (m n : GoMap K V)
      → NodupKeys n
      → lookup j (insert_all m n) ≡ or_else (lookup j n) (lookup j m)
  unfolding insert_all lookup
  lookup-insert_all j m [] _ = refl
  lookup-insert_all j m ((k, v) ∷ n) (fresh, u) =
      ground (arith, lookup-insert_all j (insert k v m) n u, lookup-insert j k v m)

  pub insert_all-NodupKeys : (m n : GoMap K V) → NodupKeys m → NodupKeys (insert_all m n)
  unfolding insert_all
  insert_all-NodupKeys m [] u = u
  insert_all-NodupKeys m ((k, v) ∷ n) u =
      insert_all-NodupKeys (insert k v m) n (insert-NodupKeys k v m u)

-- `m[k]` of a map to slices: `nil` where the key is missing.
unfoldable pub values {ℓ κ} : {K : Type ℓ} {V : Type κ} ⦃e : Eq K⦄ → K → GoMap K (List V) → List V
values k m = elim (lookup k m) [ none ↦ [] | some xs ↦ xs ]

-- `m[k] = append(m[k], x)`
unfoldable pub append_to {ℓ κ} :
    {K : Type ℓ} {V : Type κ} ⦃e : Eq K⦄ → K → V → GoMap K (List V) → GoMap K (List V)
append_to k x m = insert k (values k m ++ x ∷ []) m

module _ {ℓ κ} {K : Type ℓ} {V : Type κ} ⦃e : Eq K⦄ where
  pub lookup-append_to :
      (j k : K) (x : V) (m : GoMap K (List V))
      → lookup j (append_to k x m) ≡ (if j == k then some (values k m ++ x ∷ []) else lookup j m)
  unfolding append_to
  lookup-append_to j k x m = lookup-insert j k (values k m ++ x ∷ []) m

  pub values-append_to :
      (j k : K) (x : V) (m : GoMap K (List V))
      → values j (append_to k x m) ≡ (if j == k then values j m ++ x ∷ [] else values j m)
  unfolding values
  values-append_to j k x m = ground (arith, lookup-append_to j k x m)

  pub append_to-NodupKeys :
      (k : K) (x : V) (m : GoMap K (List V)) → NodupKeys m → NodupKeys (append_to k x m)
  unfolding append_to
  append_to-NodupKeys k x m u = insert-NodupKeys k (values k m ++ x ∷ []) m u
