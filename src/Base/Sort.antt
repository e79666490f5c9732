-- ===== src/Base/Sort.antt =====
-- `sort.Slice` by a key that is a string.
use Prim.Native.String.{String}
use mathlib.Core.Path.{◌≡◌, ◌∙◌, refl, sym, ap}
use mathlib.Core.Logic.{◌≢◌}
use mathlib.Core.Bool.{false}
use mathlib.Core.List.{List, [], ◌∷◌}
use mathlib.Core.Option.{none, some}
use native.Mathlib.Omega.{arith}
use kubefork_controller.Base.Equality.{string_eq, if◌then◌else◌}
use kubefork_controller.Base.Order.{
  before, before_asym, before_total, before_trans, before_le_trans,
}
use kubefork_controller.Base.GoMap.{
  GoMap, NodupKeys, lookup, insert, erase, lookup-cons, lookup-nil, lookup-erase,
}

-- The values of a map, in the order of the loop.
abbrev pub entries {ℓ} : {A : Type ℓ} → GoMap String A → List A
entries [] = []
entries ((_, v) ∷ m) = v ∷ entries m

module _ {ℓ} {A : Type ℓ} (key : A → String) where
  unfoldable pub insert_by : A → List A → List A
  insert_by x [] = x ∷ []
  insert_by x (y ∷ ys) =
      let rest = insert_by x ys in if before (key y) (key x) then y ∷ rest else x ∷ y ∷ ys

  unfoldable pub sort_by : List A → List A
  sort_by [] = []
  sort_by (x ∷ xs) = insert_by x (sort_by xs)

  -- No element stands before one with a smaller key.
  abbrev pub Ascending : List A → Type 0
  Ascending [] = Unit
  Ascending (x ∷ []) = Unit
  Ascending (x ∷ y ∷ ys) = (before (key y) (key x) ≡ false) × Ascending (y ∷ ys)

  insert_by_comm :
      (x y : A) (zs : List A)
      → key x ≢ key y
      → insert_by x (insert_by y zs) ≡ insert_by y (insert_by x zs)
  unfolding insert_by
  insert_by_comm x y [] differ =
      ground (arith, before_asym (key x) (key y), before_total (key x) (key y))
  insert_by_comm x y (z ∷ zs) differ = ground (
    arith,
    before_asym (key x) (key y),
    before_total (key x) (key y),
    before_le_trans (key z) (key y) (key x),
    before_le_trans (key z) (key x) (key y),
    before_asym (key z) (key x),
    before_asym (key z) (key y),
    before_trans (key z) (key x) (key y),
    before_trans (key z) (key y) (key x),
    insert_by_comm x y zs differ,
  )

  insert_by-Ascending : (x : A) (ys : List A) → Ascending ys → Ascending (insert_by x ys)
  unfolding insert_by
  insert_by-Ascending x [] h = tt
  insert_by-Ascending x (y ∷ []) h = ground (arith, before_asym (key y) (key x))
  insert_by-Ascending x (y ∷ z ∷ zs) (p, h) =
      ground (arith, before_asym (key y) (key x), insert_by-Ascending x (z ∷ zs) h)

  pub sort_by-Ascending : (xs : List A) → Ascending (sort_by xs)
  unfolding sort_by
  sort_by-Ascending [] = tt
  sort_by-Ascending (x ∷ xs) = insert_by-Ascending x (sort_by xs) (sort_by-Ascending xs)

  -- Each value stands under its own key.
  abbrev pub Named : GoMap String A → Type 0
  Named [] = Unit
  Named ((k, v) ∷ m) = (k ≡ key v) × Named m

  lookup-Named :
      (k : String) (v : A) (m : GoMap String A) → Named m → lookup k m ≡ some v → k ≡ key v
  lookup-Named k v [] named found = ground (arith, lookup-nil {V = A} k)
  lookup-Named k v ((j, w) ∷ m) (same, named) found =
      ground (arith, lookup-cons k j w m, lookup-Named k v m named)

  entries-erase-missing :
      (k : String) (m : GoMap String A) → lookup k m ≡ none → entries (erase k m) ≡ entries m
  unfolding erase
  entries-erase-missing k [] gone = refl
  entries-erase-missing k ((j, w) ∷ m) gone =
      ground (arith, lookup-cons k j w m, entries-erase-missing k m)

  erase-NodupKeys : (k : String) (m : GoMap String A) → NodupKeys m → NodupKeys (erase k m)
  unfolding erase
  erase-NodupKeys k [] u = tt
  erase-NodupKeys k ((j, w) ∷ m) (fresh, u) =
      ground (arith, lookup-erase j k m, erase-NodupKeys k m u)

  pub insert-Named : (v : A) (m : GoMap String A) → Named m → Named (insert (key v) v m)
  unfolding insert
  insert-Named v [] named = (refl, tt)
  insert-Named v ((j, w) ∷ m) (same, named) = ground (arith, insert-Named v m named)

  lookups-Named :
      (n : GoMap String A)
      → NodupKeys n
      → ((k : String) (v : A) → lookup k n ≡ some v → k ≡ key v)
      → Named n
  lookups-Named [] u named = tt
  lookups-Named ((j, w) ∷ n) (fresh, u) named = (
    named j w (ground (arith, lookup-cons j j w n)),
    lookups-Named n u (λ k v found. named k v (ground (arith, lookup-cons k j w n))),
  )

  -- The entries may stand in another order.
  pub reordered-Named :
      (m n : GoMap String A)
      → Named m
      → NodupKeys n
      → ((k : String) → lookup k n ≡ lookup k m)
      → Named n
  reordered-Named m n named u same =
      lookups-Named n u (λ k v found. lookup-Named k v m named (sym (same k) ∙ found))

  erase-Named : (k : String) (m : GoMap String A) → Named m → Named (erase k m)
  unfolding erase
  erase-Named k [] named = tt
  erase-Named k ((j, w) ∷ m) (same, named) = ground (arith, erase-Named k m named)

  sort_by-pull :
      (k : String) (v : A) (m : GoMap String A)
      → Named m
      → NodupKeys m
      → lookup k m ≡ some v
      → sort_by (entries m) ≡ insert_by v (sort_by (entries (erase k m)))
  unfolding sort_by erase
  sort_by-pull k v [] named u found = ground (arith, lookup-nil {V = A} k)
  sort_by-pull k v ((j, w) ∷ m) (same, named) (fresh, u) found = ground (
    arith,
    lookup-cons k j w m,
    entries-erase-missing k m,
    lookup-Named k v m named,
    sort_by-pull k v m named u,
    insert_by_comm w v (sort_by (entries (erase k m))),
  )

  -- The sorted values do not depend on the order in which the loop meets the entries.
  pub sort_by-lookup :
      (m n : GoMap String A)
      → Named m
      → Named n
      → NodupKeys m
      → NodupKeys n
      → ((k : String) → lookup k m ≡ lookup k n)
      → sort_by (entries m) ≡ sort_by (entries n)
  unfolding sort_by
  sort_by-lookup [] [] _ _ _ _ same = refl
  sort_by-lookup [] ((j, w) ∷ n) _ _ _ _ same =
      ground (arith, same j, lookup-nil {V = A} j, lookup-cons j j w n)
  sort_by-lookup ((k, v) ∷ m) n (_, named) named' (fresh, u) u' same =
      ap (insert_by v) (
        sort_by-lookup m (erase k n) named (erase-Named k n named') u (erase-NodupKeys k n u')
          (λ j. ground (arith, same j, lookup-cons j k v m, lookup-erase j k n)))
      ∙ sym (sort_by-pull k v n named' u' (sym (same k) ∙ ground (arith, lookup-cons k k v m)))
