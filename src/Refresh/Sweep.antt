-- ===== src/Refresh/Sweep.antt =====
-- What `handleExisting` of pkg/refresh/refresh.go deletes, and what it collects.
use kubefork_controller.Base.{
  String, ◌≡◌, sym, ap, Bool, true, false, not, ◌&&◌, Option, none, List, [], ◌∷◌, All, any,
  find_last, contains, string_eq, ◌==◌, if◌then◌else◌, arith, Bool-cases, inl, inr,
}
use kubefork_controller.Base.GoMap.{GoMap, lookup, insert, or_else, lookup-insert}
use kubefork_controller.Base.Result.{Result, ok, err, ok-injective}
use kubefork_controller.Base.Exec.{◌>>=◌, >>=-eq-ok, lift}
use kubefork_controller.Api.{NamespacedName, TypeMeta}
use kubefork_controller.Kube.{Kube, Object, unstructured, Unstructured}
use kubefork_controller.Kube.Laws.{Tracks, is_at}
use kubefork_controller.Refresh.{ObjectList, owned_by_parent, sweep}

abbrev pub has_id : Result String → (String → Bool) → Bool
has_id (ok id) p = p id
has_id (err e) p = false

module _ (parent : Object) (list : ObjectList) where
  -- Owned by the parent, with an identity that passes the test.
  abbrev pub owned_with : (String → Bool) → Object → Bool
  owned_with p o = owned_by_parent o parent && has_id (list.identity o) p

  -- Owned by the parent, with an identity that is wanted, or with one that is not.
  abbrev pub is_desired : List String → String → Object → Bool
  is_desired ids id = owned_with (λ j. contains ids j && id == j)

  abbrev pub is_outdated : List String → Object → Bool
  is_outdated ids = owned_with (λ j. not (contains ids j))

module _ {W : Type 0} (kube : Kube W) (parent : Object) (list : ObjectList)
    (ids : List String) where
  -- What one round of the loop did, when all of it went well.
  data Round (u : Unstructured) (us : List Unstructured) (existing : GoMap String Unstructured)
      (w : W) (found : GoMap String Unstructured) (w' : W) : Type 0 where
    skip :
        owned_by_parent (unstructured u) parent ≡ false
        → sweep kube parent list ids us existing w ≡ (ok found, w')
        → Round u us existing w found w'
    keep :
        (id : String)
        → owned_by_parent (unstructured u) parent ≡ true
        → list.identity (unstructured u) ≡ ok id
        → contains ids id ≡ true
        → sweep kube parent list ids us (insert id u existing) w ≡ (ok found, w')
        → Round u us existing w found w'
    drop :
        (id : String) (w₁ : W)
        → owned_by_parent (unstructured u) parent ≡ true
        → list.identity (unstructured u) ≡ ok id
        → contains ids id ≡ false
        → kube.delete (unstructured u) w ≡ (ok tt, w₁)
        → sweep kube parent list ids us existing w₁ ≡ (ok found, w')
        → Round u us existing w found w'

  round_owned :
      (u : Unstructured) (us : List Unstructured) (existing found : GoMap String Unstructured)
      (w w' : W) (id : String)
      → owned_by_parent (unstructured u) parent ≡ true
      → list.identity (unstructured u) ≡ ok id
      → sweep kube parent list ids (u ∷ us) existing w ≡ (ok found, w')
      → Round u us existing w found w'
  unfolding sweep ◌>>=◌
  round_owned u us existing found w w' id owned identity h = elim (Bool-cases (contains ids id)) [
    | inl desired ↦ keep id owned identity desired (rw (owned, identity, desired, sweep) at h)
    | inr outdated ↦
        let (_, w₁, deleted, rest) =
          >>=-eq-ok (kube.delete (unstructured u)) (λ _. sweep kube parent list ids us existing) w
            w' found (rw (owned, identity, outdated, sweep) at h) in
        drop id w₁ owned identity outdated deleted rest
  ]

  round :
      (u : Unstructured) (us : List Unstructured) (existing found : GoMap String Unstructured)
      (w w' : W)
      → sweep kube parent list ids (u ∷ us) existing w ≡ (ok found, w')
      → Round u us existing w found w'
  unfolding sweep
  round u us existing found w w' h = elim (Bool-cases (owned_by_parent (unstructured u) parent)) [
    | inl owned ↦
        let (id, w₀, e, _) =
          >>=-eq-ok (lift (list.identity (unstructured u))) _ w w' found (rw (owned, sweep) at h) in
        round_owned u us existing found w w' id owned (ap (λ (r : Result String × W). r.0) e) h
    | inr other ↦ skip other (rw (other, sweep) at h)
  ]

  -- Where nothing is outdated, no call is made.
  pub sweep-current :
      (us : List Unstructured) (existing found : GoMap String Unstructured) (w w' : W)
      → All (λ u. is_outdated parent list ids (unstructured u) ≡ false) us
      → sweep kube parent list ids us existing w ≡ (ok found, w')
      → w' ≡ w
  sweep-current [] existing found w w' _ h = unfold sweep in (sym (ap (λ r. r.1) h))
  sweep-current (u ∷ us) existing found w w' (current, all) h =
      elim (round u us existing found w w' h) [
        | skip other rest ↦ sweep-current us existing found w w' all rest
        | keep j owned identity desired rest ↦
            sweep-current us (insert j u existing) found w w' all rest
        | drop j w₁ owned identity outdated _ rest ↦
            absurd
              (ground (arith, current, ap (λ r. has_id r (λ j. not (contains ids j))) identity))
      ]

  -- The object that is collected under an identity is the last owned one that has it.
  pub lookup-sweep :
      (us : List Unstructured) (existing found : GoMap String Unstructured) (w w' : W) (id : String)
      → sweep kube parent list ids us existing w ≡ (ok found, w')
      → lookup id found
        ≡ or_else
            (find_last (λ u. is_desired parent list ids id (unstructured u)) us)
            (lookup id existing)
  lookup-sweep [] existing found w w' id h =
      unfold sweep in (ap (lookup id) (sym (ok-injective (ap (λ r. r.0) h))))
  lookup-sweep (u ∷ us) existing found w w' id h = elim (round u us existing found w w' h) [
    | skip other rest ↦ ground (arith, lookup-sweep us existing found w w' id rest)
    | keep j owned identity desired rest ↦ ground (
      arith,
      lookup-sweep us (insert j u existing) found w w' id rest,
      lookup-insert id j u existing,
      ap (λ r. has_id r (λ j. contains ids j && id == j)) identity,
    )
    | drop j w₁ owned identity outdated _ rest ↦ ground (
      arith,
      lookup-sweep us existing found w₁ w' id rest,
      ap (λ r. has_id r (λ j. contains ids j && id == j)) identity,
    )
  ]

  module _ {list_kind : TypeMeta} {Is : Object → Type 0} {space : String}
      {stored : W → NamespacedName → Option Object}
      (tracks : Tracks kube list_kind space Is stored) where
    -- The outdated objects of the list are gone, and nothing else has changed.
    pub stored-sweep :
        (us : List Unstructured) (existing found : GoMap String Unstructured) (w w' : W)
        (k : NamespacedName)
        → All (λ u. Is (unstructured u)) us
        → sweep kube parent list ids us existing w ≡ (ok found, w')
        → stored w' k ≡ (
            if any
              (λ u. is_at k (unstructured u) && is_outdated parent list ids (unstructured u))
              us
            then none
            else stored w k)
    stored-sweep [] existing found w w' k all h =
        unfold sweep in (ap (λ v. stored v k) (sym (ap (λ r. r.1) h)))
    stored-sweep (u ∷ us) existing found w w' k (is, all) h =
        elim (round u us existing found w w' h) [
          | skip other rest ↦ ground (arith, stored-sweep us existing found w w' k all rest)
          | keep j owned identity desired rest ↦ ground (
            arith,
            stored-sweep us (insert j u existing) found w w' k all rest,
            ap (λ r. has_id r (λ j. not (contains ids j))) identity,
          )
          | drop j w₁ owned identity outdated deleted rest ↦ ground (
            arith,
            stored-sweep us existing found w₁ w' k all rest,
            tracks.deleted (unstructured u) w w₁ is deleted k,
            ap (λ r. has_id r (λ j. not (contains ids j))) identity,
          )
        ]
