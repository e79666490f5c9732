-- ===== src/Refresh/Existing.antt =====
-- `handleExisting` of pkg/refresh/refresh.go against the objects that the server holds.
use kubefork_controller.Base.{
  String, ◌≡◌, sym, ap, ◌∙◌, Bool, true, false, ◌&&◌, Option, none, some, List, [], ◌∷◌, All,
  All-map, any, string_eq, ◌==◌, if◌then◌else◌, arith, Bool-cases, inl, inr,
}
use kubefork_controller.Base.GoMap.{GoMap}
use kubefork_controller.Base.Result.{Result, ok, ok-injective}
use kubefork_controller.Base.Exec.{lift->>=-eq-ok, read->>=-eq-ok}
use kubefork_controller.Api.{NamespacedName}
use kubefork_controller.Kube.{Kube, Object, unstructured, Unstructured, meta}
use kubefork_controller.Kube.Laws.{Tracks, is_at, named}
use kubefork_controller.Refresh.{ObjectList, desired_ids, sweep, handle_existing}
use kubefork_controller.Refresh.Sweep.{is_outdated, stored-sweep}

abbrev pub holds : (Object → Bool) → Option Object → Bool
holds q none = false
holds q (some o) = q o

module _ (k : NamespacedName) (ns : String) (q : Object → Bool)
    (at : NamespacedName → Option Object) where
  abbrev Held : Unstructured → Type 0
  Held u =
      (u.metadata.namespace ≡ ns)
      × (at (record { namespace = ns; name = u.metadata.name }) ≡ some (unstructured u))

  abbrev hit : Unstructured → Bool
  hit u = is_at k (unstructured u) && q (unstructured u)

  Held-at :
      (u : Unstructured)
      → Held u
      → is_at k (unstructured u) ≡ true
      → (k.namespace ≡ ns) × (at k ≡ some (unstructured u))
  Held-at u (space, held) h =
      let e : k.namespace ≡ ns = ground arith in
      let f : k.name ≡ u.metadata.name = ground arith in
      (e, (λ i. at (record { namespace = e i; name = f i })) ∙ held)

  any_sound :
      (us : List Unstructured)
      → All Held us
      → any hit us ≡ true
      → (k.namespace ≡ ns) × (holds q (at k) ≡ true)
  any_sound [] _ h = cc
  any_sound (u ∷ us) (held, all) h = elim (Bool-cases (hit u)) [
    | inl here ↦ let (e, f) = Held-at u held (ground arith) in (e, rw f (ground arith))
    | inr later ↦ any_sound us all (ground arith)
  ]

  any_complete :
      (us : List Unstructured)
      → All Held us
      → (k.namespace ≡ ns)
      → holds q (named k.name us) ≡ true
      → any hit us ≡ true
  any_complete [] _ h p = cc
  any_complete (u ∷ us) (held, all) h p = ground (arith, any_complete us all h)

  any_iff :
      (us : List Unstructured)
      → All Held us
      → (k.namespace ≡ ns → at k ≡ named k.name us)
      → any hit us ≡ (k.namespace == ns && holds q (at k))
  any_iff us all listed = ground (
    arith,
    any_sound us all,
    λ (e : k.namespace ≡ ns). any_complete us all e,
    λ (e : k.namespace ≡ ns). ap (holds q) (listed e),
  )

module _ {W : Type 0} (kube : Kube W) (parent : Object) (list : ObjectList) where
  abbrev pub current : W → Result (List Unstructured)
  current =
      kube.list_unstructured list.group_version_kind
        (record { namespace = (meta parent).namespace; label_selector = [] })

  pub handle_existing-eq-ok :
      (found : GoMap String Unstructured) (w w' : W)
      → handle_existing kube parent list w ≡ (ok found, w')
      → (ids : List String) × (us : List Unstructured) × (desired_ids list.identity list.items
          ≡ ok ids)
        × (current w ≡ ok us)
        × (sweep kube parent list ids us [] w ≡ (ok found, w'))
  unfolding handle_existing
  handle_existing-eq-ok found w w' h =
      let (ids, wanted, h₁) =
        lift->>=-eq-ok (desired_ids list.identity list.items) _ w w' found h in
      let (us, listed, h₂) = read->>=-eq-ok current _ w w' found h₁ in (ids, us, wanted, listed, h₂)

  module _ {Is : Object → Type 0} {stored : W → NamespacedName → Option Object}
      (tracks : Tracks kube list.group_version_kind (meta parent).namespace Is stored) where
    -- On a server that keeps the laws of `Tracks`, a call of `handleExisting` that succeeds deletes the
    -- objects of the parent's namespace that the parent owns and whose identity can be read and is
    -- none of the wanted ones, and changes no other object of the listed kind.
    pub stored-handle_existing :
        (ids : List String) (found : GoMap String Unstructured) (w w' : W) (k : NamespacedName)
        → desired_ids list.identity list.items ≡ ok ids
        → handle_existing kube parent list w ≡ (ok found, w')
        → stored w' k ≡ (
            if k.namespace == (meta parent).namespace
              && holds (is_outdated parent list ids) (stored w k)
            then none
            else stored w k)
    stored-handle_existing ids found w w' k wanted h =
        let (ids', us, wanted', listed, swept) = handle_existing-eq-ok found w w' h in
        let same : ids' ≡ ids = ok-injective (sym wanted' ∙ wanted) in
        let all = tracks.listed_all w us listed in
        let kinds = All-map _ (λ u. Is (unstructured u)) us (λ u p. p.0) all in
        let held =
          All-map _ (Held k (meta parent).namespace (is_outdated parent list ids) (stored w)) us
            (λ u p. (p.1, p.2)) all in
        let here = λ (e : k.namespace ≡ (meta parent).namespace).
          (λ i. stored w (record { namespace = e i; name = k.name }))
          ∙ tracks.listed w us listed k.name in
        stored-sweep kube parent list ids tracks us [] found w w' k kinds (rw same at swept)
        ∙ ap (λ b. if b then none else stored w k)
            (any_iff k (meta parent).namespace (is_outdated parent list ids) (stored w) us held
              here)
