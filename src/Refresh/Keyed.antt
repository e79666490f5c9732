-- ===== src/Refresh/Keyed.antt =====
-- `Refresh` of pkg/refresh/refresh.go for a list whose identity is not the name of an object, where an
-- identity determines the name under which its object stands, as those of the Services and of the
-- VSConfigs in domain/lister/internal/application.go.
use kubefork_controller.Base.{
  String, ◌≡◌, refl, sym, ap, subst, ◌∙◌, Bool, true, false, not, ◌↔◌, ◌&&◌, ◌==◌, Option, some,
  List, [], ◌∷◌, map, All, All-zip, contains, find_last, string_eq, Option-cases, inl, inr, arith,
}
use kubefork_controller.Base.GoMap.{GoMap, lookup, lookup-nil}
use kubefork_controller.Base.Result.{Result, ok, err, ok-injective}
use kubefork_controller.Base.Result
use kubefork_controller.Base.Exec.{>>=-eq-ok}
use kubefork_controller.Api.{NamespacedName, ObjectMeta}
use kubefork_controller.Kube.{Kube, Object, Unstructured, unstructured, meta, set_meta}
use kubefork_controller.Kube.Laws.{Tracks}
use kubefork_controller.Refresh.{
  ObjectList, desired_ids, handle_existing, mutate, refresh, object_name,
}
use kubefork_controller.Refresh.Naming.{FloatOps}
use kubefork_controller.Refresh.Sweep.{has_id, owned_with, is_desired, lookup-sweep}
use kubefork_controller.Refresh.Existing.{holds, handle_existing-eq-ok}
use kubefork_controller.Refresh.Converge.{IsTyped, IsStable, item_name, name_by}
use kubefork_controller.Refresh.Owned.{Distinct, Owning, Owns, refresh-Owns}
use kubefork_controller.Refresh.ByName.{names, IsWritable}

-- What an item of the Go type `Typed` goes through on its way to the server keeps its identity.
pub record Keeping {W : Type 0} (kube : Kube W) (parent : Object)
    (identity : Object → Result String) (admit : Object → Object) (Typed : Object → Type 0)
    : Type 0 where
  pub converted :
      (o seen c : Object)
      → Typed o
      → kube.convert o seen ≡ ok c
      → Typed c × (identity c ≡ identity o)
  pub referred :
      (o c : Object)
      → Typed o
      → kube.set_controller_reference parent o ≡ ok c
      → Typed c × (identity c ≡ identity o)
  pub admitted : (o : Object) → Typed o → identity (admit o) ≡ identity o

-- Other metadata with the same labels does so too.
abbrev pub Placing : (Object → Result String) → (Object → Type 0) → Type 0
Placing identity Typed =
    (m : ObjectMeta) (o : Object)
    → Typed o
    → m.labels ≡ (meta o).labels
    → Typed (set_meta m o) × (identity (set_meta m o) ≡ identity o)

has_id-eq-ok :
    (r : Result String) (ids : List String) (id : String)
    → has_id r (λ j. contains ids j && id == j) ≡ true
    → r ≡ ok id
has_id-eq-ok (ok j) ids id h = ground arith
has_id-eq-ok (err e) ids id h = cc

find_last-All :
    (P : Unstructured → Type 0) (p : Unstructured → Bool) (us : List Unstructured)
    (u : Unstructured)
    → All P us
    → find_last p us ≡ some u
    → P u × (p u ≡ true)
find_last-All P p [] u all e = cc
find_last-All P p (x ∷ us) u (here, all) e = elim (Option-cases (find_last p us)) [
  | inl none_later ↦ let same : x ≡ u = ground arith in (subst P same here, ground arith)
  | inr (y, later) ↦
      let same : y ≡ u = ground arith in find_last-All P p us u all (later ∙ ap some same)
]

module _ {W : Type 0} (kube : Kube W) (parent : Object) (list : ObjectList) (floats : FloatOps)
    {Is : Object → Type 0} {stored : W → NamespacedName → Option Object}
    (tracks : Tracks kube list.group_version_kind (meta parent).namespace Is stored)
    (canonical : String → String) where
  -- An object that the parent owns, under another name than that of its identity.
  abbrev pub is_misnamed : String → Object → Bool
  is_misnamed name = owned_with parent list (λ id. not (name == canonical id))

  -- In the parent's namespace there is no such object of the listed kind.
  abbrev pub NamedAfter : W → Type 0
  NamedAfter w =
      (name : String)
      → holds (is_misnamed name)
          (stored w (record { namespace = (meta parent).namespace; name = name }))
        ≡ false

  lookup-found :
      (found : GoMap String Unstructured) (w w' : W) (id : String) (u : Unstructured)
      → NamedAfter w
      → handle_existing kube parent list w ≡ (ok found, w')
      → lookup id found ≡ some u
      → u.metadata.name ≡ canonical id
  lookup-found found w w' id u named h there =
      let (ids, us, _, listed, swept) = handle_existing-eq-ok kube parent list found w w' h in
      let collected = lookup-sweep kube parent list ids us [] found w w' id swept in
      let ((_, _, held), passed) =
        find_last-All _ (λ v. is_desired parent list ids id (unstructured v)) us u
          (tracks.listed_all w us listed) (ground (arith, lookup-nil {V = Unstructured} id)) in
      let read = has_id-eq-ok (list.identity (unstructured u)) ids id (ground arith) in
      ground (
        arith,
        named u.metadata.name,
        ap (holds (is_misnamed u.metadata.name)) held,
        ap (λ r. has_id r (λ id. not (u.metadata.name == canonical id))) read,
      )

  -- An item with the identity, under the name of that.
  abbrev pub Fits : Object → Type 0
  Fits o = (id : String) × (list.identity o ≡ ok id) × ((meta o).name ≡ canonical id) × IsWritable o

  module _ (found : GoMap String Unstructured) (w w' : W) (named : NamedAfter w)
      (existing : handle_existing kube parent list w ≡ (ok found, w')) where
    object_name-Fits :
        (id : String) (o : Object)
        → (meta o).name ≡ canonical id
        → IsWritable o
        → object_name kube parent list floats found id o ≡ (meta o).name
    unfolding object_name
    object_name-Fits id o same (not_empty, short) = elim (Option-cases (lookup id found)) [
      | inl missing ↦ rw (missing, object_name) (ground arith)
      | inr (u, there) ↦
          rw (there, object_name) (lookup-found found w w' id u named existing there ∙ sym same)
    ]

    pub item_name-Fits :
        (o : Object) → Fits o → item_name kube parent list floats tracks found o ≡ (meta o).name
    item_name-Fits o (id, read, same, writable) =
        ap (name_by kube parent list floats tracks found o) read
        ∙ object_name-Fits id o same writable

    pub item_names :
        (os : List Object)
        → All Fits os
        → map (item_name kube parent list floats tracks found) os ≡ names os
    item_names [] _ = refl
    item_names (o ∷ os) (fits, all) =
        ap (λ n. n ∷ map (item_name kube parent list floats tracks found) os)
          (item_name-Fits o fits)
        ∙ ap ((meta o).name ∷◌) (item_names os all)

  module _ (Typed : Object → Type 0)
      (keeping : Keeping kube parent list.identity tracks.admit Typed)
      (placing : Placing list.identity Typed) where
    pub Typed-IsStable :
        (found : GoMap String Unstructured) (o : Object)
        → Typed o
        → IsStable kube parent list floats tracks found o
    unfolding mutate
    Typed-IsStable found o typed seen sent _ built =
        let (converted, e₁, h₁) = Result.>>=-eq-ok (kube.convert o seen) _ sent built in
        let (owned, e₂, h₂) =
          Result.>>=-eq-ok (kube.set_controller_reference parent converted) _ sent h₁ in
        let (t₁, i₁) = keeping.converted o seen converted typed e₁ in
        let (t₂, i₂) = keeping.referred converted owned t₁ e₂ in
        let (t₃, i₃) = placing _ owned t₂ refl in
        let same = ok-injective h₂ in
        keeping.admitted sent (subst Typed same t₃) ∙ ap list.identity (sym same) ∙ i₃ ∙ i₂ ∙ i₁

    -- The identities that the parent owns after a refresh that succeeds are those of the list, if the
    -- names of its items are distinct and can be written as they are.
    pub refresh-Owns-Fits :
        (ids : List String) (w w' : W)
        → Owning kube parent tracks.admit
        → NamedAfter w
        → desired_ids list.identity list.items ≡ ok ids
        → All (IsTyped kube parent list floats tracks) list.items
        → All Typed list.items
        → All Fits list.items
        → Distinct (names list.items)
        → refresh kube parent list floats w ≡ (ok tt, w')
        → (id : String) → Owns kube parent list floats tracks w' id ↔ (contains ids id ≡ true)
    unfolding refresh
    refresh-Owns-Fits ids w w' owning named wanted typed go_typed fits distinct h =
        let (found, w₁, existing, _) = >>=-eq-ok (handle_existing kube parent list) _ w w' tt h in
        refresh-Owns kube parent list floats tracks ids found w w₁ w' owning wanted
          (All-zip _ Typed _ list.items (λ o is t. (is, Typed-IsStable found o t)) typed go_typed)
          (subst Distinct (sym (item_names found w w₁ named existing list.items fits)) distinct)
          existing h
