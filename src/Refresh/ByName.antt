-- ===== src/Refresh/ByName.antt =====
-- `Refresh` of pkg/refresh/refresh.go for a list whose identity is the name of an object, as that of
-- the DeploymentCopies in domain/lister/internal/application.go.
use Prim.Native.String.{count}
use kubefork_controller.Base.{
  String, ◌≡◌, ◌≢◌, refl, sym, ap, subst, ◌∙◌, ◌≤◌, Bool, true, ◌↔◌, Option, some, List, [], ◌∷◌,
  map, All, All-zip, contains, find_last, string_eq, Option-cases, inl, inr, arith,
}
use kubefork_controller.Base.GoMap.{GoMap, lookup, lookup-nil}
use kubefork_controller.Base.Result.{Result, ok, err, ok-injective}
use kubefork_controller.Base.Result
use kubefork_controller.Base.Exec.{>>=-eq-ok}
use kubefork_controller.Api.{NamespacedName, TypeMeta}
use kubefork_controller.Kube.{Kube, Object, Unstructured, unstructured, meta, meta-set_meta}
use kubefork_controller.Kube.Laws.{Tracks}
use kubefork_controller.Refresh.{
  ObjectList, desired_ids, handle_existing, mutate, refresh, object_name,
}
use kubefork_controller.Refresh.Naming.{FloatOps}
use kubefork_controller.Refresh.Sweep.{is_desired, lookup-sweep}
use kubefork_controller.Refresh.Existing.{handle_existing-eq-ok}
use kubefork_controller.Refresh.Converge.{IsTyped, IsStable, item_name}
use kubefork_controller.Refresh.Owned.{Distinct, Owning, Owns, refresh-Owns}

abbrev pub name_identity : Object → Result String
name_identity obj = ok (meta obj).name

abbrev pub names : List Object → List String
names os = map (λ o. (meta o).name) os

-- A name that is written as it is.
abbrev pub IsWritable : Object → Type 0
IsWritable o = ((meta o).name ≢ "") × (count (meta o).name ≤ 63)

find_last-passes :
    (p : Unstructured → Bool) (us : List Unstructured) (u : Unstructured)
    → find_last p us ≡ some u
    → p u ≡ true
find_last-passes p [] u e = cc
find_last-passes p (x ∷ us) u e = ground (arith, find_last-passes p us u)

pub desired_ids-names : (items : List Object) → desired_ids name_identity items ≡ ok (names items)
unfolding desired_ids
desired_ids-names [] = refl
desired_ids-names (o ∷ items) = rw (desired_ids-names items) refl

abbrev pub list_by_name : TypeMeta → List Object → ObjectList
list_by_name kind items = record {
  items = items;
  group_version_kind = kind;
  identity = name_identity;
}

module _ {W : Type 0} (kube : Kube W) (parent : Object) (kind : TypeMeta)
    (items : List Object) where
  abbrev list : ObjectList
  list = list_by_name kind items

  lookup-found :
      (found : GoMap String Unstructured) (w w' : W) (id : String) (u : Unstructured)
      → handle_existing kube parent list w ≡ (ok found, w')
      → lookup id found ≡ some u
      → u.metadata.name ≡ id
  lookup-found found w w' id u h there =
      let (ids, us, _, _, swept) = handle_existing-eq-ok kube parent list found w w' h in
      let collected = lookup-sweep kube parent list ids us [] found w w' id swept in
      let passed =
        find_last-passes (λ v. is_desired parent list ids id (unstructured v)) us u
          (ground (arith, lookup-nil {V = Unstructured} id)) in
      ground arith

  module _ (floats : FloatOps) where
    object_name-IsWritable :
        (found : GoMap String Unstructured) (w w' : W) (obj : Object)
        → handle_existing kube parent list w ≡ (ok found, w')
        → IsWritable obj
        → object_name kube parent list floats found (meta obj).name obj ≡ (meta obj).name
    unfolding object_name
    object_name-IsWritable found w w' obj h (named, short) =
        elim (Option-cases (lookup (meta obj).name found)) [
          | inl missing ↦ rw (missing, object_name) (ground arith)
          | inr (u, there) ↦
              rw (there, object_name) (lookup-found found w w' (meta obj).name u h there)
        ]

    module _ {Is : Object → Type 0} {stored : W → NamespacedName → Option Object}
        (tracks : Tracks kube kind (meta parent).namespace Is stored) where
      pub IsWritable-IsStable :
          (found : GoMap String Unstructured) (w w' : W) (obj : Object)
          → handle_existing kube parent list w ≡ (ok found, w')
          → ((o : Object) → (meta (tracks.admit o)).name ≡ (meta o).name)
          → IsWritable obj
          → IsStable kube parent list floats tracks found obj
      unfolding mutate
      IsWritable-IsStable found w w' obj h keeps writable seen sent named built =
          let (converted, _, h₁) = Result.>>=-eq-ok (kube.convert obj seen) _ sent built in
          let (owned, _, h₂) =
            Result.>>=-eq-ok (kube.set_controller_reference parent converted) _ sent h₁ in
          ap ok (
            keeps sent
            ∙ ap (λ o. (meta o).name) (sym (ok-injective h₂))
            ∙ ap (λ m. m.name) (meta-set_meta _ owned)
            ∙ named
            ∙ object_name-IsWritable found w w' obj h writable)

      pub item_names :
          (found : GoMap String Unstructured) (w w' : W) (os : List Object)
          → handle_existing kube parent list w ≡ (ok found, w')
          → All IsWritable os
          → map (item_name kube parent list floats tracks found) os ≡ names os
      item_names found w w' [] h _ = refl
      item_names found w w' (o ∷ os) h (writable, others) =
          ap (λ n. n ∷ map (item_name kube parent list floats tracks found) os)
            (object_name-IsWritable found w w' o h writable)
          ∙ ap ((meta o).name ∷◌) (item_names found w w' os h others)

      -- The objects that the parent owns after a refresh that succeeds are those of the names of the
      -- list, if these are distinct and can be written as they are.
      pub refresh-Owns-names :
          (w w' : W)
          → Owning kube parent tracks.admit
          → ((o : Object) → (meta (tracks.admit o)).name ≡ (meta o).name)
          → All (IsTyped kube parent list floats tracks) items
          → All IsWritable items
          → Distinct (names items)
          → refresh kube parent list floats w ≡ (ok tt, w')
          → (name : String)
          → Owns kube parent list floats tracks w' name ↔ (contains (names items) name ≡ true)
      unfolding refresh
      refresh-Owns-names w w' owning keeps typed writable distinct h =
          let (found, w₁, existing, _) = >>=-eq-ok (handle_existing kube parent list) _ w w' tt h in
          refresh-Owns kube parent list floats tracks (names items) found w w₁ w' owning
            (desired_ids-names items)
            (All-zip _ IsWritable _ items
              (λ o is can. (is, IsWritable-IsStable found w w₁ o existing keeps can)) typed
              writable)
            (subst Distinct (sym (item_names found w w₁ items existing writable)) distinct) existing
            h
