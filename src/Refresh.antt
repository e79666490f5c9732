-- ===== src/Refresh.antt =====
-- pkg/refresh/refresh.go: the objects that a parent should own are created or updated, and the
-- others that it owns are deleted.
pub mod Naming
pub mod Sweep
pub mod Existing
pub mod Converge
pub mod Outcome
pub mod Owned
pub mod ByName
pub mod Keyed
pub mod Named
pub mod Standing
pub mod Bounds
use Prim.Native.String.{count}
use kubefork_controller.Base.{
  String, Bool, List, [], ◌∷◌, Option, none, some, ltb, contains, string_eq, ◌==◌, ◌&&◌, not, false,
  true, if◌then◌else◌,
}
use kubefork_controller.Base.GoMap.{GoMap, lookup, insert}
use kubefork_controller.Base.Text.{take}
use kubefork_controller.Base.Result.{Result, ok}
use kubefork_controller.Base.Result
use kubefork_controller.Base.Exec.{Exec, pure, lift, read, ◌>>=◌, ◌>>◌, for_each}
use kubefork_controller.Api.{TypeMeta, ObjectMeta, OwnerReference}
use kubefork_controller.Kube.{Kube, Object, unstructured, Unstructured, meta, set_meta, object_kind}
use kubefork_controller.Refresh.Naming.{FloatOps, create_resource_name}

pub record ObjectList : Type 0 where
  pub items : List Object
  pub group_version_kind : TypeMeta
  pub identity : Object → Result String

-- One reference of `ownedByParent`: the conditions of the three `continue`s.
abbrev pub refers_to : ObjectMeta → TypeMeta → OwnerReference → Bool
refers_to parent gvk ref =
    ref.name == parent.name && (ref.api_version == gvk.api_version && ref.kind == gvk.kind)

abbrev pub any_refers : ObjectMeta → TypeMeta → List OwnerReference → Bool
any_refers parent gvk [] = false
any_refers parent gvk (ref ∷ refs) =
    if refers_to parent gvk ref then true else any_refers parent gvk refs

unfoldable pub owned_by_parent : Object → Object → Bool
owned_by_parent dependent parent =
    any_refers (meta parent) (object_kind parent) (meta dependent).owner_references

-- The first loop of `handleExisting`. Of the set only membership is used.
unfoldable pub desired_ids : (Object → Result String) → List Object → Result (List String)
desired_ids identity [] = ok []
desired_ids identity (o ∷ os) =
    let rest = desired_ids identity os in
    Result.◌>>=◌ (identity o) λ id. Result.◌>>=◌ rest λ ids. ok (id ∷ ids)

module _ {W : Type 0} (kube : Kube W) (parent : Object) where
  -- `emptyObj`, with its namespace and its name set.
  unfoldable pub empty_object : String → Object → Object
  empty_object name obj =
      let fresh = kube.new_like obj in
      set_meta (record (meta fresh) { namespace = (meta parent).namespace; name = name }) fresh

  -- The function given to `CreateOrUpdate`, with what its `defer` sets back.
  unfoldable pub mutate : Object → Object → Result Object
  mutate obj found = Result.◌>>=◌ (kube.convert obj found) λ converted.
      Result.◌>>=◌ (kube.set_controller_reference parent converted) λ owned. ok (
        set_meta
          (record (meta owned) {
            resource_version = (meta found).resource_version;
            namespace = (meta found).namespace;
            name = (meta found).name;
          })
          owned)

module _ {W : Type 0} (kube : Kube W) (parent : Object) (list : ObjectList) where
  -- The loop that deletes outdated objects and collects the others.
  unfoldable pub sweep :
      List String
      → List Unstructured
      → GoMap String Unstructured
      → Exec W (GoMap String Unstructured)
  sweep ids [] existing = pure existing
  sweep ids (u ∷ us) existing =
      let skipped = sweep ids us existing in
      let kept = λ (id : String). sweep ids us (insert id u existing) in
      if not (owned_by_parent (unstructured u) parent) then skipped else do
        id ← lift (list.identity (unstructured u))
        if contains ids id then kept id else (kube.delete (unstructured u) >> skipped)

  unfoldable pub handle_existing : Exec W (GoMap String Unstructured)
  handle_existing = do
    ids ← lift (desired_ids list.identity list.items)
    current ← read (
        kube.list_unstructured list.group_version_kind
          (record { namespace = (meta parent).namespace; label_selector = [] }))
    sweep ids current []

  module _ (floats : FloatOps) where
    -- The name of the object that is written for an item.
    unfoldable pub object_name : GoMap String Unstructured → String → Object → String
    object_name existing key obj = elim (lookup key existing) [
      | some u ↦ u.metadata.name
      | none ↦
          let name = (meta obj).name in
          if name == ""
          then create_resource_name floats key (meta parent).name
          else if ltb 63 (count name)
          then take 63 name
          else name
    ]

    -- One round of the loop of `Refresh`.
    unfoldable pub apply_item : GoMap String Unstructured → Object → Exec W (Unit {0})
    apply_item existing obj = do
      key ← lift (list.identity obj)
      kube.create_or_update (empty_object kube parent (object_name existing key obj) obj)
          (mutate kube parent obj)

    unfoldable pub refresh : Exec W (Unit {0})
    refresh = do existing ← handle_existing; for_each (apply_item existing) list.items
