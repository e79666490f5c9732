-- ===== src/Refresh/Standing.antt =====
-- Which keys hold an object after `Refresh` of pkg/refresh/refresh.go, and after a second one.
use kubefork_controller.Base.{
  String, ◌≡◌, sym, ap, subst, ◌∙◌, Bool, true, false, not, ◌&&◌, ◌==◌, Option, none, is_some, List,
  map, All, All-map, All-zip, contains, string_eq, if◌then◌else◌, Bool-cases, inl, inr, arith,
}
use kubefork_controller.Base.GoMap.{GoMap}
use kubefork_controller.Base.Result.{Result, ok}
use kubefork_controller.Base.Exec.{>>=-eq-ok}
use kubefork_controller.Api.{NamespacedName, TypeMeta}
use kubefork_controller.Kube.{Kube, Object, Unstructured, meta}
use kubefork_controller.Kube.Laws.{Tracks}
use kubefork_controller.Refresh.{ObjectList, owned_by_parent, desired_ids, handle_existing, refresh}
use kubefork_controller.Refresh.Naming.{FloatOps}
use kubefork_controller.Refresh.Sweep.{has_id}
use kubefork_controller.Refresh.Existing.{holds}
use kubefork_controller.Refresh.Converge.{IsTyped, IsStable, item_name}
use kubefork_controller.Refresh.Outcome.{stored-refresh, refresh-written, refresh-NoneOutdated}
use kubefork_controller.Refresh.Owned.{Distinct, Distinct-after}
use kubefork_controller.Refresh.ByName.{
  names, name_identity, list_by_name, IsWritable, IsWritable-IsStable, desired_ids-names,
}
use kubefork_controller.Refresh.ByName
use kubefork_controller.Refresh.Keyed.{
  Keeping, Placing, NamedAfter, Fits, item_names, Typed-IsStable,
}
use kubefork_controller.Refresh.Named.{map-place}

-- An object that the parent owns and whose identity is none of those.
abbrev pub is_stale : Object → (Object → Result String) → List String → Object → Bool
is_stale parent identity ids o =
    owned_by_parent o parent && has_id (identity o) (λ id. not (contains ids id))

-- Between two worlds, the objects of the names came to be in the parent's namespace, and the stale
-- ones went.
pub record Standing {W : Type 0} (stored : W → NamespacedName → Option Object) (parent : Object)
    (identity : Object → Result String) (ids written : List String) (w w' : W) : Type 0 where
  pub present :
      (k : NamespacedName)
      → is_some (stored w' k) ≡ (
          if k.namespace == (meta parent).namespace && contains written k.name
          then true
          else is_some (stored w k)
            && not (
                k.namespace == (meta parent).namespace
                && holds (is_stale parent identity ids) (stored w k)))
  pub current :
      (k : NamespacedName)
      → (k.namespace == (meta parent).namespace
          && holds (is_stale parent identity ids) (stored w' k))
        ≡ false

-- A second time of the same, with the same identities and names, leaves the same keys with an object.
pub Standing-again :
    {W : Type 0} (stored : W → NamespacedName → Option Object) (parent : Object)
    (identity : Object → Result String) (ids written : List String) (w w' w'' : W)
    → Standing stored parent identity ids written w w'
    → Standing stored parent identity ids written w' w''
    → (k : NamespacedName) → is_some (stored w'' k) ≡ is_some (stored w' k)
Standing-again stored parent identity ids written w w' w'' first second k =
    ground (arith, first.present k, first.current k, second.present k)

-- Other worlds that hold the same.
pub Standing-between :
    {W : Type 0} (stored : W → NamespacedName → Option Object) (parent : Object)
    (identity : Object → Result String) (ids written : List String) (w₁ w₂ w w' : W)
    → ((k : NamespacedName) → stored w₁ k ≡ stored w k)
    → ((k : NamespacedName) → stored w' k ≡ stored w₂ k)
    → Standing stored parent identity ids written w₁ w₂
    → Standing stored parent identity ids written w w'
Standing-between stored parent identity ids written w₁ w₂ w w' same same' s = record {
  present = λ k. rw (same' k, sym (same k)) (s.present k);
  current = λ k. rw (same' k) (s.current k);
}

is_some-pruned :
    (b : Bool) (o : Option Object) → is_some (if b then none else o) ≡ (is_some o && not b)
is_some-pruned true o = ground arith
is_some-pruned false o = ground arith

module _ {W : Type 0} (kube : Kube W) (parent : Object) (list : ObjectList) (floats : FloatOps)
    {Is : Object → Type 0} {stored : W → NamespacedName → Option Object}
    (tracks : Tracks kube list.group_version_kind (meta parent).namespace Is stored)
    (ids : List String) (found : GoMap String Unstructured) (w w₁ w' : W)
    (wanted : desired_ids list.identity list.items ≡ ok ids)
    (typed : All (IsTyped kube parent list floats tracks) list.items)
    (existing : handle_existing kube parent list w ≡ (ok found, w₁))
    (h : refresh kube parent list floats w ≡ (ok tt, w')) where
  abbrev item_names_found : List String
  item_names_found = map (item_name kube parent list floats tracks found) list.items

  -- Under the name of an item there is an object afterwards.
  is_some-written :
      (name : String)
      → Distinct item_names_found
      → contains item_names_found name ≡ true
      → is_some (stored w' (record { namespace = (meta parent).namespace; name = name })) ≡ true
  is_some-written name distinct written =
      let f = item_name kube parent list floats tracks found in
      let (before, after, obj, place, at) = map-place f list.items name written in
      let (seen, sent, built, _, seen_name, held) =
        refresh-written kube parent list floats tracks found w w₁ w' before after obj place typed
          existing h
          (Distinct-after f before after obj (subst (λ l. Distinct (map f l)) place distinct)) in
      let k = λ (n : String).
        let key : NamespacedName = record { namespace = (meta parent).namespace; name = n } in
        key in
      ap (λ n. is_some (stored w' (k n))) at ∙ ap is_some held

  is_some-refresh :
      (k : NamespacedName)
      → Distinct item_names_found
      → is_some (stored w' k) ≡ (
          if k.namespace == (meta parent).namespace && contains item_names_found k.name
          then true
          else is_some (stored w k)
            && not (
                k.namespace == (meta parent).namespace
                && holds (is_stale parent list.identity ids) (stored w k)))
  is_some-refresh k distinct =
      elim (Bool-cases
        (k.namespace == (meta parent).namespace && contains item_names_found k.name)) [
          | inl written ↦ elim (string_eq.dec k.namespace (meta parent).namespace) [
            | yes inside ↦ rw written (
                ap (λ n. is_some (stored w' (record { namespace = n; name = k.name }))) inside
                ∙ is_some-written k.name distinct (ground arith))
            | no outside ↦ ground arith
          ]
          | inr kept ↦ rw kept (
              ap is_some (
                stored-refresh kube parent list floats tracks ids found w w₁ w' k wanted typed
                  existing h kept)
              ∙ is_some-pruned _ (stored w k))
        ]

  -- If the items are written under the given names, and what is written has their identities.
  Standing-named :
      (written : List String)
      → item_names_found ≡ written
      → Distinct written
      → All (IsStable kube parent list floats tracks found) list.items
      → Standing stored parent list.identity ids written w w'
  Standing-named written same distinct stable =
      subst (λ l. Standing stored parent list.identity ids l w w') same
        (record {
          present = λ k. is_some-refresh k (subst Distinct (sym same) distinct);
          current = λ k. elim (string_eq.dec k.namespace (meta parent).namespace) [
            | yes inside ↦ ground (
              arith,
              refresh-NoneOutdated kube parent list floats tracks ids found w w₁ w' wanted
                  (All-zip _ _ _ list.items (λ o is t. (is, t)) typed stable) existing h k inside,
            )
            | no outside ↦ ground arith
          ];
        })

module _ {W : Type 0} (kube : Kube W) (parent : Object) (list : ObjectList) (floats : FloatOps)
    {Is : Object → Type 0} {stored : W → NamespacedName → Option Object}
    (tracks : Tracks kube list.group_version_kind (meta parent).namespace Is stored)
    (canonical : String → String) (Typed : Object → Type 0)
    (keeping : Keeping kube parent list.identity tracks.admit Typed)
    (placing : Placing list.identity Typed) where
  pub refresh-Standing :
      (ids : List String) (w w' : W)
      → NamedAfter kube parent list floats tracks canonical w
      → desired_ids list.identity list.items ≡ ok ids
      → All (IsTyped kube parent list floats tracks) list.items
      → All Typed list.items
      → All (Fits kube parent list floats tracks canonical) list.items
      → Distinct (names list.items)
      → refresh kube parent list floats w ≡ (ok tt, w')
      → Standing stored parent list.identity ids (names list.items) w w'
  unfolding refresh
  refresh-Standing ids w w' named wanted typed go_typed fits distinct h =
      let (found, w₁, existing, _) = >>=-eq-ok (handle_existing kube parent list) _ w w' tt h in
      let same_names =
        item_names kube parent list floats tracks canonical found w w₁ named existing list.items
          fits in
      Standing-named kube parent list floats tracks ids found w w₁ w' wanted typed existing h
        (names list.items) same_names distinct
        (All-map Typed _ list.items
          (Typed-IsStable kube parent list floats tracks canonical Typed keeping placing found)
          go_typed)

module _ {W : Type 0} (kube : Kube W) (parent : Object) (kind : TypeMeta) (items : List Object)
    (floats : FloatOps) {Is : Object → Type 0} {stored : W → NamespacedName → Option Object}
    (tracks : Tracks kube kind (meta parent).namespace Is stored) where
  -- For a list whose identities are its names.
  pub refresh-Standing-names :
      (w w' : W)
      → ((o : Object) → (meta (tracks.admit o)).name ≡ (meta o).name)
      → All (IsTyped kube parent (list_by_name kind items) floats tracks) items
      → All IsWritable items
      → Distinct (names items)
      → refresh kube parent (list_by_name kind items) floats w ≡ (ok tt, w')
      → Standing stored parent name_identity (names items) (names items) w w'
  unfolding refresh
  refresh-Standing-names w w' keeps typed writable distinct h =
      let list = list_by_name kind items in
      let (found, w₁, existing, _) = >>=-eq-ok (handle_existing kube parent list) _ w w' tt h in
      Standing-named kube parent list floats tracks (names items) found w w₁ w'
        (desired_ids-names items) typed existing h (names items)
        (ByName.item_names kube parent kind items floats tracks found w w₁ items existing writable)
        distinct
        (All-map IsWritable _ items
          (λ o.
            IsWritable-IsStable kube parent kind items floats tracks found w w₁ o existing keeps)
          writable)
