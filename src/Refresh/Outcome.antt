-- ===== src/Refresh/Outcome.antt =====
-- The contract of `Refresh` in pkg/refresh/refresh.go: what a call that succeeds leaves on the
-- server, and what a call with a broken list does not touch.
use kubefork_controller.Base.{
  String, ◌≡◌, sym, ap, subst, ◌∙◌, true, false, ◌&&◌, Option, none, some, List, [], ◌∷◌, ◌++◌, map,
  All, All-map, All-zip, All-split, contains, string_eq, ◌==◌, if◌then◌else◌, arith,
}
use kubefork_controller.Base.GoMap.{GoMap}
use kubefork_controller.Base.Result.{Result, Error, ok, err, ok-injective}
use kubefork_controller.Base.Result
use kubefork_controller.Base.Exec.{>>=-of-ok, for_each, for_each-append, for_each-cons}
use kubefork_controller.Api.{NamespacedName}
use kubefork_controller.Kube.{Kube, Object, Unstructured, meta}
use kubefork_controller.Kube.Laws.{Tracks}
use kubefork_controller.Refresh.{
  ObjectList, desired_ids, handle_existing, apply_item, mutate, refresh,
}
use kubefork_controller.Refresh.Naming.{FloatOps}
use kubefork_controller.Refresh.Sweep.{has_id, is_outdated}
use kubefork_controller.Refresh.Existing.{holds, stored-handle_existing}
use kubefork_controller.Refresh.Converge.{
  IsTyped, IsStable, item_name, apply_item-Wrote, for_each-NoneOutdated, stored-for_each,
}

has_id-cons :
    (id : String) (ids : List String) (r : Result String)
    → has_id r (contains ids) ≡ true
    → has_id r (contains (id ∷ ids)) ≡ true
has_id-cons id ids (ok j) h = ground arith
has_id-cons id ids (err e) h = h

abbrev HasId : (Object → Result String) → List String → Object → Type 0
HasId identity ids obj = has_id (identity obj) (contains ids) ≡ true

HasId-cons :
    (identity : Object → Result String) (obj : Object) (items : List Object) (id : String)
    (ids : List String)
    → identity obj ≡ ok id
    → All (HasId identity ids) items
    → All (HasId identity (id ∷ ids)) (obj ∷ items)
HasId-cons identity obj items id ids first others = (
  ap (λ r. has_id r (contains (id ∷ ids))) first ∙ ground arith,
  All-map (HasId identity ids) (HasId identity (id ∷ ids)) items
      (λ o p. has_id-cons id ids (identity o) p) others,
)

-- The identity of each item is among the desired ones.
desired_ids-HasId :
    (identity : Object → Result String) (items : List Object) (ids : List String)
    → desired_ids identity items ≡ ok ids
    → All (HasId identity ids) items
unfolding desired_ids
desired_ids-HasId identity [] ids h = tt
desired_ids-HasId identity (obj ∷ items) ids h =
    let (id, first, h₁) = Result.>>=-eq-ok (identity obj) _ ids h in
    let (rest, others, h₂) = Result.>>=-eq-ok (desired_ids identity items) _ ids h₁ in
    subst (λ l. All (HasId identity l) (obj ∷ items)) (ok-injective h₂)
      (HasId-cons identity obj items id rest first (desired_ids-HasId identity items rest others))

module _ {W : Type 0} (kube : Kube W) (parent : Object) (list : ObjectList) (floats : FloatOps)
    {Is : Object → Type 0} {stored : W → NamespacedName → Option Object}
    (tracks : Tracks kube list.group_version_kind (meta parent).namespace Is stored) where
  refresh-for_each :
      (found : GoMap String Unstructured) (w w₁ w' : W)
      → handle_existing kube parent list w ≡ (ok found, w₁)
      → refresh kube parent list floats w ≡ (ok tt, w')
      → for_each (apply_item kube parent list floats found) list.items w₁ ≡ (ok tt, w')
  unfolding refresh
  refresh-for_each found w w₁ w' existing h =
      sym (>>=-of-ok (handle_existing kube parent list) _ w w₁ found existing) ∙ h

  -- On a server that keeps the laws of `Tracks`, if the items are of the listed kind and what is
  -- written for an item has the item's identity, then after a refresh that succeeds no object of the
  -- listed kind that the parent owns in its namespace has a readable identity other than those of the
  -- items.
  pub refresh-NoneOutdated :
      (ids : List String) (found : GoMap String Unstructured) (w w₁ w' : W)
      → desired_ids list.identity list.items ≡ ok ids
      → All
          (λ obj.
            IsTyped kube parent list floats tracks obj
            × IsStable kube parent list floats tracks found obj)
          list.items
      → handle_existing kube parent list w ≡ (ok found, w₁)
      → refresh kube parent list floats w ≡ (ok tt, w')
      → (k : NamespacedName) → k.namespace ≡ (meta parent).namespace
      → holds (is_outdated parent list ids) (stored w' k) ≡ false
  refresh-NoneOutdated ids found w w₁ w' wanted items existing h =
      for_each-NoneOutdated kube parent list floats tracks ids found list.items w₁ w'
        (All-zip _ (HasId list.identity ids) _ list.items (λ o p q. (p.0, p.1, q)) items
          (desired_ids-HasId list.identity list.items ids wanted))
        (refresh-for_each found w w₁ w' existing h)
        (λ k inside.
          ground (
            arith,
            stored-handle_existing kube parent list tracks ids found w w₁ k wanted existing,
          ))

  -- On a server that keeps the laws of `Tracks`, if the items are of the listed kind, then a refresh
  -- that succeeds changes no key under which no item is written, but that it deletes there an object
  -- in the parent's namespace that the parent owns and whose identity is not that of an item.
  pub stored-refresh :
      (ids : List String) (found : GoMap String Unstructured) (w w₁ w' : W) (k : NamespacedName)
      → desired_ids list.identity list.items ≡ ok ids
      → All (IsTyped kube parent list floats tracks) list.items
      → handle_existing kube parent list w ≡ (ok found, w₁)
      → refresh kube parent list floats w ≡ (ok tt, w')
      → (k.namespace == (meta parent).namespace
          && contains (map (item_name kube parent list floats tracks found) list.items) k.name)
        ≡ false
      → stored w' k ≡ (
          if k.namespace == (meta parent).namespace
            && holds (is_outdated parent list ids) (stored w k)
          then none
          else stored w k)
  stored-refresh ids found w w₁ w' k wanted typed existing h out =
      stored-for_each kube parent list floats tracks found list.items w₁ w' k typed
        (refresh-for_each found w w₁ w' existing h) out
      ∙ stored-handle_existing kube parent list tracks ids found w w₁ k wanted existing

  -- On a server that keeps the laws of `Tracks`, if the items are of the listed kind, then after a
  -- refresh that succeeds the last item that is written under a name stands there, as the server
  -- completes what `Refresh` made of it: its conversion, with the parent as the controller, over the
  -- object of that name in the parent's namespace.
  pub refresh-written :
      (found : GoMap String Unstructured) (w w₁ w' : W) (before after : List Object) (obj : Object)
      → list.items ≡ before ++ obj ∷ after
      → All (IsTyped kube parent list floats tracks) list.items
      → handle_existing kube parent list w ≡ (ok found, w₁)
      → refresh kube parent list floats w ≡ (ok tt, w')
      → contains
          (map (item_name kube parent list floats tracks found) after)
          (item_name kube parent list floats tracks found obj)
        ≡ false
      → (seen sent : Object) × (mutate kube parent obj seen ≡ ok sent)
        × ((meta seen).namespace ≡ (meta parent).namespace)
        × ((meta seen).name ≡ item_name kube parent list floats tracks found obj)
        × (stored w' (record {
          namespace = (meta parent).namespace;
          name = item_name kube parent list floats tracks found obj;
        })
            ≡ some (tracks.admit sent))
  refresh-written found w w₁ w' before after obj split typed existing h last =
      let run =
        subst (λ l. for_each (apply_item kube parent list floats found) l w₁ ≡ (ok tt, w')) split
          (refresh-for_each found w w₁ w' existing h) in
      let (_, (typed_obj, typed_after)) =
        All-split (IsTyped kube parent list floats tracks) before (obj ∷ after)
          (subst (All (IsTyped kube parent list floats tracks)) split typed) in
      let (w₂, _, here) =
        for_each-append (apply_item kube parent list floats found) before (obj ∷ after) w₁ w' run in
      let (w₃, first, rest) =
        for_each-cons (apply_item kube parent list floats found) obj after w₂ w' here in
      let wrote = apply_item-Wrote kube parent list floats tracks found obj w₂ w₃ typed_obj first in
      let name = item_name kube parent list floats tracks found obj in
      let k : NamespacedName = record { namespace = (meta parent).namespace; name = name } in
      (
        wrote.seen,
        wrote.sent,
        wrote.built,
        wrote.seen_namespace,
        wrote.seen_name,
        stored-for_each kube parent list floats tracks found after w₃ w' k typed_after rest
              (ground arith)
            ∙ wrote.after k
            ∙ ground arith,
      )
