-- ===== src/Refresh/Named.antt =====
-- `Refresh` of pkg/refresh/refresh.go keeps the names after the identities.
use kubefork_controller.Base.{
  String, ◌≡◌, refl, sym, ap, subst, ◌∙◌, true, not, ◌==◌, Option, some, List, [], ◌∷◌, ◌++◌, map,
  All, All-split, contains, string_eq, Bool-cases, inl, inr, arith,
}
use kubefork_controller.Base.Result.{ok}
use kubefork_controller.Base.Exec.{>>=-eq-ok}
use kubefork_controller.Api.{NamespacedName}
use kubefork_controller.Kube.{Kube, Object, meta}
use kubefork_controller.Kube.Laws.{Tracks}
use kubefork_controller.Refresh.{ObjectList, desired_ids, handle_existing, refresh}
use kubefork_controller.Refresh.Naming.{FloatOps}
use kubefork_controller.Refresh.Sweep.{has_id}
use kubefork_controller.Refresh.Existing.{holds}
use kubefork_controller.Refresh.Converge.{IsTyped, item_name}
use kubefork_controller.Refresh.Outcome.{stored-refresh, refresh-written}
use kubefork_controller.Refresh.Owned.{Distinct, Distinct-after}
use kubefork_controller.Refresh.ByName.{names}
use kubefork_controller.Refresh.Keyed.{
  Keeping, Placing, NamedAfter, is_misnamed, Fits, item_names, item_name-Fits, Typed-IsStable,
}

-- An item under a name, and its place.
pub map-place :
    (f : Object → String) (items : List Object) (name : String)
    → contains (map f items) name ≡ true
    → (before after : List Object) × (obj : Object) × (items ≡ before ++ obj ∷ after)
      × (name ≡ f obj)
map-place f [] name h = absurd (cc)
map-place f (obj ∷ items) name h = elim (string_eq.dec name (f obj)) [
  | yes same ↦ ([], items, obj, refl, same)
  | no other ↦
      let (before, after, found, place, named) = map-place f items name (ground arith) in
      (obj ∷ before, after, found, ap (obj ∷◌) place, named)
]

module _ {W : Type 0} (kube : Kube W) (parent : Object) (list : ObjectList) (floats : FloatOps)
    {Is : Object → Type 0} {stored : W → NamespacedName → Option Object}
    (tracks : Tracks kube list.group_version_kind (meta parent).namespace Is stored)
    (canonical : String → String) (Typed : Object → Type 0)
    (keeping : Keeping kube parent list.identity tracks.admit Typed)
    (placing : Placing list.identity Typed) where
  -- A refresh leaves every object that the parent owns under the name of its identity, if all stood so
  -- before.
  pub refresh-NamedAfter :
      (ids : List String) (w w' : W)
      → NamedAfter kube parent list floats tracks canonical w
      → desired_ids list.identity list.items ≡ ok ids
      → All (IsTyped kube parent list floats tracks) list.items
      → All Typed list.items
      → All (Fits kube parent list floats tracks canonical) list.items
      → Distinct (names list.items)
      → refresh kube parent list floats w ≡ (ok tt, w')
      → NamedAfter kube parent list floats tracks canonical w'
  unfolding refresh
  refresh-NamedAfter ids w w' named wanted typed go_typed fits distinct h name =
      let (found, w₁, existing, _) = >>=-eq-ok (handle_existing kube parent list) _ w w' tt h in
      let f = item_name kube parent list floats tracks found in
      let k : NamespacedName = record { namespace = (meta parent).namespace; name = name } in
      elim (Bool-cases (contains (map f list.items) name)) [
        | inl written ↦
            let (before, after, obj, place, at) = map-place f list.items name written in
            let (_, (typed_obj, _)) =
              All-split Typed before (obj ∷ after) (subst (All Typed) place go_typed) in
            let (_, ((id, read, same, writable), _)) =
              All-split (Fits kube parent list floats tracks canonical) before (obj ∷ after)
                (subst (All (Fits kube parent list floats tracks canonical)) place fits) in
            let distinct_names =
              subst Distinct
                (sym (
                  item_names kube parent list floats tracks canonical found w w₁ named existing
                    list.items fits))
                distinct in
            let (seen, sent, built, _, seen_name, held) =
              refresh-written kube parent list floats tracks found w w₁ w' before after obj place
                typed existing h
                (Distinct-after f before after obj
                  (subst (λ l. Distinct (map f l)) place distinct_names)) in
            let stable =
              Typed-IsStable kube parent list floats tracks canonical Typed keeping placing found
                obj typed_obj seen sent seen_name built in
            let here : name ≡ canonical id =
              at
              ∙ item_name-Fits kube parent list floats tracks canonical found w w₁ named existing
                  obj (id, read, same, writable)
              ∙ same in
            let there : stored w' k ≡ some (tracks.admit sent) =
              ap (λ n. stored w' (record { namespace = (meta parent).namespace; name = n })) at
              ∙ held in
            ground (
              arith,
              ap (holds (is_misnamed kube parent list floats tracks canonical name)) there,
              ap (λ r. has_id r (λ id. not (name == canonical id))) (stable ∙ read),
            )
        | inr kept ↦ ground (
          arith,
          named name,
          ap (holds (is_misnamed kube parent list floats tracks canonical name)) (
              stored-refresh kube parent list floats tracks ids found w w₁ w' k wanted typed
                existing h (ground arith)),
        )
      ]
