-- ===== src/Refresh/Owned.antt =====
-- `Refresh` of pkg/refresh/refresh.go as an assignment: the identities that the parent owns become
-- those of the list.
use kubefork_controller.Base.{
  String, ◌≡◌, refl, sym, ap, subst, ◌∙◌, true, false, ◌↔◌, Option, some, List, [], ◌∷◌, ◌++◌, map,
  All, All-map, All-split, contains, string_eq, not, arith,
}
use kubefork_controller.Base.GoMap.{GoMap}
use kubefork_controller.Base.Result.{Result, ok, err, ok-injective}
use kubefork_controller.Base.Result
use kubefork_controller.Api.{NamespacedName}
use kubefork_controller.Kube.{Kube, Object, Unstructured, meta, meta-set_meta, object_kind}
use kubefork_controller.Kube.Laws.{Tracks}
use kubefork_controller.Refresh.{
  ObjectList, any_refers, owned_by_parent, desired_ids, handle_existing, mutate, refresh,
}
use kubefork_controller.Refresh.Naming.{FloatOps}
use kubefork_controller.Refresh.Sweep.{has_id, is_outdated}
use kubefork_controller.Refresh.Existing.{holds}
use kubefork_controller.Refresh.Converge.{IsTyped, IsStable, item_name}
use kubefork_controller.Refresh.Outcome.{refresh-NoneOutdated, refresh-written}

abbrev pub Distinct : List String → Type 0
Distinct [] = Unit
Distinct (x ∷ xs) = (contains xs x ≡ false) × Distinct xs

-- `SetControllerReference` adds a reference that `ownedByParent` takes for one to the parent, and what
-- the server completes of an object are not its owners.
pub record Owning {W : Type 0} (kube : Kube W) (parent : Object) (admit : Object → Object)
    : Type 0 where
  pub referred :
      (o owned : Object)
      → kube.set_controller_reference parent o ≡ ok owned
      → any_refers (meta parent) (object_kind parent) (meta owned).owner_references ≡ true
  pub admitted : (o : Object) → (meta (admit o)).owner_references ≡ (meta o).owner_references

-- An item with the identity, and its place.
abbrev Item : ObjectList → String → Type 0
Item list id =
    (before after : List Object) × (obj : Object) × (list.items ≡ before ++ obj ∷ after)
    × (list.identity obj ≡ ok id)

desired_ids-place :
    (identity : Object → Result String) (items : List Object) (ids : List String) (id : String)
    → desired_ids identity items ≡ ok ids
    → contains ids id ≡ true
    → (before after : List Object) × (obj : Object) × (items ≡ before ++ obj ∷ after)
      × (identity obj ≡ ok id)
unfolding desired_ids
desired_ids-place identity [] ids id h wanted =
    absurd (let e = ap (λ l. contains l id) (ok-injective h) in cc)
desired_ids-place identity (obj ∷ items) ids id h wanted =
    let (first, read, h₁) = Result.>>=-eq-ok (identity obj) _ ids h in
    let (rest, others, h₂) = Result.>>=-eq-ok (desired_ids identity items) _ ids h₁ in
    let here = ap (λ l. contains l id) (ok-injective h₂) ∙ wanted in
    elim (string_eq.dec id first) [
      | yes same ↦ ([], items, obj, refl, read ∙ ap ok (sym same))
      | no other ↦
          let (before, after, found, place, named) =
            desired_ids-place identity items rest id others (ground arith) in
          (obj ∷ before, after, found, ap (obj ∷◌) place, named)
    ]

pub Distinct-after :
    (f : Object → String) (before after : List Object) (obj : Object)
    → Distinct (map f (before ++ obj ∷ after))
    → contains (map f after) (f obj) ≡ false
Distinct-after f [] after obj (fresh, _) = fresh
Distinct-after f (_ ∷ before) after obj (_, distinct) = Distinct-after f before after obj distinct

module _ {W : Type 0} (kube : Kube W) (parent : Object) (list : ObjectList) (floats : FloatOps)
    {Is : Object → Type 0} {stored : W → NamespacedName → Option Object}
    (tracks : Tracks kube list.group_version_kind (meta parent).namespace Is stored) where
  mutate-owned :
      (obj seen sent : Object)
      → Owning kube parent tracks.admit
      → mutate kube parent obj seen ≡ ok sent
      → owned_by_parent (tracks.admit sent) parent ≡ true
  unfolding mutate owned_by_parent
  mutate-owned obj seen sent owning built =
      let (converted, _, h₁) = Result.>>=-eq-ok (kube.convert obj seen) _ sent built in
      let (owned, set, h₂) =
        Result.>>=-eq-ok (kube.set_controller_reference parent converted) _ sent h₁ in
      let refs : (meta sent).owner_references ≡ (meta owned).owner_references =
        ap (λ o. (meta o).owner_references) (sym (ok-injective h₂))
        ∙ ap (λ m. m.owner_references) (meta-set_meta _ owned) in
      ap (any_refers (meta parent) (object_kind parent)) (owning.admitted sent ∙ refs)
      ∙ owning.referred converted owned set

  -- The parent owns an object of the listed kind with the identity, in its namespace.
  abbrev pub Owns : W → String → Type 0
  Owns w id =
      (name : String) × (o : Object) × (stored w
          (record { namespace = (meta parent).namespace; name = name })
        ≡ some o)
      × (owned_by_parent o parent ≡ true)
      × (list.identity o ≡ ok id)

  -- On a server that keeps the laws of `Tracks` and `Owning`, if the items are of the listed kind, each
  -- is written under a name of its own, and what is written for an item has the item's identity, then
  -- after a refresh that succeeds the identities of the objects of the listed kind that the parent owns
  -- in its namespace are exactly those of the items, whatever it owned before.
  pub refresh-Owns :
      (ids : List String) (found : GoMap String Unstructured) (w w₁ w' : W)
      → Owning kube parent tracks.admit
      → desired_ids list.identity list.items ≡ ok ids
      → All
          (λ obj.
            IsTyped kube parent list floats tracks obj
            × IsStable kube parent list floats tracks found obj)
          list.items
      → Distinct (map (item_name kube parent list floats tracks found) list.items)
      → handle_existing kube parent list w ≡ (ok found, w₁)
      → refresh kube parent list floats w ≡ (ok tt, w')
      → (id : String) → Owns w' id ↔ (contains ids id ≡ true)
  refresh-Owns ids found w w₁ w' owning wanted items distinct existing h id = (
    λ (name, o, held, owned, read).
        let k : NamespacedName = record { namespace = (meta parent).namespace; name = name } in
        ground (
          arith,
          refresh-NoneOutdated kube parent list floats tracks ids found w w₁ w' wanted items
              existing h k refl,
          ap (holds (is_outdated parent list ids)) held,
          ap (λ r. has_id r (λ j. not (contains ids j))) read,
        ),
    λ here.
        let (before, after, obj, place, read) =
          desired_ids-place list.identity list.items ids id wanted here in
        let (_, (stable, _)) =
          All-split (IsStable kube parent list floats tracks found) before (obj ∷ after) (
            subst (All (IsStable kube parent list floats tracks found)) place (
              All-map _ (IsStable kube parent list floats tracks found) list.items (λ o p. p.1)
                items)) in
        let (seen, sent, built, _, named, held) =
          refresh-written kube parent list floats tracks found w w₁ w' before after obj place
            (All-map _ (IsTyped kube parent list floats tracks) list.items (λ o p. p.0) items)
            existing h
            (Distinct-after (item_name kube parent list floats tracks found) before after obj (
              subst (λ l. Distinct (map (item_name kube parent list floats tracks found) l)) place
                distinct)) in
        (
          item_name kube parent list floats tracks found obj,
          tracks.admit sent,
          held,
          mutate-owned obj seen sent owning built,
          stable seen sent named built ∙ read,
        ),
  )
