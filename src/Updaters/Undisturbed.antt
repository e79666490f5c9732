-- ===== src/Updaters/Undisturbed.antt =====
-- A refresh by `Update` of domain/updater/microservice.go that deletes nothing and writes over what is
-- there.
use kubefork_controller.Base.{
  String, ◌≡◌, sym, ap, subst, ◌∙◌, false, ◌&&◌, ◌==◌, Option, is_some, List, [], ◌∷◌, ◌++◌, All,
  All-map, string_eq, arith,
}
use kubefork_controller.Base.GoMap.{GoMap}
use kubefork_controller.Base.Result.{ok, ok-injective}
use kubefork_controller.Base.Exec.{for_each, for_each-append, for_each-cons, >>=-eq-ok}
use kubefork_controller.Api.{NamespacedName}
use kubefork_controller.Kube.{Kube, Object, Unstructured, unstructured, meta}
use kubefork_controller.Kube.Laws.{Tracks}
use kubefork_controller.Refresh.{ObjectList, refresh, handle_existing, apply_item, desired_ids}
use kubefork_controller.Refresh.Naming.{FloatOps}
use kubefork_controller.Refresh.Sweep.{is_outdated, sweep-current}
use kubefork_controller.Refresh.Existing.{holds, handle_existing-eq-ok}
use kubefork_controller.Refresh.Standing.{is_stale}
use kubefork_controller.Updaters.{refresh_lists}
use kubefork_controller.Updaters.Among.{refreshed_apart}
use kubefork_controller.Forks.{KindApart}
use kubefork_controller.Forks.Refreshed.{ListApart}

-- The refresh of one list among others. `handleExisting` finds the objects and leaves the world
-- as it is, so that no deletion was called; and the keys that hold an object are the same before and
-- after the items are written, so that each of these calls wrote over an object that was there.
pub record Undisturbed {W : Type 0} (kube : Kube W) (floats : FloatOps)
    (stored : W → NamespacedName → Option Object) (parent : Object) (before : List ObjectList)
    (list : ObjectList) (after : List ObjectList) (w w' : W) : Type 0 where
  pub start : W
  pub finish : W
  pub found : GoMap String Unstructured
  pub lists_before : refresh_lists kube floats parent before w ≡ (ok tt, start)
  pub unswept : handle_existing kube parent list start ≡ (ok found, start)
  pub written :
      for_each (apply_item kube parent list floats found) list.items start ≡ (ok tt, finish)
  pub lists_after : refresh_lists kube floats parent after finish ≡ (ok tt, w')
  pub same_start : (k : NamespacedName) → stored start k ≡ stored w k
  pub same_keys : (k : NamespacedName) → is_some (stored finish k) ≡ is_some (stored start k)
  pub same_end : (k : NamespacedName) → stored w' k ≡ stored finish k

module _ {W : Type 0} (kube : Kube W) (parent : Object) (list : ObjectList) {Is : Object → Type 0}
    {stored : W → NamespacedName → Option Object}
    (tracks : Tracks kube list.group_version_kind (meta parent).namespace Is stored) where
  -- Where no stale object stands, `handleExisting` makes no call that writes.
  handle_existing-current :
      (ids : List String) (found : GoMap String Unstructured) (w w' : W)
      → desired_ids list.identity list.items ≡ ok ids
      → ((k : NamespacedName)
          → (k.namespace == (meta parent).namespace
              && holds (is_stale parent list.identity ids) (stored w k))
            ≡ false)
      → handle_existing kube parent list w ≡ (ok found, w')
      → w' ≡ w
  handle_existing-current ids found w w' wanted current h =
      let (ids', us, wanted', listed, swept) =
        handle_existing-eq-ok kube parent list found w w' h in
      let same : ids ≡ ids' = ok-injective (sym wanted ∙ wanted') in
      sweep-current kube parent list ids' us [] found w w'
        (subst (λ l. All (λ u. is_outdated parent list l (unstructured u) ≡ false) us) same
          (All-map _ (λ u. is_outdated parent list ids (unstructured u) ≡ false) us
            (λ u (_, inside, held). ground (
              arith,
              current (record { namespace = (meta parent).namespace; name = u.metadata.name }),
              ap (holds (is_stale parent list.identity ids)) held,
            ))
            (tracks.listed_all w us listed)))
        swept

  module _ (floats : FloatOps) (kind : String)
      (apart : (k : NamespacedName) (v : Option Object)
        → KindApart kube kind (λ w. stored w k ≡ v)) where
    pub refresh_lists-Undisturbed :
        (before after : List ObjectList) (ids : List String) (w w' : W)
        → All (ListApart kind) before
        → All (ListApart kind) after
        → desired_ids list.identity list.items ≡ ok ids
        → ((k : NamespacedName)
            → (k.namespace == (meta parent).namespace
                && holds (is_stale parent list.identity ids) (stored w k))
              ≡ false)
        → ((k : NamespacedName) → is_some (stored w' k) ≡ is_some (stored w k))
        → refresh_lists kube floats parent (before ++ list ∷ after) w ≡ (ok tt, w')
        → Undisturbed kube floats stored parent before list after w w'
    unfolding refresh_lists refresh
    refresh_lists-Undisturbed before after ids w w' others later wanted current keys h =
        let body = λ (l : ObjectList). refresh kube parent l floats in
        let (w₁, h₁, rest) = for_each-append body before (list ∷ after) w w' h in
        let (w₃, here, h₃) = for_each-cons body list after w₁ w' rest in
        let (found, w₂, existing, items) =
          >>=-eq-ok (handle_existing kube parent list) _ w₁ w₃ tt here in
        let same = refreshed_apart kube floats kind stored apart parent before w w₁ others h₁ in
        let same' = refreshed_apart kube floats kind stored apart parent after w₃ w' later h₃ in
        let quiet : w₂ ≡ w₁ =
          handle_existing-current ids found w₁ w₂ wanted (λ k. rw (same k) (current k)) existing in
        record {
          start = w₁;
          finish = w₃;
          found = found;
          lists_before = h₁;
          unswept = existing ∙ ap (λ v. (ok found, v)) quiet;
          written =
              subst
                (λ v.
                  for_each (apply_item kube parent list floats found) list.items v ≡ (ok tt, w₃))
                quiet items;
          lists_after = h₃;
          same_start = same;
          same_keys = λ k. ap is_some (sym (same' k)) ∙ keys k ∙ ap is_some (sym (same k));
          same_end = same';
        }
