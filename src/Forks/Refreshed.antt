-- ===== src/Forks/Refreshed.antt =====
-- pkg/refresh/refresh.go and domain/updater leave other kinds alone.
use kubefork_controller.Base.{
  String, ◌<>◌, ◌≡◌, refl, ◌∙◌, false, not, List, [], ◌∷◌, All, string_eq, ◌==◌, contains,
}
use kubefork_controller.Base.GoMap.{GoMap, insert}
use kubefork_controller.Base.Keeps.{
  Keeps, >>=-Keeps, read->>=-Keeps, lift->>=-Keeps, for_each-Keeps, if-Keeps,
}
use kubefork_controller.Api.{ObjectMeta}
use kubefork_controller.Kube.{Kube, Object, fork, unstructured, Unstructured, set_meta, meta}
use kubefork_controller.Refresh.{
  ObjectList, owned_by_parent, sweep, handle_existing, desired_ids, empty_object, apply_item,
  refresh, mutate,
}
use kubefork_controller.Refresh.Naming.{FloatOps}
use kubefork_controller.Forks.{is_kind, KindApart}

pub is_kind-set_meta :
    (kind : String) (m : ObjectMeta) (o : Object) → is_kind kind (set_meta m o) ≡ is_kind kind o
is_kind-set_meta kind m (fork _) = refl
is_kind-set_meta kind m _ = refl

-- A list of another kind.
pub record ListApart (kind : String) (list : ObjectList) : Type 0 where
  pub kind_apart : (list.group_version_kind.kind == kind <> "List") ≡ false
  pub items_apart : All (λ o. is_kind kind o ≡ false) list.items

module _ {W : Type 0} (kube : Kube W) (kind : String) (P : W → Type 0)
    (apart : KindApart kube kind P) (parent : Object) (list : ObjectList) where
  sweep-Keeps :
      (ids : List String) (us : List Unstructured) (existing : GoMap String Unstructured)
      → All (λ u. is_kind kind (unstructured u) ≡ false) us
      → Keeps P (sweep kube parent list ids us existing)
  unfolding sweep
  sweep-Keeps ids [] existing _ w p = p
  sweep-Keeps ids (u ∷ us) existing (other, others) w p =
      let skipped = sweep-Keeps ids us existing others in
      if-Keeps P (not (owned_by_parent (unstructured u) parent)) _ _ skipped
        (lift->>=-Keeps P (list.identity (unstructured u)) _ λ id _.
          if-Keeps P (contains ids id) _ _ (sweep-Keeps ids us (insert id u existing) others) (
            >>=-Keeps P (kube.delete (unstructured u)) _ (apart.deleted (unstructured u) other)
              (λ _. skipped)))
        w p

  module _ (other_list : ListApart kind list) where
    handle_existing-Keeps : Keeps P (handle_existing kube parent list)
    unfolding handle_existing
    handle_existing-Keeps = lift->>=-Keeps P (desired_ids list.identity list.items) _ λ ids _.
        read->>=-Keeps P
          (kube.list_unstructured list.group_version_kind
            (record { namespace = (meta parent).namespace; label_selector = [] }))
          _
          λ w us found p.
            sweep-Keeps ids us []
              (apart.listed list.group_version_kind _ w us other_list.kind_apart found) w p

    module _ (floats : FloatOps) where
      apply_item-Keeps :
          (existing : GoMap String Unstructured) (obj : Object)
          → is_kind kind obj ≡ false
          → Keeps P (apply_item kube parent list floats existing obj)
      unfolding apply_item empty_object
      apply_item-Keeps existing obj other = lift->>=-Keeps P (list.identity obj) _ λ key _.
          apart.written _ (mutate kube parent obj)
            (is_kind-set_meta kind _ (kube.new_like obj) ∙ apart.like obj other)

      pub refresh-Keeps : Keeps P (refresh kube parent list floats)
      unfolding refresh
      refresh-Keeps =
          >>=-Keeps P (handle_existing kube parent list) _ handle_existing-Keeps λ existing.
            for_each-Keeps P (apply_item kube parent list floats existing)
              (λ o. is_kind kind o ≡ false) list.items (apply_item-Keeps existing)
              other_list.items_apart
