-- ===== src/Tests/Owned.antt =====
-- The identities that a parent owns after a refresh.
use kubefork_controller.Base.{
  String, ◌≡◌, refl, sym, ap, ◌∙◌, true, ◌↔◌, none, some, List, [], ◌∷◌, string_eq, contains,
}
use kubefork_controller.Base.Result.{ok, ok-injective}
use kubefork_controller.Api.{ObjectMeta, OwnerReference}
use kubefork_controller.Kube.{Object, meta, object_kind, meta-set_meta}
use kubefork_controller.Refresh.{any_refers}
use kubefork_controller.Refresh.Owned.{Owning, Owns, refresh-Owns}
use kubefork_controller.Tests.Blank.{own_with, owner}
use kubefork_controller.Tests.Floats.{fractions}
use kubefork_controller.Tests.OneSlot.{one_slot, one_slot_tracks}
use kubefork_controller.Tests.Refreshing.{
  config_kind, parent, by_name, owned_object, full_run, swept, wanted, typed, stable,
}

pub own_with-refers :
    (p o owned : Object) (refs : List OwnerReference)
    → any_refers (meta p) (object_kind p) (owner p ∷ []) ≡ true
    → own_with p o refs ≡ ok owned
    → any_refers (meta p) (object_kind p) (meta owned).owner_references ≡ true
own_with-refers p o owned [] self e =
    ap (λ (m : ObjectMeta). any_refers (meta p) (object_kind p) m.owner_references)
      (ap meta (sym (ok-injective e)) ∙ meta-set_meta _ o)
    ∙ self
own_with-refers p o owned (_ ∷ _) self e = cc

refers_itself : any_refers (meta parent) (object_kind parent) (owner parent ∷ []) ≡ true
unfolding string_eq
refers_itself = refl

owning : Owning one_slot parent (one_slot_tracks config_kind "ns").admit
unfolding one_slot_tracks
owning = record {
  referred = λ o owned. own_with-refers parent o owned (meta o).owner_references refers_itself;
  admitted = λ o. refl;
}

refresh-Owns_example :
    Owns one_slot parent by_name fractions
      (one_slot_tracks config_kind "ns")
      (some (owned_object "new"))
      "new"
    ↔ (contains {A = String} ("new" ∷ []) "new" ≡ true)
refresh-Owns_example =
    refresh-Owns one_slot parent by_name fractions (one_slot_tracks config_kind "ns") ("new" ∷ [])
      [] (some (owned_object "old")) none (some (owned_object "new")) owning wanted
      ((typed, stable), tt) ((refl, tt)) swept full_run "new"
