-- ===== src/Tests/Writing.antt =====
-- The VirtualService of a Service that one Fork copies.
use kubefork_controller.Base.Sort.{sort_by, insert_by}
use kubefork_controller.Base.Order.{before}
use kubefork_controller.Base.{String, ◌≡◌, refl, true, false, none, some, [], ◌∷◌, string_eq, all}
use kubefork_controller.Base.GoMap.{lookup}
use kubefork_controller.Base.Result.{ok}
use kubefork_controller.Base.Exec.{◌>>=◌, for_each}
use kubefork_controller.Api.{ObjectMeta, NamespacedName}
use kubefork_controller.Kube.{Kube, Object, unstructured, Unstructured, meta}
use kubefork_controller.Kube
use kubefork_controller.Kube.Laws.{Tracks}
use kubefork_controller.Refresh.{
  refresh, handle_existing, sweep, owned_by_parent, desired_ids, apply_item, object_name,
  empty_object, mutate,
}
use kubefork_controller.Application.Services.{build_vs_config, service_name}
use kubefork_controller.VirtualServices
use kubefork_controller.VirtualServices.{
  VsLister, is_skipped, build_http_routes, config_routes, sort_configs, build_virtual_service,
  generate_lists, virtual_service_list, virtual_service_kind, virtual_service_of,
  virtual_service_identity,
}
use kubefork_controller.Updaters.{update_virtual_service, refresh_lists}
use kubefork_controller.Updaters.Written.{Synced, update_virtual_service-Synced}
use kubefork_controller.Tests.Blank.{named_in}
use kubefork_controller.Tests.Floats.{fractions}
use kubefork_controller.Tests.OneSlot.{Slot, one_slot, one_slot_tracks, held, IsUnstructured}
use kubefork_controller.Tests.Samples.{sample_fork, sample_service}

-- Objects are held as unstructured ones, with the name of their Service as the content.
abbrev as_unstructured : ObjectMeta → Unstructured
as_unstructured m = record { type_meta = virtual_service_kind; metadata = m; content = m.name }

abbrev slot_kube : Kube Slot
slot_kube = record one_slot {
  get_service = λ k w. ok sample_service;
  list_vs_configs = λ o w. ok (build_vs_config sample_service sample_fork "x-fork" ∷ []);
  new_like = λ o. unstructured (as_unstructured (named_in "" ""));
  convert = λ o found. ok (unstructured (as_unstructured (meta o)));
}

slot_kube_tracks : Tracks slot_kube virtual_service_list "ns" IsUnstructured held
slot_kube_tracks =
    let laws = one_slot_tracks virtual_service_list "ns" in
    record {
      admit = laws.admit;
      listed = laws.listed;
      listed_all = laws.listed_all;
      deleted = laws.deleted;
      written = laws.written;
    }

abbrev web_key : NamespacedName
web_key = record { namespace = "ns"; name = "web" }

abbrev one_config : VsLister
one_config = record {
  sorted_configs = build_vs_config sample_service sample_fork "x-fork" ∷ [];
  service = sample_service;
}

built : VirtualServices.build slot_kube web_key none ≡ ok one_config
unfolding VirtualServices.build sort_configs sort_by insert_by before
built = refl

kept : all (is_skipped sample_service) one_config.sorted_configs ≡ false
unfolding build_vs_config string_eq
kept = refl

typed :
    (name : String)
    → IsUnstructured (
        empty_object slot_kube
          (Kube.service sample_service)
          name
          (Kube.virtual_service (virtual_service_of one_config)))
unfolding empty_object
typed name = tt

abbrev web_virtual_service : Unstructured
web_virtual_service = as_unstructured (record (named_in "ns" "web") {
  labels = ("fork.k8s.wantedly.com/service", "web") ∷ [];
  owner_references =
      record { api_version = ""; kind = ""; name = "web"; uid = ""; controller = true } ∷ [];
})

updated :
    update_virtual_service slot_kube fractions web_key none ≡ (ok tt, some web_virtual_service)
unfolding update_virtual_service refresh_lists VirtualServices.build generate_lists
    build_virtual_service build_http_routes config_routes sort_configs sort_by insert_by before
    virtual_service_of virtual_service_identity refresh handle_existing sweep owned_by_parent
    desired_ids apply_item object_name empty_object mutate build_vs_config service_name lookup ◌>>=◌
    for_each string_eq
updated = refl

update_virtual_service-Synced_example :
    Synced slot_kube fractions sample_service slot_kube_tracks one_config (some web_virtual_service)
update_virtual_service-Synced_example =
    update_virtual_service-Synced slot_kube fractions sample_service slot_kube_tracks web_key
      one_config none (some web_virtual_service) refl built kept typed updated
