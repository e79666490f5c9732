-- ===== src/Tests/Requests.antt =====
-- The VirtualService of a Service.
use kubefork_controller.Base.Sort.{sort_by, insert_by}
use kubefork_controller.Base.Order.{before}
use kubefork_controller.Base.{
  String, ◌≡◌, refl, true, ◌&&◌, none, some, [], ◌∷◌, map, string_eq, nat_eq, ◌==◌, if◌then◌else◌,
}
use kubefork_controller.Base.GoMap.{GoMap, lookup}
use kubefork_controller.Base.Result.{Result, ok}
use kubefork_controller.Base.Exec.{◌>>=◌, for_each}
use kubefork_controller.Api.{VirtualService, NamespacedName}
use kubefork_controller.Kube.{Kube, Unstructured}
use kubefork_controller.Kube
use kubefork_controller.Kube.Laws.{Tracks}
use kubefork_controller.Refresh.{refresh, handle_existing, sweep, owned_by_parent, desired_ids}
use kubefork_controller.Refresh.Existing.{holds}
use kubefork_controller.Refresh.Sweep.{owned_with}
use kubefork_controller.Application.Services.{build_vs_config, service_name}
use kubefork_controller.VirtualServices
use kubefork_controller.VirtualServices.{
  VsLister, is_skipped, build_http_routes, config_routes, sort_configs, build_virtual_service,
  generate_lists, virtual_service_list, virtual_service_kind, virtual_service_identity,
}
use kubefork_controller.VirtualServices.Requests.{
  destinations, chosen, destinations-build_http_routes,
}
use kubefork_controller.VirtualServices.Forked.{forked_service, destinations-of-forks}
use kubefork_controller.Updaters.{update_virtual_service, refresh_lists}
use kubefork_controller.Updaters.Sync.{stored-update_virtual_service}
use kubefork_controller.Tests.Blank.{named_in}
use kubefork_controller.Tests.Floats.{fractions}
use kubefork_controller.Tests.OneSlot.{Slot, one_slot, one_slot_tracks, held, IsUnstructured}
use kubefork_controller.Tests.Samples.{sample_fork, sample_service}

abbrev alice_lister : VsLister
alice_lister = record {
  sorted_configs = map (λ f. build_vs_config sample_service f "x-fork") (sample_fork ∷ []);
  service = sample_service;
}

abbrev request : GoMap String String
request = ("x-fork", "id") ∷ []

destinations-build_http_routes_example :
    destinations request (build_http_routes alice_lister)
    ≡ chosen request alice_lister.service alice_lister.sorted_configs ∷ []
destinations-build_http_routes_example = destinations-build_http_routes request alice_lister

to_alice : chosen request alice_lister.service alice_lister.sorted_configs ≡ "web-alice"
unfolding build_vs_config service_name lookup string_eq
to_alice = refl

destinations-of-forks_example :
    destinations request (build_http_routes alice_lister)
    ≡ forked_service "id" sample_service (sample_fork ∷ []) ∷ []
destinations-of-forks_example =
    destinations-of-forks "x-fork" "id" sample_service (unfold string_eq in refl) alice_lister
      (sample_fork ∷ []) refl refl

abbrev old_virtual_service : Unstructured
old_virtual_service = record {
  type_meta = virtual_service_kind;
  metadata = record (named_in "ns" "web") {
    owner_references =
        record { api_version = ""; kind = ""; name = "web"; uid = ""; controller = true } ∷ [];
  };
  content = "web";
}

abbrev as_virtual_service : Unstructured → Result VirtualService
as_virtual_service u = ok (record {
  type_meta = u.type_meta;
  metadata = u.metadata;
  spec = record { hosts = u.content ∷ []; http = [] };
})

abbrev slot_kube : Kube Slot
slot_kube = record one_slot {
  get_service = λ k w. ok sample_service;
  to_virtual_service = as_virtual_service;
}

slot_kube_tracks : Tracks slot_kube virtual_service_list "ns" IsUnstructured held
slot_kube_tracks =
    let laws = one_slot_tracks virtual_service_list "ns" in
    record {
      admit = laws.admit;
      listed = laws.listed;
      listed_all = laws.listed_all;
      deleted = laws.deleted;
      written = laws.written;
    }

abbrev web_key : NamespacedName
web_key = record { namespace = "ns"; name = "web" }

abbrev no_configs : VsLister
no_configs = record { sorted_configs = []; service = sample_service }

built : VirtualServices.build slot_kube web_key (some old_virtual_service) ≡ ok no_configs
unfolding VirtualServices.build sort_configs sort_by insert_by before
built = refl

updated :
    update_virtual_service slot_kube fractions web_key (some old_virtual_service) ≡ (ok tt, none)
unfolding update_virtual_service refresh_lists VirtualServices.build generate_lists
    build_virtual_service build_http_routes refresh handle_existing sweep owned_by_parent
    desired_ids virtual_service_identity ◌>>=◌ for_each string_eq config_routes sort_configs sort_by
    insert_by before
updated = refl

stored-update_virtual_service_example : held none web_key ≡ (
    if web_key.namespace == "ns"
      && holds
          (owned_with
            (Kube.service sample_service)
            (build_virtual_service as_virtual_service no_configs)
            (λ _. true))
          (held (some old_virtual_service) web_key)
    then none
    else held (some old_virtual_service) web_key)
stored-update_virtual_service_example =
    stored-update_virtual_service slot_kube fractions sample_service slot_kube_tracks web_key
      no_configs (some old_virtual_service) none web_key refl built refl updated
