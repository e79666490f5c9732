-- ===== src/Tests/Originals.antt =====
-- An update of a Fork that makes its copied Service, and one that makes its VSConfig.
use kubefork_controller.Base.{
  String, All, subst, ◌≡◌, ◌≢◌, refl, sym, ◌↔◌, true, false, none, List, [], ◌∷◌, string_eq, nat_eq,
  ◌==◌, contains, arith,
}
use kubefork_controller.Base.Order.{before}
use kubefork_controller.Base.Sort.{sort_by, insert_by}
use kubefork_controller.Base.Text.{split, take}
use kubefork_controller.Base.GoMap.{lookup, append_to, insert, insert_all, values}
use kubefork_controller.Base.Result.{ok}
use kubefork_controller.Base.Exec.{◌>>=◌, for_each}
use kubefork_controller.Api.{NamespacedName, TypeMeta, Service, VsConfig}
use kubefork_controller.Kube.{Kube, Object, service, vs_config, meta, object_kind}
use kubefork_controller.Kube
use kubefork_controller.Refresh.{
  any_refers, owned_by_parent, empty_object, refresh, handle_existing, sweep, desired_ids,
  apply_item, mutate, object_name,
}
use kubefork_controller.Refresh.Naming.{create_resource_name, shrink}
use kubefork_controller.Refresh.Owned.{Owning, Distinct}
use kubefork_controller.Application.{
  App, generate_deployment_copies, copied_deployment, generate_lists, generate_services,
  generate_vs_configs, service_objects, vs_config_objects, service_identity, vs_config_identity,
  copied_service,
}
use kubefork_controller.Application.Deployments
use kubefork_controller.Application.Deployments.{
  apply_metadata, apply_template, build_deployment_copy_spec, copy_spec, merge_map, routing_labels,
}
use kubefork_controller.Application.Services
use kubefork_controller.Application.Services.{
  get_label_key_for_routing_label, build_vs_config, copy_port, service_name,
}
use kubefork_controller.Slug.{parse_manager}
use kubefork_controller.Application.Builder.{
  get_fork_header_key, fork_target_services, existing_forked_services, collect_routes,
  list_deployments_routable_from_svc, list_routable, add_routes, routable_from, sort_by_name,
  add_inverse, add_inverses, by_name, inverse_from, inverse_map,
}
use kubefork_controller.Application.Builder
use kubefork_controller.Updaters.{update_microservice, update_fork, refresh_lists}
use kubefork_controller.Updaters.Copied.{IsShort}
use kubefork_controller.Updaters.Originals.{original_names, names_for}
use kubefork_controller.Updaters.Lists.{OwnsAs, is_misnamed}
use kubefork_controller.Updaters.Owned.{
  update_microservice-OwnsServices, update_microservice-OwnsVsConfigs,
}
use kubefork_controller.Tests.Blank.{owner}
use kubefork_controller.Tests.Floats.{fractions}
use kubefork_controller.Tests.Samples.{sample_fork, same_order}
use kubefork_controller.Tests.Routing.{app_of}
use kubefork_controller.Tests.OneKind.{
  Slot, one_kind, one_kind_tracks, one_kind-KindApart, held, IsKept, read_config,
}
use kubefork_controller.Tests.Keeping.{IsService-Keeping, IsVsConfig-Keeping}
use kubefork_controller.Tests.Owned.{own_with-refers}

refers_itself :
    any_refers
      (meta (Kube.fork sample_fork))
      (object_kind (Kube.fork sample_fork))
      (owner (Kube.fork sample_fork) ∷ [])
    ≡ true
unfolding string_eq
refers_itself = refl

abbrev pub alice : NamespacedName
alice = record { namespace = "ns"; name = "alice" }

abbrev pub service_type : TypeMeta
service_type = record { kind = "Service"; api_version = "v1" }

abbrev pub service_cluster : Kube Slot
service_cluster = one_kind service_type

abbrev pub service_finish : Slot
service_finish = (update_microservice service_cluster fractions same_order alice none).1

pub service_updated :
    update_microservice service_cluster fractions same_order alice none ≡ (ok tt, service_finish)
unfolding Builder.build get_fork_header_key parse_manager split nat_eq fork_target_services
    existing_forked_services collect_routes list_deployments_routable_from_svc list_routable app_of
    add_routes routable_from sort_by_name sort_by insert_by before lookup string_eq add_inverse
    add_inverses by_name inverse_from inverse_map append_to insert values generate_deployment_copies
    copied_deployment Deployments.build_copy apply_metadata apply_template
    build_deployment_copy_spec copy_spec merge_map routing_labels get_label_key_for_routing_label
    insert_all update_microservice update_fork refresh_lists refresh handle_existing sweep
    desired_ids apply_item empty_object mutate object_name owned_by_parent take create_resource_name
    shrink for_each ◌>>=◌ generate_lists generate_services generate_vs_configs service_objects
    vs_config_objects service_identity vs_config_identity copied_service Services.build_copy
    build_vs_config copy_port service_name
service_updated = refl

pub service-Owning :
    Owning service_cluster (Kube.fork sample_fork) (one_kind_tracks service_type "ns").admit
unfolding one_kind_tracks
service-Owning = record {
  referred = λ o owned.
      own_with-refers (Kube.fork sample_fork) o owned (meta o).owner_references refers_itself;
  admitted = λ o. refl;
}

pub service_typed :
    (s : Service) (name : String)
    → IsKept service_type (empty_object service_cluster (Kube.fork sample_fork) name (service s))
unfolding empty_object string_eq
service_typed s name = refl

abbrev pub config_type : TypeMeta
config_type = record { kind = "VSConfig"; api_version = "fork.k8s.wantedly.com/v1beta1" }

abbrev pub config_cluster : Kube Slot
config_cluster = one_kind config_type

abbrev pub config_finish : Slot
config_finish = (update_microservice config_cluster fractions same_order alice none).1

pub config_updated :
    update_microservice config_cluster fractions same_order alice none ≡ (ok tt, config_finish)
unfolding Builder.build get_fork_header_key parse_manager split nat_eq fork_target_services
    existing_forked_services collect_routes list_deployments_routable_from_svc list_routable app_of
    add_routes routable_from sort_by_name sort_by insert_by before lookup string_eq add_inverse
    add_inverses by_name inverse_from inverse_map append_to insert values generate_deployment_copies
    copied_deployment Deployments.build_copy apply_metadata apply_template
    build_deployment_copy_spec copy_spec merge_map routing_labels get_label_key_for_routing_label
    insert_all update_microservice update_fork refresh_lists refresh handle_existing sweep
    desired_ids apply_item empty_object mutate object_name owned_by_parent take create_resource_name
    shrink for_each ◌>>=◌ generate_lists generate_services generate_vs_configs service_objects
    vs_config_objects service_identity vs_config_identity copied_service Services.build_copy
    build_vs_config copy_port service_name
config_updated = refl

pub config-Owning :
    Owning config_cluster (Kube.fork sample_fork) (one_kind_tracks config_type "ns").admit
unfolding one_kind_tracks
config-Owning = record {
  referred = λ o owned.
      own_with-refers (Kube.fork sample_fork) o owned (meta o).owner_references refers_itself;
  admitted = λ o. refl;
}

pub config_typed :
    (v : VsConfig) (name : String)
    → IsKept config_type (empty_object config_cluster (Kube.fork sample_fork) name (vs_config v))
unfolding empty_object string_eq
config_typed v name = refl

abbrev pub service_app : App
service_app = app_of (Builder.build service_cluster sample_fork same_order none)

abbrev pub config_app : App
config_app = app_of (Builder.build config_cluster sample_fork same_order none)

pub service_built : Builder.build service_cluster sample_fork same_order none ≡ ok service_app
unfolding Builder.build get_fork_header_key parse_manager split nat_eq fork_target_services
    existing_forked_services collect_routes list_deployments_routable_from_svc list_routable app_of
service_built = refl

pub config_built : Builder.build config_cluster sample_fork same_order none ≡ ok config_app
unfolding Builder.build get_fork_header_key parse_manager split nat_eq fork_target_services
    existing_forked_services collect_routes list_deployments_routable_from_svc list_routable app_of
config_built = refl

pub service_names : names_for sample_fork service_app.services ≡ "web-alice" ∷ []
unfolding Builder.build get_fork_header_key parse_manager split nat_eq fork_target_services
    existing_forked_services collect_routes list_deployments_routable_from_svc list_routable app_of
service_names = refl

pub config_names : names_for sample_fork config_app.services ≡ "web-alice" ∷ []
unfolding Builder.build get_fork_header_key parse_manager split nat_eq fork_target_services
    existing_forked_services collect_routes list_deployments_routable_from_svc list_routable app_of
config_names = refl

not_empty : (◌==◌ {A = String} "web-alice" "") ≡ false
unfolding string_eq
not_empty = refl

named : ◌≢◌ {A = String} "web-alice" ""
named same = ground (arith, not_empty)

pub short :
    (svcs : List Service)
    → names_for sample_fork svcs ≡ "web-alice" ∷ []
    → All IsShort (names_for sample_fork svcs)
short svcs names = subst (All IsShort) (sym names) ((named, omega arith), tt)

pub distinct :
    (svcs : List Service)
    → names_for sample_fork svcs ≡ "web-alice" ∷ []
    → Distinct (names_for sample_fork svcs)
distinct svcs names = subst Distinct (sym names) (refl, tt)

update_microservice-OwnsServices_example :
    (OwnsAs (held service_type) sample_fork service_identity service_finish "web"
      ↔ (contains (original_names service_app.services) "web" ≡ true))
    × (is_misnamed (held service_type) sample_fork service_identity service_finish "web-alice"
        ≡ false)
update_microservice-OwnsServices_example =
    update_microservice-OwnsServices service_cluster fractions sample_fork service_app same_order
      alice (one_kind_tracks service_type "ns") (one_kind-KindApart service_type) none
      service_finish service-Owning (IsService-Keeping service_type) service_typed
      (short service_app.services service_names) (distinct service_app.services service_names)
      (λ name. refl) refl service_built service_updated "web" "web-alice"

update_microservice-OwnsVsConfigs_example :
    (OwnsAs (held config_type) sample_fork (vs_config_identity read_config) config_finish "web"
      ↔ (contains (original_names config_app.services) "web" ≡ true))
    × (is_misnamed
          (held config_type)
          sample_fork
          (vs_config_identity read_config)
          config_finish
          "web-alice"
        ≡ false)
update_microservice-OwnsVsConfigs_example =
    update_microservice-OwnsVsConfigs config_cluster fractions sample_fork config_app same_order
      alice (one_kind_tracks config_type "ns") (one_kind-KindApart config_type) none config_finish
      config-Owning (IsVsConfig-Keeping config_type) config_typed
      (short config_app.services config_names) (distinct config_app.services config_names)
      (λ name. refl) refl config_built config_updated "web" "web-alice"
