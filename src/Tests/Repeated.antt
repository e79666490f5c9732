-- ===== src/Tests/Repeated.antt =====
-- A second update of a Fork right after the one that made its copied Service, or its VSConfig.
use kubefork_controller.Base.{◌≡◌, refl, none, ◌∷◌, [], string_eq, nat_eq}
use kubefork_controller.Base.Order.{before}
use kubefork_controller.Base.Sort.{sort_by, insert_by}
use kubefork_controller.Base.Text.{split, take}
use kubefork_controller.Base.GoMap.{lookup, append_to, insert, insert_all, values}
use kubefork_controller.Base.Result.{ok}
use kubefork_controller.Base.Exec.{◌>>=◌, for_each}
use kubefork_controller.Refresh.{
  owned_by_parent, empty_object, refresh, handle_existing, sweep, desired_ids, apply_item, mutate,
  object_name,
}
use kubefork_controller.Refresh.Naming.{create_resource_name, shrink}
use kubefork_controller.Application.{
  generate_deployment_copies, copied_deployment, generate_lists, generate_services,
  generate_vs_configs, service_objects, vs_config_objects, service_identity, vs_config_identity,
  copied_service,
}
use kubefork_controller.Application.Deployments
use kubefork_controller.Application.Deployments.{
  apply_metadata, apply_template, build_deployment_copy_spec, copy_spec, merge_map, routing_labels,
}
use kubefork_controller.Application.Services
use kubefork_controller.Application.Services.{
  get_label_key_for_routing_label, build_vs_config, copy_port, service_name,
}
use kubefork_controller.Slug.{parse_manager}
use kubefork_controller.Application.Builder.{
  get_fork_header_key, fork_target_services, existing_forked_services, collect_routes,
  list_deployments_routable_from_svc, list_routable, add_routes, routable_from, sort_by_name,
  add_inverse, add_inverses, by_name, inverse_from, inverse_map,
}
use kubefork_controller.Application.Builder
use kubefork_controller.Updaters.{update_microservice, update_fork, refresh_lists}
use kubefork_controller.Kube
use kubefork_controller.Tests.Floats.{fractions}
use kubefork_controller.Tests.Samples.{sample_fork, same_order}
use kubefork_controller.Tests.Routing.{app_of}
use kubefork_controller.Tests.OneKind.{one_kind_tracks, one_kind-KindApart, held}
use kubefork_controller.Tests.Keeping.{IsService-Keeping, IsVsConfig-Keeping}
use kubefork_controller.Updaters.Undisturbed.{Undisturbed}
use kubefork_controller.Refresh.{ObjectList}
use kubefork_controller.Application.{generate_deployment_copies}
use kubefork_controller.Updaters.Settled.{
  services-update_microservice_again, vs_configs-update_microservice_again,
}
use kubefork_controller.Tests.Originals.{
  service_type, config_type, service_cluster, config_cluster, service_finish, config_finish,
  service_app, config_app, alice, service_names, config_names, short, distinct, service_built,
  config_built, service_updated, config_updated, service-Owning, config-Owning, service_typed,
  config_typed,
}

service_built_again :
    Builder.build service_cluster sample_fork same_order service_finish ≡ ok service_app
unfolding Builder.build get_fork_header_key parse_manager split nat_eq fork_target_services
    existing_forked_services collect_routes list_deployments_routable_from_svc list_routable app_of
service_built_again = refl

service_updated_again :
    update_microservice service_cluster fractions same_order alice service_finish
    ≡ (ok tt, service_finish)
unfolding Builder.build get_fork_header_key parse_manager split nat_eq fork_target_services
    existing_forked_services collect_routes list_deployments_routable_from_svc list_routable app_of
    add_routes routable_from sort_by_name sort_by insert_by before lookup string_eq add_inverse
    add_inverses by_name inverse_from inverse_map append_to insert values generate_deployment_copies
    copied_deployment Deployments.build_copy apply_metadata apply_template
    build_deployment_copy_spec copy_spec merge_map routing_labels get_label_key_for_routing_label
    insert_all update_microservice update_fork refresh_lists refresh handle_existing sweep
    desired_ids apply_item empty_object mutate object_name owned_by_parent take create_resource_name
    shrink for_each ◌>>=◌ generate_lists generate_services generate_vs_configs service_objects
    vs_config_objects service_identity vs_config_identity copied_service Services.build_copy
    build_vs_config copy_port service_name
service_updated_again = refl

services-update_microservice_again_example :
    (copies : ObjectList) × (generate_deployment_copies service_app ≡ ok copies)
    × Undisturbed service_cluster fractions
        (held service_type)
        (Kube.fork sample_fork)
        (copies ∷ [])
        (generate_services service_app)
        (generate_vs_configs service_cluster.to_vs_config service_app ∷ [])
        service_finish
        service_finish
services-update_microservice_again_example =
    services-update_microservice_again service_cluster fractions sample_fork service_app service_app
      same_order alice refl (short service_app.services service_names)
      (distinct service_app.services service_names) none service_finish service_finish refl refl
      service_built service_built_again service_updated service_updated_again
      (one_kind_tracks service_type "ns") (one_kind-KindApart service_type) service-Owning
      (IsService-Keeping service_type) service_typed (λ name. refl)

config_built_again :
    Builder.build config_cluster sample_fork same_order config_finish ≡ ok config_app
unfolding Builder.build get_fork_header_key parse_manager split nat_eq fork_target_services
    existing_forked_services collect_routes list_deployments_routable_from_svc list_routable app_of
config_built_again = refl

config_updated_again :
    update_microservice config_cluster fractions same_order alice config_finish
    ≡ (ok tt, config_finish)
unfolding Builder.build get_fork_header_key parse_manager split nat_eq fork_target_services
    existing_forked_services collect_routes list_deployments_routable_from_svc list_routable app_of
    add_routes routable_from sort_by_name sort_by insert_by before lookup string_eq add_inverse
    add_inverses by_name inverse_from inverse_map append_to insert values generate_deployment_copies
    copied_deployment Deployments.build_copy apply_metadata apply_template
    build_deployment_copy_spec copy_spec merge_map routing_labels get_label_key_for_routing_label
    insert_all update_microservice update_fork refresh_lists refresh handle_existing sweep
    desired_ids apply_item empty_object mutate object_name owned_by_parent take create_resource_name
    shrink for_each ◌>>=◌ generate_lists generate_services generate_vs_configs service_objects
    vs_config_objects service_identity vs_config_identity copied_service Services.build_copy
    build_vs_config copy_port service_name
config_updated_again = refl

vs_configs-update_microservice_again_example :
    (copies : ObjectList) × (generate_deployment_copies config_app ≡ ok copies)
    × Undisturbed config_cluster fractions
        (held config_type)
        (Kube.fork sample_fork)
        (copies ∷ generate_services config_app ∷ [])
        (generate_vs_configs config_cluster.to_vs_config config_app)
        []
        config_finish
        config_finish
vs_configs-update_microservice_again_example =
    vs_configs-update_microservice_again config_cluster fractions sample_fork config_app config_app
      same_order alice refl (short config_app.services config_names)
      (distinct config_app.services config_names) none config_finish config_finish refl refl
      config_built config_built_again config_updated config_updated_again
      (one_kind_tracks config_type "ns") (one_kind-KindApart config_type) config-Owning
      (IsVsConfig-Keeping config_type) config_typed (λ name. refl)
