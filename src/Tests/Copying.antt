-- ===== src/Tests/Copying.antt =====
-- An update of a Fork that makes its DeploymentCopy.
use kubefork_controller.Base.{
  String, All, subst, ◌≡◌, ◌≢◌, refl, sym, ◌↔◌, true, false, none, [], ◌∷◌, string_eq, nat_eq, ◌==◌,
  contains, arith,
}
use kubefork_controller.Base.Order.{before}
use kubefork_controller.Base.Sort.{sort_by, insert_by}
use kubefork_controller.Base.Text.{split, take}
use kubefork_controller.Base.GoMap.{lookup, append_to, insert, insert_all, values}
use kubefork_controller.Base.Result.{Result, ok}
use kubefork_controller.Base.Exec.{◌>>=◌, for_each}
use kubefork_controller.Api.{NamespacedName, TypeMeta, DeploymentCopy}
use kubefork_controller.Kube.{Kube, Object, deployment_copy, meta, object_kind}
use kubefork_controller.Kube
use kubefork_controller.Refresh.{
  ObjectList, any_refers, owned_by_parent, empty_object, refresh, handle_existing, sweep,
  desired_ids, apply_item, mutate, object_name,
}
use kubefork_controller.Refresh.Naming.{create_resource_name, shrink}
use kubefork_controller.Refresh.Owned.{Owning, Distinct}
use kubefork_controller.Application.{
  App, generate_deployment_copies, copied_deployment, generate_lists, generate_services,
  generate_vs_configs, service_objects, vs_config_objects, service_identity, vs_config_identity,
  copied_service,
}
use kubefork_controller.Application.Deployments
use kubefork_controller.Application.Deployments.{
  apply_metadata, apply_template, build_deployment_copy_spec, copy_spec, merge_map, routing_labels,
}
use kubefork_controller.Application.Services
use kubefork_controller.Application.Services.{
  get_label_key_for_routing_label, build_vs_config, copy_port, service_name,
}
use kubefork_controller.Slug.{parse_manager}
use kubefork_controller.Application.Builder.{
  get_fork_header_key, fork_target_services, existing_forked_services, collect_routes,
  list_deployments_routable_from_svc, list_routable, add_routes, routable_from, sort_by_name,
  add_inverse, add_inverses, by_name, inverse_from, inverse_map,
}
use kubefork_controller.Application.Builder
use kubefork_controller.Updaters.{update_microservice, update_fork, refresh_lists}
use kubefork_controller.Updaters.Copied.{
  OwnsCopy, IsShort, copy_names, update_microservice-OwnsCopy,
}
use kubefork_controller.Updaters.Undisturbed.{Undisturbed}
use kubefork_controller.Updaters.Recopied.{copies-update_microservice_again}
use kubefork_controller.Tests.Blank.{owner}
use kubefork_controller.Tests.Floats.{fractions}
use kubefork_controller.Tests.Samples.{sample_fork, same_order}
use kubefork_controller.Tests.Routing.{app_of}
use kubefork_controller.Tests.OneKind.{
  Slot, one_kind, one_kind_tracks, one_kind-KindApart, held, IsKept,
}
use kubefork_controller.Tests.Owned.{own_with-refers}

abbrev copy_type : TypeMeta
copy_type = record { kind = "DeploymentCopy"; api_version = "duplication.k8s.wantedly.com/v1beta1" }

abbrev cluster : Kube Slot
cluster = one_kind copy_type

abbrev alice : NamespacedName
alice = record { namespace = "ns"; name = "alice" }

abbrev app : App
app = app_of (Builder.build cluster sample_fork same_order none)

abbrev list_of : Result ObjectList → ObjectList
list_of (ok l) = l
list_of _ = record {
  items = [];
  group_version_kind = record { kind = ""; api_version = "" };
  identity = λ o. ok "";
}

abbrev copies : ObjectList
copies = list_of (generate_deployment_copies app)

abbrev finish : Slot
finish = (update_microservice cluster fractions same_order alice none).1

built : Builder.build cluster sample_fork same_order none ≡ ok app
unfolding Builder.build get_fork_header_key parse_manager split nat_eq fork_target_services
    existing_forked_services collect_routes list_deployments_routable_from_svc list_routable app_of
built = refl

made : generate_deployment_copies app ≡ ok copies
unfolding Builder.build get_fork_header_key parse_manager split nat_eq fork_target_services
    existing_forked_services collect_routes list_deployments_routable_from_svc list_routable app_of
    add_routes routable_from sort_by_name sort_by insert_by before lookup string_eq add_inverse
    add_inverses by_name inverse_from inverse_map append_to insert values generate_deployment_copies
    copied_deployment Deployments.build_copy apply_metadata apply_template
    build_deployment_copy_spec copy_spec merge_map routing_labels get_label_key_for_routing_label
    insert_all
made = refl

updated : update_microservice cluster fractions same_order alice none ≡ (ok tt, finish)
unfolding Builder.build get_fork_header_key parse_manager split nat_eq fork_target_services
    existing_forked_services collect_routes list_deployments_routable_from_svc list_routable app_of
    add_routes routable_from sort_by_name sort_by insert_by before lookup string_eq add_inverse
    add_inverses by_name inverse_from inverse_map append_to insert values generate_deployment_copies
    copied_deployment Deployments.build_copy apply_metadata apply_template
    build_deployment_copy_spec copy_spec merge_map routing_labels get_label_key_for_routing_label
    insert_all update_microservice update_fork refresh_lists refresh handle_existing sweep
    desired_ids apply_item empty_object mutate object_name owned_by_parent take create_resource_name
    shrink for_each ◌>>=◌ generate_lists generate_services generate_vs_configs service_objects
    vs_config_objects service_identity vs_config_identity copied_service Services.build_copy
    build_vs_config copy_port service_name
updated = refl

refers_itself :
    any_refers
      (meta (Kube.fork sample_fork))
      (object_kind (Kube.fork sample_fork))
      (owner (Kube.fork sample_fork) ∷ [])
    ≡ true
unfolding string_eq
refers_itself = refl

owning : Owning cluster (Kube.fork sample_fork) (one_kind_tracks copy_type "ns").admit
unfolding one_kind_tracks
owning = record {
  referred = λ o owned.
      own_with-refers (Kube.fork sample_fork) o owned (meta o).owner_references refers_itself;
  admitted = λ o. refl;
}

typed :
    (c : DeploymentCopy) (name : String)
    → IsKept copy_type (empty_object cluster (Kube.fork sample_fork) name (deployment_copy c))
unfolding empty_object string_eq
typed c name = refl

names : copy_names app app.deployments ≡ "web-server-alice" ∷ []
unfolding Builder.build get_fork_header_key parse_manager split nat_eq fork_target_services
    existing_forked_services collect_routes list_deployments_routable_from_svc list_routable app_of
    add_routes routable_from sort_by_name sort_by insert_by before lookup string_eq add_inverse
    add_inverses by_name inverse_from inverse_map append_to insert values
names = refl

not_empty : (◌==◌ {A = String} "web-server-alice" "") ≡ false
unfolding string_eq
not_empty = refl

named : ◌≢◌ {A = String} "web-server-alice" ""
named same = ground (arith, not_empty)

short : All IsShort (copy_names app app.deployments)
short = subst (All IsShort) (sym names) ((named, omega arith), tt)

distinct : Distinct (copy_names app app.deployments)
distinct = subst Distinct (sym names) (refl, tt)

same_name : (o : Object) → (meta ((one_kind_tracks copy_type "ns").admit o)).name ≡ (meta o).name
unfolding one_kind_tracks
same_name o = refl

update_microservice-OwnsCopy_example :
    OwnsCopy (held copy_type) sample_fork finish "web-server-alice"
    ↔ (contains (copy_names app app.deployments) "web-server-alice" ≡ true)
update_microservice-OwnsCopy_example =
    update_microservice-OwnsCopy cluster fractions sample_fork app (one_kind_tracks copy_type "ns")
      (one_kind-KindApart copy_type) same_order alice copies none finish owning same_name typed
      short distinct refl built made updated "web-server-alice"

built_again : Builder.build cluster sample_fork same_order finish ≡ ok app
unfolding Builder.build get_fork_header_key parse_manager split nat_eq fork_target_services
    existing_forked_services collect_routes list_deployments_routable_from_svc list_routable app_of
built_again = refl

updated_again : update_microservice cluster fractions same_order alice finish ≡ (ok tt, finish)
unfolding Builder.build get_fork_header_key parse_manager split nat_eq fork_target_services
    existing_forked_services collect_routes list_deployments_routable_from_svc list_routable app_of
    add_routes routable_from sort_by_name sort_by insert_by before lookup string_eq add_inverse
    add_inverses by_name inverse_from inverse_map append_to insert values generate_deployment_copies
    copied_deployment Deployments.build_copy apply_metadata apply_template
    build_deployment_copy_spec copy_spec merge_map routing_labels get_label_key_for_routing_label
    insert_all update_microservice update_fork refresh_lists refresh handle_existing sweep
    desired_ids apply_item empty_object mutate object_name owned_by_parent take create_resource_name
    shrink for_each ◌>>=◌ generate_lists generate_services generate_vs_configs service_objects
    vs_config_objects service_identity vs_config_identity copied_service Services.build_copy
    build_vs_config copy_port service_name
updated_again = refl

copies-update_microservice_again_example :
    Undisturbed cluster fractions
      (held copy_type)
      (Kube.fork sample_fork)
      []
      copies
      (generate_services app ∷ generate_vs_configs cluster.to_vs_config app ∷ [])
      finish
      finish
copies-update_microservice_again_example =
    copies-update_microservice_again cluster fractions sample_fork (one_kind_tracks copy_type "ns")
      (one_kind-KindApart copy_type) same_order alice same_name typed app app copies copies none
      finish finish refl short distinct refl refl built built_again made made updated updated_again
