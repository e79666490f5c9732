-- ===== src/Tests/Routing.antt =====
-- Services and Deployments of one Fork.
use kubefork_controller.Base.{
  ◌≡◌, refl, true, ◌&&◌, none, some, [], ◌∷◌, string_eq, nat_eq, ◌==◌, All, any, contains,
}
use kubefork_controller.Base.GoMap.{lookup, values}
use kubefork_controller.Base.Text.{split}
use kubefork_controller.Base.Result.{Result, ok}
use kubefork_controller.Api.{DeploymentCopySpec}
use kubefork_controller.Application.{App}
use kubefork_controller.Application.Builder
use kubefork_controller.Application.Builder.{
  add_routes, collect_routes, list_deployments_routable_from_svc, list_routable, routable_from,
  inverse_map, inverse_from, add_inverses, add_inverse, sort_by_name, by_name, get_fork_header_key,
  fork_target_services, existing_forked_services,
}
use kubefork_controller.Application.Deployments.{
  apply_template, copy_spec, build_deployment_copy_spec,
}
use kubefork_controller.Application.Services.{build_copy}
use kubefork_controller.Application.Routing.{copy_selected}
use kubefork_controller.Application.Routes.{build-routes, routes_to}
use kubefork_controller.Slug.{parse_manager}
use kubefork_controller.Tests.Samples.{
  sample_fork, sample_service, sample_deployment, sample_kube, same_order,
}

spec_of : Result DeploymentCopySpec → DeploymentCopySpec
spec_of (ok s) = s
spec_of _ = record {
  replicas = 0;
  target_deployment_name = "";
  name_suffix = "";
  custom_labels = [];
  custom_annotations = [];
  target_containers = [];
}

abbrev made : DeploymentCopySpec
made = spec_of (build_deployment_copy_spec sample_deployment sample_fork ("web" ∷ []))

made-ok : build_deployment_copy_spec sample_deployment sample_fork ("web" ∷ []) ≡ ok made
unfolding build_deployment_copy_spec copy_spec apply_template spec_of
made-ok = refl

web_listed : contains ("web" ∷ []) sample_service.metadata.name ≡ true
unfolding string_eq
web_listed = refl

copy_selected_example :
    All
      (λ e. lookup e.0 made.custom_labels ≡ some e.1)
      (build_copy sample_service sample_fork []).spec.selector
copy_selected_example =
    copy_selected sample_deployment sample_service sample_fork ("web" ∷ []) [] made made-ok
      web_listed tt (unfold build_copy lookup in (refl, (refl, tt)))

unfoldable pub app_of : Result App → App
app_of (ok a) = a
app_of _ = record {
  services = [];
  deployments = [];
  existing_copied_services = [];
  deploy_name_to_service_names = [];
  fork_header = "";
  fork = sample_fork;
}

abbrev sample_app : App
sample_app = app_of (Builder.build sample_kube sample_fork same_order none)

sample_app-ok : Builder.build sample_kube sample_fork same_order none ≡ ok sample_app
unfolding Builder.build get_fork_header_key parse_manager split fork_target_services
    existing_forked_services collect_routes list_deployments_routable_from_svc list_routable
    routable_from lookup string_eq nat_eq app_of
sample_app-ok = refl

build-routes_example :
    contains (values "web-server" sample_app.deploy_name_to_service_names) "web"
    ≡ any
        (λ svc.
          "web" == svc.metadata.name && routes_to sample_kube sample_fork none svc "web-server")
        sample_app.services
build-routes_example =
    build-routes sample_kube sample_fork none same_order sample_app "web" "web-server"
      (record { each = λ V m k u. refl; once = λ V m u. u }) sample_app-ok
