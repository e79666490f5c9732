-- ===== src/Application/Builder.antt =====
-- domain/lister/internal/builder.go: what is read of the cluster for an `App`. The order in which
-- Go's `range` meets the entries of a map is a parameter.
use kubefork_controller.Base.{
  String, Bool, Option, none, some, List, [], ◌∷◌, ◌++◌, string_eq, filter_by,
}
use kubefork_controller.Base.Sort.{sort_by, entries}
use kubefork_controller.Base.GoMap.{GoMap, lookup, insert, append_to}
use kubefork_controller.Base.Result.{Result, ok, ◌>>=◌}
use kubefork_controller.Api.{Fork, ForkDeployment, Service, Deployment}
use kubefork_controller.Kube.{Kube}
use kubefork_controller.Slug.{parse_manager}
use kubefork_controller.Application.{App}
use kubefork_controller.Application.Services.{fork_identifer_label_key}

-- One round of the inner loop of `inverseMap`.
unfoldable pub add_inverse :
    String → String → GoMap String (List String) → GoMap String (List String)
add_inverse old_key new_key out = elim (lookup new_key out) [
  | none ↦ insert new_key (old_key ∷ []) out
  | some current ↦ insert new_key (current ++ old_key ∷ []) out
]

unfoldable pub add_inverses :
    String → List String → GoMap String (List String) → GoMap String (List String)
add_inverses old_key [] out = out
add_inverses old_key (new_key ∷ items) out =
    add_inverses old_key items (add_inverse old_key new_key out)

unfoldable pub inverse_from :
    GoMap String (List String) → GoMap String (List String) → GoMap String (List String)
inverse_from [] out = out
inverse_from ((old_key, items) ∷ m) out = inverse_from m (add_inverses old_key items out)

-- `inverseMap`, over the entries in the order of the loop.
unfoldable pub inverse_map : GoMap String (List String) → GoMap String (List String)
unfolding inverse_from add_inverses add_inverse
inverse_map m = inverse_from m []

-- `sort.Slice` by name.
unfoldable pub sort_by_name : List Deployment → List Deployment
sort_by_name ds = sort_by (λ d. d.metadata.name) ds

-- The two maps that the loop over the Services fills.
pub record Routes : Type 0 where
  pub service_name_to_deploy_name : GoMap String (List String)
  pub deploy_set : GoMap String Deployment

unfoldable pub add_routes : String → List Deployment → Routes → Routes
add_routes svc [] r = r
add_routes svc (d ∷ ds) r = add_routes svc ds (record {
  service_name_to_deploy_name = append_to svc d.metadata.name r.service_name_to_deploy_name;
  deploy_set = insert d.metadata.name d r.deploy_set;
})

unfoldable pub by_name : List Service → GoMap String Service → GoMap String Service
by_name [] ret = ret
by_name (svc ∷ svcs) ret = by_name svcs (insert svc.metadata.name svc ret)

module _ {W : Type 0} (kube : Kube W) (fork : Fork) where
  unfoldable pub get_fork_header_key : W → Result String
  get_fork_header_key w = parse_manager fork.spec.manager >>= λ slug.
      kube.get_fork_manager slug w >>= λ fm. ok fm.spec.header_key

  unfoldable pub fork_target_services : W → Result (List Service)
  fork_target_services w = elim fork.spec.services [
    | none ↦ ok []
    | some services ↦ kube.as_selector services.selector >>= λ selector.
        kube.list_services
          (record { namespace = fork.metadata.namespace; label_selector = selector }) w
  ]

  unfoldable pub existing_forked_services : W → Result (GoMap String Service)
  unfolding by_name
  existing_forked_services w =
      kube.new_requirement fork_identifer_label_key fork.spec.identifier >>= λ req.
      kube.list_services (record { namespace = fork.metadata.namespace; label_selector = req ∷ [] })
        w
      >>= λ services. ok (by_name services [])

  -- `deploymentExtension.routableFrom`
  unfoldable pub routable_from : Service → Deployment → Bool
  routable_from svc d = kube.set_matches svc.spec.selector d.template.labels

  -- With no selector no Deployment is listed.
  unfoldable pub list_routable : Option ForkDeployment → Service → W → Result (List Deployment)
  list_routable none svc w = ok []
  list_routable (some deploys) svc w = elim deploys.selector [
    | none ↦ ok []
    | some s ↦ kube.as_selector (some s) >>= λ selector.
        kube.list_deployments
          (record { namespace = fork.metadata.namespace; label_selector = selector }) w
        >>= λ listed. ok (filter_by (routable_from svc) listed)
  ]

  unfoldable pub list_deployments_routable_from_svc : Service → W → Result (List Deployment)
  list_deployments_routable_from_svc svc w = list_routable fork.spec.deployments svc w

  unfoldable pub collect_routes : List Service → Routes → W → Result Routes
  collect_routes [] r w = ok r
  collect_routes (svc ∷ svcs) r w =
      let rest =
        λ (ds : List Deployment). collect_routes svcs (add_routes svc.metadata.name ds r) w in
      list_deployments_routable_from_svc svc w >>= rest

  module _ (range : (V : Type 0) → GoMap String V → GoMap String V) where
    unfoldable pub build : W → Result App
    build w = get_fork_header_key w >>= λ fork_header. fork_target_services w >>= λ services.
        existing_forked_services w >>= λ existing.
        collect_routes services (record { service_name_to_deploy_name = []; deploy_set = [] }) w
        >>= λ routes. ok (record {
          services = services;
          deployments = sort_by_name (entries (range Deployment routes.deploy_set));
          existing_copied_services = existing;
          deploy_name_to_service_names =
              inverse_map (range (List String) routes.service_name_to_deploy_name);
          fork_header = fork_header;
          fork = fork;
        })
