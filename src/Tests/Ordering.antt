-- ===== src/Tests/Ordering.antt =====
-- Two orders in which a loop may meet the entries of a map.
use kubefork_controller.Base.{
  String, ◌≡◌, ◌≢◌, refl, Bool, true, false, Option, none, some, map, [], ◌∷◌, ◌++◌, string_eq,
  ◌==◌, nat_eq, arith, if◌then◌else◌,
}
use kubefork_controller.Base.Text.{split}
use kubefork_controller.Base.Sort.{Ascending, sort_by, insert_by}
use kubefork_controller.Base.Order.{before}
use kubefork_controller.Base.GoMap.{
  GoMap, lookup, lookup-cons, lookup-nil, NodupKeys, or_else, insert,
}
use kubefork_controller.Base.Result.{ok}
use kubefork_controller.Api.{Deployment, Mapping, VsConfig, NamespacedName}
use kubefork_controller.Kube.{Kube}
use kubefork_controller.Application.{App}
use kubefork_controller.Application.Builder
use kubefork_controller.Application.Builder.{
  add_routes, collect_routes, list_deployments_routable_from_svc, list_routable, routable_from,
  inverse_map, inverse_from, add_inverses, add_inverse, sort_by_name, by_name, get_fork_header_key,
  fork_target_services, existing_forked_services,
}
use kubefork_controller.Application.Services.{build_vs_config, service_name}
use kubefork_controller.VirtualServices
use kubefork_controller.VirtualServices.Ordering.{build-listed, config_name, by_config_name}
use kubefork_controller.Application.Ordering.{build-deployments, deployment_name}
use kubefork_controller.Slug.{parse_manager}
use kubefork_controller.Tests.Samples.{
  sample_fork, sample_service, sample_deployment, sample_kube, same_order,
}
use kubefork_controller.Tests.Blank.{blank}
use kubefork_controller.Tests.Cluster.{each_once}
use kubefork_controller.Tests.Routing.{app_of}

-- The first entry comes last.
abbrev rotated : (V : Type 0) → GoMap String V → GoMap String V
rotated V [] = []
rotated V (e ∷ m) = m ++ e ∷ []

module _ {V : Type 0} where
  lookup-append :
      (k j : String) (v : V) (m : GoMap String V)
      → lookup k (m ++ (j, v) ∷ []) ≡ or_else (lookup k m) (if k == j then some v else none)
  unfolding lookup
  lookup-append k j v [] = refl
  lookup-append k j v (_ ∷ m) = ground (arith, lookup-append k j v m)

  lookup-swap :
      {j k : String} (v w : V)
      → j ≢ k
      → (n : String) → lookup n ((j, v) ∷ (k, w) ∷ []) ≡ lookup n ((k, w) ∷ (j, v) ∷ [])
  unfolding lookup
  lookup-swap v w differ n = ground arith

  append-NodupKeys :
      (j : String) (v : V) (m : GoMap String V)
      → lookup j m ≡ none
      → NodupKeys m
      → NodupKeys (m ++ (j, v) ∷ [])
  append-NodupKeys j v [] fresh u = (lookup-nil {V = V} j, tt)
  append-NodupKeys j v ((k, w) ∷ m) fresh (first, u) =
      ground (arith, lookup-cons j k w m, lookup-append k j v m, append-NodupKeys j v m)

rotated_each :
    (V : Type 0) (m : GoMap String V) (k : String)
    → NodupKeys m
    → lookup k (rotated V m) ≡ lookup k m
rotated_each V [] k u = refl
rotated_each V ((j, v) ∷ m) k (fresh, u) =
    ground (arith, lookup-append k j v m, lookup-cons k j v m)

rotated_once : (V : Type 0) (m : GoMap String V) → NodupKeys m → NodupKeys (rotated V m)
rotated_once V [] u = u
rotated_once V ((j, v) ∷ m) (fresh, u) = append-NodupKeys j v m fresh u

abbrev second_deployment : Deployment
second_deployment = record sample_deployment {
  metadata = record sample_deployment.metadata { name = "admin" };
}

abbrev two_kube : Kube (Option Mapping)
two_kube = record sample_kube {
  list_deployments = λ o w. ok (sample_deployment ∷ second_deployment ∷ []);
}

abbrev first_run : App
first_run = app_of (Builder.build two_kube sample_fork same_order none)

abbrev second_run : App
second_run = app_of (Builder.build two_kube sample_fork rotated none)

first_run-ok : Builder.build two_kube sample_fork same_order none ≡ ok first_run
unfolding Builder.build get_fork_header_key parse_manager split fork_target_services
    existing_forked_services collect_routes list_deployments_routable_from_svc list_routable
    routable_from lookup string_eq nat_eq app_of
first_run-ok = refl

second_run-ok : Builder.build two_kube sample_fork rotated none ≡ ok second_run
unfolding Builder.build get_fork_header_key parse_manager split fork_target_services
    existing_forked_services collect_routes list_deployments_routable_from_svc list_routable
    routable_from lookup string_eq nat_eq app_of
second_run-ok = refl

build-deployments_example :
    (first_run.deployments ≡ second_run.deployments)
    × Ascending deployment_name first_run.deployments
build-deployments_example =
    build-deployments two_kube sample_fork none same_order rotated first_run second_run each_once
      (record { each = rotated_each; once = rotated_once }) first_run-ok second_run-ok

names_sorted : map deployment_name first_run.deployments ≡ "admin" ∷ "web-server" ∷ []
unfolding Builder.build get_fork_header_key parse_manager split fork_target_services
    existing_forked_services collect_routes list_deployments_routable_from_svc list_routable
    routable_from lookup string_eq nat_eq app_of add_routes sort_by_name sort_by insert_by before
    insert
names_sorted = refl

abbrev first_config : VsConfig
first_config = build_vs_config sample_service sample_fork "x-fork"

abbrev second_config : VsConfig
second_config = record first_config { metadata = record first_config.metadata { name = "other" } }

-- The world is whether the first one is listed first.
abbrev listing_kube : Kube Bool
listing_kube = record (blank Bool) {
  get_service = λ k w. ok sample_service;
  list_vs_configs = λ o w.
      ok (if w then first_config ∷ second_config ∷ [] else second_config ∷ first_config ∷ []);
}

abbrev web : NamespacedName
web = record { namespace = "ns"; name = "web" }

other_name : (config_name first_config == config_name second_config) ≡ false
unfolding build_vs_config string_eq service_name
other_name = refl

first_second : config_name first_config ≢ config_name second_config
first_second same = ground (arith, other_name)

first_fresh : lookup (config_name first_config) (by_config_name (second_config ∷ [])) ≡ none
unfolding lookup
first_fresh = ground (arith, other_name)

second_fresh : lookup (config_name second_config) (by_config_name (first_config ∷ [])) ≡ none
unfolding lookup
second_fresh = ground (arith, other_name)

build-listed_example :
    VirtualServices.build listing_kube web true ≡ VirtualServices.build listing_kube web false
build-listed_example =
    build-listed listing_kube web true false (first_config ∷ second_config ∷ [])
      (second_config ∷ first_config ∷ []) refl refl refl
      (first_fresh, (lookup-nil {V = VsConfig} _, tt))
      (second_fresh, (lookup-nil {V = VsConfig} _, tt))
      (lookup-swap first_config second_config first_second)
