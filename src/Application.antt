-- ===== src/Application.antt =====
-- domain/lister/internal/application.go: the objects that a fork should own.
pub mod Deployments
pub mod Services
pub mod Builder
pub mod Routing
pub mod Routes
pub mod Ordering
use kubefork_controller.Base.{String, Bool, Option, none, some, List, [], ◌∷◌, string_eq}
use kubefork_controller.Base.GoMap.{GoMap, lookup, values, insert_all}
use kubefork_controller.Base.Result.{Result, ok, err, unsupported_type, map_ok, ◌>>=◌}
use kubefork_controller.Api.{
  TypeMeta, ObjectMeta, Fork, VsConfig, Service, Deployment, DeploymentCopy,
}
use kubefork_controller.Kube.{
  Kube, Object, service, vs_config, deployment_copy, unstructured, Unstructured, meta,
}
use kubefork_controller.Refresh.{ObjectList}
use kubefork_controller.Application.Deployments.{merge_map}
use kubefork_controller.Application.Deployments
use kubefork_controller.Application.Services.{fork_identifer_label_key, build_vs_config}
use kubefork_controller.Application.Services

-- `existing_copied_services` is by name, and `deploy_name_to_service_names` lists for a Deployment
-- the Services that route to it.
pub record App : Type 0 where
  pub services : List Service
  pub deployments : List Deployment
  pub existing_copied_services : GoMap String Service
  pub deploy_name_to_service_names : GoMap String (List String)
  pub fork_header : String
  pub fork : Fork

-- `labelKey` of `generateServices`
abbrev pub original_service_label : String
original_service_label = "fork.k8s.wantedly.com/original-service-name"

abbrev pub deployment_copy_list : TypeMeta
deployment_copy_list = record {
  kind = "DeploymentCopyList";
  api_version = "duplication.k8s.wantedly.com/v1beta1";
}

abbrev pub service_list : TypeMeta
service_list = record { kind = "ServiceList"; api_version = "v1" }

abbrev pub vs_config_list : TypeMeta
vs_config_list = record { kind = "VSConfigList"; api_version = "fork.k8s.wantedly.com/v1beta1" }

unfoldable pub copied_deployment : App → Deployment → Result Object
copied_deployment a d =
    Deployments.build_copy d a.fork (values d.metadata.name a.deploy_name_to_service_names)
    >>= λ copy. ok (deployment_copy copy)

unfoldable pub generate_deployment_copies : App → Result ObjectList
unfolding copied_deployment
generate_deployment_copies a = map_ok (copied_deployment a) a.deployments >>= λ copies. ok (record {
  items = copies;
  group_version_kind = deployment_copy_list;
  identity = λ obj. ok (meta obj).name;
})

-- One round of the loop of `generateServices`.
unfoldable pub copied_service : App → Service → Service
copied_service a svc =
    let obj = Services.build_copy svc a.fork a.existing_copied_services in
    record obj {
      metadata = record obj.metadata {
        labels = merge_map (
            obj.metadata.labels
            ∷ ((original_service_label, svc.metadata.name)
                ∷ (fork_identifer_label_key, a.fork.spec.identifier)
                ∷ [])
            ∷ []);
      };
    }

-- Services that the fork does not manage may have no labels.
unfoldable pub service_identity : Object → Result String
service_identity obj = elim (lookup original_service_label (meta obj).labels) [
  | none ↦ ok ""
  | some name ↦ ok name
]

unfoldable pub service_objects : App → List Service → List Object
service_objects a [] = []
service_objects a (svc ∷ svcs) = service (copied_service a svc) ∷ service_objects a svcs

unfoldable pub generate_services : App → ObjectList
unfolding service_objects
generate_services a = record {
  items = service_objects a a.services;
  group_version_kind = service_list;
  identity = service_identity;
}

module _ (to_vs_config : Unstructured → Result VsConfig) where
  -- `VSConfigIdentity`
  unfoldable pub vs_config_identity : Object → Result String
  vs_config_identity (vs_config vs) = ok vs.spec.host
  vs_config_identity (unstructured u) = to_vs_config u >>= λ vs. ok vs.spec.host
  vs_config_identity _ = err unsupported_type

  unfoldable pub vs_config_objects : App → List Service → List Object
  vs_config_objects a [] = []
  vs_config_objects a (svc ∷ svcs) =
      vs_config (build_vs_config svc a.fork a.fork_header) ∷ vs_config_objects a svcs

  unfoldable pub generate_vs_configs : App → ObjectList
  unfolding vs_config_objects
  generate_vs_configs a = record {
    items = vs_config_objects a a.services;
    group_version_kind = vs_config_list;
    identity = vs_config_identity;
  }

  -- `GenerateLists`
  unfoldable pub generate_lists : App → Result (List ObjectList)
  generate_lists a = generate_deployment_copies a >>= λ copies.
      ok (copies ∷ generate_services a ∷ generate_vs_configs a ∷ [])
