-- ===== src/Application/Deployments.antt =====
-- domain/lister/internal/deployment.go
use kubefork_controller.Base.{String, ◌<>◌, Option, none, some, List, [], ◌∷◌, map, string_eq}
use kubefork_controller.Base.GoMap.{GoMap, insert, insert_all}
use kubefork_controller.Base.Result.{Result, ok, err, nil_dereference, ◌>>=◌}
use kubefork_controller.Api.{
  ObjectMeta, Fork, ForkDeployment, PodTemplateSpec, Container, Int32, Deployment, DeploymentCopy,
  DeploymentCopySpec,
}
use kubefork_controller.Application.Services.{
  fork_identifer_label_key, get_label_key_for_routing_label, new_meta, untyped,
}

merge_into : GoMap String String → List (GoMap String String) → GoMap String String
merge_into merged [] = merged
merge_into merged (m ∷ ms) = merge_into (insert_all merged m) ms

-- `mergeMap`: a later map wins.
unfoldable pub merge_map : List (GoMap String String) → GoMap String String
unfolding merge_into
merge_map ms = merge_into [] ms

-- The loop over the names of the Services that route to the Deployment.
unfoldable pub routing_labels : GoMap String String → List String → GoMap String String
routing_labels labels [] = labels
routing_labels labels (s ∷ names) =
    routing_labels (insert (get_label_key_for_routing_label s) "true" labels) names

abbrev pub replicas_of : Option Int32 → Int32
replicas_of none = 1
replicas_of (some n) = n

copy_container : Container → Container
copy_container ctr = record { name = ctr.name; image = ctr.image; env = ctr.env }

-- What `fork.spec.deployments.template` adds to the specification. Its labels and annotations are
-- fields of an embedded pointer, and to read them where it is `nil` is a panic.
unfoldable pub apply_metadata :
    DeploymentCopySpec → List Container → Option ObjectMeta → Result DeploymentCopySpec
unfolding copy_container
apply_metadata spec containers none = err nil_dereference
apply_metadata spec containers (some m) = ok (record spec {
  custom_labels = merge_map (spec.custom_labels ∷ m.labels ∷ []);
  custom_annotations = merge_map (spec.custom_annotations ∷ m.annotations ∷ []);
  target_containers = map copy_container containers;
})

unfoldable pub apply_template :
    DeploymentCopySpec → Option PodTemplateSpec → Result DeploymentCopySpec
unfolding apply_metadata
apply_template spec none = ok spec
apply_template spec (some tmpl) = apply_metadata spec tmpl.spec.containers tmpl.metadata

unfoldable pub copy_spec :
    Deployment → Fork → List String → Option ForkDeployment → Result DeploymentCopySpec
unfolding apply_template
copy_spec d fork service_names none = err nil_dereference
copy_spec d fork service_names (some deployments) =
    apply_template
      (record {
        replicas = replicas_of deployments.replicas;
        target_deployment_name = d.metadata.name;
        name_suffix = fork.metadata.name;
        custom_labels =
            routing_labels ((fork_identifer_label_key, fork.spec.identifier) ∷ []) service_names;
        custom_annotations = [];
        target_containers = [];
      })
      deployments.template

unfoldable pub build_deployment_copy_spec :
    Deployment → Fork → List String → Result DeploymentCopySpec
unfolding copy_spec
build_deployment_copy_spec d fork service_names =
    copy_spec d fork service_names fork.spec.deployments

unfoldable pub build_copy : Deployment → Fork → List String → Result DeploymentCopy
build_copy d fork service_names = build_deployment_copy_spec d fork service_names >>= λ spec.
    ok (record {
      type_meta = untyped;
      metadata = new_meta fork.metadata.namespace (d.metadata.name <> "-" <> fork.metadata.name);
      spec = spec;
    })
