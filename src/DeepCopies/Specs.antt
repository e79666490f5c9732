-- ===== src/DeepCopies/Specs.antt =====
-- api/v1beta1/zz_generated.deepcopy.go: the structs within the kinds.
use kubefork_controller.Base.{Option}
use kubefork_controller.Api.{Upstream, VsConfigSpec}
use kubefork_controller.DeepCopies.Structs.{
  GatewayOptions, PodSpec, PodTemplateSpec, ForkService, ForkDeployment, ForkSpec, ForkManagerSpec,
  ForkStatus, ForkManagerStatus, VsConfigStatus,
}
use kubefork_controller.DeepCopies.Memory.{Address, Foreign, Alloc, pure, ◌>>=◌}
use kubefork_controller.DeepCopies.Slots.{
  time_slot, object_meta_slot, label_selector_slot, int32_slot, string_map_slot, strings_slot,
  containers_slot, upstreams_slot, upstream_slot, gateway_options_slot, pod_spec_slot,
  pod_template_spec_slot, fork_service_slot, fork_deployment_slot, fork_spec_slot, fork_status_slot,
  fork_manager_spec_slot, fork_manager_status_slot, vs_config_spec_slot, vs_config_status_slot,
}
use kubefork_controller.DeepCopies.Copying.{Library, copy_pointer, copy_elements, copy_entries}

module _ {F : Foreign} where
  unfoldable pub deep_copy_into_gateway_options :
      GatewayOptions Address Address → Alloc F (GatewayOptions Address Address)
  deep_copy_into_gateway_options x = do
    add_request_headers ← copy_pointer string_map_slot copy_entries x.add_request_headers
    allow_upgrade ← copy_pointer strings_slot pure x.allow_upgrade
    pure (record x { add_request_headers = add_request_headers; allow_upgrade = allow_upgrade })

  unfoldable pub deep_copy_gateway_options : Option Address → Alloc F (Option Address)
  deep_copy_gateway_options = copy_pointer gateway_options_slot deep_copy_into_gateway_options

  unfoldable pub deep_copy_into_fork_manager_spec :
      ForkManagerSpec Address → Alloc F (ForkManagerSpec Address)
  deep_copy_into_fork_manager_spec x = do
    upstreams ← copy_pointer upstreams_slot pure x.upstreams
    pure (record x { upstreams = upstreams })

  unfoldable pub deep_copy_fork_manager_spec : Option Address → Alloc F (Option Address)
  deep_copy_fork_manager_spec = copy_pointer fork_manager_spec_slot deep_copy_into_fork_manager_spec

  unfoldable pub deep_copy_into_fork_status : ForkStatus → Alloc F ForkStatus
  deep_copy_into_fork_status x = pure x

  unfoldable pub deep_copy_fork_status : Option Address → Alloc F (Option Address)
  deep_copy_fork_status = copy_pointer fork_status_slot deep_copy_into_fork_status

  unfoldable pub deep_copy_into_fork_manager_status : ForkManagerStatus → Alloc F ForkManagerStatus
  deep_copy_into_fork_manager_status x = pure x

  unfoldable pub deep_copy_fork_manager_status : Option Address → Alloc F (Option Address)
  deep_copy_fork_manager_status =
      copy_pointer fork_manager_status_slot deep_copy_into_fork_manager_status

  unfoldable pub deep_copy_into_upstream : Upstream → Alloc F Upstream
  deep_copy_into_upstream x = pure x

  unfoldable pub deep_copy_upstream : Option Address → Alloc F (Option Address)
  deep_copy_upstream = copy_pointer upstream_slot deep_copy_into_upstream

  unfoldable pub deep_copy_into_vs_config_spec : VsConfigSpec → Alloc F VsConfigSpec
  deep_copy_into_vs_config_spec x = pure x

  unfoldable pub deep_copy_vs_config_spec : Option Address → Alloc F (Option Address)
  deep_copy_vs_config_spec = copy_pointer vs_config_spec_slot deep_copy_into_vs_config_spec

  unfoldable pub deep_copy_into_vs_config_status : VsConfigStatus → Alloc F VsConfigStatus
  deep_copy_into_vs_config_status x = pure x

  unfoldable pub deep_copy_vs_config_status : Option Address → Alloc F (Option Address)
  deep_copy_vs_config_status = copy_pointer vs_config_status_slot deep_copy_into_vs_config_status

module _ {F : Foreign} (lib : Library F) where
  unfoldable pub deep_copy_into_pod_spec : PodSpec Address → Alloc F (PodSpec Address)
  deep_copy_into_pod_spec x = do
    containers ← copy_pointer containers_slot (copy_elements lib.container) x.containers
    pure (record x { containers = containers })

  unfoldable pub deep_copy_pod_spec : Option Address → Alloc F (Option Address)
  deep_copy_pod_spec = copy_pointer pod_spec_slot deep_copy_into_pod_spec

  unfoldable pub deep_copy_into_pod_template_spec :
      PodTemplateSpec Address Address → Alloc F (PodTemplateSpec Address Address)
  deep_copy_into_pod_template_spec x = do
    object_meta ← copy_pointer object_meta_slot lib.object_meta x.object_meta
    spec ← deep_copy_into_pod_spec x.spec
    pure (record x { object_meta = object_meta; spec = spec })

  unfoldable pub deep_copy_pod_template_spec : Option Address → Alloc F (Option Address)
  deep_copy_pod_template_spec = copy_pointer pod_template_spec_slot deep_copy_into_pod_template_spec

  unfoldable pub deep_copy_into_fork_service : ForkService Address → Alloc F (ForkService Address)
  deep_copy_into_fork_service x = do
    selector ← copy_pointer label_selector_slot lib.label_selector x.selector
    pure (record x { selector = selector })

  unfoldable pub deep_copy_fork_service : Option Address → Alloc F (Option Address)
  deep_copy_fork_service = copy_pointer fork_service_slot deep_copy_into_fork_service

  unfoldable pub deep_copy_into_fork_deployment :
      ForkDeployment Address Address Address → Alloc F (ForkDeployment Address Address Address)
  deep_copy_into_fork_deployment x = do
    selector ← copy_pointer label_selector_slot lib.label_selector x.selector
    template ← copy_pointer pod_template_spec_slot deep_copy_into_pod_template_spec x.template
    replicas ← copy_pointer int32_slot pure x.replicas
    pure (record x { selector = selector; template = template; replicas = replicas })

  unfoldable pub deep_copy_fork_deployment : Option Address → Alloc F (Option Address)
  deep_copy_fork_deployment = copy_pointer fork_deployment_slot deep_copy_into_fork_deployment

  unfoldable pub deep_copy_into_fork_spec :
      ForkSpec Address Address Address Address → Alloc F (ForkSpec Address Address Address Address)
  deep_copy_into_fork_spec x = do
    deadline ← copy_pointer time_slot lib.time x.deadline
    gateway_options ←
        copy_pointer gateway_options_slot deep_copy_into_gateway_options x.gateway_options
    services ← copy_pointer fork_service_slot deep_copy_into_fork_service x.services
    deployments ← copy_pointer fork_deployment_slot deep_copy_into_fork_deployment x.deployments
    pure (record x {
      deadline = deadline;
      gateway_options = gateway_options;
      services = services;
      deployments = deployments;
    })

  unfoldable pub deep_copy_fork_spec : Option Address → Alloc F (Option Address)
  deep_copy_fork_spec = copy_pointer fork_spec_slot deep_copy_into_fork_spec
