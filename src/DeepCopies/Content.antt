-- ===== src/DeepCopies/Content.antt =====
-- What stands at an address: the struct there, with what its pointers lead to in place of addresses.
-- A content is found only if all of it lies in the memory that is looked at, without a fault.
use kubefork_controller.Base.{
  String, string_eq, Bool, true, not, ◌&&◌, is_some, Option, none, some, List, [], ◌∷◌,
  if◌then◌else◌,
}
use kubefork_controller.Base.GoMap.{GoMap, lookup}
use kubefork_controller.Api.{Int32, Upstream, VsConfigSpec}
use kubefork_controller.DeepCopies.Structs.{
  GatewayOptions, PodSpec, PodTemplateSpec, ForkService, ForkDeployment, ForkSpec, ForkManagerSpec,
  ForkStatus, ForkManagerStatus, VsConfigStatus, Resource, ResourceList,
}
use kubefork_controller.DeepCopies.Memory.{
  Address, Foreign, StoredFork, StoredForkManager, StoredVsConfig, Store, Slot, read_at,
}
use kubefork_controller.DeepCopies.Slots.{
  time_slot, object_meta_slot, label_selector_slot, int32_slot, string_map_slot, strings_slot,
  containers_slot, upstreams_slot, gateway_options_slot, pod_template_spec_slot, fork_service_slot,
  fork_deployment_slot, fork_slot, forks_slot, fork_list_slot, fork_manager_slot,
  fork_managers_slot, fork_manager_list_slot, vs_config_slot, vs_configs_slot, vs_config_list_slot,
}
use kubefork_controller.DeepCopies.Kinds.{
  RuntimeObject, fork_at, fork_list_at, fork_manager_at, fork_manager_list_at, vs_config_at,
  vs_config_list_at,
}

infixl 10 ◌>>=◌
abbrev pub ◌>>=◌ : {A B : Type 0} → Option A → (A → Option B) → Option B
none >>= f = none
some a >>= f = f a

-- How the values of a type are read.
abbrev pub View : Foreign → Type 0 → Type 0 → Type 0
View F X V = Store F → X → Option V

abbrev pub distinct_keys : GoMap String String → Bool
distinct_keys [] = true
distinct_keys ((k, _) ∷ m) = not (is_some (lookup k m)) && distinct_keys m

-- A map is what it has under each key, in whatever order.
abbrev pub Entries : Type 0
Entries = String → Option String

abbrev pub GatewayContent : Type 0
GatewayContent = GatewayOptions Entries (List String)

abbrev pub ForkManagerSpecContent : Type 0
ForkManagerSpecContent = ForkManagerSpec (List Upstream)

module _ {F : Foreign} where
  abbrev pub view_flat : {X : Type 0} → View F X X
  view_flat s x = some x

  unfoldable pub view_at : {X V : Type 0} → Slot F X → View F X V → View F Address V
  view_at slot view s p = read_at slot s p >>= view s

  unfoldable pub view_pointer :
      {X V : Type 0} → Slot F X → View F X V → View F (Option Address) (Option V)
  view_pointer slot view s none = some none
  view_pointer slot view s (some p) = view_at slot view s p >>= λ v. some (some v)

  unfoldable pub view_elements : {X V : Type 0} → View F X V → View F (List X) (List V)
  view_elements view s [] = some []
  view_elements view s (x ∷ xs) = do v ← view s x; vs ← view_elements view s xs; some (v ∷ vs)

  unfoldable pub view_entries : View F (GoMap String String) Entries
  view_entries s m = if distinct_keys m then some (λ k. lookup k m) else none

-- What is read of the structs of Kubernetes' libraries.
pub record LibraryContents (F : Foreign) : Type 1 where
  pub Time : Type 0
  pub ObjectMeta : Type 0
  pub ListMeta : Type 0
  pub LabelSelector : Type 0
  pub Container : Type 0
  pub time : Store F → F.Time → Option Time
  pub object_meta : Store F → F.ObjectMeta → Option ObjectMeta
  pub list_meta : Store F → F.ListMeta → Option ListMeta
  pub label_selector : Store F → F.LabelSelector → Option LabelSelector
  pub container : Store F → F.Container → Option Container

module _ {F : Foreign} where
  unfoldable pub view_gateway_options : View F (GatewayOptions Address Address) GatewayContent
  view_gateway_options s x = do
    add_request_headers ← view_pointer string_map_slot view_entries s x.add_request_headers
    allow_upgrade ← view_pointer strings_slot view_flat s x.allow_upgrade
    some (record { add_request_headers = add_request_headers; allow_upgrade = allow_upgrade })

  unfoldable pub view_fork_manager_spec : View F (ForkManagerSpec Address) ForkManagerSpecContent
  view_fork_manager_spec s x = do
    upstreams ← view_pointer upstreams_slot view_flat s x.upstreams
    some (record {
      ambassador_id = x.ambassador_id;
      header_key = x.header_key;
      upstreams = upstreams;
    })

module _ {F : Foreign} (C : LibraryContents F) where
  abbrev pub PodContent : Type 0
  PodContent = PodSpec (List C.Container)

  unfoldable pub view_pod_spec : View F (PodSpec Address) PodContent
  view_pod_spec s x = do
    containers ← view_pointer containers_slot (view_elements C.container) s x.containers
    some (record { containers = containers; hostname = x.hostname })

  abbrev pub TemplateContent : Type 0
  TemplateContent = PodTemplateSpec C.ObjectMeta (List C.Container)

  unfoldable pub view_pod_template_spec : View F (PodTemplateSpec Address Address) TemplateContent
  view_pod_template_spec s x = do
    object_meta ← view_pointer object_meta_slot C.object_meta s x.object_meta
    spec ← view_pod_spec s x.spec
    some (record { object_meta = object_meta; spec = spec })

  unfoldable pub view_fork_service : View F (ForkService Address) (ForkService C.LabelSelector)
  view_fork_service s x = do
    selector ← view_pointer label_selector_slot C.label_selector s x.selector
    some (record { selector = selector })

  abbrev pub DeploymentContent : Type 0
  DeploymentContent = ForkDeployment C.LabelSelector TemplateContent Int32

  unfoldable pub view_fork_deployment :
      View F (ForkDeployment Address Address Address) DeploymentContent
  view_fork_deployment s x = do
    selector ← view_pointer label_selector_slot C.label_selector s x.selector
    template ← view_pointer pod_template_spec_slot view_pod_template_spec s x.template
    replicas ← view_pointer int32_slot view_flat s x.replicas
    some (record { selector = selector; template = template; replicas = replicas })

  abbrev pub ForkSpecContent : Type 0
  ForkSpecContent = ForkSpec C.Time GatewayContent (ForkService C.LabelSelector) DeploymentContent

  unfoldable pub view_fork_spec : View F (ForkSpec Address Address Address Address) ForkSpecContent
  view_fork_spec s x = do
    deadline ← view_pointer time_slot C.time s x.deadline
    gateway_options ← view_pointer gateway_options_slot view_gateway_options s x.gateway_options
    services ← view_pointer fork_service_slot view_fork_service s x.services
    deployments ← view_pointer fork_deployment_slot view_fork_deployment s x.deployments
    some (record {
      manager = x.manager;
      identifier = x.identifier;
      deadline = deadline;
      gateway_options = gateway_options;
      services = services;
      deployments = deployments;
    })

  abbrev pub ForkContent : Type 0
  ForkContent = Resource C.ObjectMeta ForkSpecContent ForkStatus

  unfoldable pub view_fork : View F (StoredFork F) ForkContent
  view_fork s x = do
    object_meta ← C.object_meta s x.object_meta
    spec ← view_fork_spec s x.spec
    some (record {
      type_meta = x.type_meta;
      object_meta = object_meta;
      spec = spec;
      status = x.status;
    })

  abbrev pub ForkManagerContent : Type 0
  ForkManagerContent = Resource C.ObjectMeta ForkManagerSpecContent ForkManagerStatus

  unfoldable pub view_fork_manager : View F (StoredForkManager F) ForkManagerContent
  view_fork_manager s x = do
    object_meta ← C.object_meta s x.object_meta
    spec ← view_fork_manager_spec s x.spec
    some (record {
      type_meta = x.type_meta;
      object_meta = object_meta;
      spec = spec;
      status = x.status;
    })

  abbrev pub VsConfigContent : Type 0
  VsConfigContent = Resource C.ObjectMeta VsConfigSpec VsConfigStatus

  unfoldable pub view_vs_config : View F (StoredVsConfig F) VsConfigContent
  view_vs_config s x = do
    object_meta ← C.object_meta s x.object_meta
    some (record {
      type_meta = x.type_meta;
      object_meta = object_meta;
      spec = x.spec;
      status = x.status;
    })

  unfoldable pub view_list :
      {X V : Type 0}
      → Slot F (List X)
      → View F X V
      → View F (ResourceList F.ListMeta Address) (ResourceList C.ListMeta (List V))
  view_list slot view s x = do
    list_meta ← C.list_meta s x.list_meta
    items ← view_pointer slot (view_elements view) s x.items
    some (record { type_meta = x.type_meta; list_meta = list_meta; items = items })

  -- The content of an object of any kind.
  pub data ObjectContent : Type 0 where
    fork_content : ForkContent → ObjectContent
    fork_manager_content : ForkManagerContent → ObjectContent
    vs_config_content : VsConfigContent → ObjectContent
    fork_list_content : ResourceList C.ListMeta (List ForkContent) → ObjectContent
    fork_manager_list_content : ResourceList C.ListMeta (List ForkManagerContent) → ObjectContent
    vs_config_list_content : ResourceList C.ListMeta (List VsConfigContent) → ObjectContent

  unfoldable pub view_object : View F RuntimeObject ObjectContent
  view_object s (fork_at p) = view_at fork_slot view_fork s p >>= λ v. some (fork_content v)
  view_object s (fork_manager_at p) =
      view_at fork_manager_slot view_fork_manager s p >>= λ v. some (fork_manager_content v)
  view_object s (vs_config_at p) =
      view_at vs_config_slot view_vs_config s p >>= λ v. some (vs_config_content v)
  view_object s (fork_list_at p) =
      view_at fork_list_slot (view_list forks_slot view_fork) s p >>= λ v.
      some (fork_list_content v)
  view_object s (fork_manager_list_at p) =
      view_at fork_manager_list_slot (view_list fork_managers_slot view_fork_manager) s p >>= λ v.
      some (fork_manager_list_content v)
  view_object s (vs_config_list_at p) =
      view_at vs_config_list_slot (view_list vs_configs_slot view_vs_config) s p >>= λ v.
      some (vs_config_list_content v)
