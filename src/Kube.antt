-- ===== src/Kube.antt =====
-- What the program calls of client-go, controller-runtime and apimachinery: a parameter `Kube W`
-- of the modules that use it, over a type `W` of worlds. A read sees the world as it stands and
-- leaves it alone, so one run of an updater has the cluster to itself.
pub mod Laws
use Prim.Native.String.{String}
use mathlib.Core.Path.{◌≡◌, refl}
use mathlib.Core.Bool.{Bool}
use mathlib.Core.Option.{Option}
use mathlib.Core.List.{List}
use kubefork_controller.Base.GoMap.{GoMap}
use kubefork_controller.Base.Result.{Result}
use kubefork_controller.Base.Exec.{Exec}
use kubefork_controller.Api.{
  NamespacedName, TypeMeta, ObjectMeta, LabelSelector, LabelSelectorRequirement, Fork, ForkManager,
  VsConfig, Service, Deployment, DeploymentCopy, VirtualService, Mapping,
}

-- An object of no fixed type, with its fields outside the metadata as JSON text.
pub record Unstructured : Type 0 where
  pub type_meta : TypeMeta
  pub metadata : ObjectMeta
  pub content : String

-- `client.Object`, by the dynamic types that the program hands over.
pub data Object : Type 0 where
  fork : Fork → Object
  fork_manager : ForkManager → Object
  service : Service → Object
  vs_config : VsConfig → Object
  virtual_service : VirtualService → Object
  deployment_copy : DeploymentCopy → Object
  mapping : Mapping → Object
  unstructured : Unstructured → Object

-- `GetName`, `GetNamespace`, `GetLabels`, `GetOwnerReferences`, `GetResourceVersion`
abbrev pub meta : Object → ObjectMeta
meta (fork o) = o.metadata
meta (fork_manager o) = o.metadata
meta (service o) = o.metadata
meta (vs_config o) = o.metadata
meta (virtual_service o) = o.metadata
meta (deployment_copy o) = o.metadata
meta (mapping o) = o.metadata
meta (unstructured o) = o.metadata

-- The object with other metadata.
abbrev pub set_meta : ObjectMeta → Object → Object
set_meta m (fork o) = fork (record o { metadata = m })
set_meta m (fork_manager o) = fork_manager (record o { metadata = m })
set_meta m (service o) = service (record o { metadata = m })
set_meta m (vs_config o) = vs_config (record o { metadata = m })
set_meta m (virtual_service o) = virtual_service (record o { metadata = m })
set_meta m (deployment_copy o) = deployment_copy (record o { metadata = m })
set_meta m (mapping o) = mapping (record o { metadata = m })
set_meta m (unstructured o) = unstructured (record o { metadata = m })

pub meta-set_meta : (m : ObjectMeta) (o : Object) → meta (set_meta m o) ≡ m
meta-set_meta m (fork o) = refl
meta-set_meta m _ = refl

-- `GetObjectKind().GroupVersionKind()`
abbrev pub object_kind : Object → TypeMeta
object_kind (fork o) = o.type_meta
object_kind (fork_manager o) = o.type_meta
object_kind (service o) = o.type_meta
object_kind (vs_config o) = o.type_meta
object_kind (virtual_service o) = o.type_meta
object_kind (deployment_copy o) = o.type_meta
object_kind (mapping o) = o.type_meta
object_kind (unstructured o) = o.type_meta

-- A selector is its requirements; `labels.Everything()` has none. `""` is every namespace.
pub record ListOptions : Type 0 where
  pub namespace : String
  pub label_selector : List LabelSelectorRequirement

pub record Kube (W : Type 0) : Type 0 where
  -- `client.Reader`
  pub get_fork : NamespacedName → W → Result Fork
  pub get_fork_manager : NamespacedName → W → Result ForkManager
  pub get_service : NamespacedName → W → Result Service
  pub get_vs_config : NamespacedName → W → Result VsConfig
  pub list_forks : ListOptions → W → Result (List Fork)
  pub list_fork_managers : ListOptions → W → Result (List ForkManager)
  pub list_services : ListOptions → W → Result (List Service)
  pub list_deployments : ListOptions → W → Result (List Deployment)
  pub list_vs_configs : ListOptions → W → Result (List VsConfig)
  pub list_mappings : ListOptions → W → Result (List Mapping)
  pub list_unstructured : TypeMeta → ListOptions → W → Result (List Unstructured)
  -- `client.Delete` and `controllerutil.CreateOrUpdate`: the function is applied to the object
  -- that is found under the key of the first argument, or to that argument.
  pub delete : Object → Exec W (Unit {0})
  pub create_or_update : Object → (Object → Result Object) → Exec W (Unit {0})
  -- `controllerutil.SetControllerReference` and `runtime.Scheme.Convert`, from the first argument
  -- over the second
  pub set_controller_reference : Object → Object → Result Object
  pub convert : Object → Object → Result Object
  -- `reflect.New` of an object's type
  pub new_like : Object → Object
  -- `runtime.DefaultUnstructuredConverter.FromUnstructured`
  pub to_vs_config : Unstructured → Result VsConfig
  pub to_virtual_service : Unstructured → Result VirtualService
  -- `labels.NewRequirement` for `selection.Equals` with one value, `LabelSelectorAsSelector`, and
  -- `labels.Set(s).AsSelector().Matches(labels)`
  pub new_requirement : String → String → Result LabelSelectorRequirement
  pub as_selector : Option LabelSelector → Result (List LabelSelectorRequirement)
  pub set_matches : GoMap String String → GoMap String String → Bool
  -- `sets.NewString(xs...).List()`
  pub sorted_set : List String → List String
