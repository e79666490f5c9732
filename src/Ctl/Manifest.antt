-- ===== src/Ctl/Manifest.antt =====
-- kubeforkctl/cmd/manifest.go and kubeforkctl/k8sClientGo/k8sClientGo.go, with `NewFork` of
-- kubeforkctl/domain/fork.go. What is asked of client-go is a parameter, as is the order in which
-- Go's `range` meets the entries of a map.
pub mod Lifetime
pub mod Listing
pub mod Output
use Prim.Native.Nat.{◌%◌, ◌^◌}
use kubefork_controller.Base.{
  String, ◌<>◌, ℕ, ◌+◌, ◌-◌, ◌*◌, ltb, Bool, false, Option, none, some, List, [], ◌∷◌, string_eq,
  ◌==◌, if◌then◌else◌,
}
use kubefork_controller.Base.GoMap.{GoMap, insert, keys}
use kubefork_controller.Base.Text.{split, first_part}
use kubefork_controller.Base.Result.{Result, ok, err, ◌>>=◌}
use kubefork_controller.Api.{
  LabelSelector, ObjectMeta, TypeMeta, Container, EnvVar, Fork, ForkSpec, PodTemplateSpec, Service,
  Deployment, Int32, Time,
}
use kubefork_controller.Application.Services.{new_meta}
use kubefork_controller.Ctl.{merge, new_selector, new_containers, new_env}

-- The calls of client-go, on the cluster as it stands. A selector is passed as it is, in place of the
-- text that `FormatLabelSelector` makes of it. Of an object that is got, only the labels are read,
-- which may be a `nil` map.
pub record Labelled : Type 0 where
  pub labels : Option (GoMap String String)

pub record Cluster : Type 0 where
  pub get_service : String → String → Result Labelled
  pub get_deployment : String → String → Result Labelled
  pub list_services : String → LabelSelector → Result (List Service)
  pub list_deployments : String → LabelSelector → Result (List Deployment)

-- `GetAllServiceLabelsByServiceName`
unfoldable pub get_service_labels :
    Cluster → String → String → Result (Option (GoMap String String))
get_service_labels cluster namespace service_name =
    cluster.get_service namespace service_name >>= λ s. ok s.labels

-- `GetAllDeploymentLabelsByDeploymentName`
unfoldable pub get_deployment_labels :
    Cluster → String → String → Result (Option (GoMap String String))
get_deployment_labels cluster namespace deployment_name =
    cluster.get_deployment namespace deployment_name >>= λ d. ok d.labels

abbrev pub image_name : String → String
image_name image = first_part (split b':' image)

-- The loops that collect the containers whose image is to be switched.
unfoldable pub collect_containers :
    String → List Container → GoMap String Container → GoMap String Container
collect_containers image [] containers = containers
collect_containers image (c ∷ cs) containers =
    collect_containers image cs
      (if image_name c.image == image_name image then insert c.name c containers else containers)

unfoldable pub collect_deployments :
    String → List Deployment → GoMap String Container → GoMap String Container
collect_deployments image [] containers = containers
collect_deployments image (d ∷ ds) containers =
    collect_deployments image ds (collect_containers image d.template.containers containers)

module _ (cluster : Cluster) (range : (V : Type 0) → GoMap String V → GoMap String V) where
  unfoldable pub collect_services :
      String
      → String
      → LabelSelector
      → List Service
      → GoMap String Container
      → Result (GoMap String Container)
  collect_services namespace image selector [] containers = ok containers
  collect_services namespace image selector (s ∷ ss) containers =
      let rest = λ (ds : List Deployment).
        collect_services namespace image selector ss (collect_deployments image ds containers) in
      cluster.list_deployments namespace
        (record selector { match_labels = merge s.spec.selector selector.match_labels })
      >>= rest

  -- `GetAllContainersByImageNameAndServiceAndDeploymentSelector`
  unfoldable pub get_all_containers :
      String → String → LabelSelector → LabelSelector → Result (List String)
  get_all_containers namespace image service_selector deployment_selector =
      cluster.list_services namespace service_selector >>= λ ss.
      collect_services namespace image deployment_selector ss [] >>= λ containers.
      ok (keys (range Container containers))

-- `time.Hour` in nanoseconds, and `time.Hour * validTime` of an `int64`, by its two's complement.
abbrev pub hour : ℕ
hour = 3600000000000

unfoldable pub valid_duration : ℕ → ℕ
valid_duration valid_time = hour * valid_time % 2 ^ 64

-- `Time.Add`: the sign bit tells whether the duration is subtracted. The instant from which times are
-- counted is taken to be early enough that no time stands before it.
unfoldable pub add_duration : Time → ℕ → Time
add_duration now d = if ltb d (2 ^ 63) then now + d else now - (2 ^ 64 - d)

-- The options of the command, and which of them were given.
pub record ManifestOption : Type 0 where
  pub identifier : String
  pub namespace : String
  pub output_path : String
  pub replica_num : Int32
  pub service_label : List String
  pub service_name : Option String
  pub deployment_label : List String
  pub deployment_name : Option String
  pub deployment_annotation : GoMap String String
  pub image : String
  pub env : GoMap String String
  pub fork_manager_name : String
  pub valid_time : ℕ
  pub kube_config_path : String
  pub kube_config_changed : Bool

-- The options of a command line that gives none, with the value of the variable KUBECONFIG.
abbrev pub default_option : String → ManifestOption
default_option env_kube_config = record {
  identifier = "";
  namespace = "";
  output_path = "";
  replica_num = 1;
  service_label = [];
  service_name = none;
  deployment_label = [];
  deployment_name = none;
  deployment_annotation = [];
  image = "";
  env = [];
  fork_manager_name = "";
  valid_time = 8;
  kube_config_path = env_kube_config;
  kube_config_changed = false;
}

-- `NewFork`, at the time `now`.
unfoldable pub new_fork :
    ManifestOption → Time → LabelSelector → LabelSelector → List Container → Fork
new_fork opt now service_selector deployment_selector containers = record {
  type_meta = record { kind = "Fork"; api_version = "fork.k8s.wantedly.com/v1beta1" };
  metadata = record (new_meta opt.namespace ("kubefork-" <> opt.identifier)) {
    labels = ("fork.k8s.wantedly.com/identifier", opt.identifier) ∷ [];
  };
  spec = record {
    manager = opt.fork_manager_name;
    identifier = opt.identifier;
    deadline = some (add_duration now (valid_duration opt.valid_time));
    gateway_options = none;
    services = some (record { selector = some service_selector });
    deployments = some (record {
      selector = some deployment_selector;
      template = some (record {
        metadata = some (record (new_meta "" "") {
          labels = ("app", opt.identifier) ∷ ("role", "fork") ∷ [];
          annotations = opt.deployment_annotation;
        });
        spec = record { containers = containers; hostname = "" };
      });
      replicas = some opt.replica_num;
    });
  };
}

abbrev labels_by_name :
    (String → Result (Option (GoMap String String)))
    → Option String
    → Result (Option (GoMap String String))
labels_by_name get none = ok (some [])
labels_by_name get (some name) = get name

module _ (cluster : Cluster) (range : (V : Type 0) → GoMap String V → GoMap String V) where
  -- `manifestRun`, up to the output of the Fork.
  unfoldable pub manifest_run : ManifestOption → Time → Result Fork
  manifest_run opt now =
      labels_by_name (get_service_labels cluster opt.namespace) opt.service_name
      >>= λ service_labels. new_selector opt.service_label service_labels >>= λ service_selector.
          labels_by_name (get_deployment_labels cluster opt.namespace) opt.deployment_name
          >>= λ deployment_labels.
              new_selector opt.deployment_label deployment_labels >>= λ deployment_selector.
              get_all_containers cluster range opt.namespace opt.image service_selector
                deployment_selector
              >>= λ names. ok (
                  new_fork opt now service_selector deployment_selector (
                    new_containers opt.image names (new_env opt.identifier (range String opt.env))))
