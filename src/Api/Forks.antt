-- ===== src/Api/Forks.antt =====
-- api/v1beta1/fork_types.go
use Prim.Native.Nat.{ℕ}
use Prim.Native.String.{String}
use mathlib.Core.Option.{Option}
use mathlib.Core.List.{List}
use kubefork_controller.Base.GoMap.{GoMap}
use kubefork_controller.Api.Meta.{TypeMeta, ObjectMeta, LabelSelector}

-- `int32`, by its two's complement: the program copies these numbers and does not compute.
abbrev pub Int32 : Type 0
Int32 = ℕ

-- `metav1.Time`, as nanoseconds since a fixed instant.
abbrev pub Time : Type 0
Time = ℕ

pub record EnvVar : Type 0 where
  pub name : String
  pub value : String

-- `corev1.Container`
pub record Container : Type 0 where
  pub name : String
  pub image : String
  pub env : List EnvVar

pub record PodSpec : Type 0 where
  pub containers : List Container
  pub hostname : String

-- The embedded `*metav1.ObjectMeta` may be `nil`.
pub record PodTemplateSpec : Type 0 where
  pub metadata : Option ObjectMeta
  pub spec : PodSpec

pub record GatewayOptions : Type 0 where
  pub add_request_headers : GoMap String String
  pub allow_upgrade : List String

pub record ForkService : Type 0 where
  pub selector : Option LabelSelector

pub record ForkDeployment : Type 0 where
  pub selector : Option LabelSelector
  pub template : Option PodTemplateSpec
  pub replicas : Option Int32

pub record ForkSpec : Type 0 where
  pub manager : String
  pub identifier : String
  pub deadline : Option Time
  pub gateway_options : Option GatewayOptions
  pub services : Option ForkService
  pub deployments : Option ForkDeployment

pub record Fork : Type 0 where
  pub type_meta : TypeMeta
  pub metadata : ObjectMeta
  pub spec : ForkSpec
