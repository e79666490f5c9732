-- ===== src/Api/Core.antt =====
-- Services and Deployments of Kubernetes, and the DeploymentCopy of deployment-duplicator.
use Prim.Native.String.{String}
use mathlib.Core.Option.{Option}
use mathlib.Core.List.{List}
use kubefork_controller.Base.GoMap.{GoMap}
use kubefork_controller.Api.Meta.{TypeMeta, ObjectMeta}
use kubefork_controller.Api.Forks.{Int32, Container}

-- `intstr.IntOrString`
pub data IntOrString : Type 0 where
  int_port : Int32 → IntOrString
  named_port : String → IntOrString

pub record ServicePort : Type 0 where
  pub name : String
  pub protocol : String
  pub app_protocol : Option String
  pub port : Int32
  pub target_port : IntOrString
  pub node_port : Int32

pub record ServiceSpec : Type 0 where
  pub cluster_ip : String
  pub service_type : String
  pub ports : List ServicePort
  pub selector : GoMap String String

pub record Service : Type 0 where
  pub type_meta : TypeMeta
  pub metadata : ObjectMeta
  pub spec : ServiceSpec

-- `spec.template` of a Deployment: the labels and the containers of its pods.
pub record PodTemplate : Type 0 where
  pub labels : GoMap String String
  pub containers : List Container

pub record Deployment : Type 0 where
  pub metadata : ObjectMeta
  pub template : PodTemplate

pub record DeploymentCopySpec : Type 0 where
  pub replicas : Int32
  pub target_deployment_name : String
  pub name_suffix : String
  pub custom_labels : GoMap String String
  pub custom_annotations : GoMap String String
  pub target_containers : List Container

pub record DeploymentCopy : Type 0 where
  pub type_meta : TypeMeta
  pub metadata : ObjectMeta
  pub spec : DeploymentCopySpec
