-- ===== src/DeepCopies/Structs.antt =====
-- The structs of api/v1beta1 as they lie in memory. A struct leaves open what its pointers, slices and
-- maps are: with an address there it is what Go holds, with what is found at the address it is the
-- content. Nothing stands for `nil`.
use kubefork_controller.Base.{String, Option}
use kubefork_controller.Api.{TypeMeta}

pub record GatewayOptions (Headers Texts : Type 0) : Type 0 where
  pub add_request_headers : Option Headers
  pub allow_upgrade : Option Texts

pub record PodSpec (Containers : Type 0) : Type 0 where
  pub containers : Option Containers
  pub hostname : String

pub record PodTemplateSpec (Meta Containers : Type 0) : Type 0 where
  pub object_meta : Option Meta
  pub spec : PodSpec Containers

pub record ForkService (Selector : Type 0) : Type 0 where
  pub selector : Option Selector

pub record ForkDeployment (Selector Template Number : Type 0) : Type 0 where
  pub selector : Option Selector
  pub template : Option Template
  pub replicas : Option Number

pub record ForkSpec (Time Gateway Services Deployments : Type 0) : Type 0 where
  pub manager : String
  pub identifier : String
  pub deadline : Option Time
  pub gateway_options : Option Gateway
  pub services : Option Services
  pub deployments : Option Deployments

pub record ForkManagerSpec (Upstreams : Type 0) : Type 0 where
  pub ambassador_id : String
  pub header_key : String
  pub upstreams : Option Upstreams

-- The statuses have no fields.
pub data ForkStatus : Type 0 where
  fork_status : ForkStatus

pub data ForkManagerStatus : Type 0 where
  fork_manager_status : ForkManagerStatus

pub data VsConfigStatus : Type 0 where
  vs_config_status : VsConfigStatus

-- The three kinds of objects, each with its metadata, its specification and its status.
pub record Resource (Meta Spec Status : Type 0) : Type 0 where
  pub type_meta : TypeMeta
  pub object_meta : Meta
  pub spec : Spec
  pub status : Status

-- The three kinds of lists.
pub record ResourceList (Meta Items : Type 0) : Type 0 where
  pub type_meta : TypeMeta
  pub list_meta : Meta
  pub items : Option Items
