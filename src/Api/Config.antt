-- ===== src/Api/Config.antt =====
-- api/v1beta1/vsconfig_types.go
use Prim.Native.String.{String}
use kubefork_controller.Api.Meta.{TypeMeta, ObjectMeta}

pub record VsConfigSpec : Type 0 where
  pub host : String
  pub service : String
  pub header_name : String
  pub header_value : String

pub record VsConfig : Type 0 where
  pub type_meta : TypeMeta
  pub metadata : ObjectMeta
  pub spec : VsConfigSpec
