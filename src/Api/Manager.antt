-- ===== src/Api/Manager.antt =====
-- api/v1beta1/forkmanager_types.go
use Prim.Native.String.{String}
use mathlib.Core.List.{List}
use kubefork_controller.Api.Meta.{TypeMeta, ObjectMeta}

pub record Upstream : Type 0 where
  pub host : String
  pub original : String
  pub host_rewrite : String

pub record ForkManagerSpec : Type 0 where
  pub ambassador_id : String
  pub header_key : String
  pub upstreams : List Upstream

pub record ForkManager : Type 0 where
  pub type_meta : TypeMeta
  pub metadata : ObjectMeta
  pub spec : ForkManagerSpec
