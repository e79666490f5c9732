-- ===== src/Api/Routing.antt =====
-- The VirtualService of Istio and the Mapping of Ambassador.
use Prim.Native.Nat.{ℕ}
use Prim.Native.String.{String}
use mathlib.Core.Option.{Option}
use mathlib.Core.List.{List}
use kubefork_controller.Base.GoMap.{GoMap}
use kubefork_controller.Api.Meta.{TypeMeta, ObjectMeta}

-- `StringMatch`, of which the program builds one form.
pub data StringMatch : Type 0 where
  exact : String → StringMatch

pub record HttpMatchRequest : Type 0 where
  pub headers : GoMap String StringMatch

-- A route with no match request takes every request. A destination is its host.
pub record HttpRoute : Type 0 where
  pub match_requests : List HttpMatchRequest
  pub destinations : List String

pub record VirtualServiceSpec : Type 0 where
  pub hosts : List String
  pub http : List HttpRoute

pub record VirtualService : Type 0 where
  pub type_meta : TypeMeta
  pub metadata : ObjectMeta
  pub spec : VirtualServiceSpec

-- An `AddedHeader` is its string.
pub record MappingSpec : Type 0 where
  pub add_request_headers : GoMap String String
  pub allow_upgrade : List String
  pub ambassador_id : List String
  pub host : String
  pub prefix : String
  pub rewrite : Option String
  pub service : String
  pub host_rewrite : String
  pub timeout_ms : ℕ

pub record Mapping : Type 0 where
  pub type_meta : TypeMeta
  pub metadata : ObjectMeta
  pub spec : MappingSpec
