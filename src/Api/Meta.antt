-- ===== src/Api/Meta.antt =====
-- The metadata that all Kubernetes objects carry.
use Prim.Native.String.{String}
use mathlib.Core.Bool.{Bool}
use mathlib.Core.List.{List}
use kubefork_controller.Base.GoMap.{GoMap}

pub record NamespacedName : Type 0 where
  pub namespace : String
  pub name : String

-- `TypeMeta`. It also stands for a `GroupVersionKind`, whose `GroupVersion().String()` is the
-- API version.
pub record TypeMeta : Type 0 where
  pub kind : String
  pub api_version : String

pub record OwnerReference : Type 0 where
  pub api_version : String
  pub kind : String
  pub name : String
  pub uid : String
  pub controller : Bool

pub record ObjectMeta : Type 0 where
  pub name : String
  pub namespace : String
  pub labels : GoMap String String
  pub annotations : GoMap String String
  pub owner_references : List OwnerReference
  pub resource_version : String
  pub uid : String

pub record LabelSelectorRequirement : Type 0 where
  pub key : String
  pub operator : String
  pub values : List String

pub record LabelSelector : Type 0 where
  pub match_labels : GoMap String String
  pub match_expressions : List LabelSelectorRequirement
