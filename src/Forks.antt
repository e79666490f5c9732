-- ===== src/Forks.antt =====
-- What the program does to the Forks on the server: it only deletes the one that a request names, and
-- only when its deadline has passed. Of the code, all that controllers/ runs is concerned.
use kubefork_controller.Base.{String, ◌<>◌, ◌≡◌, Bool, false, List, All, string_eq, ◌==◌}
use kubefork_controller.Base.Result.{Result, ok}
use kubefork_controller.Base.Keeps.{Keeps}
use kubefork_controller.Api.{TypeMeta}
use kubefork_controller.Kube.{
  Kube, Object, ListOptions, Unstructured, fork, fork_manager, service, vs_config, virtual_service,
  deployment_copy, mapping, unstructured,
}
pub mod Refreshed
pub mod Updated
pub mod Mapped
pub mod Served
pub mod Steps
pub mod Announced

-- The kind of an object, whatever Go type it has.
abbrev pub kind_of : Object → String
kind_of (fork _) = "Fork"
kind_of (fork_manager _) = "ForkManager"
kind_of (service _) = "Service"
kind_of (vs_config _) = "VSConfig"
kind_of (virtual_service _) = "VirtualService"
kind_of (deployment_copy _) = "DeploymentCopy"
kind_of (mapping _) = "Mapping"
kind_of (unstructured u) = u.type_meta.kind

abbrev pub is_kind : String → Object → Bool
is_kind kind o = kind_of o == kind

abbrev pub is_fork : Object → Bool
is_fork = is_kind "Fork"

-- What is about one kind is kept by every call that is about another: the server holds the kinds
-- apart, a list of another kind has no objects of this one, and `reflect.New` keeps the Go type.
pub record KindApart {W : Type 0} (kube : Kube W) (kind : String) (P : W → Type 0) : Type 0 where
  pub deleted : (o : Object) → is_kind kind o ≡ false → Keeps P (kube.delete o)
  pub written :
      (o : Object) (f : Object → Result Object)
      → is_kind kind o ≡ false
      → Keeps P (kube.create_or_update o f)
  pub listed :
      (list_kind : TypeMeta) (options : ListOptions) (w : W) (us : List Unstructured)
      → (list_kind.kind == kind <> "List") ≡ false
      → kube.list_unstructured list_kind options w ≡ ok us
      → All (λ u. is_kind kind (unstructured u) ≡ false) us
  pub like : (o : Object) → is_kind kind o ≡ false → is_kind kind (kube.new_like o) ≡ false
