-- ===== src/Forks/Updated.antt =====
-- domain/updater leaves the Forks alone.
use kubefork_controller.Base.{
  ◌∙◌, String, ◌<>◌, ◌==◌, ◌≡◌, refl, sym, ap, subst, Bool, true, false, List, [], ◌∷◌, All,
  string_eq, ltb, length, if◌then◌else◌,
}
use kubefork_controller.Base.GoMap.{GoMap}
use kubefork_controller.Base.Result
use kubefork_controller.Base.Result.{Result, ok, err, map_ok, ok-injective, ignore_not_found, ◌>>=◌}
use kubefork_controller.Base.Keeps.{
  Keeps, read->>=-Keeps, lift->>=-Keeps, for_each-Keeps, for_each-Keeps_all,
}
use kubefork_controller.Api.{NamespacedName, Fork, Service, Deployment, VsConfig, VirtualService}
use kubefork_controller.Kube.{Kube, Object, ListOptions, deployment_copy, Unstructured}
use kubefork_controller.Kube
use kubefork_controller.Refresh.{ObjectList, refresh}
use kubefork_controller.Refresh.Naming.{FloatOps}
use kubefork_controller.Application
use kubefork_controller.Application.{
  App, copied_deployment, generate_deployment_copies, service_objects, generate_services,
  vs_config_objects, generate_vs_configs,
}
use kubefork_controller.Application.Builder
use kubefork_controller.Application.Deployments
use kubefork_controller.VirtualServices
use kubefork_controller.VirtualServices.{VsLister, build_virtual_service}
use kubefork_controller.Updaters.{
  refresh_lists, update_fork, update_microservice, update_all_microservices, update_virtual_service,
  update_all_virtual_services, slug_of,
}
use kubefork_controller.Forks.{is_kind, is_fork, KindApart}
use kubefork_controller.Forks.Refreshed.{ListApart, refresh-Keeps}

copies_apart :
    (kind : String) (a : App) (ds : List Deployment) (copies : List Object)
    → (◌==◌ {A = String} "DeploymentCopy" kind) ≡ false
    → map_ok (copied_deployment a) ds ≡ ok copies
    → All (λ o. is_kind kind o ≡ false) copies
unfolding copied_deployment
copies_apart kind a [] copies other h =
    subst (All (λ o. is_kind kind o ≡ false)) (ok-injective h) tt
copies_apart kind a (d ∷ ds) copies other h =
    let (o, copied, h₁) = Result.>>=-eq-ok (copied_deployment a d) _ copies h in
    let (copy, _, made) = Result.>>=-eq-ok (Deployments.build_copy d a.fork _) _ o copied in
    let (os, rest, h₂) = Result.>>=-eq-ok (map_ok (copied_deployment a) ds) _ copies h₁ in
    subst (All (λ o. is_kind kind o ≡ false)) (ok-injective h₂)
      (ap (is_kind kind) (sym (ok-injective made)) ∙ other, copies_apart kind a ds os other rest)

services_apart :
    (kind : String) (a : App) (svcs : List Service)
    → (◌==◌ {A = String} "Service" kind) ≡ false
    → All (λ o. is_kind kind o ≡ false) (service_objects a svcs)
unfolding service_objects
services_apart kind a [] other = tt
services_apart kind a (svc ∷ svcs) other = (other, services_apart kind a svcs other)

configs_apart :
    (kind : String) (to_vs_config : Unstructured → Result VsConfig) (a : App) (svcs : List Service)
    → (◌==◌ {A = String} "VSConfig" kind) ≡ false
    → All (λ o. is_kind kind o ≡ false) (vs_config_objects to_vs_config a svcs)
unfolding vs_config_objects
configs_apart kind to_vs_config a [] other = tt
configs_apart kind to_vs_config a (svc ∷ svcs) other =
    (other, configs_apart kind to_vs_config a svcs other)

-- The lists of DeploymentCopies, of Services and of VSConfigs are those of no other kind.
pub generate_deployment_copies-ListApart :
    (kind : String) (a : App) (copies : ObjectList)
    → (◌==◌ {A = String} "DeploymentCopy" kind) ≡ false
    → (◌==◌ {A = String} "DeploymentCopyList" (kind <> "List")) ≡ false
    → generate_deployment_copies a ≡ ok copies
    → ListApart kind copies
unfolding generate_deployment_copies
generate_deployment_copies-ListApart kind a copies other list_other made =
    let (objects, copied, h) =
      Result.>>=-eq-ok (map_ok (copied_deployment a) a.deployments) _ copies made in
    subst (ListApart kind) (ok-injective h) (record {
      kind_apart = list_other;
      items_apart = copies_apart kind a a.deployments objects other copied;
    })

pub generate_services-ListApart :
    (kind : String) (a : App)
    → (◌==◌ {A = String} "Service" kind) ≡ false
    → (◌==◌ {A = String} "ServiceList" (kind <> "List")) ≡ false
    → ListApart kind (generate_services a)
unfolding generate_services
generate_services-ListApart kind a other list_other = record {
  kind_apart = list_other;
  items_apart = services_apart kind a a.services other;
}

pub generate_vs_configs-ListApart :
    (kind : String) (to_vs_config : Unstructured → Result VsConfig) (a : App)
    → (◌==◌ {A = String} "VSConfig" kind) ≡ false
    → (◌==◌ {A = String} "VSConfigList" (kind <> "List")) ≡ false
    → ListApart kind (generate_vs_configs to_vs_config a)
unfolding generate_vs_configs
generate_vs_configs-ListApart kind to_vs_config a other list_other = record {
  kind_apart = list_other;
  items_apart = configs_apart kind to_vs_config a a.services other;
}

-- The kind is none of those that a Fork owns.
pub record Uncopied (kind : String) : Type 0 where
  pub copy : (◌==◌ {A = String} "DeploymentCopy" kind) ≡ false
  pub copies : (◌==◌ {A = String} "DeploymentCopyList" (kind <> "List")) ≡ false
  pub service : (◌==◌ {A = String} "Service" kind) ≡ false
  pub services : (◌==◌ {A = String} "ServiceList" (kind <> "List")) ≡ false
  pub config : (◌==◌ {A = String} "VSConfig" kind) ≡ false
  pub configs : (◌==◌ {A = String} "VSConfigList" (kind <> "List")) ≡ false

generate_lists-ListApart :
    (kind : String) (other : Uncopied kind) (to_vs_config : Unstructured → Result VsConfig)
    (a : App) (lists : List ObjectList)
    → Application.generate_lists to_vs_config a ≡ ok lists
    → All (ListApart kind) lists
unfolding Application.generate_lists
generate_lists-ListApart kind other to_vs_config a lists h =
    let (copies, made, h₁) = Result.>>=-eq-ok (generate_deployment_copies a) _ lists h in
    subst (All (ListApart kind)) (ok-injective h₁) (
      generate_deployment_copies-ListApart kind a copies other.copy other.copies made,
      (
        generate_services-ListApart kind a other.service other.services,
        (generate_vs_configs-ListApart kind to_vs_config a other.config other.configs, tt),
      ),
    )

at_most_one_apart :
    (b : Bool) (vs : VirtualService)
    → All (λ o. is_fork o ≡ false) (if b then Kube.virtual_service vs ∷ [] else [])
unfolding string_eq
at_most_one_apart true vs = (refl, tt)
at_most_one_apart false vs = tt

virtual_services_apart :
    (to_virtual_service : Unstructured → Result VirtualService) (a : VsLister)
    → All (ListApart "Fork") (VirtualServices.generate_lists to_virtual_service a)
unfolding VirtualServices.generate_lists build_virtual_service string_eq
virtual_services_apart to_virtual_service a = (
  record {
    kind_apart = refl;
    items_apart =
        at_most_one_apart (ltb 1 (length (VirtualServices.build_http_routes a)))
          (VirtualServices.virtual_service_of a);
  },
  tt,
)

module _ {W : Type 0} (kube : Kube W) (kind : String) (P : W → Type 0)
    (apart : KindApart kube kind P) (floats : FloatOps) where
  pub refresh_lists-Keeps :
      (parent : Object) (lists : List ObjectList)
      → All (ListApart kind) lists
      → Keeps P (refresh_lists kube floats parent lists)
  unfolding refresh_lists
  refresh_lists-Keeps parent lists others =
      for_each-Keeps P (λ list. refresh kube parent list floats) (ListApart kind) lists
        (λ list other. refresh-Keeps kube kind P apart parent list other floats) others

  module _ (other : Uncopied kind) (range : (V : Type 0) → GoMap String V → GoMap String V) where
    update_fork-Keeps : (found : Result Fork) → Keeps P (update_fork kube floats range found)
    unfolding update_fork
    update_fork-Keeps (err e) w p = p
    update_fork-Keeps (ok fork) w p =
        read->>=-Keeps P (Application.Builder.build kube fork range) _
          (λ w app _.
            lift->>=-Keeps P (Application.generate_lists kube.to_vs_config app) _
              (λ lists made.
                refresh_lists-Keeps (Kube.fork fork) lists
                  (generate_lists-ListApart kind other kube.to_vs_config app lists made))
              w)
          w p

    pub update_microservice-Keeps :
        (slug : NamespacedName) → Keeps P (update_microservice kube floats range slug)
    unfolding update_microservice
    update_microservice-Keeps slug w p = update_fork-Keeps (kube.get_fork slug w) w p

    pub update_all_microservices-Keeps :
        (options : ListOptions) → Keeps P (update_all_microservices kube floats range options)
    unfolding update_all_microservices
    update_all_microservices-Keeps options =
        read->>=-Keeps P (kube.list_forks options) _ λ w forks _.
          for_each-Keeps_all P _ forks (λ frk. update_microservice-Keeps (slug_of frk.metadata)) w

module _ {W : Type 0} (kube : Kube W) (P : W → Type 0) (apart : KindApart kube "Fork" P)
    (floats : FloatOps) where
  pub update_virtual_service-Keeps :
      (slug : NamespacedName) → Keeps P (update_virtual_service kube floats slug)
  unfolding update_virtual_service
  update_virtual_service-Keeps slug = read->>=-Keeps P (kube.get_service slug) _ λ w service _.
      read->>=-Keeps P (VirtualServices.build kube slug) _
        (λ w lister _.
          refresh_lists-Keeps kube "Fork" P apart floats (Kube.service service)
            (VirtualServices.generate_lists kube.to_virtual_service lister)
            (virtual_services_apart kube.to_virtual_service lister) w)
        w

  pub update_all_virtual_services-Keeps :
      (options : ListOptions) → Keeps P (update_all_virtual_services kube floats options)
  unfolding update_all_virtual_services
  update_all_virtual_services-Keeps options =
      read->>=-Keeps P (kube.list_services options) _ λ w services _.
        for_each-Keeps_all P _ services (λ svc. update_virtual_service-Keeps (slug_of svc.metadata))
          w
