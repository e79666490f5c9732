-- ===== src/Updaters/Owned.antt =====
-- The Services and the VSConfigs of a Fork after `microserviceUpdater.Update` of
-- domain/updater/microservice.go.
use kubefork_controller.Base.{
  String, ◌≡◌, refl, sym, subst, ◌↔◌, true, false, Option, [], ◌∷◌, All, contains, string_eq,
  nat_eq,
}
use kubefork_controller.Base.GoMap.{GoMap}
use kubefork_controller.Base.Result.{ok}
use kubefork_controller.Api.{NamespacedName, Fork, Service, VsConfig}
use kubefork_controller.Kube.{
  Kube, Object, service, vs_config, meta, set_meta, meta-set_meta, Unstructured,
}
use kubefork_controller.Kube
use kubefork_controller.Kube.Laws.{Tracks}
use kubefork_controller.Refresh.{empty_object}
use kubefork_controller.Refresh.Naming.{FloatOps}
use kubefork_controller.Refresh.Owned.{Distinct, Owning}
use kubefork_controller.Refresh.Keyed.{Keeping}
use kubefork_controller.Application.{
  App, generate_services, generate_vs_configs, service_list, vs_config_list, service_identity,
  vs_config_identity,
}
use kubefork_controller.Application.Builder
use kubefork_controller.Application.Builder.{
  get_fork_header_key, fork_target_services, existing_forked_services, collect_routes,
}
use kubefork_controller.Updaters.{update_microservice}
use kubefork_controller.Updaters.Lists.{OwnsAs, is_misnamed, Outcome, refreshed, list-Outcome}
use kubefork_controller.Updaters.Copied.{IsShort}
use kubefork_controller.Updaters.Originals.{original_names, names_for, MadeFor}
use kubefork_controller.Forks.{KindApart}
use kubefork_controller.Forks.Updated.{
  generate_deployment_copies-ListApart, generate_services-ListApart, generate_vs_configs-ListApart,
}
use kubefork_controller.Updaters.Made.{
  IsService, IsVsConfig, service_identity-set_meta, vs_config_identity-set_meta, build-fork,
  generate_services-MadeFor, generate_vs_configs-MadeFor,
}

module _ {W : Type 0} (kube : Kube W) (floats : FloatOps) (fork : Fork) (app : App)
    (range : (V : Type 0) → GoMap String V → GoMap String V) (slug : NamespacedName) where
  module _ {Is : Object → Type 0} {stored : W → NamespacedName → Option Object}
      (tracks : Tracks kube service_list fork.metadata.namespace Is stored)
      (apart : (k : NamespacedName) (v : Option Object)
        → KindApart kube "Service" (λ w. stored w k ≡ v)) where
    pub services-Outcome :
        (w w' : W)
        → Owning kube (Kube.fork fork) tracks.admit
        → Keeping kube (Kube.fork fork) service_identity tracks.admit IsService
        → ((s : Service) (name : String) → Is (empty_object kube (Kube.fork fork) name (service s)))
        → All IsShort (names_for fork app.services)
        → Distinct (names_for fork app.services)
        → ((name : String) → is_misnamed stored fork service_identity w name ≡ false)
        → kube.get_fork slug w ≡ ok fork
        → Builder.build kube fork range w ≡ ok app
        → update_microservice kube floats range slug w ≡ (ok tt, w')
        → Outcome stored fork service_identity app.services w w'
    unfolding generate_services string_eq
    services-Outcome w w' owning keeping typed short distinct named got built run =
        let (copies, copied, h) = refreshed kube floats fork app range slug w w' got built run in
        let made =
          subst (λ f. MadeFor f (generate_services app) app.services IsService)
            (build-fork kube fork range w app built) (generate_services-MadeFor app) in
        list-Outcome kube floats fork "Service" apart (generate_services app) app.services tracks
          IsService made keeping service_identity-set_meta
          (λ o (s, e) name.
            subst (λ p. Is (empty_object kube (Kube.fork fork) name p)) (sym e) (typed s name))
          owning short distinct (copies ∷ []) (generate_vs_configs kube.to_vs_config app ∷ []) w w'
          (generate_deployment_copies-ListApart "Service" app copies refl refl copied, tt)
          (generate_vs_configs-ListApart "Service" kube.to_vs_config app refl refl, tt) named h

    -- For a Fork whose App is built, and a server that keeps the laws of `Tracks` for Services in
    -- the namespace of the Fork, and on which the calls about other kinds leave the Services alone
    -- and list no Service. It takes what is made for a Service as one, and keeps the owner
    -- references that it is sent; and conversion, controller reference and admission give the
    -- identity of a Service, the Service it is a copy of, as they got it. The names
    -- `<Service>-<Fork>` of the Services of the App are distinct, not empty and at most 63
    -- characters long, and before the update each Service that the Fork owns in its namespace and
    -- whose identity can be read has the name `<identity>-<Fork>`. After an update that succeeds,
    -- the Fork owns a Service with an identity exactly when the App has a Service of that name, and
    -- what is said of the names before the update holds again.
    pub update_microservice-OwnsServices :
        (w w' : W)
        → Owning kube (Kube.fork fork) tracks.admit
        → Keeping kube (Kube.fork fork) service_identity tracks.admit IsService
        → ((s : Service) (name : String) → Is (empty_object kube (Kube.fork fork) name (service s)))
        → All IsShort (names_for fork app.services)
        → Distinct (names_for fork app.services)
        → ((name : String) → is_misnamed stored fork service_identity w name ≡ false)
        → kube.get_fork slug w ≡ ok fork
        → Builder.build kube fork range w ≡ ok app
        → update_microservice kube floats range slug w ≡ (ok tt, w')
        → (id name : String)
        → (OwnsAs stored fork service_identity w' id
            ↔ (contains (original_names app.services) id ≡ true))
          × (is_misnamed stored fork service_identity w' name ≡ false)
    update_microservice-OwnsServices w w' owning keeping typed short distinct named got built run id
          name =
        let after = services-Outcome w w' owning keeping typed short distinct named got built run in
        (after.owned id, after.named name)

  module _ {Is : Object → Type 0} {stored : W → NamespacedName → Option Object}
      (tracks : Tracks kube vs_config_list fork.metadata.namespace Is stored)
      (apart : (k : NamespacedName) (v : Option Object)
        → KindApart kube "VSConfig" (λ w. stored w k ≡ v)) where
    pub vs_configs-Outcome :
        (w w' : W)
        → Owning kube (Kube.fork fork) tracks.admit
        → Keeping kube
            (Kube.fork fork)
            (vs_config_identity kube.to_vs_config)
            tracks.admit
            IsVsConfig
        → ((v : VsConfig) (name : String)
            → Is (empty_object kube (Kube.fork fork) name (vs_config v)))
        → All IsShort (names_for fork app.services)
        → Distinct (names_for fork app.services)
        → ((name : String)
            → is_misnamed stored fork (vs_config_identity kube.to_vs_config) w name ≡ false)
        → kube.get_fork slug w ≡ ok fork
        → Builder.build kube fork range w ≡ ok app
        → update_microservice kube floats range slug w ≡ (ok tt, w')
        → Outcome stored fork (vs_config_identity kube.to_vs_config) app.services w w'
    unfolding generate_vs_configs string_eq
    vs_configs-Outcome w w' owning keeping typed short distinct named got built run =
        let (copies, copied, h) = refreshed kube floats fork app range slug w w' got built run in
        let configs = generate_vs_configs kube.to_vs_config app in
        let made =
          subst (λ f. MadeFor f configs app.services IsVsConfig)
            (build-fork kube fork range w app built)
            (generate_vs_configs-MadeFor kube.to_vs_config app) in
        list-Outcome kube floats fork "VSConfig" apart configs app.services tracks IsVsConfig made
          keeping (vs_config_identity-set_meta kube.to_vs_config)
          (λ o (v, e) name.
            subst (λ p. Is (empty_object kube (Kube.fork fork) name p)) (sym e) (typed v name))
          owning short distinct (copies ∷ generate_services app ∷ []) [] w w'
          (
            generate_deployment_copies-ListApart "VSConfig" app copies refl refl copied,
            (generate_services-ListApart "VSConfig" app refl refl, tt),
          )
          tt named h

    -- For a Fork whose App is built, and a server that keeps the laws of `Tracks` for VSConfigs in
    -- the namespace of the Fork, and on which the calls about other kinds leave the VSConfigs alone
    -- and list no VSConfig. It takes what is made for a VSConfig as one, and keeps the owner
    -- references that it is sent; and conversion, controller reference and admission give the
    -- identity of a VSConfig, its host, as they got it. The names `<Service>-<Fork>` of the
    -- Services of the App are distinct, not empty and at most 63 characters long, and before the
    -- update each VSConfig that the Fork owns in its namespace and whose identity can be read has
    -- the name `<identity>-<Fork>`. After an update that succeeds, the Fork owns a VSConfig with an
    -- identity exactly when the App has a Service of that name, and what is said of the names
    -- before the update holds again.
    pub update_microservice-OwnsVsConfigs :
        (w w' : W)
        → Owning kube (Kube.fork fork) tracks.admit
        → Keeping kube
            (Kube.fork fork)
            (vs_config_identity kube.to_vs_config)
            tracks.admit
            IsVsConfig
        → ((v : VsConfig) (name : String)
            → Is (empty_object kube (Kube.fork fork) name (vs_config v)))
        → All IsShort (names_for fork app.services)
        → Distinct (names_for fork app.services)
        → ((name : String)
            → is_misnamed stored fork (vs_config_identity kube.to_vs_config) w name ≡ false)
        → kube.get_fork slug w ≡ ok fork
        → Builder.build kube fork range w ≡ ok app
        → update_microservice kube floats range slug w ≡ (ok tt, w')
        → (id name : String)
        → (OwnsAs stored fork (vs_config_identity kube.to_vs_config) w' id
            ↔ (contains (original_names app.services) id ≡ true))
          × (is_misnamed stored fork (vs_config_identity kube.to_vs_config) w' name ≡ false)
    update_microservice-OwnsVsConfigs w w' owning keeping typed short distinct named got built run
          id name =
        let after =
          vs_configs-Outcome w w' owning keeping typed short distinct named got built run in
        (after.owned id, after.named name)
