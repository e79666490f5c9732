-- ===== src/Updaters/Settled.antt =====
-- A second `microserviceUpdater.Update` of domain/updater/microservice.go right after the first.
use kubefork_controller.Base.{
  false, ◌&&◌, ◌==◌, String, ◌≡◌, refl, sym, ap, subst, ◌∙◌, false, Option, is_some, List, [], ◌∷◌,
  map, All, string_eq,
}
use kubefork_controller.Base.GoMap.{GoMap}
use kubefork_controller.Base.Result.{Result, ok}
use kubefork_controller.Api.{NamespacedName, Fork, Service, VsConfig}
use kubefork_controller.Kube.{Kube, Object, service, vs_config}
use kubefork_controller.Kube
use kubefork_controller.Kube.Laws.{Tracks}
use kubefork_controller.Refresh.{ObjectList, empty_object}
use kubefork_controller.Refresh.Existing.{holds}
use kubefork_controller.Refresh.Naming.{FloatOps}
use kubefork_controller.Refresh.Owned.{Distinct, Owning}
use kubefork_controller.Refresh.Keyed.{Keeping}
use kubefork_controller.Refresh.Standing.{Standing, Standing-again, is_stale}
use kubefork_controller.Application.{
  generate_deployment_copies, generate_services, generate_vs_configs, App, service_list,
  vs_config_list, service_identity, vs_config_identity,
}
use kubefork_controller.Application.Builder
use kubefork_controller.Updaters.{update_microservice}
use kubefork_controller.Updaters.Copied.{IsShort}
use kubefork_controller.Updaters.Originals.{
  original_names, names_for, name_for, MadeFor, MadeFor-wanted,
}
use kubefork_controller.Updaters.Undisturbed.{Undisturbed, refresh_lists-Undisturbed}
use kubefork_controller.Forks.Updated.{
  generate_deployment_copies-ListApart, generate_services-ListApart, generate_vs_configs-ListApart,
}
use kubefork_controller.Updaters.Lists.{refreshed, is_misnamed, Outcome}
use kubefork_controller.Updaters.Made.{
  IsService, IsVsConfig, build-fork, generate_services-MadeFor, generate_vs_configs-MadeFor,
}
use kubefork_controller.Updaters.Owned.{services-Outcome, vs_configs-Outcome}
use kubefork_controller.Forks.{KindApart}

names_for-eq-map :
    (fork : Fork) (svcs : List Service)
    → names_for fork svcs ≡ map (name_for fork) (original_names svcs)
names_for-eq-map fork [] = refl
names_for-eq-map fork (svc ∷ svcs) =
    ap (name_for fork svc.metadata.name ∷◌) (names_for-eq-map fork svcs)

-- Services of the same names have objects of the same names.
names_for_same :
    (fork : Fork) (svcs others : List Service)
    → original_names others ≡ original_names svcs
    → names_for fork others ≡ names_for fork svcs
names_for_same fork svcs others same =
    names_for-eq-map fork others ∙ ap (map (name_for fork)) same ∙ sym (names_for-eq-map fork svcs)

Outcome-again :
    {W : Type 0} (stored : W → NamespacedName → Option Object) (fork : Fork)
    (identity : Object → Result String) (svcs others : List Service) (w w' w'' : W)
    → original_names others ≡ original_names svcs
    → Outcome stored fork identity svcs w w'
    → Outcome stored fork identity others w' w''
    → (k : NamespacedName) → is_some (stored w'' k) ≡ is_some (stored w' k)
Outcome-again stored fork identity svcs others w w' w'' same first second =
    Standing-again stored (Kube.fork fork) identity (original_names svcs) (names_for fork svcs) w w'
      w'' first.standing
      (subst (λ ids. Standing stored (Kube.fork fork) identity ids (names_for fork svcs) w' w'')
        same
        (subst (λ l. Standing stored (Kube.fork fork) identity (original_names others) l w' w'')
          (names_for_same fork svcs others same) second.standing))

Outcome-current :
    {W : Type 0} (stored : W → NamespacedName → Option Object) (fork : Fork)
    (identity : Object → Result String) (svcs others : List Service) (w w' : W)
    → original_names others ≡ original_names svcs
    → Outcome stored fork identity svcs w w'
    → (k : NamespacedName)
    → (k.namespace == fork.metadata.namespace
        && holds (is_stale (Kube.fork fork) identity (original_names others)) (stored w' k))
      ≡ false
Outcome-current stored fork identity svcs others w w' same first k =
    rw same (first.standing.current k)

module _ {W : Type 0} (kube : Kube W) (floats : FloatOps) (fork : Fork) (app again : App)
    (range : (V : Type 0) → GoMap String V → GoMap String V) (slug : NamespacedName)
    (same : original_names again.services ≡ original_names app.services)
    (short : All IsShort (names_for fork app.services))
    (distinct : Distinct (names_for fork app.services)) (w w' w'' : W)
    (got : kube.get_fork slug w ≡ ok fork) (got_again : kube.get_fork slug w' ≡ ok fork)
    (built : Builder.build kube fork range w ≡ ok app)
    (built_again : Builder.build kube fork range w' ≡ ok again)
    (run : update_microservice kube floats range slug w ≡ (ok tt, w'))
    (run_again : update_microservice kube floats range slug w' ≡ (ok tt, w'')) where
  IsShort-again : All IsShort (names_for fork again.services)
  IsShort-again =
      subst (All IsShort) (sym (names_for_same fork app.services again.services same)) short

  Distinct-again : Distinct (names_for fork again.services)
  Distinct-again =
      subst Distinct (sym (names_for_same fork app.services again.services same)) distinct

  module _ {Is : Object → Type 0} {stored : W → NamespacedName → Option Object} where
    -- Two updates of a Fork follow each other and succeed; both find the Fork as it is, and make
    -- Apps with Services of the same names. The names `<Service>-<Fork>` of these are distinct, not
    -- empty and at most 63 characters long. The server keeps the laws of `Tracks` for Services in
    -- the namespace of the Fork, and the calls about other kinds leave the Services alone and list
    -- no Service. It takes what is made for a Service as one, and keeps the owner references that
    -- it is sent; conversion, controller reference and admission give the identity of a Service,
    -- the Service it is a copy of, as they got it; and before the first update each Service that
    -- the Fork owns in its namespace and whose identity can be read has the name
    -- `<identity>-<Fork>`. Then the second update deletes no Service and creates none: as it
    -- refreshes their list, `handleExisting` leaves the whole world as it is, so that nothing is
    -- deleted; the keys that hold a Service are the same before and after its items are written;
    -- and the other lists that it refreshes leave the Services alone.
    pub services-update_microservice_again :
        (tracks : Tracks kube service_list fork.metadata.namespace Is stored)
        → ((k : NamespacedName) (v : Option Object)
            → KindApart kube "Service" (λ w. stored w k ≡ v))
        → Owning kube (Kube.fork fork) tracks.admit
        → Keeping kube (Kube.fork fork) service_identity tracks.admit IsService
        → ((s : Service) (name : String) → Is (empty_object kube (Kube.fork fork) name (service s)))
        → ((name : String) → is_misnamed stored fork service_identity w name ≡ false)
        → (copies : ObjectList) × (generate_deployment_copies again ≡ ok copies)
          × Undisturbed kube floats stored
              (Kube.fork fork)
              (copies ∷ [])
              (generate_services again)
              (generate_vs_configs kube.to_vs_config again ∷ [])
              w'
              w''
    unfolding generate_services string_eq
    services-update_microservice_again tracks apart owning keeping typed named =
        let first =
          services-Outcome kube floats fork app range slug tracks apart w w' owning keeping typed
            short distinct named got built run in
        let second =
          services-Outcome kube floats fork again range slug tracks apart w' w'' owning keeping
            typed IsShort-again Distinct-again first.named got_again built_again run_again in
        let (copies, copied, h) =
          refreshed kube floats fork again range slug w' w'' got_again built_again run_again in
        let made =
          subst (λ f. MadeFor f (generate_services again) again.services IsService)
            (build-fork kube fork range w' again built_again) (generate_services-MadeFor again) in
        (
          copies,
          copied,
          refresh_lists-Undisturbed kube (Kube.fork fork) (generate_services again) tracks floats
              "Service" apart (copies ∷ []) (generate_vs_configs kube.to_vs_config again ∷ [])
              (original_names again.services) w' w''
              (generate_deployment_copies-ListApart "Service" again copies refl refl copied, tt)
              (generate_vs_configs-ListApart "Service" kube.to_vs_config again refl refl, tt)
              (MadeFor-wanted fork (generate_services again) again.services IsService made)
              (Outcome-current stored fork service_identity app.services again.services w w' same
                first)
              (Outcome-again stored fork service_identity app.services again.services w w' w'' same
                first second)
              h,
        )

    -- Two updates of a Fork follow each other and succeed; both find the Fork as it is, and make
    -- Apps with Services of the same names. The names `<Service>-<Fork>` of these are distinct, not
    -- empty and at most 63 characters long. The server keeps the laws of `Tracks` for VSConfigs in
    -- the namespace of the Fork, and the calls about other kinds leave the VSConfigs alone and list
    -- no VSConfig. It takes what is made for a VSConfig as one, and keeps the owner references that
    -- it is sent; conversion, controller reference and admission give the identity of a VSConfig,
    -- its host, as they got it; and before the first update each VSConfig that the Fork owns in its
    -- namespace and whose identity can be read has the name `<identity>-<Fork>`. Then the second
    -- update deletes no VSConfig and creates none: as it refreshes their list, `handleExisting`
    -- leaves the whole world as it is, so that nothing is deleted; the keys that hold a VSConfig
    -- are the same before and after its items are written; and the other lists that it refreshes
    -- leave the VSConfigs alone.
    pub vs_configs-update_microservice_again :
        (tracks : Tracks kube vs_config_list fork.metadata.namespace Is stored)
        → ((k : NamespacedName) (v : Option Object)
            → KindApart kube "VSConfig" (λ w. stored w k ≡ v))
        → Owning kube (Kube.fork fork) tracks.admit
        → Keeping kube
            (Kube.fork fork)
            (vs_config_identity kube.to_vs_config)
            tracks.admit
            IsVsConfig
        → ((v : VsConfig) (name : String)
            → Is (empty_object kube (Kube.fork fork) name (vs_config v)))
        → ((name : String)
            → is_misnamed stored fork (vs_config_identity kube.to_vs_config) w name ≡ false)
        → (copies : ObjectList) × (generate_deployment_copies again ≡ ok copies)
          × Undisturbed kube floats stored
              (Kube.fork fork)
              (copies ∷ generate_services again ∷ [])
              (generate_vs_configs kube.to_vs_config again)
              []
              w'
              w''
    unfolding generate_vs_configs string_eq
    vs_configs-update_microservice_again tracks apart owning keeping typed named =
        let first =
          vs_configs-Outcome kube floats fork app range slug tracks apart w w' owning keeping typed
            short distinct named got built run in
        let identity = vs_config_identity kube.to_vs_config in
        let configs = generate_vs_configs kube.to_vs_config again in
        let second =
          vs_configs-Outcome kube floats fork again range slug tracks apart w' w'' owning keeping
            typed IsShort-again Distinct-again first.named got_again built_again run_again in
        let (copies, copied, h) =
          refreshed kube floats fork again range slug w' w'' got_again built_again run_again in
        let made =
          subst (λ f. MadeFor f configs again.services IsVsConfig)
            (build-fork kube fork range w' again built_again)
            (generate_vs_configs-MadeFor kube.to_vs_config again) in
        (
          copies,
          copied,
          refresh_lists-Undisturbed kube (Kube.fork fork) configs tracks floats "VSConfig" apart
              (copies ∷ generate_services again ∷ []) [] (original_names again.services) w' w''
              (
                generate_deployment_copies-ListApart "VSConfig" again copies refl refl copied,
                (generate_services-ListApart "VSConfig" again refl refl, tt),
              )
              tt (MadeFor-wanted fork configs again.services IsVsConfig made)
              (Outcome-current stored fork identity app.services again.services w w' same first)
              (Outcome-again stored fork identity app.services again.services w w' w'' same first
                second)
              h,
        )
