-- ===== src/Updaters/Written.antt =====
-- The VirtualService that a run of `Update` of domain/updater/virtualservice.go writes.
use kubefork_controller.Base.{
  String, ◌≡◌, refl, sym, ap, subst, ◌∙◌, true, false, ◌&&◌, Option, some, List, [], ◌∷◌, ◌++◌, All,
  all, length, ltb, string_eq, if◌then◌else◌, arith,
}
use kubefork_controller.Base.Result.{Result, ok}
use kubefork_controller.Base.Exec.{>>=-eq-ok}
use kubefork_controller.Api.{NamespacedName, VsConfig, Service, HttpRoute, VirtualService}
use kubefork_controller.Kube.{Kube, Object, Unstructured, meta}
use kubefork_controller.Kube
use kubefork_controller.Kube.Laws.{Tracks}
use kubefork_controller.Refresh.{handle_existing, empty_object, mutate, refresh}
use kubefork_controller.Refresh.Naming.{FloatOps}
use kubefork_controller.Refresh.Converge.{IsTyped}
use kubefork_controller.Refresh.Outcome.{refresh-written}
use kubefork_controller.VirtualServices.{
  VsLister, is_skipped, config_route, config_routes, default_route, build_http_routes,
  build_virtual_service, virtual_service_list, virtual_service_of,
}
use kubefork_controller.VirtualServices
use kubefork_controller.VirtualServices.Requests.{config_routes-append}
use kubefork_controller.Updaters.{update_virtual_service}
use kubefork_controller.Updaters.Sync.{refresh-of-update}

-- At least one route stands before the last one.
routes_of_kept :
    (service : Service) (configs : List VsConfig) (last : HttpRoute)
    → all (is_skipped service) configs ≡ false
    → ltb 1 (length (config_routes service configs [] ++ last ∷ [])) ≡ true
unfolding config_routes
routes_of_kept service [] last h = cc
routes_of_kept service (c ∷ cs) last h =
    elim (is_skipped service c)
        as (λ skip.
          (skip && all (is_skipped service) cs) ≡ false
          → ltb 1 (
              length
                (config_routes service cs (if skip then [] else config_route c ∷ []) ++ last ∷ []))
            ≡ true) [
              | true ↦ λ others. routes_of_kept service cs last others
              | false ↦ λ _.
                  rw (config_routes-append service cs (config_route c ∷ []))
                    (two_long (config_route c) (config_routes service cs []) last)
            ]
      h
  where
    two_long :
        (r : HttpRoute) (rs : List HttpRoute) (l : HttpRoute)
        → ltb 1 (length (r ∷ (rs ++ l ∷ []))) ≡ true
    two_long r [] l = refl
    two_long r (x ∷ rs) l = ground arith

items_kept :
    (to_virtual_service : Unstructured → Result VirtualService) (a : VsLister)
    → all (is_skipped a.service) a.sorted_configs ≡ false
    → (build_virtual_service to_virtual_service a).items
      ≡ Kube.virtual_service (virtual_service_of a) ∷ []
unfolding build_virtual_service build_http_routes
items_kept to_virtual_service a h =
    rw (routes_of_kept a.service a.sorted_configs (default_route a.service) h) refl

module _ {W : Type 0} (kube : Kube W) (floats : FloatOps) (service : Service) {Is : Object → Type 0}
    {stored : W → NamespacedName → Option Object}
    (tracks : Tracks kube virtual_service_list service.metadata.namespace Is stored) where
  -- What an update wrote: `sent` is what the function given to `CreateOrUpdate` made of the object that
  -- it found under the name.
  pub record Synced (a : VsLister) (w' : W) : Type 0 where
    pub seen : Object
    pub sent : Object
    pub built :
        mutate kube (Kube.service service) (Kube.virtual_service (virtual_service_of a)) seen
        ≡ ok sent
    pub in_namespace : (meta seen).namespace ≡ service.metadata.namespace
    pub there :
        stored w' (record { namespace = service.metadata.namespace; name = (meta seen).name })
        ≡ some (tracks.admit sent)

  -- On a server that keeps the laws of `Tracks`, if some VSConfig of the namespace is for the Service
  -- and has a header value, and the object that is written is of the listed kind, then after an update
  -- that succeeds the server holds, in the namespace of the Service, what was made of the VirtualService
  -- with the routes of the VSConfigs.
  pub update_virtual_service-Synced :
      (slug : NamespacedName) (a : VsLister) (w w' : W)
      → kube.get_service slug w ≡ ok service
      → VirtualServices.build kube slug w ≡ ok a
      → all (is_skipped a.service) a.sorted_configs ≡ false
      → ((name : String)
          → Is (
              empty_object kube
                (Kube.service service)
                name
                (Kube.virtual_service (virtual_service_of a))))
      → update_virtual_service kube floats slug w ≡ (ok tt, w')
      → Synced a w'
  unfolding build_virtual_service refresh
  update_virtual_service-Synced slug a w w' found built kept typed h =
      let parent = Kube.service service in
      let list = build_virtual_service kube.to_virtual_service a in
      let obj = Kube.virtual_service (virtual_service_of a) in
      let run = refresh-of-update kube floats slug service a w w' found built h in
      let items = items_kept kube.to_virtual_service a kept in
      let (existing, w₁, handled, _) = >>=-eq-ok (handle_existing kube parent list) _ w w' tt run in
      let (seen, sent, made, space, name, there) =
        refresh-written kube parent list floats tracks existing w w₁ w' [] [] obj items
          (subst (All (IsTyped kube parent list floats tracks)) (sym items) (typed, tt)) handled run
          refl in
      record {
        seen = seen;
        sent = sent;
        built = made;
        in_namespace = space;
        there =
            ap (λ n. stored w' (record { namespace = service.metadata.namespace; name = n })) name
            ∙ there;
      }
