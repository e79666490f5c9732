-- ===== src/Updaters/Sync.antt =====
-- What a run of `Update` of domain/updater/virtualservice.go leaves on the server.
use kubefork_controller.Base.{
  ◌≡◌, refl, sym, subst, ◌∙◌, true, false, ◌&&◌, Option, none, List, [], ◌∷◌, ◌++◌, All, all, map,
  contains, string_eq, ◌==◌, if◌then◌else◌, arith,
}
use mathlib.Core.Path.{subst₂}
use kubefork_controller.Base.Result.{Result, ok, ok-injective}
use kubefork_controller.Base.Exec.{>>=-eq-ok, read->>=-eq-ok, for_each, for_each-cons}
use kubefork_controller.Api.{NamespacedName, VsConfig, Service, HttpRoute, VirtualService}
use kubefork_controller.Kube.{Kube, Object, Unstructured, meta}
use kubefork_controller.Kube
use kubefork_controller.Kube.Laws.{Tracks}
use kubefork_controller.Refresh.{ObjectList, desired_ids, handle_existing, refresh}
use kubefork_controller.Refresh.Naming.{FloatOps}
use kubefork_controller.Refresh.Sweep.{owned_with}
use kubefork_controller.Refresh.Existing.{holds}
use kubefork_controller.Refresh.Converge.{IsTyped, item_name}
use kubefork_controller.Refresh.Outcome.{stored-refresh}
use kubefork_controller.VirtualServices.{
  VsLister, is_skipped, config_route, config_routes, default_route, build_http_routes,
  build_virtual_service, generate_lists, virtual_service_list, virtual_service_of,
  virtual_service_identity,
}
use kubefork_controller.VirtualServices
use kubefork_controller.Updaters.{refresh_lists, update_virtual_service}

config_routes-skipped :
    (service : Service) (configs : List VsConfig) (routes : List HttpRoute)
    → all (is_skipped service) configs ≡ true
    → config_routes service configs routes ≡ routes
unfolding config_routes
config_routes-skipped service [] routes h = refl
config_routes-skipped service (c ∷ cs) routes h =
    elim (is_skipped service c)
        as (λ skip.
          (skip && all (is_skipped service) cs) ≡ true
          → config_routes service cs (if skip then routes else routes ++ config_route c ∷ [])
            ≡ routes) [
              | true ↦ λ others. config_routes-skipped service cs routes others
              | false ↦ λ none_left. cc
            ]
      h

module _ (to_virtual_service : Unstructured → Result VirtualService) where
  items-skipped :
      (a : VsLister)
      → all (is_skipped a.service) a.sorted_configs ≡ true
      → (build_virtual_service to_virtual_service a).items ≡ []
  unfolding build_virtual_service build_http_routes
  items-skipped a h = rw (config_routes-skipped a.service a.sorted_configs [] h) refl

module _ {W : Type 0} (kube : Kube W) (floats : FloatOps) where
  module _ (parent : Object) (list : ObjectList) {Is : Object → Type 0}
      {stored : W → NamespacedName → Option Object}
      (tracked : Tracks kube list.group_version_kind (meta parent).namespace Is stored) where
    -- A refresh with no items.
    stored-refresh_empty :
        (w w' : W) (k : NamespacedName)
        → list.items ≡ []
        → refresh kube parent list floats w ≡ (ok tt, w')
        → stored w' k ≡ (
            if k.namespace == (meta parent).namespace
              && holds (owned_with parent list (λ _. true)) (stored w k)
            then none
            else stored w k)
    unfolding refresh desired_ids
    stored-refresh_empty w w' k empty h =
        let (found, w₁, existing, _) = >>=-eq-ok (handle_existing kube parent list) _ w w' tt h in
        stored-refresh kube parent list floats tracked [] found w w₁ w' k
          (subst (λ items. desired_ids list.identity items ≡ ok []) (sym empty) refl)
          (subst (All (IsTyped kube parent list floats tracked)) (sym empty) tt) existing h
          (subst
            (λ items.
              (k.namespace == (meta parent).namespace
                && contains (map (item_name kube parent list floats tracked found) items) k.name)
              ≡ false)
            (sym empty) (ground arith))

  pub refresh-of-update :
      (slug : NamespacedName) (service : Service) (a : VsLister) (w w' : W)
      → kube.get_service slug w ≡ ok service
      → VirtualServices.build kube slug w ≡ ok a
      → update_virtual_service kube floats slug w ≡ (ok tt, w')
      → refresh kube
          (Kube.service service)
          (build_virtual_service kube.to_virtual_service a)
          floats
          w
        ≡ (ok tt, w')
  unfolding update_virtual_service refresh_lists generate_lists for_each
  refresh-of-update slug service a w w' found built h =
      let (service', found', h₁) = read->>=-eq-ok (kube.get_service slug) _ w w' tt h in
      let (a', built', h₂) = read->>=-eq-ok (VirtualServices.build kube slug) _ w w' tt h₁ in
      let (w₁, first, rest) =
        for_each-cons (λ list. refresh kube (Kube.service service') list floats)
          (build_virtual_service kube.to_virtual_service a') [] w w' h₂ in
      let same_service : service' ≡ service = ok-injective (sym found' ∙ found) in
      let same_lister : a' ≡ a = ok-injective (sym built' ∙ built) in
      subst₂
        (λ s l.
          refresh kube (Kube.service s) (build_virtual_service kube.to_virtual_service l) floats w
          ≡ (ok tt, w'))
        same_service same_lister (first ∙ rest)

  module _ (service : Service) {Is : Object → Type 0} {stored : W → NamespacedName → Option Object}
      (tracks : Tracks kube virtual_service_list service.metadata.namespace Is stored) where
    -- On a server that keeps the laws of `Tracks` for the namespace of the Service: if no VSConfig of
    -- that namespace is for the Service with a header value, then an update of its VirtualService that
    -- succeeds deletes, in that namespace, the VirtualServices that the Service owns and whose host can
    -- be read, and changes no other VirtualService.
    pub stored-update_virtual_service :
        (slug : NamespacedName) (a : VsLister) (w w' : W) (k : NamespacedName)
        → kube.get_service slug w ≡ ok service
        → VirtualServices.build kube slug w ≡ ok a
        → all (is_skipped a.service) a.sorted_configs ≡ true
        → update_virtual_service kube floats slug w ≡ (ok tt, w')
        → stored w' k ≡ (
            if k.namespace == service.metadata.namespace
              && holds
                  (owned_with
                    (Kube.service service)
                    (build_virtual_service kube.to_virtual_service a)
                    (λ _. true))
                  (stored w k)
            then none
            else stored w k)
    unfolding build_virtual_service
    stored-update_virtual_service slug a w w' k found built skipped h =
        stored-refresh_empty (Kube.service service)
          (build_virtual_service kube.to_virtual_service a) tracks w w' k
          (items-skipped kube.to_virtual_service a skipped)
          (refresh-of-update slug service a w w' found built h)
