-- ===== src/Updaters.antt =====
-- domain/updater/microservice.go and domain/updater/virtualservice.go: a run reads the parent object,
-- builds the lists of the objects that it should own, and refreshes each list.
pub mod Sync
pub mod Written
pub mod Among
pub mod Copied
pub mod Originals
pub mod Made
pub mod Lists
pub mod Owned
pub mod Undisturbed
pub mod Settled
pub mod Recopied
use kubefork_controller.Base.{String, List}
use kubefork_controller.Base.GoMap.{GoMap}
use kubefork_controller.Base.Result.{Result, ok, err, ignore_not_found}
use kubefork_controller.Base.Exec.{Exec, lift, read, ◌>>=◌, for_each}
use kubefork_controller.Api.{NamespacedName, ObjectMeta, Fork, Service}
use kubefork_controller.Kube.{Kube, Object, ListOptions}
use kubefork_controller.Kube
use kubefork_controller.Refresh.{ObjectList, refresh}
use kubefork_controller.Refresh.Naming.{FloatOps}
use kubefork_controller.Application
use kubefork_controller.Application.Builder
use kubefork_controller.VirtualServices

abbrev pub slug_of : ObjectMeta → NamespacedName
slug_of m = record { namespace = m.namespace; name = m.name }

module _ {W : Type 0} (kube : Kube W) (floats : FloatOps) where
  -- The loop over `resourceLists`.
  unfoldable pub refresh_lists : Object → List ObjectList → Exec W (Unit {0})
  refresh_lists parent lists = for_each (λ list. refresh kube parent list floats) lists

  module _ (range : (V : Type 0) → GoMap String V → GoMap String V) where
    unfoldable pub update_fork : Result Fork → Exec W (Unit {0})
    update_fork (err e) = lift (ignore_not_found e)
    update_fork (ok fork) = do
      app ← read (Application.Builder.build kube fork range)
      lists ← lift (Application.generate_lists kube.to_vs_config app)
      refresh_lists (Kube.fork fork) lists

    -- `microserviceUpdater.Update`
    unfoldable pub update_microservice : NamespacedName → Exec W (Unit {0})
    unfolding update_fork
    update_microservice slug w = update_fork (kube.get_fork slug w) w

    -- `microserviceUpdater.UpdateAll`
    unfoldable pub update_all_microservices : ListOptions → Exec W (Unit {0})
    update_all_microservices opts = do
      forks ← read (kube.list_forks opts)
      for_each (λ (frk : Fork). update_microservice (slug_of frk.metadata)) forks

  -- `virtualServiceUpdater.Update`
  unfoldable pub update_virtual_service : NamespacedName → Exec W (Unit {0})
  update_virtual_service slug = do
    service ← read (kube.get_service slug)
    lister ← read (VirtualServices.build kube slug)
    refresh_lists (Kube.service service)
        (VirtualServices.generate_lists kube.to_virtual_service lister)

  -- `virtualServiceUpdater.UpdateAll`
  unfoldable pub update_all_virtual_services : ListOptions → Exec W (Unit {0})
  update_all_virtual_services opts = do
    services ← read (kube.list_services opts)
    for_each (λ (svc : Service). update_virtual_service (slug_of svc.metadata)) services
