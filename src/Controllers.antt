-- ===== src/Controllers.antt =====
-- controllers/: the reconcilers and the watcher of deadlines. A request is the name of an object, and
-- the time at which a call reads the clock is an argument.
pub mod Deadlines
pub mod Watching
pub mod Sending
pub mod Reporting
pub mod Rejection
pub mod Alive
use kubefork_controller.Base.{
  String, Bool, true, false, not, ltb, Option, none, some, List, [], ◌∷◌, if◌then◌else◌,
}
use mathlib.Core.List.{Memᴰ}
use kubefork_controller.Base.GoMap.{GoMap}
use kubefork_controller.Base.Result.{Result, ok, err, not_found, ignore_not_found}
use kubefork_controller.Base.Result
use kubefork_controller.Base.Exec.{Exec, lift, raise, read, ◌>>=◌, ◌>>◌, for_each}
use kubefork_controller.Api.{NamespacedName, Fork, VsConfig, Service, Time}
use kubefork_controller.Kube.{Kube, ListOptions}
use kubefork_controller.Kube
use kubefork_controller.Refresh.Naming.{FloatOps}
use kubefork_controller.Slug.{parse_manager}
use kubefork_controller.Mappings
use kubefork_controller.Updaters.{
  update_microservice, update_virtual_service, update_all_virtual_services,
}

-- `Deadline != nil && Deadline.Before(&now)`
abbrev pub is_before : Option Time → Time → Bool
is_before none now = false
is_before (some deadline) now = ltb deadline now

unfoldable pub is_expired : Time → Fork → Bool
is_expired now frk = is_before frk.spec.deadline now

-- What the loop of the watcher does not skip.
abbrev pub is_reached : Option Time → Time → Bool
is_reached none now = false
is_reached (some deadline) now = if ltb now deadline then false else true

unfoldable pub is_due : Time → Fork → Bool
is_due now frk = is_reached frk.spec.deadline now

-- What the watcher sends. The object of an event is the address of the variable of the loop, of which
-- there is one for all rounds in the Go of this module (1.18): it holds `current` when the event is
-- sent, and then the Forks of `later`, one in each round that follows.
pub record Event : Type 0 where
  pub current : Fork
  pub later : List Fork

-- What a reader of the event may find behind the address, early or late.
abbrev pub CanRead : Event → Fork → Type 0
CanRead e f = Memᴰ f (e.current ∷ e.later)

-- The events that the loop of one tick sends, in order.
unfoldable pub notified : Time → List Fork → List Event
notified now [] = []
notified now (f ∷ forks) =
    let rest = notified now forks in
    if is_due now f then record { current = f; later = forks } ∷ rest else rest

module _ {W : Type 0} (kube : Kube W) where
  -- What one tick of `forkWatcher.Start` is to send. An error ends the watcher.
  unfoldable pub tick : Time → W → Result (List Event)
  tick now w =
      Result.◌>>=◌ (kube.list_forks (record { namespace = ""; label_selector = [] }) w)
        λ forks. ok (notified now forks)

module _ {W : Type 0} (kube : Kube W) (floats : FloatOps)
    (range : (V : Type 0) → GoMap String V → GoMap String V)
    (range_names : List NamespacedName → List NamespacedName) where
  -- `ForkReconciler.Reconcile`, from what `Get` returned.
  unfoldable pub reconcile_fork_from : Time → NamespacedName → Result Fork → Exec W (Unit {0})
  reconcile_fork_from now slug (err not_found) = Mappings.update_all kube range range_names
  reconcile_fork_from now slug (err e) = raise e
  reconcile_fork_from now slug (ok frk) =
      if is_expired now frk then kube.delete (Kube.fork frk) else do
        manager ← lift (parse_manager frk.spec.manager)
        Mappings.update kube range range_names manager
        update_microservice kube floats range slug

  unfoldable pub reconcile_fork : Time → NamespacedName → Exec W (Unit {0})
  unfolding reconcile_fork_from
  reconcile_fork now slug w = reconcile_fork_from now slug (kube.get_fork slug w) w

module _ {W : Type 0} (kube : Kube W) (floats : FloatOps) where
  -- `VSConfigReconciler.Reconcile`
  unfoldable pub reconcile_vs_config_from : NamespacedName → Result VsConfig → Exec W (Unit {0})
  reconcile_vs_config_from slug (err not_found) =
      update_all_virtual_services kube floats
        (record { namespace = slug.namespace; label_selector = [] })
  reconcile_vs_config_from slug (err e) = raise e
  reconcile_vs_config_from slug (ok instance_found) =
      update_virtual_service kube floats
        (record { namespace = slug.namespace; name = instance_found.spec.host })

  unfoldable pub reconcile_vs_config : NamespacedName → Exec W (Unit {0})
  unfolding reconcile_vs_config_from
  reconcile_vs_config slug w = reconcile_vs_config_from slug (kube.get_vs_config slug w) w

  -- `ServiceReconciler.Reconcile`
  unfoldable pub reconcile_service_from : NamespacedName → Result Service → Exec W (Unit {0})
  reconcile_service_from slug (err e) = lift (ignore_not_found e)
  reconcile_service_from slug (ok _) = update_virtual_service kube floats slug

  unfoldable pub reconcile_service : NamespacedName → Exec W (Unit {0})
  unfolding reconcile_service_from
  reconcile_service slug w = reconcile_service_from slug (kube.get_service slug w) w
