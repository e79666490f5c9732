-- ===== src/Controllers/Deadlines.antt =====
-- The watcher of controllers/fork_watcher.go against the deadline check of
-- controllers/fork_controller.go.
use kubefork_controller.Base.{
  String, ◌≡◌, refl, ap, ◌∙◌, ◌<◌, true, Option, none, some, List, [], ◌∷◌, filter_by, map, arith,
}
use kubefork_controller.Base.GoMap.{GoMap}
use kubefork_controller.Base.Result.{ok}
use kubefork_controller.Api.{NamespacedName, Fork, Time}
use kubefork_controller.Kube.{Kube}
use kubefork_controller.Kube
use kubefork_controller.Refresh.Naming.{FloatOps}
use kubefork_controller.Controllers.{
  Event, is_before, is_reached, is_expired, is_due, notified, reconcile_fork_from, reconcile_fork,
}

reached_before :
    (deadline : Option Time) (now later : Time)
    → now < later
    → is_reached deadline now ≡ true
    → is_before deadline later ≡ true
reached_before none now later h p = cc
reached_before (some d) now later h p = ground arith

before_reached :
    (deadline : Option Time) (now : Time)
    → is_before deadline now ≡ true
    → is_reached deadline now ≡ true
before_reached none now p = cc
before_reached (some d) now p = ground arith

-- Among the Forks that a tick announces are all those whose deadline has passed by then, in the order
-- of the list.
expired-notified :
    (now : Time) (forks : List Fork)
    → filter_by (is_expired now) (map (λ (e : Event). e.current) (notified now forks))
      ≡ filter_by (is_expired now) forks
unfolding notified is_expired is_due
expired-notified now [] = refl
expired-notified now (f ∷ fs) =
    ground (arith, before_reached f.spec.deadline now, expired-notified now fs)

module _ {W : Type 0} (kube : Kube W) (floats : FloatOps)
    (range : (V : Type 0) → GoMap String V → GoMap String V)
    (range_names : List NamespacedName → List NamespacedName) where
  -- If the deadline of a Fork is not after the time of a tick, so that the tick announces it, then a
  -- reconciliation at any later time that finds this Fork on the server deletes it and does nothing
  -- else, whatever its manager is.
  pub reconcile_fork-of-is_due :
      (now later : Time) (frk : Fork) (slug : NamespacedName) (w : W)
      → now < later
      → is_due now frk ≡ true
      → kube.get_fork slug w ≡ ok frk
      → reconcile_fork kube floats range range_names later slug w ≡ kube.delete (Kube.fork frk) w
  unfolding reconcile_fork reconcile_fork_from is_expired is_due
  reconcile_fork-of-is_due now later frk slug w h due found =
      ap (λ r. reconcile_fork_from kube floats range range_names later slug r w) found
      ∙ rw (reached_before frk.spec.deadline now later h due) refl
