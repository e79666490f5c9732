-- ===== src/Forks/Steps.antt =====
-- Runs of the controllers of controllers/ as a step relation: time passes, and requests are served,
-- each within the wrapper that reports its error, in any order, for any name, each as often as the work queue repeats it.
use kubefork_controller.Base.{
  String, ◌≡◌, refl, sym, ap, ◌∙◌, ◌≤◌, true, Option, none, some, List, ◌⊎◌, inl, inr, arith,
}
use kubefork_controller.Base.GoMap.{GoMap}
use kubefork_controller.Base.Result.{Error}
use kubefork_controller.Base.Exec.{Exec}
use kubefork_controller.Api.{NamespacedName, Fork, Time}
use kubefork_controller.Kube.{Kube}
use kubefork_controller.Refresh.Naming.{FloatOps}
use kubefork_controller.Controllers.{
  is_before, is_expired, reconcile_fork, reconcile_vs_config, reconcile_service,
}
use kubefork_controller.Controllers.Reporting.{hb_reconcile, hb_reconcile-view}
use kubefork_controller.Forks.Served.{
  ForkServer, reconcile_fork-stored, reconcile_vs_config-stored, reconcile_service-stored,
}

-- The time, and all that the server and the queue hold.
pub record System (W : Type 0) : Type 0 where
  pub clock : Time
  pub world : W

still_before :
    (deadline : Option Time) (now later : Time)
    → now ≤ later
    → is_before deadline now ≡ true
    → is_before deadline later ≡ true
still_before none now later h p = cc
still_before (some d) now later h p = ground arith

still_expired :
    (now later : Time) (f : Fork)
    → now ≤ later
    → is_expired now f ≡ true
    → is_expired later f ≡ true
unfolding is_expired
still_expired now later f = still_before f.spec.deadline now later

-- The Fork under `k` is as it was, or its deadline has passed.
abbrev pub Spared :
    {W : Type 0}
    → (W → NamespacedName → Option Fork)
    → NamespacedName
    → System W
    → System W
    → Type 0
Spared stored k s s' =
    (stored s'.world k ≡ stored s.world k)
    ⊎ ((f : Fork) × (stored s.world k ≡ some f) × (is_expired s'.clock f ≡ true))

module _ {W : Type 0} (kube : Kube W) (floats : FloatOps)
    (range : (V : Type 0) → GoMap String V → GoMap String V)
    (range_names : List NamespacedName → List NamespacedName) (notify : Error → W → W) where
  pub data Step : System W → System W → Type 0 where
    time_passes :
        (now later : Time) (w : W)
        → now ≤ later
        → Step (record { clock = now; world = w }) (record { clock = later; world = w })
    fork_request :
        (now : Time) (w : W) (slug : NamespacedName)
        → Step
            (record { clock = now; world = w })
            (record {
              clock = now;
              world =
                  (hb_reconcile notify (reconcile_fork kube floats range range_names now slug) w).1;
            })
    vs_config_request :
        (now : Time) (w : W) (slug : NamespacedName)
        → Step
            (record { clock = now; world = w })
            (record {
              clock = now;
              world = (hb_reconcile notify (reconcile_vs_config kube floats slug) w).1;
            })
    service_request :
        (now : Time) (w : W) (slug : NamespacedName)
        → Step
            (record { clock = now; world = w })
            (record {
              clock = now;
              world = (hb_reconcile notify (reconcile_service kube floats slug) w).1;
            })

  pub data Run : System W → System W → Type 0 where
    done : (s : System W) → Run s s
    step : {s s₁ s' : System W} → Step s s₁ → Run s₁ s' → Run s s'

  Step-clock : {s s' : System W} → Step s s' → s.clock ≤ s'.clock
  Step-clock (time_passes now later w h) = h
  Step-clock (fork_request now w slug) = omega arith
  Step-clock (vs_config_request now w slug) = omega arith
  Step-clock (service_request now w slug) = omega arith

  Run-clock : {s s' : System W} → Run s s' → s.clock ≤ s'.clock
  Run-clock (done s) = omega arith
  Run-clock (step move rest) = let h = Step-clock move in let k = Run-clock rest in omega arith

  module _ (stored : W → NamespacedName → Option Fork) (server : ForkServer kube stored)
      (k : NamespacedName) (quiet : (e : Error) (w : W) → stored (notify e w) k ≡ stored w k) where
    reported :
        (orig : Exec W (Unit {0})) (w : W)
        → stored (hb_reconcile notify orig w).1 k ≡ stored (orig w).1 k
    reported = hb_reconcile-view notify (λ w. stored w k) quiet

    Step-Spared : {s s' : System W} → Step s s' → Spared stored k s s'
    Step-Spared (time_passes now later w h) = inl refl
    Step-Spared (fork_request now w slug) =
        elim (reconcile_fork-stored kube stored server k floats range range_names now slug w) [
          | inl same ↦
              inl (reported (reconcile_fork kube floats range range_names now slug) w ∙ same)
          | inr (f, found, expired, here) ↦
              inr (f, ap (stored w) here ∙ (server.found slug w f found).0, expired)
        ]
    Step-Spared (vs_config_request now w slug) = inl (
        reported (reconcile_vs_config kube floats slug) w
        ∙ reconcile_vs_config-stored kube stored server k floats slug w)
    Step-Spared (service_request now w slug) = inl (
        reported (reconcile_service kube floats slug) w
        ∙ reconcile_service-stored kube stored server k floats slug w)

    Spared-trans :
        (s s₁ s' : System W)
        → s₁.clock ≤ s'.clock
        → Spared stored k s s₁
        → Spared stored k s₁ s'
        → Spared stored k s s'
    Spared-trans s s₁ s' h (inl same) (inl same') = inl (same' ∙ same)
    Spared-trans s s₁ s' h (inl same) (inr (f, held, expired)) = inr (f, sym same ∙ held, expired)
    Spared-trans s s₁ s' h (inr (f, held, expired)) _ =
        inr (f, held, still_expired s₁.clock s'.clock f h expired)

    -- If a report to Honeybadger leaves the Forks alone, then in every run of the controllers, of any requests in any order, whatever fails, the server goes on
    -- to hold under a name the Fork that it held before, or none if it held none, unless it held one
    -- whose deadline has passed by the end.
    pub Run-Spared : {s s' : System W} → Run s s' → Spared stored k s s'
    Run-Spared (done s) = inl refl
    Run-Spared (step {s = s} {s₁ = s₁} {s' = s'} move rest) =
        Spared-trans s s₁ s' (Run-clock rest) (Step-Spared move) (Run-Spared rest)
