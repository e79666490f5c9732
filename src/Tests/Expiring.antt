-- ===== src/Tests/Expiring.antt =====
-- A Fork from before its deadline to its deletion.
use kubefork_controller.Base.{
  ◌≡◌, refl, ◌⊎◌, true, Option, none, some, List, [], ◌∷◌, ◌++◌, filter_by, string_eq, nat_eq,
  arith,
}
use kubefork_controller.Base.Result.{ok, Error}
use kubefork_controller.Api.{NamespacedName, Fork}
use kubefork_controller.Controllers.{
  Event, is_expired, is_due, notified, tick, reconcile_fork, reconcile_vs_config,
}
use kubefork_controller.Controllers.Watching.{context_done, ticked, sending, returned, start, watch}
use kubefork_controller.Controllers.Sending.{
  has_come, current_of, receptions, start_blocked, start_drained,
}
use mathlib.Core.List.Memᴰ.{head, tail}
use kubefork_controller.Tests.Blank.{named_in}
use kubefork_controller.Controllers.Reporting.{hb_reconcile}
use kubefork_controller.Forks.Served.{reconcile_fork-stored}
use kubefork_controller.Forks.Steps.{
  Run, Spared, done, step, time_passes, fork_request, vs_config_request, Run-Spared,
}
use kubefork_controller.Forks.Announced.{serve, Reads, nothing, reading, tick-gone}
use kubefork_controller.Tests.Samples.{sample_fork, same_order}
use kubefork_controller.Tests.Cluster.{same_names}
use kubefork_controller.Tests.Floats.{fractions}
use kubefork_controller.Tests.OneFork.{fork_kube, held, fork_kube-ForkServer, fork_kube-Answers}

abbrev alice : NamespacedName
alice = record { namespace = "ns"; name = "alice" }

reconcile_fork-stored_example :
    (held
        (reconcile_fork fork_kube fractions same_order same_names 6 alice (some sample_fork)).1
        alice
      ≡ held (some sample_fork) alice)
    ⊎ ((f : Fork) × (fork_kube.get_fork alice (some sample_fork) ≡ ok f)
        × (is_expired 6 f ≡ true)
        × (alice ≡ alice))
reconcile_fork-stored_example =
    reconcile_fork-stored fork_kube held fork_kube-ForkServer alice fractions same_order same_names
      6 alice (some sample_fork)

-- Reports to Honeybadger leave the server alone.
abbrev unheard : Error → Option Fork → Option Fork
unheard e w = w

abbrev early : Option Fork
early =
    (hb_reconcile unheard (reconcile_fork fork_kube fractions same_order same_names 3 alice)
      (some sample_fork)).1

abbrev between : Option Fork
between = (hb_reconcile unheard (reconcile_vs_config fork_kube fractions alice) early).1

abbrev late : Option Fork
late =
    (hb_reconcile unheard (reconcile_fork fork_kube fractions same_order same_names 6 alice)
      between).1

start_to_end :
    Run fork_kube fractions same_order same_names unheard
      (record { clock = 3; world = some sample_fork })
      (record { clock = 6; world = late })
start_to_end = step (fork_request 3 (some sample_fork) alice) (
    step (vs_config_request 3 early alice)
      (step (time_passes 3 6 between (omega arith)) (step (fork_request 6 between alice) (done _))))

Run-Spared_example :
    Spared held alice
      (record { clock = 3; world = some sample_fork })
      (record { clock = 6; world = late })
Run-Spared_example =
    Run-Spared fork_kube fractions same_order same_names unheard held fork_kube-ForkServer alice
      (λ e w. refl) start_to_end

abbrev event : Event
event = record { current = sample_fork; later = [] }

announced : tick fork_kube 5 (some sample_fork) ≡ ok (event ∷ [])
unfolding tick notified is_due
announced = refl

held_first : held (some sample_fork) alice ≡ some sample_fork
unfolding string_eq
held_first = refl

tick-gone_example :
    held (serve fork_kube fractions same_order same_names 6 (alice ∷ []) (some sample_fork)) alice
    ≡ none
tick-gone_example =
    tick-gone fork_kube fractions same_order same_names held fork_kube-ForkServer alice
      fork_kube-Answers 5 6 (omega arith) sample_fork (unfold is_due in refl) (some sample_fork) []
      (event ∷ []) (sample_fork ∷ []) (alice ∷ []) refl announced held_first
      (reading (head refl) nothing) ((head refl, tt))

-- Of two Forks that are due, one may be announced twice and the other not at all.
abbrev other_fork : Fork
other_fork = record sample_fork { metadata = named_in "ns" "bob" }

lost : Reads (notified 5 (sample_fork ∷ other_fork ∷ [])) (other_fork ∷ other_fork ∷ [])
unfolding notified is_due
lost = reading (tail (head refl)) (reading (head refl) nothing)

first_due : sample_fork.spec.deadline ≡ some 5
first_due = refl

start_blocked_example :
    (e : Event) × (events : List Event) × (start fork_kube
        (ticked 5 (some sample_fork) ∷ context_done ∷ [])
      ≡ record { sent = (start fork_kube []).sent; stand = sending e events })
start_blocked_example =
    start_blocked fork_kube [] 5 (some sample_fork) (sample_fork ∷ []) (unfold start watch in refl)
      refl sample_fork 5 (context_done ∷ []) (head refl) first_due (omega arith) ((refl, tt))

start_drained_example :
    (events : List Event) × (current_of events ≡ filter_by (has_come 5) (sample_fork ∷ []))
    × (start fork_kube (
          ticked 5 (some sample_fork)
          ∷ (receptions (filter_by (has_come 5) (sample_fork ∷ [])) ++ context_done ∷ []))
        ≡ record { sent = (start fork_kube []).sent ++ events; stand = returned (ok tt) })
start_drained_example =
    start_drained fork_kube [] 5 (some sample_fork) (sample_fork ∷ []) (unfold start watch in refl)
      refl
