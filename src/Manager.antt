-- ===== src/Manager.antt =====
-- main.go, and what it calls of controllers: `SetupWithManager` of the reconcilers and
-- `SetupForkWatcher`. What controller-runtime does with a registration is a parameter.
pub mod Started
use Prim.Native.Nat.{ℕ}
use kubefork_controller.Base.{
  String, ◌≡◌, refl, sym, ap, subst, arith, ◌∙◌, ◌*◌, Bool, true, false, Option, some, List, [],
  ◌∷◌, ◌++◌, contains, string_eq,
}
use kubefork_controller.Base.Result.{Result, ok, err}
use kubefork_controller.Scheme.{
  GroupVersion, SchemeOps, Keeps, group_version, kinds, init_scheme, init_scheme-knows,
}
use kubefork_controller.Base.Exec.{Exec, ◌>>◌, >>=-eq-ok}

pub data Reconciler : Type 0 where
  fork_reconciler vs_config_reconciler service_reconciler : Reconciler

-- What the manager is told of: a controller, with the kind that it is for and whether it also watches
-- the channel of the watcher; the watcher, with the nanoseconds between its ticks; or a check that
-- answers to a ping.
pub data Registration : Type 0 where
  controller : Reconciler → String → Bool → Registration
  fork_watcher : ℕ → Registration
  healthz_check readyz_check : String → Registration

-- The flags of `main`, with their defaults.
pub record Flags : Type 0 where
  pub metrics_addr : String
  pub probe_addr : String
  pub enable_leader_election : Bool

abbrev pub default_flags : Flags
default_flags = record {
  metrics_addr = ":8080";
  probe_addr = ":8081";
  enable_leader_election = false;
}

-- `ctrl.Options`, as `main` fills it.
pub record Options (S : Type 0) : Type 0 where
  pub scheme : S
  pub metrics_bind_address : String
  pub port : ℕ
  pub health_probe_bind_address : String
  pub leader_election : Bool
  pub leader_election_id : String

abbrev pub options_of : {S : Type 0} → S → Flags → Options S
options_of scheme flags = record {
  scheme = scheme;
  metrics_bind_address = flags.metrics_addr;
  port = 9443;
  health_probe_bind_address = flags.probe_addr;
  leader_election = flags.enable_leader_election;
  leader_election_id = "82aeab55.k8s.wantedly.com";
}

-- What `flag.Parse` does: it sets the flags, or ends the process with a status, for a flag that it does
-- not know or when it is asked for help.
pub data Parsed : Type 0 where
  parsed : Flags → Parsed
  exits : ℕ → Parsed

-- `flag.Parse`, `ctrl.GetConfigOrDie`, `ctrl.NewManager`, the calls of a manager that register
-- something, and `Start`.
pub record Runtime (M S : Type 0) : Type 0 where
  pub parse : Flags → M → Parsed × M
  pub get_config : Exec M (Unit {0})
  pub new_manager : Options S → Exec M (Unit {0})
  pub register : Registration → Exec M (Unit {0})
  pub start : Exec M (Unit {0})

abbrev pub minute : ℕ
minute = 60 * 1000000000

module _ {M S : Type 0} (runtime : Runtime M S) where
  -- `ForkReconciler.SetupForkWatcher`
  unfoldable pub setup_fork_watcher : Exec M (Unit {0})
  setup_fork_watcher = runtime.register (fork_watcher (1 * minute))

  -- `SetupWithManager` of the three reconcilers
  unfoldable pub setup_fork_reconciler : Exec M (Unit {0})
  setup_fork_reconciler =
      setup_fork_watcher >> runtime.register (controller fork_reconciler "Fork" true)

  unfoldable pub setup_vs_config_reconciler : Exec M (Unit {0})
  setup_vs_config_reconciler = runtime.register (controller vs_config_reconciler "VSConfig" false)

  unfoldable pub setup_service_reconciler : Exec M (Unit {0})
  setup_service_reconciler = runtime.register (controller service_reconciler "Service" false)

  -- What `main` does after `flag.Parse`.
  unfoldable pub run_main : S → Flags → Exec M (Unit {0})
  run_main scheme flags = do
    runtime.get_config
    runtime.new_manager (options_of scheme flags)
    setup_vs_config_reconciler
    setup_fork_reconciler
    runtime.register (healthz_check "healthz")
    runtime.register (readyz_check "readyz")
    runtime.start

  abbrev pub exit_code : Result (Unit {0}) → ℕ
  exit_code (ok _) = 0
  exit_code (err _) = 1

  abbrev pub run_parsed : S → Parsed × M → ℕ × M
  run_parsed scheme (exits status, m) = (status, m)
  run_parsed scheme (parsed flags, m) = let (r, m') = run_main scheme flags m in (exit_code r, m')

  -- `main`, with the status that the process ends with.
  unfoldable pub main : S → M → ℕ × M
  main scheme m = run_parsed scheme (runtime.parse default_flags m)

  abbrev pub with_scheme : Result S → M → ℕ × M
  with_scheme (ok scheme) m = main scheme m
  with_scheme (err _) m = (2, m)

  -- The whole process: `init`, where a panic ends it with the status 2, and `main`.
  unfoldable pub process : {B : Type 0} → SchemeOps S B → M → ℕ × M
  process ops m = with_scheme (init_scheme ops) m
