-- ===== src/Controllers/Reporting.antt =====
-- pkg/middleware/honeybadger.go: the wrapper in which each reconciler is registered. What
-- `honeybadger.Notify` does to the world is a parameter.
use kubefork_controller.Base.{String, ◌≡◌, refl, Option, none, some, string_eq, ◌==◌, if◌then◌else◌}
use kubefork_controller.Base.Result.{Result, ok, err, Error}
use kubefork_controller.Base.Exec.{Exec}
use kubefork_controller.Api.{NamespacedName}

-- `honeybadger.Configuration`, of which `init` fills these.
pub record Configuration : Type 0 where
  pub api_key : String
  pub env : String

-- What `init` hands to `honeybadger.Configure`, if it calls that at all: `getenv` gives the empty text
-- for a variable that is not set.
unfoldable pub configured : (String → String) → Option Configuration
configured getenv =
    if getenv "HONEYBADGER_API_KEY" == ""
    then none
    else some (record { api_key = getenv "HONEYBADGER_API_KEY"; env = getenv "APP_ENV" })

module _ {W : Type 0} (notify : Error → W → W) where
  abbrev report : Result (Unit {0}) → W → Result (Unit {0}) × W
  report (ok a) w = (ok a, w)
  report (err e) w = (err e, notify e w)

  -- `hb.Reconcile`
  unfoldable pub hb_reconcile : Exec W (Unit {0}) → Exec W (Unit {0})
  hb_reconcile orig w = let (res, w') = orig w in report res w'

  -- `Honeybadger`, of a reconciler that may be `nil`.
  unfoldable pub honeybadger :
      Option (NamespacedName → Exec W (Unit {0})) → Option (NamespacedName → Exec W (Unit {0}))
  unfolding hb_reconcile
  honeybadger none = none
  honeybadger (some r) = some (λ request. hb_reconcile (r request))

  report-result : (res : Result (Unit {0})) (w : W) → (report res w).0 ≡ res
  report-result (ok a) w = refl
  report-result (err e) w = refl

  -- The wrapped reconciler ends as the reconciler itself.
  pub hb_reconcile-result :
      (orig : Exec W (Unit {0})) (w : W) → (hb_reconcile orig w).0 ≡ (orig w).0
  unfolding hb_reconcile
  hb_reconcile-result orig w = report-result (orig w).0 (orig w).1

  module _ {A : Type 0} (view : W → A)
      (quiet : (e : Error) (w : W) → view (notify e w) ≡ view w) where
    report-view : (res : Result (Unit {0})) (w : W) → view (report res w).1 ≡ view w
    report-view (ok a) w = refl
    report-view (err e) w = quiet e w

    -- What a report does not change is as the reconciler left it.
    pub hb_reconcile-view :
        (orig : Exec W (Unit {0})) (w : W) → view (hb_reconcile orig w).1 ≡ view (orig w).1
    unfolding hb_reconcile
    hb_reconcile-view orig w = report-view (orig w).0 (orig w).1
