-- ===== src/Manager/Started.antt =====
-- How the process of main.go comes to an end with the status 0.
use kubefork_controller.Base.{
  String, ◌≡◌, refl, sym, ap, subst, arith, ◌∙◌, ◌*◌, Bool, true, false, Option, some, List, [],
  ◌∷◌, ◌++◌, contains, string_eq,
}
use kubefork_controller.Base.Result.{Result, ok, err}
use kubefork_controller.Scheme.{
  GroupVersion, SchemeOps, Keeps, group_version, kinds, init_scheme, init_scheme-knows,
}
use kubefork_controller.Base.Exec.{>>=-eq-ok}
use kubefork_controller.Manager.{
  Registration, controller, fork_watcher, healthz_check, readyz_check, fork_reconciler,
  vs_config_reconciler, Flags, default_flags, Options, options_of, parsed, Runtime, minute,
  setup_fork_watcher, setup_fork_reconciler, setup_vs_config_reconciler, run_main, exit_code,
  run_parsed, main, with_scheme, process,
}

-- A manager starts with the options that it is given and nothing registered, and a registration that
-- succeeds comes last.
pub record Registers {M S : Type 0} (runtime : Runtime M S) (made : M → Option (Options S))
    (registered : M → List Registration) : Type 0 where
  pub fresh :
      (o : Options S) (m m' : M)
      → runtime.new_manager o m ≡ (ok tt, m')
      → (made m' ≡ some o) × (registered m' ≡ [])
  pub added :
      (r : Registration) (m m' : M)
      → runtime.register r m ≡ (ok tt, m')
      → (made m' ≡ made m) × (registered m' ≡ registered m ++ r ∷ [])

abbrev pub all_parts : List Registration
all_parts =
    controller vs_config_reconciler "VSConfig" false
    ∷ fork_watcher (1 * minute)
    ∷ controller fork_reconciler "Fork" true
    ∷ healthz_check "healthz"
    ∷ readyz_check "readyz"
    ∷ []

module _ {M S : Type 0} (runtime : Runtime M S) (made : M → Option (Options S))
    (registered : M → List Registration) (registers : Registers runtime made registered) where
  -- A manager with the options, and with these registered.
  abbrev Holds : Options S → List Registration → M → Type 0
  Holds o parts m = (made m ≡ some o) × (registered m ≡ parts)

  Holds-after :
      (o : Options S) (r : Registration) (before : List Registration) (m m' : M)
      → runtime.register r m ≡ (ok tt, m')
      → Holds o before m
      → Holds o (before ++ r ∷ []) m'
  Holds-after o r before m m' h (e, e') =
      let (same, more) = registers.added r m m' h in (same ∙ e, more ∙ ap (λ l. l ++ r ∷ []) e')

  run_main-started :
      (scheme : S) (flags : Flags) (m m' : M)
      → run_main runtime scheme flags m ≡ (ok tt, m')
      → (m₁ : M) × Holds (options_of scheme flags) all_parts m₁ × (runtime.start m₁ ≡ (ok tt, m'))
  unfolding run_main setup_vs_config_reconciler setup_fork_reconciler setup_fork_watcher
  run_main-started scheme flags m m' h =
      let o = options_of scheme flags in
      let (_, n, h₀, rest₀) = >>=-eq-ok runtime.get_config _ m m' tt h in
      let (_, a, h₁, rest₁) = >>=-eq-ok (runtime.new_manager o) _ n m' tt rest₀ in
      let (_, b, h₂, rest₂) = >>=-eq-ok (setup_vs_config_reconciler runtime) _ a m' tt rest₁ in
      let (_, c, h₃, rest₃) = >>=-eq-ok (setup_fork_reconciler runtime) _ b m' tt rest₂ in
      let (_, d, h₄, h₅) = >>=-eq-ok (setup_fork_watcher runtime) _ b c tt h₃ in
      let (_, e, h₆, rest₄) =
        >>=-eq-ok (runtime.register (healthz_check "healthz")) _ c m' tt rest₃ in
      let (_, f, h₇, last) = >>=-eq-ok (runtime.register (readyz_check "readyz")) _ e m' tt rest₄ in
      let p₁ = Holds-after o _ _ a b h₂ (registers.fresh o n a h₁) in
      let p₂ = Holds-after o _ _ b d h₄ p₁ in
      let p₃ = Holds-after o _ _ d c h₅ p₂ in
      let p₄ = Holds-after o _ _ c e h₆ p₃ in (f, Holds-after o _ _ e f h₇ p₄, last)

  exit_zero : (r : Result (Unit {0})) → exit_code runtime r ≡ 0 → r ≡ ok tt
  exit_zero (ok _) e = refl
  exit_zero (err _) e = ground arith

  main-ended :
      (scheme : S) (flags : Flags) (m m₁ : M)
      → runtime.parse default_flags m ≡ (parsed flags, m₁)
      → (main runtime scheme m).0 ≡ 0
      → run_main runtime scheme flags m₁ ≡ (ok tt, (main runtime scheme m).1)
  unfolding main
  main-ended scheme flags m m₁ given =
      subst
        (λ p.
          (run_parsed runtime scheme p).0 ≡ 0
          → run_main runtime scheme flags m₁ ≡ (ok tt, (run_parsed runtime scheme p).1))
        (sym given)
        λ h i.
          (exit_zero (run_main runtime scheme flags m₁).0 h i, (run_main runtime scheme flags m₁).1)

  -- Where the process ends with the status 0, `init` made the scheme and `main` ran to its end.
  with_scheme-ended :
      (r : Result S) (flags : Flags) (m m₁ : M)
      → runtime.parse default_flags m ≡ (parsed flags, m₁)
      → (with_scheme runtime r m).0 ≡ 0
      → (scheme : S) × (r ≡ ok scheme)
        × (run_main runtime scheme flags m₁ ≡ (ok tt, (with_scheme runtime r m).1))
  with_scheme-ended (ok scheme) flags m m₁ given h =
      (scheme, refl, main-ended scheme flags m m₁ given h)
  with_scheme-ended (err e) flags m m₁ given h = ground arith

  module _ {B : Type 0} (ops : SchemeOps S B) (knows : S → GroupVersion → String → Bool)
      (types : B → List String) (version_of : B → GroupVersion)
      (keeps : Keeps ops knows types version_of) where
    -- If a new manager has the options that it is given and nothing registered, and keeps what is
    -- registered in order, and a scheme keeps what is added to it, then the process, when its flags can
    -- be parsed, ends with the status 0 only after the manager was started, and ended without an error,
    -- with the options of `main`, a scheme that knows every type of api/v1beta1, and exactly these
    -- registered: the controllers of VSConfigs and of Forks, the watcher, which ticks each minute, and
    -- two checks. There is no controller of Services among them.
    pub main-started :
        (flags : Flags) (kind : String) (m m₁ : M)
        → contains kinds kind ≡ true
        → runtime.parse default_flags m ≡ (parsed flags, m₁)
        → (process runtime ops m).0 ≡ 0
        → (scheme : S) × (m₂ : M) × (knows scheme group_version kind ≡ true)
          × (made m₂ ≡ some (options_of scheme flags))
          × (registered m₂ ≡ all_parts)
          × (runtime.start m₂ ≡ (ok tt, (process runtime ops m).1))
    unfolding process
    main-started flags kind m m₁ known given h =
        let (scheme, made_scheme, ran) = with_scheme-ended (init_scheme ops) flags m m₁ given h in
        let (m₂, (with_options, with_parts), last) = run_main-started scheme flags m₁ _ ran in
        (
          scheme,
          m₂,
          init_scheme-knows ops knows types version_of keeps scheme kind made_scheme known,
          with_options,
          with_parts,
          last,
        )
