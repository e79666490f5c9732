-- ===== src/Tests/Starting.antt =====
-- A manager that only remembers what it is told, and a scheme that remembers the builders it is given.
use kubefork_controller.Base.{
  String, ◌≡◌, refl, sym, ap, Bool, true, Option, none, some, List, [], ◌∷◌, ◌++◌, ◌∙◌, ◌&&◌, ◌==◌,
  string_eq, contains, any, arith,
}
use kubefork_controller.Base.Result.{Result, ok, ok-injective}
use kubefork_controller.Base.Exec.{◌>>=◌}
use kubefork_controller.Scheme.{
  GroupVersion, SchemeOps, Keeps, group_version, kinds, init_scheme, scheme_builder, add_to_scheme,
}
use kubefork_controller.Manager.{
  Registration, Flags, Options, options_of, parsed, default_flags, Runtime, run_main,
  setup_vs_config_reconciler, setup_fork_reconciler, setup_fork_watcher, main, process,
}
use kubefork_controller.Manager.Started.{Registers, all_parts, main-started}

abbrev Builder : Type 0
Builder = GroupVersion × List String

abbrev same_version : GroupVersion → GroupVersion → Bool
same_version a b = a.group == b.group && a.version == b.version

abbrev in_builder : GroupVersion → String → Builder → Bool
in_builder g t (h, ts) = same_version g h && contains ts t

abbrev knows : List Builder → GroupVersion → String → Bool
knows s g t = any (in_builder g t) s

abbrev ops : SchemeOps (List Builder) Builder
ops = record {
  new_scheme = [];
  new_builder = λ g. (g, []);
  register = λ ts b. (b.0, b.1 ++ ts);
  add_types = λ b s. ok (b ∷ s);
  add_client_go = λ s. ok s;
  add_duplicator = λ s. ok s;
  add_istio = λ s. ok s;
  add_ambassador = λ s. ok s;
}

eq_self : (s : String) → (s == s) ≡ true
eq_self s = elim (string_eq.dec s s) [ yes e ↦ ground arith | no n ↦ absurd (n refl) ]

knows-cons :
    (b : Builder) (s : List Builder) (t : String)
    → contains b.1 t ≡ true
    → knows (b ∷ s) b.0 t ≡ true
knows-cons b s t known = ground (arith, eq_self b.0.group, eq_self b.0.version)

kept :
    (s s' : List Builder) (g : GroupVersion) (t : String)
    → ok s ≡ ok s'
    → knows s g t ≡ true
    → knows s' g t ≡ true
kept s s' g t e known = ap (λ l. knows l g t) (sym (ok-injective e)) ∙ known

keeps : Keeps ops knows (λ b. b.1) (λ b. b.0)
keeps = record {
  version_new = λ g. refl;
  types_new = λ g. refl;
  types_register = λ ts b. refl;
  version_register = λ ts b. refl;
  added =
      λ b s s' t e known. ap (λ l. knows l b.0 t) (sym (ok-injective e)) ∙ knows-cons b s t known;
  kept_duplicator = kept;
  kept_istio = kept;
  kept_ambassador = kept;
}

abbrev Told : Type 0
Told = Option (Options (List Builder)) × List Registration

abbrev listing : Runtime Told (List Builder)
listing = record {
  parse = λ flags m. (parsed (record flags { enable_leader_election = true }), m);
  get_config = λ m. (ok tt, m);
  new_manager = λ o m. (ok tt, (some o, []));
  register = λ r m. (ok tt, (m.0, m.1 ++ r ∷ []));
  start = λ m. (ok tt, m);
}

listing-Registers : Registers listing (λ m. m.0) (λ m. m.1)
listing-Registers = record {
  fresh = λ o m m' h. (
    sym (ap (λ (r : Result (Unit {0}) × Told). r.1.0) h),
    sym (ap (λ (r : Result (Unit {0}) × Told). r.1.1) h),
  );
  added = λ r m m' h. (
    sym (ap (λ (r : Result (Unit {0}) × Told). r.1.0) h),
    sym (ap (λ (r : Result (Unit {0}) × Told). r.1.1) h),
  );
}

abbrev nothing : Told
nothing = (none, [])

abbrev elected : Flags
elected = record default_flags { enable_leader_election = true }

started : (process listing ops nothing).0 ≡ 0
unfolding process main run_main setup_vs_config_reconciler setup_fork_reconciler setup_fork_watcher
    ◌>>=◌ init_scheme add_to_scheme scheme_builder
started = refl

wanted : contains kinds "ForkManager" ≡ true
unfolding string_eq
wanted = refl

main-started_example :
    (scheme : List Builder) × (m₂ : Told) × (knows scheme group_version "ForkManager" ≡ true)
    × (m₂.0 ≡ some (options_of scheme elected))
    × (m₂.1 ≡ all_parts)
    × (listing.start m₂ ≡ (ok tt, (process listing ops nothing).1))
main-started_example =
    main-started listing (λ m. m.0) (λ m. m.1) listing-Registers ops knows (λ b. b.1) (λ b. b.0)
      keeps elected "ForkManager" nothing nothing wanted refl started
