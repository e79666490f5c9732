-- ===== src/Scheme.antt =====
-- The registration of types: api/v1beta1/groupversion_info.go with the `init` functions of
-- api/v1beta1, and `init` of main.go. A Go type stands as its name.
use kubefork_controller.Base.{
  String, ◌≡◌, ap, subst, ◌∙◌, true, Bool, List, [], ◌∷◌, ◌++◌, contains, string_eq,
}
use kubefork_controller.Base.Result.{Result, ok, ◌>>=◌, >>=-eq-ok}

-- `schema.GroupVersion`
pub record GroupVersion : Type 0 where
  pub group : String
  pub version : String

-- What is called of runtime.Scheme and of scheme.Builder, and the `AddToScheme` of the packages of
-- other projects.
pub record SchemeOps (S B : Type 0) : Type 0 where
  pub new_scheme : S
  pub new_builder : GroupVersion → B
  pub register : List String → B → B
  pub add_types : B → S → Result S
  pub add_client_go : S → Result S
  pub add_duplicator : S → Result S
  pub add_istio : S → Result S
  pub add_ambassador : S → Result S

-- `GroupVersion`
abbrev pub group_version : GroupVersion
group_version = record { group = "fork.k8s.wantedly.com"; version = "v1beta1" }

abbrev pub fork_kinds : List String
fork_kinds = "Fork" ∷ "ForkList" ∷ []

abbrev pub fork_manager_kinds : List String
fork_manager_kinds = "ForkManager" ∷ "ForkManagerList" ∷ []

abbrev pub vs_config_kinds : List String
vs_config_kinds = "VSConfig" ∷ "VSConfigList" ∷ []

module _ {S B : Type 0} (ops : SchemeOps S B) where
  -- `SchemeBuilder`, once the `init` functions of the package have run in the order of its files.
  unfoldable pub scheme_builder : B
  scheme_builder =
      ops.register vs_config_kinds
        (ops.register fork_manager_kinds (ops.register fork_kinds (ops.new_builder group_version)))

  -- `AddToScheme`
  unfoldable pub add_to_scheme : S → Result S
  add_to_scheme scheme = ops.add_types scheme_builder scheme

  -- `init` of main.go. An error becomes a panic there, which is not caught.
  unfoldable pub init_scheme : Result S
  init_scheme = do
    a ← ops.add_client_go ops.new_scheme
    b ← add_to_scheme a
    c ← ops.add_duplicator b
    d ← ops.add_istio c
    ops.add_ambassador d

-- A builder adds the types it was told of, each under the group and version of the builder, and what
-- is added later takes nothing away.
pub record Keeps {S B : Type 0} (ops : SchemeOps S B) (knows : S → GroupVersion → String → Bool)
    (types : B → List String) (version_of : B → GroupVersion) : Type 0 where
  pub version_new : (g : GroupVersion) → version_of (ops.new_builder g) ≡ g
  pub types_new : (g : GroupVersion) → types (ops.new_builder g) ≡ []
  pub types_register : (ts : List String) (b : B) → types (ops.register ts b) ≡ types b ++ ts
  pub version_register : (ts : List String) (b : B) → version_of (ops.register ts b) ≡ version_of b
  pub added :
      (b : B) (s s' : S) (t : String)
      → ops.add_types b s ≡ ok s'
      → contains (types b) t ≡ true
      → knows s' (version_of b) t ≡ true
  pub kept_duplicator :
      (s s' : S) (g : GroupVersion) (t : String)
      → ops.add_duplicator s ≡ ok s'
      → knows s g t ≡ true
      → knows s' g t ≡ true
  pub kept_istio :
      (s s' : S) (g : GroupVersion) (t : String)
      → ops.add_istio s ≡ ok s'
      → knows s g t ≡ true
      → knows s' g t ≡ true
  pub kept_ambassador :
      (s s' : S) (g : GroupVersion) (t : String)
      → ops.add_ambassador s ≡ ok s'
      → knows s g t ≡ true
      → knows s' g t ≡ true

abbrev pub kinds : List String
kinds = fork_kinds ++ fork_manager_kinds ++ vs_config_kinds

module _ {S B : Type 0} (ops : SchemeOps S B) (knows : S → GroupVersion → String → Bool)
    (types : B → List String) (version_of : B → GroupVersion)
    (keeps : Keeps ops knows types version_of) where
  types-scheme_builder :
      (t : String) → contains kinds t ≡ true → contains (types (scheme_builder ops)) t ≡ true
  unfolding scheme_builder
  types-scheme_builder t known =
      let first =
        keeps.types_register fork_kinds (ops.new_builder group_version)
        ∙ ap (λ l. l ++ fork_kinds) (keeps.types_new group_version) in
      let second =
        keeps.types_register fork_manager_kinds _ ∙ ap (λ l. l ++ fork_manager_kinds) first in
      let third = keeps.types_register vs_config_kinds _ ∙ ap (λ l. l ++ vs_config_kinds) second in
      ap (λ l. contains l t) third ∙ known

  version-scheme_builder : version_of (scheme_builder ops) ≡ group_version
  unfolding scheme_builder
  version-scheme_builder =
      keeps.version_register _ _
      ∙ keeps.version_register _ _
      ∙ keeps.version_register _ _
      ∙ keeps.version_new _

  -- After an `init` that does not panic, the scheme knows every type of api/v1beta1 under its group and
  -- version.
  pub init_scheme-knows :
      (s : S) (t : String)
      → init_scheme ops ≡ ok s
      → contains kinds t ≡ true
      → knows s group_version t ≡ true
  unfolding init_scheme add_to_scheme
  init_scheme-knows s t h known =
      let (a, h₁, rest₁) = >>=-eq-ok (ops.add_client_go ops.new_scheme) _ s h in
      let (b, h₂, rest₂) = >>=-eq-ok (add_to_scheme ops a) _ s rest₁ in
      let (c, h₃, rest₃) = >>=-eq-ok (ops.add_duplicator b) _ s rest₂ in
      let (d, h₄, h₅) = >>=-eq-ok (ops.add_istio c) _ s rest₃ in
      let here =
        subst (λ g. knows b g t ≡ true) version-scheme_builder
          (keeps.added (scheme_builder ops) a b t h₂ (types-scheme_builder t known)) in
      keeps.kept_ambassador d s _ t h₅
        (keeps.kept_istio c d _ t h₄ (keeps.kept_duplicator b c _ t h₃ here))
