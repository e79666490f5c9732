-- ===== src/Mappings/Stored.antt =====
-- The Mappings that a run of `Update` of domain/updater/mapping.go leaves on the server.
use kubefork_controller.Base.{
  String, ◌≡◌, sym, ap, ◌∙◌, true, false, Option, none, some, List, [], ◌∷◌, string_eq, any,
  if◌then◌else◌, arith, All-map, inl,
}
use kubefork_controller.Base.GoMap.{GoMap, lookup}
use kubefork_controller.Base.Result.{Result, ok}
use kubefork_controller.Base.Exec.{>>=-eq-ok, for_each, for_each-cons}
use kubefork_controller.Api.{NamespacedName, TypeMeta, Fork, ForkManager, Upstream}
use kubefork_controller.Kube.{Kube, Object, mapping}
use kubefork_controller.Kube.Laws.{Tracks}
use kubefork_controller.Mappings.{
  same_name, has_name, blank_mapping, mapping_key, desired_name, mutate_mapping, write_upstreams,
  write_groups, delete_mapping, group_forks_by_identifier,
}
use kubefork_controller.Mappings.Candidates.{is_named, is_desired, Run}
use kubefork_controller.Mappings.Grouping.{group_forks_by_identifier_lem}
use kubefork_controller.Mappings.Made.{entries-lookup, Made, Made-stored, Made-write_groups}
use kubefork_controller.Application.Routes.{IsRange}

module _ {W : Type 0} (kube : Kube W) {kind : TypeMeta} {Is : Object → Type 0} {space : String}
    {stored : W → NamespacedName → Option Object} (tracks : Tracks kube kind space Is stored)
    (typed : (namespace name : String) → Is (mapping (blank_mapping namespace name)))
    (n : NamespacedName) where
  same-stored :
      (w w' : W) {A : Type 0} (a b : A)
      → Path (Result A × W) (ok a, w) (ok b, w')
      → stored w' n ≡ stored w n
  same-stored w w' a b h = ap (λ v. stored v n) (sym (ap (λ r. r.1) h))

  stored-delete_mapping :
      (names : List NamespacedName) (w w' : W)
      → for_each (delete_mapping kube) names w ≡ (ok tt, w')
      → stored w' n ≡ (if has_name names n then none else stored w n)
  unfolding for_each delete_mapping
  stored-delete_mapping [] w w' h = same-stored w w' tt tt h
  stored-delete_mapping (m ∷ names) w w' h =
      let (w₁, first, rest) = for_each-cons (delete_mapping kube) m names w w' h in
      stored-delete_mapping names w₁ w' rest
      ∙ ground (
        arith,
        tracks.deleted (mapping (blank_mapping m.namespace m.name)) w w₁ (typed m.namespace m.name)
            first n,
      )

  module _ (manager_slug : NamespacedName) (fm : ForkManager) where
    stored-write_upstreams :
        (identifier : String) (forks : List Fork) (upstreams : List Upstream)
        (candidates left : List NamespacedName) (w w' : W)
        → write_upstreams kube manager_slug fm identifier forks upstreams candidates w
          ≡ (ok left, w')
        → any (λ upstream. same_name n (desired_name fm identifier upstream)) upstreams ≡ false
        → stored w' n ≡ stored w n
    unfolding write_upstreams
    stored-write_upstreams identifier forks [] candidates left w w' h out =
        same-stored w w' candidates left h
    stored-write_upstreams identifier forks (u ∷ us) candidates left w w' h out =
        let (_, w₁, first, rest) = >>=-eq-ok (kube.create_or_update _ _) _ w w' left h in
        let (_, _, _, _, _, after) =
          tracks.written (mapping (blank_mapping fm.metadata.namespace (mapping_key identifier u)))
            (mutate_mapping kube manager_slug fm identifier forks u) w w₁
            (typed fm.metadata.namespace (mapping_key identifier u)) first in
        stored-write_upstreams identifier forks us _ left w₁ w' rest (ground arith)
        ∙ after n
        ∙ ground arith

    pub stored-write_groups :
        (groups : GoMap String (List Fork)) (candidates left : List NamespacedName) (w w' : W)
        → write_groups kube manager_slug fm groups candidates w ≡ (ok left, w')
        → is_desired fm n groups ≡ false
        → stored w' n ≡ stored w n
    unfolding write_groups
    stored-write_groups [] candidates left w w' h out = same-stored w w' candidates left h
    stored-write_groups ((identifier, forks) ∷ groups) candidates left w w' h out =
        let (kept, w₁, first, rest) =
          >>=-eq-ok
            (write_upstreams kube manager_slug fm identifier forks fm.spec.upstreams candidates) _ w
            w' left h in
        stored-write_groups groups kept left w₁ w' rest (ground arith)
        ∙ stored-write_upstreams identifier forks fm.spec.upstreams candidates kept w w₁ first
            (ground arith)

module _ {W : Type 0} (kube : Kube W) {kind : TypeMeta} {Is : Object → Type 0} {space : String}
    {stored : W → NamespacedName → Option Object} (tracks : Tracks kube kind space Is stored)
    (typed : (namespace name : String) → Is (mapping (blank_mapping namespace name)))
    (range : (V : Type 0) → GoMap String V → GoMap String V) (loop : IsRange range)
    (range_names : List NamespacedName → List NamespacedName)
    (each_name : (l : List NamespacedName) (n : NamespacedName)
      → has_name (range_names l) n ≡ has_name l n)
    (manager_slug : NamespacedName) (w w' : W) (run : Run kube range range_names manager_slug w w')
    (n : NamespacedName) where
  abbrev pub groups : GoMap String (List Fork)
  groups = range (List Fork) (group_forks_by_identifier run.forks)

  pub swept_stored : stored w' n ≡ (if has_name run.left n then none else stored run.written n)
  swept_stored =
      stored-delete_mapping kube tracks typed n (range_names run.left) run.written w' run.swept
      ∙ ap (λ b. if b then none else stored run.written n) (each_name run.left n)

  -- On a server that keeps the laws of `Tracks` for Mappings, where each loop over a map meets each entry
  -- once: after an update that ended without an error, under a name that is not desired for any
  -- identifier and upstream stands nothing if a Mapping of that name carried the label of the manager,
  -- and what stood there before if none did.
  pub stored-update :
      is_desired run.fm n groups ≡ false
      → stored w' n ≡ (if any (is_named n) run.mappings then none else stored w n)
  stored-update out =
      swept_stored
      ∙ ground (
        arith,
        run.left_iff n,
        stored-write_groups kube tracks typed n manager_slug run.fm groups _ run.left w run.written
            run.wrote out,
      )

  abbrev pub IsGroup : String → List Fork → Type 0
  IsGroup id forks = lookup id (group_forks_by_identifier run.forks) ≡ some forks

  -- On a server that keeps the laws of `Tracks` for Mappings, where each loop over a map meets each entry
  -- once: after an update that ended without an error, under each name that is desired for an
  -- identifier and an upstream stands what was made of such a Mapping, for all the Forks of its
  -- identifier.
  pub update-Made :
      is_desired run.fm n groups ≡ true → Made kube tracks typed n manager_slug run.fm IsGroup w'
  update-Made wanted =
      let grouped = group_forks_by_identifier_lem run.forks in
      let unique = loop.once (List Fork) (group_forks_by_identifier run.forks) grouped.1 in
      let entries =
        All-map _ (λ e. IsGroup e.0 e.1) groups
          (λ e h.
            sym (loop.each (List Fork) (group_forks_by_identifier run.forks) e.0 grouped.1) ∙ h)
          (entries-lookup groups unique) in
      let made =
        Made-write_groups kube tracks typed n manager_slug run.fm IsGroup groups _ run.left w
          run.written entries run.wrote (inl wanted) in
      Made-stored kube tracks typed n manager_slug run.fm IsGroup run.written w'
        (swept_stored ∙ ground (arith, run.left_iff n)) made
