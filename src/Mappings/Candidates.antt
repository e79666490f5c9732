-- ===== src/Mappings/Candidates.antt =====
-- What a run of `Update` of domain/updater/mapping.go deletes.
use kubefork_controller.Base.{
  Bool-cases, inl, inr, String, ◌≡◌, refl, Bool, true, false, ◌||◌, ◌&&◌, not, List, [], ◌∷◌,
  string_eq, any, arith, ◌∙◌, ap, sym,
}
use kubefork_controller.Base.GoMap.{GoMap}
use kubefork_controller.Base.Result.{Result, ok, ok-injective}
use kubefork_controller.Base.Exec.{pure, >>=-eq-ok, lift->>=-eq-ok, read->>=-eq-ok, for_each}
use kubefork_controller.Api.{
  NamespacedName, Fork, ForkManager, Upstream, Mapping, LabelSelectorRequirement,
}
use kubefork_controller.Kube.{Kube}
use kubefork_controller.Mappings.{
  label_key, same_name, has_name, insert_name, erase_name, name_of, delete_candidates, desired_name,
  write_upstreams, write_groups, group_forks_by_identifier, delete_mapping, update,
}

has_name-erase_name :
    (m n : NamespacedName) (ns : List NamespacedName)
    → has_name (erase_name m ns) n ≡ (not (same_name n m) && has_name ns n)
unfolding erase_name
has_name-erase_name m n [] = ground arith
has_name-erase_name m n (x ∷ xs) = ground (arith, has_name-erase_name m n xs)

has_name-of-same_name :
    (m n : NamespacedName) (ns : List NamespacedName)
    → same_name n m ≡ true
    → has_name ns m ≡ has_name ns n
has_name-of-same_name m n [] h = refl
has_name-of-same_name m n (x ∷ xs) h = ground (arith, has_name-of-same_name m n xs h)

has_name-insert_name :
    (m n : NamespacedName) (ns : List NamespacedName)
    → has_name (insert_name m ns) n ≡ (same_name n m || has_name ns n)
unfolding insert_name
has_name-insert_name m n ns = elim (Bool-cases (same_name n m)) [
  | inl same ↦ ground (arith, has_name-of-same_name m n ns same)
  | inr differ ↦ ground arith
]

abbrev pub is_named : NamespacedName → Mapping → Bool
is_named n mp = same_name n (name_of mp)

has_name-delete_candidates :
    (n : NamespacedName) (mps : List Mapping) (candidates : List NamespacedName)
    → has_name (delete_candidates mps candidates) n
      ≡ (has_name candidates n || any (is_named n) mps)
unfolding delete_candidates
has_name-delete_candidates n [] candidates = ground arith
has_name-delete_candidates n (mp ∷ mps) candidates =
    has_name-delete_candidates n mps (insert_name (name_of mp) candidates)
    ∙ ground (arith, has_name-insert_name (name_of mp) n candidates)

-- The name is that of a Mapping for one of the identifiers and one of the upstreams.
abbrev pub is_desired_of : ForkManager → NamespacedName → String → Bool
is_desired_of fm n identifier =
    any (λ upstream. same_name n (desired_name fm identifier upstream)) fm.spec.upstreams

abbrev pub is_desired : ForkManager → NamespacedName → GoMap String (List Fork) → Bool
is_desired fm n [] = false
is_desired fm n ((identifier, _) ∷ groups) = is_desired_of fm n identifier || is_desired fm n groups

module _ {W : Type 0} (kube : Kube W) (manager_slug : NamespacedName) (fm : ForkManager)
    (n : NamespacedName) where
  kept-has_name :
      (candidates left : List NamespacedName) (w w' : W)
      → pure candidates w ≡ (ok left, w')
      → has_name left n ≡ (has_name candidates n && true)
  kept-has_name candidates left w w' h =
      let same = ok-injective (ap (λ (r : Result (List NamespacedName) × W). r.0) h) in
      ap (λ names. has_name names n) (sym same) ∙ ground arith

  has_name-write_upstreams :
      (identifier : String) (forks : List Fork) (upstreams : List Upstream)
      (candidates left : List NamespacedName) (w w' : W)
      → write_upstreams kube manager_slug fm identifier forks upstreams candidates w ≡ (ok left, w')
      → has_name left n ≡ (
          has_name candidates n
          && not (any (λ upstream. same_name n (desired_name fm identifier upstream)) upstreams))
  unfolding write_upstreams
  has_name-write_upstreams identifier forks [] candidates left w w' h =
      kept-has_name candidates left w w' h
  has_name-write_upstreams identifier forks (u ∷ us) candidates left w w' h =
      let (_, w₁, _, rest) = >>=-eq-ok (kube.create_or_update _ _) _ w w' left h in
      has_name-write_upstreams identifier forks us
        (erase_name (desired_name fm identifier u) candidates) left w₁ w' rest
      ∙ ground (arith, has_name-erase_name (desired_name fm identifier u) n candidates)

  has_name-write_groups :
      (groups : GoMap String (List Fork)) (candidates left : List NamespacedName) (w w' : W)
      → write_groups kube manager_slug fm groups candidates w ≡ (ok left, w')
      → has_name left n ≡ (has_name candidates n && not (is_desired fm n groups))
  unfolding write_groups
  has_name-write_groups [] candidates left w w' h = kept-has_name candidates left w w' h
  has_name-write_groups ((identifier, forks) ∷ groups) candidates left w w' h =
      let (kept, w₁, first, rest) =
        >>=-eq-ok
          (write_upstreams kube manager_slug fm identifier forks fm.spec.upstreams candidates) _ w
          w' left h in
      has_name-write_groups groups kept left w₁ w' rest
      ∙ ground (
        arith,
        has_name-write_upstreams identifier forks fm.spec.upstreams candidates kept w w₁ first,
      )

module _ {W : Type 0} (kube : Kube W) (range : (V : Type 0) → GoMap String V → GoMap String V)
    (range_names : List NamespacedName → List NamespacedName) (manager_slug : NamespacedName) where
  -- What a run read, and the names whose Mappings it deleted last.
  pub record Run (w w' : W) : Type 0 where
    pub fm : ForkManager
    pub forks : List Fork
    pub requirement : LabelSelectorRequirement
    pub mappings : List Mapping
    pub left : List NamespacedName
    pub written : W
    pub found : kube.get_fork_manager manager_slug w ≡ ok fm
    pub listed_forks : kube.list_forks (record { namespace = ""; label_selector = [] }) w ≡ ok forks
    pub required : kube.new_requirement label_key manager_slug.name ≡ ok requirement
    pub listed_mappings :
        kube.list_mappings (record { namespace = ""; label_selector = requirement ∷ [] }) w
        ≡ ok mappings
    pub wrote :
        write_groups kube manager_slug fm
          (range (List Fork) (group_forks_by_identifier forks))
          (delete_candidates mappings [])
          w
        ≡ (ok left, written)
    pub swept : for_each (delete_mapping kube) (range_names left) written ≡ (ok tt, w')
    pub left_iff :
        (n : NamespacedName)
        → has_name left n ≡ (
            any (is_named n) mappings
            && not (is_desired fm n (range (List Fork) (group_forks_by_identifier forks))))

  -- If an update of the Mappings of a ForkManager ends without an error, the last thing it did was to
  -- delete, without an error, the Mappings of a set of names. A name is in that set if a Mapping of
  -- that name carried the label of the manager, in whatever namespace, and no Mapping of that name is
  -- desired for an identifier of the Forks of the cluster and an upstream of the manager.
  pub update-Run :
      (w w' : W) → update kube range range_names manager_slug w ≡ (ok tt, w') → Run w w'
  unfolding update
  update-Run w w' h =
      let (fm, found, h₁) = read->>=-eq-ok (kube.get_fork_manager manager_slug) _ w w' tt h in
      let (forks, listed_forks, h₂) = read->>=-eq-ok (kube.list_forks _) _ w w' tt h₁ in
      let (requirement, required, h₃) =
        lift->>=-eq-ok (kube.new_requirement label_key manager_slug.name) _ w w' tt h₂ in
      let (mappings, listed_mappings, h₄) = read->>=-eq-ok (kube.list_mappings _) _ w w' tt h₃ in
      let groups = range (List Fork) (group_forks_by_identifier forks) in
      let (left, written, wrote, swept) =
        >>=-eq-ok (write_groups kube manager_slug fm groups (delete_candidates mappings [])) _ w w'
          tt h₄ in
      record {
        fm = fm;
        forks = forks;
        requirement = requirement;
        mappings = mappings;
        left = left;
        written = written;
        found = found;
        listed_forks = listed_forks;
        required = required;
        listed_mappings = listed_mappings;
        wrote = wrote;
        swept = swept;
        left_iff = λ n.
            has_name-write_groups kube manager_slug fm n groups (delete_candidates mappings []) left
              w written wrote
            ∙ ground (arith, has_name-delete_candidates n mappings []);
      }
