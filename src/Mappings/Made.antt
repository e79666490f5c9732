-- ===== src/Mappings/Made.antt =====
-- The Mappings that a run of `Update` of domain/updater/mapping.go writes.
use kubefork_controller.Base.{
  String, ◌≡◌, sym, ap, ◌∙◌, true, Option, some, List, [], ◌∷◌, string_eq, any, arith, ◌⊎◌, inl,
  inr, Bool-cases, All, All-map,
}
use kubefork_controller.Base.GoMap.{GoMap, lookup, lookup-cons, NodupKeys}
use kubefork_controller.Base.Result.{ok}
use kubefork_controller.Base.Exec.{>>=-eq-ok}
use kubefork_controller.Api.{NamespacedName, TypeMeta, Fork, ForkManager, Upstream}
use kubefork_controller.Kube.{Kube, Object, mapping}
use kubefork_controller.Kube.Laws.{Tracks}
use kubefork_controller.Mappings.{
  same_name, blank_mapping, mapping_key, desired_name, mutate_mapping, write_upstreams,
  write_groups,
}
use kubefork_controller.Mappings.Candidates.{is_desired_of, is_desired}

pub entries-lookup :
    {V : Type 0} (m : GoMap String V) → NodupKeys m → All (λ e. lookup e.0 m ≡ some e.1) m
entries-lookup [] _ = tt
entries-lookup ((k, v) ∷ m) (fresh, u) = (
  ground (arith, lookup-cons k k v m),
  All-map _ _ m (λ e h. ground (arith, lookup-cons e.0 k v m)) (entries-lookup m u),
)

module _ {W : Type 0} (kube : Kube W) {kind : TypeMeta} {Is : Object → Type 0} {space : String}
    {stored : W → NamespacedName → Option Object} (tracks : Tracks kube kind space Is stored)
    (typed : (namespace name : String) → Is (mapping (blank_mapping namespace name)))
    (n : NamespacedName) (manager_slug : NamespacedName) (fm : ForkManager)
    (Grouped : String → List Fork → Type 0) where
  -- Under the name stands what was made of a Mapping that is desired for one of the groups.
  pub record Made (w : W) : Type 0 where
    pub identifier : String
    pub forks : List Fork
    pub upstream : Upstream
    pub seen : Object
    pub sent : Object
    pub grouped : Grouped identifier forks
    pub desired : same_name n (desired_name fm identifier upstream) ≡ true
    pub built : mutate_mapping kube manager_slug fm identifier forks upstream seen ≡ ok sent
    pub there : stored w n ≡ some (tracks.admit sent)

  pub Made-stored : (w w' : W) → stored w' n ≡ stored w n → Made w → Made w'
  Made-stored w w' e made = record {
    identifier = made.identifier;
    forks = made.forks;
    upstream = made.upstream;
    seen = made.seen;
    sent = made.sent;
    grouped = made.grouped;
    desired = made.desired;
    built = made.built;
    there = e ∙ made.there;
  }

  Made-write_upstreams :
      (identifier : String) (forks : List Fork) (upstreams : List Upstream)
      (candidates left : List NamespacedName) (w w' : W)
      → Grouped identifier forks
      → write_upstreams kube manager_slug fm identifier forks upstreams candidates w ≡ (ok left, w')
      → (any (λ upstream. same_name n (desired_name fm identifier upstream)) upstreams ≡ true)
        ⊎ Made w
      → Made w'
  unfolding write_upstreams
  Made-write_upstreams identifier forks [] candidates left w w' g h (inl wanted) = cc
  Made-write_upstreams identifier forks [] candidates left w w' g h (inr made) =
      Made-stored w w' (ap (λ v. stored v n) (sym (ap (λ r. r.1) h))) made
  Made-write_upstreams identifier forks (u ∷ us) candidates left w w' g h before =
      let (_, w₁, first, rest) = >>=-eq-ok (kube.create_or_update _ _) _ w w' left h in
      let (seen, sent, _, _, built, after) =
        tracks.written (mapping (blank_mapping fm.metadata.namespace (mapping_key identifier u)))
          (mutate_mapping kube manager_slug fm identifier forks u) w w₁
          (typed fm.metadata.namespace (mapping_key identifier u)) first in
      Made-write_upstreams identifier forks us _ left w₁ w' g rest
        (elim (Bool-cases (same_name n (desired_name fm identifier u))) [
          | inl here ↦ inr (record {
            identifier = identifier;
            forks = forks;
            upstream = u;
            seen = seen;
            sent = sent;
            grouped = g;
            desired = here;
            built = built;
            there = after n ∙ ground arith;
          })
          | inr elsewhere ↦ elim before [
            | inl wanted ↦ inl (ground arith)
            | inr made ↦ inr (Made-stored w w₁ (after n ∙ ground arith) made)
          ]
        ])

  pub Made-write_groups :
      (groups : GoMap String (List Fork)) (candidates left : List NamespacedName) (w w' : W)
      → All (λ e. Grouped e.0 e.1) groups
      → write_groups kube manager_slug fm groups candidates w ≡ (ok left, w')
      → (is_desired fm n groups ≡ true) ⊎ Made w
      → Made w'
  unfolding write_groups
  Made-write_groups [] candidates left w w' _ h (inl wanted) = cc
  Made-write_groups [] candidates left w w' _ h (inr made) =
      Made-stored w w' (ap (λ v. stored v n) (sym (ap (λ r. r.1) h))) made
  Made-write_groups ((identifier, forks) ∷ groups) candidates left w w' (g, gs) h before =
      let (kept, w₁, first, rest) =
        >>=-eq-ok
          (write_upstreams kube manager_slug fm identifier forks fm.spec.upstreams candidates) _ w
          w' left h in
      let wrote =
        Made-write_upstreams identifier forks fm.spec.upstreams candidates kept w w₁ g first in
      let later = Made-write_groups groups kept left w₁ w' gs rest in
      elim (Bool-cases (is_desired_of fm n identifier)) [
        | inl here ↦ later (inr (wrote (inl here)))
        | inr elsewhere ↦ elim before [
          | inl wanted ↦ later (inl (ground arith))
          | inr made ↦ later (inr (wrote (inr made)))
        ]
      ]
