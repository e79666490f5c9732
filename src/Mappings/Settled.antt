-- ===== src/Mappings/Settled.antt =====
-- Two runs of `Update` of domain/updater/mapping.go in a row.
use kubefork_controller.Base.{
  String, ◌≡◌, sym, ap, ◌∙◌, Bool, false, Option, List, [], ◌∷◌, any, if◌then◌else◌, arith, inl,
  inr, Bool-cases,
}
use kubefork_controller.Base.GoMap.{GoMap}
use kubefork_controller.Base.Result.{ok}
use kubefork_controller.Api.{NamespacedName, TypeMeta, Fork, Mapping, LabelSelectorRequirement}
use kubefork_controller.Kube.{Kube, Object, mapping}
use kubefork_controller.Kube.Laws.{Tracks}
use kubefork_controller.Application.Routes.{IsRange}
use kubefork_controller.Refresh.Existing.{holds}
use kubefork_controller.Mappings.{label_key, has_name, blank_mapping, group_forks_by_identifier}
use kubefork_controller.Mappings.Candidates.{Run, is_named, is_desired}
use kubefork_controller.Mappings.Stored.{stored-update, swept_stored, stored-write_groups}

-- The Mappings that are listed for the label of a manager are those on the server that carry it.
abbrev pub ListsLabelled :
    {W : Type 0}
    → Kube W
    → (W → NamespacedName → Option Object)
    → String
    → (Object → Bool)
    → W
    → Type 0
ListsLabelled kube stored manager_name carries w =
    (requirement : LabelSelectorRequirement) (mps : List Mapping)
    → kube.new_requirement label_key manager_name ≡ ok requirement
    → kube.list_mappings (record { namespace = ""; label_selector = requirement ∷ [] }) w ≡ ok mps
    → (n : NamespacedName) → any (is_named n) mps ≡ holds carries (stored w n)

module _ {W : Type 0} (kube : Kube W) {kind : TypeMeta} {Is : Object → Type 0} {space : String}
    {stored : W → NamespacedName → Option Object} (tracks : Tracks kube kind space Is stored)
    (typed : (namespace name : String) → Is (mapping (blank_mapping namespace name)))
    (range : (V : Type 0) → GoMap String V → GoMap String V) (loop : IsRange range)
    (range_names : List NamespacedName → List NamespacedName)
    (each_name : (l : List NamespacedName) (n : NamespacedName)
      → has_name (range_names l) n ≡ has_name l n)
    (manager_slug : NamespacedName) (carries : Object → Bool) (w w' w'' : W)
    (first : Run kube range range_names manager_slug w w')
    (second : Run kube range range_names manager_slug w' w'')
    (lists : ListsLabelled kube stored manager_slug.name carries w)
    (lists' : ListsLabelled kube stored manager_slug.name carries w') where
  listed_second :
      (n : NamespacedName) → any (is_named n) second.mappings ≡ holds carries (stored w' n)
  listed_second = lists' second.requirement second.mappings second.required second.listed_mappings

  -- No Mapping with the label is left under a name that is not desired.
  unlabelled :
      (n : NamespacedName)
      → is_desired first.fm n (range (List Fork) (group_forks_by_identifier first.forks)) ≡ false
      → holds carries (stored w' n) ≡ false
  unlabelled n out =
      let listed = lists first.requirement first.mappings first.required first.listed_mappings n in
      ap (holds carries) (
        stored-update kube tracks typed range loop range_names each_name manager_slug w w' first n
          out)
      ∙ elim (Bool-cases (any (is_named n) first.mappings)) [
        | inl labelled ↦ ground arith
        | inr other ↦ ground arith
      ]

  module _ (same_manager : second.fm ≡ first.fm) (same_forks : second.forks ≡ first.forks)
      (n : NamespacedName) where
    abbrev pub desired : Bool
    desired = is_desired second.fm n (range (List Fork) (group_forks_by_identifier second.forks))

    unlabelled_second : desired ≡ false → holds carries (stored w' n) ≡ false
    unlabelled_second out = unlabelled n (
        sym (
          ap (λ fm. is_desired fm n (range (List Fork) (group_forks_by_identifier second.forks)))
            same_manager
          ∙ ap
              (λ forks. is_desired first.fm n (range (List Fork) (group_forks_by_identifier forks)))
              same_forks)
        ∙ out)

    none_left : has_name second.left n ≡ false
    none_left = elim (Bool-cases desired) [
      | inl wanted ↦ ground (arith, second.left_iff n)
      | inr out ↦ ground (arith, second.left_iff n, listed_second n, unlabelled_second out)
    ]

    undesired_kept : desired ≡ false → stored second.written n ≡ stored w' n
    undesired_kept out =
        stored-write_groups kube tracks typed n manager_slug second.fm _ _ second.left w'
          second.written second.wrote out

    -- On a server that keeps the laws of `Tracks` for Mappings and lists by the label of the manager the
    -- Mappings that carry it: if two updates for a manager follow one another, each without an error,
    -- and the second read the same ForkManager and the same Forks as the first, then the second deletes
    -- no Mapping, and it leaves what stands under a name that is not desired as it was.
    pub update-update :
        (has_name second.left n ≡ false)
        × (stored w'' n ≡ (if desired then stored second.written n else stored w' n))
    update-update = (
      none_left,
      swept_stored kube tracks typed range loop range_names each_name manager_slug w' w'' second n
          ∙ elim (Bool-cases desired) [
            | inl wanted ↦ ground (arith, none_left)
            | inr out ↦ ground (arith, none_left, undesired_kept out)
          ],
    )
