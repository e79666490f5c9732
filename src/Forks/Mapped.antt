-- ===== src/Forks/Mapped.antt =====
-- domain/updater/mapping.go leaves the Forks alone.
use kubefork_controller.Base.{string_eq, String, refl, List, [], ◌∷◌}
use kubefork_controller.Base.GoMap.{GoMap}
use kubefork_controller.Base.Keeps.{
  Keeps, >>=-Keeps, read->>=-Keeps, lift->>=-Keeps, for_each-Keeps_all,
}
use kubefork_controller.Api.{NamespacedName, Fork, ForkManager, Upstream}
use kubefork_controller.Kube.{Kube, mapping}
use kubefork_controller.Mappings.{
  update, update_all, write_groups, write_upstreams, delete_mapping, blank_mapping, mapping_key,
  mutate_mapping, desired_name, erase_name, label_key,
}
use kubefork_controller.Forks.{KindApart}

module _ {W : Type 0} (kube : Kube W) (P : W → Type 0) (apart : KindApart kube "Fork" P) where
  module _ (manager_slug : NamespacedName) (fm : ForkManager) where
    write_upstreams-Keeps :
        (identifier : String) (forks : List Fork) (upstreams : List Upstream)
        (candidates : List NamespacedName)
        → Keeps P (write_upstreams kube manager_slug fm identifier forks upstreams candidates)
    unfolding write_upstreams string_eq
    write_upstreams-Keeps identifier forks [] candidates w p = p
    write_upstreams-Keeps identifier forks (upstream ∷ upstreams) candidates w p =
        >>=-Keeps P
          (kube.create_or_update
            (mapping (blank_mapping fm.metadata.namespace (mapping_key identifier upstream)))
            (mutate_mapping kube manager_slug fm identifier forks upstream))
          _
          (apart.written
            (mapping (blank_mapping fm.metadata.namespace (mapping_key identifier upstream)))
            (mutate_mapping kube manager_slug fm identifier forks upstream) refl)
          (λ _.
            write_upstreams-Keeps identifier forks upstreams
              (erase_name (desired_name fm identifier upstream) candidates))
          w p

    write_groups-Keeps :
        (groups : GoMap String (List Fork)) (candidates : List NamespacedName)
        → Keeps P (write_groups kube manager_slug fm groups candidates)
    unfolding write_groups
    write_groups-Keeps [] candidates w p = p
    write_groups-Keeps ((identifier, forks) ∷ groups) candidates w p =
        >>=-Keeps P
          (write_upstreams kube manager_slug fm identifier forks fm.spec.upstreams candidates) _
          (write_upstreams-Keeps identifier forks fm.spec.upstreams candidates)
          (write_groups-Keeps groups) w p

  module _ (range : (V : Type 0) → GoMap String V → GoMap String V)
      (range_names : List NamespacedName → List NamespacedName) where
    pub update-Keeps :
        (manager_slug : NamespacedName) → Keeps P (update kube range range_names manager_slug)
    unfolding update delete_mapping string_eq
    update-Keeps manager_slug = read->>=-Keeps P (kube.get_fork_manager manager_slug) _ λ w fm _.
        read->>=-Keeps P (kube.list_forks _) _
          (λ w forks _.
            lift->>=-Keeps P (kube.new_requirement label_key manager_slug.name) _
              (λ req _. read->>=-Keeps P (kube.list_mappings _) _ λ w mps _.
                >>=-Keeps P (write_groups kube manager_slug fm _ _) _
                  (write_groups-Keeps manager_slug fm _ _)
                  (λ left.
                    for_each-Keeps_all P (delete_mapping kube) (range_names left)
                      (λ n. apart.deleted (mapping (blank_mapping n.namespace n.name)) refl))
                  w)
              w)
          w

    pub update_all-Keeps : Keeps P (update_all kube range range_names)
    unfolding update_all
    update_all-Keeps =
        read->>=-Keeps P (kube.list_fork_managers _) _
          λ w managers _. for_each-Keeps_all P _ managers (λ item. update-Keeps _) w
