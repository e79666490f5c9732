-- ===== src/DeepCopies/Faithful/Lists.antt =====
-- The lists of the kinds, and their deep copies.
use kubefork_controller.Base.{◌≡◌, some, List}
use kubefork_controller.DeepCopies.Structs.{ResourceList}
use kubefork_controller.DeepCopies.Memory.{
  Foreign, Heap, Store, StoredForkList, StoredForkManagerList, StoredVsConfigList,
}
use kubefork_controller.DeepCopies.Slots.{forks_slot, fork_managers_slot, vs_configs_slot}
use kubefork_controller.DeepCopies.Copying.{Library}
use kubefork_controller.DeepCopies.Kinds.{
  deep_copy_into_fork_list, deep_copy_into_fork_manager_list, deep_copy_into_vs_config_list,
}
use kubefork_controller.DeepCopies.Content.{
  LibraryContents, ForkContent, ForkManagerContent, VsConfigContent, view_fork, view_fork_manager,
  view_vs_config, view_list,
}
use kubefork_controller.DeepCopies.Windows.{◌⊑◌, allocated, Grows-refl}
use kubefork_controller.DeepCopies.Laws.{
  >>=-mono, Yields, IsDeepCopy, Yields-pure, field, IsLibrary,
}
use kubefork_controller.DeepCopies.Blocks.{copy_pointer-IsDeepCopy, copy_elements-IsDeepCopy}
use kubefork_controller.DeepCopies.Faithful.Kinds.{
  fork-IsDeepCopy, fork_manager-IsDeepCopy, vs_config-IsDeepCopy,
}

module _ {F : Foreign} {lib : Library F} {C : LibraryContents F} (library : IsLibrary lib C) where
  fork_list_mono :
      (s t : Store F) (x : StoredForkList F) (v : ResourceList C.ListMeta (List (ForkContent C)))
      → s ⊑ t
      → view_list C forks_slot (view_fork C) s x ≡ some v
      → view_list C forks_slot (view_fork C) t x ≡ some v
  unfolding view_list
  fork_list_mono s t x v le =
      >>=-mono _ _ _ _ v (λ a0. let d = library.list_meta in d.mono s t x.list_meta a0 le)
        (λ a0.
          >>=-mono _ _ _ _ v
            (λ a1.
              let d =
                copy_pointer-IsDeepCopy forks_slot
                  (copy_elements-IsDeepCopy (fork-IsDeepCopy library)) in
              d.mono s t x.items a1 le)
            (λ a1. λ e. e))

  copied_fork_list :
      (x : StoredForkList F) (v : ResourceList C.ListMeta (List (ForkContent C))) (h : Heap F)
      → view_list C forks_slot (view_fork C) (allocated h) x ≡ some v
      → Yields (view_list C forks_slot (view_fork C)) v h h (deep_copy_into_fork_list lib x)
  unfolding view_list deep_copy_into_fork_list
  copied_fork_list x v h e =
      field (view_list C forks_slot (view_fork C)) v h (library.list_meta) h x.list_meta _ _
        (Grows-refl h) e
        λ w₁ list_meta h₁ e₁ g₁ fresh₁.
          field (view_list C forks_slot (view_fork C)) v h
            (copy_pointer-IsDeepCopy forks_slot
              (copy_elements-IsDeepCopy (fork-IsDeepCopy library)))
            h₁ x.items _ _ g₁ e₁
            λ w₂ items h₂ e₂ g₂ fresh₂.
              Yields-pure (view_list C forks_slot (view_fork C)) v h h₂ _
                (rw (fresh₁ h₂ g₂, fresh₂ h₂ (Grows-refl h₂)) e₂)

  pub fork_list-IsDeepCopy :
      IsDeepCopy (deep_copy_into_fork_list lib) (view_list C forks_slot (view_fork C))
  fork_list-IsDeepCopy = record { mono = fork_list_mono; copied = copied_fork_list }

  fork_manager_list_mono :
      (s t : Store F) (x : StoredForkList F)
      (v : ResourceList C.ListMeta (List (ForkManagerContent C)))
      → s ⊑ t
      → view_list C fork_managers_slot (view_fork_manager C) s x ≡ some v
      → view_list C fork_managers_slot (view_fork_manager C) t x ≡ some v
  unfolding view_list
  fork_manager_list_mono s t x v le =
      >>=-mono _ _ _ _ v (λ a0. let d = library.list_meta in d.mono s t x.list_meta a0 le)
        (λ a0.
          >>=-mono _ _ _ _ v
            (λ a1.
              let d =
                copy_pointer-IsDeepCopy fork_managers_slot
                  (copy_elements-IsDeepCopy (fork_manager-IsDeepCopy library)) in
              d.mono s t x.items a1 le)
            (λ a1. λ e. e))

  copied_fork_manager_list :
      (x : StoredForkManagerList F) (v : ResourceList C.ListMeta (List (ForkManagerContent C)))
      (h : Heap F)
      → view_list C fork_managers_slot (view_fork_manager C) (allocated h) x ≡ some v
      → Yields
          (view_list C fork_managers_slot (view_fork_manager C))
          v
          h
          h
          (deep_copy_into_fork_manager_list lib x)
  unfolding view_list deep_copy_into_fork_manager_list
  copied_fork_manager_list x v h e =
      field (view_list C fork_managers_slot (view_fork_manager C)) v h (library.list_meta) h
        x.list_meta _ _ (Grows-refl h) e
        λ w₁ list_meta h₁ e₁ g₁ fresh₁.
          field (view_list C fork_managers_slot (view_fork_manager C)) v h
            (copy_pointer-IsDeepCopy fork_managers_slot
              (copy_elements-IsDeepCopy (fork_manager-IsDeepCopy library)))
            h₁ x.items _ _ g₁ e₁
            λ w₂ items h₂ e₂ g₂ fresh₂.
              Yields-pure (view_list C fork_managers_slot (view_fork_manager C)) v h h₂ _
                (rw (fresh₁ h₂ g₂, fresh₂ h₂ (Grows-refl h₂)) e₂)

  pub fork_manager_list-IsDeepCopy :
      IsDeepCopy
        (deep_copy_into_fork_manager_list lib)
        (view_list C fork_managers_slot (view_fork_manager C))
  fork_manager_list-IsDeepCopy = record {
    mono = fork_manager_list_mono;
    copied = copied_fork_manager_list;
  }

  vs_config_list_mono :
      (s t : Store F) (x : StoredForkList F)
      (v : ResourceList C.ListMeta (List (VsConfigContent C)))
      → s ⊑ t
      → view_list C vs_configs_slot (view_vs_config C) s x ≡ some v
      → view_list C vs_configs_slot (view_vs_config C) t x ≡ some v
  unfolding view_list
  vs_config_list_mono s t x v le =
      >>=-mono _ _ _ _ v (λ a0. let d = library.list_meta in d.mono s t x.list_meta a0 le)
        (λ a0.
          >>=-mono _ _ _ _ v
            (λ a1.
              let d =
                copy_pointer-IsDeepCopy vs_configs_slot
                  (copy_elements-IsDeepCopy (vs_config-IsDeepCopy library)) in
              d.mono s t x.items a1 le)
            (λ a1. λ e. e))

  copied_vs_config_list :
      (x : StoredVsConfigList F) (v : ResourceList C.ListMeta (List (VsConfigContent C)))
      (h : Heap F)
      → view_list C vs_configs_slot (view_vs_config C) (allocated h) x ≡ some v
      → Yields
          (view_list C vs_configs_slot (view_vs_config C))
          v
          h
          h
          (deep_copy_into_vs_config_list lib x)
  unfolding view_list deep_copy_into_vs_config_list
  copied_vs_config_list x v h e =
      field (view_list C vs_configs_slot (view_vs_config C)) v h (library.list_meta) h x.list_meta _
        _ (Grows-refl h) e
        λ w₁ list_meta h₁ e₁ g₁ fresh₁.
          field (view_list C vs_configs_slot (view_vs_config C)) v h
            (copy_pointer-IsDeepCopy vs_configs_slot
              (copy_elements-IsDeepCopy (vs_config-IsDeepCopy library)))
            h₁ x.items _ _ g₁ e₁
            λ w₂ items h₂ e₂ g₂ fresh₂.
              Yields-pure (view_list C vs_configs_slot (view_vs_config C)) v h h₂ _
                (rw (fresh₁ h₂ g₂, fresh₂ h₂ (Grows-refl h₂)) e₂)

  pub vs_config_list-IsDeepCopy :
      IsDeepCopy
        (deep_copy_into_vs_config_list lib)
        (view_list C vs_configs_slot (view_vs_config C))
  vs_config_list-IsDeepCopy = record { mono = vs_config_list_mono; copied = copied_vs_config_list }
