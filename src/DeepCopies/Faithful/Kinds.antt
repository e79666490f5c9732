-- ===== src/DeepCopies/Faithful/Kinds.antt =====
-- The kinds, and their deep copies.
use kubefork_controller.Base.{◌≡◌, some}
use kubefork_controller.DeepCopies.Memory.{
  Foreign, Heap, Store, StoredFork, StoredForkManager, StoredVsConfig,
}
use kubefork_controller.DeepCopies.Copying.{Library}
use kubefork_controller.DeepCopies.Kinds.{
  deep_copy_into_fork, deep_copy_into_fork_manager, deep_copy_into_vs_config,
}
use kubefork_controller.DeepCopies.Content.{
  LibraryContents, ForkContent, ForkManagerContent, VsConfigContent, view_fork, view_fork_manager,
  view_vs_config,
}
use kubefork_controller.DeepCopies.Windows.{◌⊑◌, allocated, Grows-refl}
use kubefork_controller.DeepCopies.Laws.{
  >>=-mono, Yields, IsDeepCopy, Yields-pure, field, IsLibrary,
}
use kubefork_controller.DeepCopies.Faithful.Options.{fork_manager_spec-IsDeepCopy}
use kubefork_controller.DeepCopies.Faithful.Forks.{fork_spec-IsDeepCopy}

module _ {F : Foreign} {lib : Library F} {C : LibraryContents F} (library : IsLibrary lib C) where
  fork_mono :
      (s t : Store F) (x : StoredFork F) (v : ForkContent C)
      → s ⊑ t
      → view_fork C s x ≡ some v
      → view_fork C t x ≡ some v
  unfolding view_fork
  fork_mono s t x v le =
      >>=-mono _ _ _ _ v (λ a0. let d = library.object_meta in d.mono s t x.object_meta a0 le)
        (λ a0.
          >>=-mono _ _ _ _ v (λ a1. let d = fork_spec-IsDeepCopy library in d.mono s t x.spec a1 le)
            (λ a1. λ e. e))

  copied_fork :
      (x : StoredFork F) (v : ForkContent C) (h : Heap F)
      → view_fork C (allocated h) x ≡ some v
      → Yields (view_fork C) v h h (deep_copy_into_fork lib x)
  unfolding view_fork deep_copy_into_fork
  copied_fork x v h e =
      field (view_fork C) v h (library.object_meta) h x.object_meta _ _ (Grows-refl h) e
        λ w₁ object_meta h₁ e₁ g₁ fresh₁.
          field (view_fork C) v h (fork_spec-IsDeepCopy library) h₁ x.spec _ _ g₁ e₁
            λ w₂ spec h₂ e₂ g₂ fresh₂.
              Yields-pure (view_fork C) v h h₂ _ (rw (fresh₁ h₂ g₂, fresh₂ h₂ (Grows-refl h₂)) e₂)

  pub fork-IsDeepCopy : IsDeepCopy (deep_copy_into_fork lib) (view_fork C)
  fork-IsDeepCopy = record { mono = fork_mono; copied = copied_fork }

  fork_manager_mono :
      (s t : Store F) (x : StoredForkManager F) (v : ForkManagerContent C)
      → s ⊑ t
      → view_fork_manager C s x ≡ some v
      → view_fork_manager C t x ≡ some v
  unfolding view_fork_manager
  fork_manager_mono s t x v le =
      >>=-mono _ _ _ _ v (λ a0. let d = library.object_meta in d.mono s t x.object_meta a0 le)
        (λ a0.
          >>=-mono _ _ _ _ v (λ a1. let d = fork_manager_spec-IsDeepCopy in d.mono s t x.spec a1 le)
            (λ a1. λ e. e))

  copied_fork_manager :
      (x : StoredForkManager F) (v : ForkManagerContent C) (h : Heap F)
      → view_fork_manager C (allocated h) x ≡ some v
      → Yields (view_fork_manager C) v h h (deep_copy_into_fork_manager lib x)
  unfolding view_fork_manager deep_copy_into_fork_manager
  copied_fork_manager x v h e =
      field (view_fork_manager C) v h (library.object_meta) h x.object_meta _ _ (Grows-refl h) e
        λ w₁ object_meta h₁ e₁ g₁ fresh₁.
          field (view_fork_manager C) v h (fork_manager_spec-IsDeepCopy) h₁ x.spec _ _ g₁ e₁
            λ w₂ spec h₂ e₂ g₂ fresh₂.
              Yields-pure (view_fork_manager C) v h h₂ _
                (rw (fresh₁ h₂ g₂, fresh₂ h₂ (Grows-refl h₂)) e₂)

  pub fork_manager-IsDeepCopy : IsDeepCopy (deep_copy_into_fork_manager lib) (view_fork_manager C)
  fork_manager-IsDeepCopy = record { mono = fork_manager_mono; copied = copied_fork_manager }

  vs_config_mono :
      (s t : Store F) (x : StoredVsConfig F) (v : VsConfigContent C)
      → s ⊑ t
      → view_vs_config C s x ≡ some v
      → view_vs_config C t x ≡ some v
  unfolding view_vs_config
  vs_config_mono s t x v le =
      >>=-mono _ _ _ _ v (λ a0. let d = library.object_meta in d.mono s t x.object_meta a0 le)
        (λ a0. λ e. e)

  copied_vs_config :
      (x : StoredVsConfig F) (v : VsConfigContent C) (h : Heap F)
      → view_vs_config C (allocated h) x ≡ some v
      → Yields (view_vs_config C) v h h (deep_copy_into_vs_config lib x)
  unfolding view_vs_config deep_copy_into_vs_config
  copied_vs_config x v h e =
      field (view_vs_config C) v h (library.object_meta) h x.object_meta _ _ (Grows-refl h) e
        λ w₁ object_meta h₁ e₁ g₁ fresh₁.
          Yields-pure (view_vs_config C) v h h₁ _ (rw (fresh₁ h₁ (Grows-refl h₁)) e₁)

  pub vs_config-IsDeepCopy : IsDeepCopy (deep_copy_into_vs_config lib) (view_vs_config C)
  vs_config-IsDeepCopy = record { mono = vs_config_mono; copied = copied_vs_config }
