-- ===== src/DeepCopies/Faithful/Forks.antt =====
-- The specification of a Fork, and its deep copy.
use kubefork_controller.Base.{◌≡◌, some}
use kubefork_controller.DeepCopies.Structs.{ForkService, ForkDeployment, ForkSpec}
use kubefork_controller.DeepCopies.Memory.{Address, Foreign, Heap, Store}
use kubefork_controller.DeepCopies.Slots.{
  time_slot, label_selector_slot, int32_slot, gateway_options_slot, pod_template_spec_slot,
  fork_service_slot, fork_deployment_slot,
}
use kubefork_controller.DeepCopies.Copying.{Library}
use kubefork_controller.DeepCopies.Specs.{
  deep_copy_into_fork_service, deep_copy_into_fork_deployment, deep_copy_into_fork_spec,
}
use kubefork_controller.DeepCopies.Content.{
  LibraryContents, DeploymentContent, ForkSpecContent, view_fork_service, view_fork_deployment,
  view_fork_spec,
}
use kubefork_controller.DeepCopies.Windows.{◌⊑◌, allocated, Grows-refl, Grows-trans}
use kubefork_controller.DeepCopies.Laws.{
  >>=-mono, Yields, IsDeepCopy, Yields-pure, field, flat-IsDeepCopy, IsLibrary,
}
use kubefork_controller.DeepCopies.Blocks.{copy_pointer-IsDeepCopy}
use kubefork_controller.DeepCopies.Faithful.Options.{gateway_options-IsDeepCopy}
use kubefork_controller.DeepCopies.Faithful.Pods.{pod_template_spec-IsDeepCopy}

module _ {F : Foreign} {lib : Library F} {C : LibraryContents F} (library : IsLibrary lib C) where
  fork_service_mono :
      (s t : Store F) (x : ForkService Address) (v : ForkService C.LabelSelector)
      → s ⊑ t
      → view_fork_service C s x ≡ some v
      → view_fork_service C t x ≡ some v
  unfolding view_fork_service
  fork_service_mono s t x v le =
      >>=-mono _ _ _ _ v
        (λ a0.
          let d = copy_pointer-IsDeepCopy label_selector_slot library.label_selector in
          d.mono s t x.selector a0 le)
        (λ a0. λ e. e)

  copied_fork_service :
      (x : ForkService Address) (v : ForkService C.LabelSelector) (h : Heap F)
      → view_fork_service C (allocated h) x ≡ some v
      → Yields (view_fork_service C) v h h (deep_copy_into_fork_service lib x)
  unfolding view_fork_service deep_copy_into_fork_service
  copied_fork_service x v h e =
      field (view_fork_service C) v h
        (copy_pointer-IsDeepCopy label_selector_slot library.label_selector) h x.selector _ _
        (Grows-refl h) e
        λ w₁ selector h₁ e₁ g₁ fresh₁.
          Yields-pure (view_fork_service C) v h h₁ _ (rw (fresh₁ h₁ (Grows-refl h₁)) e₁)

  pub fork_service-IsDeepCopy : IsDeepCopy (deep_copy_into_fork_service lib) (view_fork_service C)
  fork_service-IsDeepCopy = record { mono = fork_service_mono; copied = copied_fork_service }

  fork_deployment_mono :
      (s t : Store F) (x : ForkDeployment Address Address Address) (v : DeploymentContent C)
      → s ⊑ t
      → view_fork_deployment C s x ≡ some v
      → view_fork_deployment C t x ≡ some v
  unfolding view_fork_deployment
  fork_deployment_mono s t x v le =
      >>=-mono _ _ _ _ v
        (λ a0.
          let d = copy_pointer-IsDeepCopy label_selector_slot library.label_selector in
          d.mono s t x.selector a0 le)
        (λ a0.
          >>=-mono _ _ _ _ v
            (λ a1.
              let d =
                copy_pointer-IsDeepCopy pod_template_spec_slot
                  (pod_template_spec-IsDeepCopy library) in
              d.mono s t x.template a1 le)
            (λ a1.
              >>=-mono _ _ _ _ v
                (λ a2.
                  let d = copy_pointer-IsDeepCopy int32_slot flat-IsDeepCopy in
                  d.mono s t x.replicas a2 le)
                (λ a2. λ e. e)))

  copied_fork_deployment :
      (x : ForkDeployment Address Address Address) (v : DeploymentContent C) (h : Heap F)
      → view_fork_deployment C (allocated h) x ≡ some v
      → Yields (view_fork_deployment C) v h h (deep_copy_into_fork_deployment lib x)
  unfolding view_fork_deployment deep_copy_into_fork_deployment
  copied_fork_deployment x v h e =
      field (view_fork_deployment C) v h
        (copy_pointer-IsDeepCopy label_selector_slot library.label_selector) h x.selector _ _
        (Grows-refl h) e
        λ w₁ selector h₁ e₁ g₁ fresh₁.
          field (view_fork_deployment C) v h
            (copy_pointer-IsDeepCopy pod_template_spec_slot (pod_template_spec-IsDeepCopy library))
            h₁ x.template _ _ g₁ e₁
            λ w₂ template h₂ e₂ g₂ fresh₂.
              field (view_fork_deployment C) v h
                (copy_pointer-IsDeepCopy int32_slot flat-IsDeepCopy) h₂ x.replicas _ _
                (Grows-trans h h₁ h₂ g₁ g₂) e₂
                λ w₃ replicas h₃ e₃ g₃ fresh₃. Yields-pure (view_fork_deployment C) v h h₃ _ (
                  rw
                    (
                      fresh₁ h₃ (Grows-trans h₁ h₂ h₃ g₂ g₃),
                      fresh₂ h₃ g₃,
                      fresh₃ h₃ (Grows-refl h₃),
                    )
                    e₃)

  pub fork_deployment-IsDeepCopy :
      IsDeepCopy (deep_copy_into_fork_deployment lib) (view_fork_deployment C)
  fork_deployment-IsDeepCopy = record {
    mono = fork_deployment_mono;
    copied = copied_fork_deployment;
  }

  fork_spec_mono :
      (s t : Store F) (x : ForkSpec Address Address Address Address) (v : ForkSpecContent C)
      → s ⊑ t
      → view_fork_spec C s x ≡ some v
      → view_fork_spec C t x ≡ some v
  unfolding view_fork_spec
  fork_spec_mono s t x v le =
      >>=-mono _ _ _ _ v
        (λ a0.
          let d = copy_pointer-IsDeepCopy time_slot library.time in d.mono s t x.deadline a0 le)
        (λ a0.
          >>=-mono _ _ _ _ v
            (λ a1.
              let d = copy_pointer-IsDeepCopy gateway_options_slot gateway_options-IsDeepCopy in
              d.mono s t x.gateway_options a1 le)
            (λ a1.
              >>=-mono _ _ _ _ v
                (λ a2.
                  let d = copy_pointer-IsDeepCopy fork_service_slot fork_service-IsDeepCopy in
                  d.mono s t x.services a2 le)
                (λ a2.
                  >>=-mono _ _ _ _ v
                    (λ a3.
                      let d =
                        copy_pointer-IsDeepCopy fork_deployment_slot fork_deployment-IsDeepCopy in
                      d.mono s t x.deployments a3 le)
                    (λ a3. λ e. e))))

  copied_fork_spec :
      (x : ForkSpec Address Address Address Address) (v : ForkSpecContent C) (h : Heap F)
      → view_fork_spec C (allocated h) x ≡ some v
      → Yields (view_fork_spec C) v h h (deep_copy_into_fork_spec lib x)
  unfolding view_fork_spec deep_copy_into_fork_spec
  copied_fork_spec x v h e =
      field (view_fork_spec C) v h (copy_pointer-IsDeepCopy time_slot library.time) h x.deadline _ _
        (Grows-refl h) e
        λ w₁ deadline h₁ e₁ g₁ fresh₁.
          field (view_fork_spec C) v h
            (copy_pointer-IsDeepCopy gateway_options_slot gateway_options-IsDeepCopy) h₁
            x.gateway_options _ _ g₁ e₁
            λ w₂ gateway_options h₂ e₂ g₂ fresh₂.
              field (view_fork_spec C) v h
                (copy_pointer-IsDeepCopy fork_service_slot fork_service-IsDeepCopy) h₂ x.services _
                _ (Grows-trans h h₁ h₂ g₁ g₂) e₂
                λ w₃ services h₃ e₃ g₃ fresh₃.
                  field (view_fork_spec C) v h
                    (copy_pointer-IsDeepCopy fork_deployment_slot fork_deployment-IsDeepCopy) h₃
                    x.deployments _ _ (Grows-trans h h₂ h₃ (Grows-trans h h₁ h₂ g₁ g₂) g₃) e₃
                    λ w₄ deployments h₄ e₄ g₄ fresh₄. Yields-pure (view_fork_spec C) v h h₄ _ (
                      rw
                        (
                          fresh₁ h₄ (Grows-trans h₁ h₃ h₄ (Grows-trans h₁ h₂ h₃ g₂ g₃) g₄),
                          fresh₂ h₄ (Grows-trans h₂ h₃ h₄ g₃ g₄),
                          fresh₃ h₄ g₄,
                          fresh₄ h₄ (Grows-refl h₄),
                        )
                        e₄)

  pub fork_spec-IsDeepCopy : IsDeepCopy (deep_copy_into_fork_spec lib) (view_fork_spec C)
  fork_spec-IsDeepCopy = record { mono = fork_spec_mono; copied = copied_fork_spec }
