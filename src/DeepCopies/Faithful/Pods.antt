-- ===== src/DeepCopies/Faithful/Pods.antt =====
-- The template of pods, and its deep copy.
use kubefork_controller.Base.{◌≡◌, some}
use kubefork_controller.DeepCopies.Structs.{PodSpec, PodTemplateSpec}
use kubefork_controller.DeepCopies.Memory.{Address, Foreign, Heap, Store}
use kubefork_controller.DeepCopies.Slots.{object_meta_slot, containers_slot}
use kubefork_controller.DeepCopies.Copying.{Library}
use kubefork_controller.DeepCopies.Specs.{deep_copy_into_pod_spec, deep_copy_into_pod_template_spec}
use kubefork_controller.DeepCopies.Content.{
  LibraryContents, PodContent, TemplateContent, view_pod_spec, view_pod_template_spec,
}
use kubefork_controller.DeepCopies.Windows.{◌⊑◌, allocated, Grows-refl}
use kubefork_controller.DeepCopies.Laws.{
  >>=-mono, Yields, IsDeepCopy, Yields-pure, field, IsLibrary,
}
use kubefork_controller.DeepCopies.Blocks.{copy_pointer-IsDeepCopy, copy_elements-IsDeepCopy}

module _ {F : Foreign} {lib : Library F} {C : LibraryContents F} (library : IsLibrary lib C) where
  pod_spec_mono :
      (s t : Store F) (x : PodSpec Address) (v : PodContent C)
      → s ⊑ t
      → view_pod_spec C s x ≡ some v
      → view_pod_spec C t x ≡ some v
  unfolding view_pod_spec
  pod_spec_mono s t x v le =
      >>=-mono _ _ _ _ v
        (λ a0.
          let d =
            copy_pointer-IsDeepCopy containers_slot (copy_elements-IsDeepCopy library.container) in
          d.mono s t x.containers a0 le)
        (λ a0. λ e. e)

  copied_pod_spec :
      (x : PodSpec Address) (v : PodContent C) (h : Heap F)
      → view_pod_spec C (allocated h) x ≡ some v
      → Yields (view_pod_spec C) v h h (deep_copy_into_pod_spec lib x)
  unfolding view_pod_spec deep_copy_into_pod_spec
  copied_pod_spec x v h e =
      field (view_pod_spec C) v h
        (copy_pointer-IsDeepCopy containers_slot (copy_elements-IsDeepCopy library.container)) h
        x.containers _ _ (Grows-refl h) e
        λ w₁ containers h₁ e₁ g₁ fresh₁.
          Yields-pure (view_pod_spec C) v h h₁ _ (rw (fresh₁ h₁ (Grows-refl h₁)) e₁)

  pub pod_spec-IsDeepCopy : IsDeepCopy (deep_copy_into_pod_spec lib) (view_pod_spec C)
  pod_spec-IsDeepCopy = record { mono = pod_spec_mono; copied = copied_pod_spec }

  pod_template_spec_mono :
      (s t : Store F) (x : PodTemplateSpec Address Address) (v : TemplateContent C)
      → s ⊑ t
      → view_pod_template_spec C s x ≡ some v
      → view_pod_template_spec C t x ≡ some v
  unfolding view_pod_template_spec
  pod_template_spec_mono s t x v le =
      >>=-mono _ _ _ _ v
        (λ a0.
          let d = copy_pointer-IsDeepCopy object_meta_slot library.object_meta in
          d.mono s t x.object_meta a0 le)
        (λ a0.
          >>=-mono _ _ _ _ v (λ a1. let d = pod_spec-IsDeepCopy in d.mono s t x.spec a1 le)
            (λ a1. λ e. e))

  copied_pod_template_spec :
      (x : PodTemplateSpec Address Address) (v : TemplateContent C) (h : Heap F)
      → view_pod_template_spec C (allocated h) x ≡ some v
      → Yields (view_pod_template_spec C) v h h (deep_copy_into_pod_template_spec lib x)
  unfolding view_pod_template_spec deep_copy_into_pod_template_spec
  copied_pod_template_spec x v h e =
      field (view_pod_template_spec C) v h
        (copy_pointer-IsDeepCopy object_meta_slot library.object_meta) h x.object_meta _ _
        (Grows-refl h) e
        λ w₁ object_meta h₁ e₁ g₁ fresh₁.
          field (view_pod_template_spec C) v h (pod_spec-IsDeepCopy) h₁ x.spec _ _ g₁ e₁
            λ w₂ spec h₂ e₂ g₂ fresh₂.
              Yields-pure (view_pod_template_spec C) v h h₂ _
                (rw (fresh₁ h₂ g₂, fresh₂ h₂ (Grows-refl h₂)) e₂)

  pub pod_template_spec-IsDeepCopy :
      IsDeepCopy (deep_copy_into_pod_template_spec lib) (view_pod_template_spec C)
  pod_template_spec-IsDeepCopy = record {
    mono = pod_template_spec_mono;
    copied = copied_pod_template_spec;
  }
