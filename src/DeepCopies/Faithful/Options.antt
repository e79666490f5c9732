-- ===== src/DeepCopies/Faithful/Options.antt =====
-- The structs within the kinds that hold nothing of the libraries, and their deep copies.
use kubefork_controller.Base.{◌≡◌, some}
use kubefork_controller.DeepCopies.Structs.{GatewayOptions, ForkManagerSpec}
use kubefork_controller.DeepCopies.Memory.{Address, Foreign, Heap, Store}
use kubefork_controller.DeepCopies.Slots.{string_map_slot, strings_slot, upstreams_slot}
use kubefork_controller.DeepCopies.Specs.{
  deep_copy_into_gateway_options, deep_copy_into_fork_manager_spec,
}
use kubefork_controller.DeepCopies.Content.{
  GatewayContent, ForkManagerSpecContent, view_gateway_options, view_fork_manager_spec,
}
use kubefork_controller.DeepCopies.Windows.{◌⊑◌, allocated, Grows-refl}
use kubefork_controller.DeepCopies.Laws.{
  >>=-mono, Yields, IsDeepCopy, Yields-pure, field, flat-IsDeepCopy,
}
use kubefork_controller.DeepCopies.Blocks.{copy_pointer-IsDeepCopy, copy_entries-IsDeepCopy}

module _ {F : Foreign} where
  gateway_options_mono :
      (s t : Store F) (x : GatewayOptions Address Address) (v : GatewayContent)
      → s ⊑ t
      → view_gateway_options s x ≡ some v
      → view_gateway_options t x ≡ some v
  unfolding view_gateway_options
  gateway_options_mono s t x v le =
      >>=-mono _ _ _ _ v
        (λ a0.
          let d = copy_pointer-IsDeepCopy string_map_slot copy_entries-IsDeepCopy in
          d.mono s t x.add_request_headers a0 le)
        (λ a0.
          >>=-mono _ _ _ _ v
            (λ a1.
              let d = copy_pointer-IsDeepCopy strings_slot flat-IsDeepCopy in
              d.mono s t x.allow_upgrade a1 le)
            (λ a1. λ e. e))

  copied_gateway_options :
      (x : GatewayOptions Address Address) (v : GatewayContent) (h : Heap F)
      → view_gateway_options (allocated h) x ≡ some v
      → Yields (view_gateway_options) v h h (deep_copy_into_gateway_options x)
  unfolding view_gateway_options deep_copy_into_gateway_options
  copied_gateway_options x v h e =
      field (view_gateway_options) v h
        (copy_pointer-IsDeepCopy string_map_slot copy_entries-IsDeepCopy) h x.add_request_headers _
        _ (Grows-refl h) e
        λ w₁ add_request_headers h₁ e₁ g₁ fresh₁.
          field (view_gateway_options) v h (copy_pointer-IsDeepCopy strings_slot flat-IsDeepCopy) h₁
            x.allow_upgrade _ _ g₁ e₁
            λ w₂ allow_upgrade h₂ e₂ g₂ fresh₂.
              Yields-pure (view_gateway_options) v h h₂ _
                (rw (fresh₁ h₂ g₂, fresh₂ h₂ (Grows-refl h₂)) e₂)

  pub gateway_options-IsDeepCopy :
      IsDeepCopy {F = F} (deep_copy_into_gateway_options) (view_gateway_options)
  gateway_options-IsDeepCopy = record {
    mono = gateway_options_mono;
    copied = copied_gateway_options;
  }

  fork_manager_spec_mono :
      (s t : Store F) (x : ForkManagerSpec Address) (v : ForkManagerSpecContent)
      → s ⊑ t
      → view_fork_manager_spec s x ≡ some v
      → view_fork_manager_spec t x ≡ some v
  unfolding view_fork_manager_spec
  fork_manager_spec_mono s t x v le =
      >>=-mono _ _ _ _ v
        (λ a0.
          let d = copy_pointer-IsDeepCopy upstreams_slot flat-IsDeepCopy in
          d.mono s t x.upstreams a0 le)
        (λ a0. λ e. e)

  copied_fork_manager_spec :
      (x : ForkManagerSpec Address) (v : ForkManagerSpecContent) (h : Heap F)
      → view_fork_manager_spec (allocated h) x ≡ some v
      → Yields (view_fork_manager_spec) v h h (deep_copy_into_fork_manager_spec x)
  unfolding view_fork_manager_spec deep_copy_into_fork_manager_spec
  copied_fork_manager_spec x v h e =
      field (view_fork_manager_spec) v h (copy_pointer-IsDeepCopy upstreams_slot flat-IsDeepCopy) h
        x.upstreams _ _ (Grows-refl h) e
        λ w₁ upstreams h₁ e₁ g₁ fresh₁.
          Yields-pure (view_fork_manager_spec) v h h₁ _ (rw (fresh₁ h₁ (Grows-refl h₁)) e₁)

  pub fork_manager_spec-IsDeepCopy :
      IsDeepCopy {F = F} (deep_copy_into_fork_manager_spec) (view_fork_manager_spec)
  fork_manager_spec-IsDeepCopy = record {
    mono = fork_manager_spec_mono;
    copied = copied_fork_manager_spec;
  }
