-- ===== src/DeepCopies/Separate.antt =====
-- `DeepCopyObject` of api/v1beta1/zz_generated.deepcopy.go: the copy has the content of the original
-- and shares no memory with it.
use mathlib.Core.Path.{fun_ext, subst₂}
use kubefork_controller.Base.{◌≡◌, refl, sym, ◌∙◌, ltb, Bool-cases, inl, inr, Option, some, arith}
use kubefork_controller.DeepCopies.Memory.{Address, Foreign, Heap, Store, Slot, Alloc, pure}
use kubefork_controller.DeepCopies.Memory
use kubefork_controller.DeepCopies.Slots.{
  fork_slot, fork_manager_slot, vs_config_slot, fork_list_slot, fork_manager_list_slot,
  vs_config_list_slot,
}
use kubefork_controller.DeepCopies.Copying.{Library, copy_pointer}
use kubefork_controller.DeepCopies.Kinds.{
  RuntimeObject, fork_at, fork_list_at, fork_manager_at, fork_manager_list_at, vs_config_at,
  vs_config_list_at, as_object, deep_copy_object, deep_copy_object_fork, deep_copy_object_fork_list,
  deep_copy_object_fork_manager, deep_copy_object_fork_manager_list, deep_copy_object_vs_config,
  deep_copy_object_vs_config_list, deep_copy_fork, deep_copy_fork_list, deep_copy_fork_manager,
  deep_copy_fork_manager_list, deep_copy_vs_config, deep_copy_vs_config_list,
}
use kubefork_controller.DeepCopies.Content.{
  View, LibraryContents, ◌>>=◌, view_at, view_object, ObjectContent, fork_content,
  fork_manager_content, vs_config_content, fork_list_content, fork_manager_list_content,
  vs_config_list_content,
}
use kubefork_controller.DeepCopies.Windows.{window, allocated, allocated_since, ◌⊑◌, Grows}
use kubefork_controller.DeepCopies.Laws.{>>=-eq-some, >>=-mono, IsDeepCopy, IsLibrary}
use kubefork_controller.DeepCopies.Blocks.{copy_at-IsDeepCopy}
use kubefork_controller.DeepCopies.Faithful.Kinds.{
  fork-IsDeepCopy, fork_manager-IsDeepCopy, vs_config-IsDeepCopy,
}
use kubefork_controller.DeepCopies.Faithful.Lists.{
  fork_list-IsDeepCopy, fork_manager_list-IsDeepCopy, vs_config_list-IsDeepCopy,
}

-- What was allocated is as it was.
allocated_kept : {F : Foreign} (h h' : Heap F) → Grows h h' → window 0 h.next h'.cell ≡ allocated h
allocated_kept h h' g = fun_ext λ p. elim (Bool-cases (ltb p h.next)) [
  | inl old ↦ ground (arith, g.kept p)
  | inr new ↦ ground arith
]

module _ {F : Foreign} (lib : Library F) (C : LibraryContents F) where
  -- An object of the content `v` was copied, from a heap `h`.
  pub record ObjectCopied (v : ObjectContent C) (h : Heap F) (m : Alloc F (Option RuntimeObject))
      : Type 0 where
    pub copy : RuntimeObject
    pub after : Heap F
    pub ran : m h ≡ some (some copy, after)
    pub kept : window 0 h.next after.cell ≡ allocated h
    pub fresh : view_object C (allocated_since h after) copy ≡ some v

  ObjectCopied-copy_pointer :
      {X V : Type 0} (slot : Slot F X) {into : X → Alloc F X} {view : View F X V}
      (kind : Address → RuntimeObject) (content : V → ObjectContent C)
      → ((s : Store F) (p : Address)
          → view_object C s (kind p) ≡ (view_at slot view s p >>= λ w. some (content w)))
      → IsDeepCopy into view
      → (p : Address) (v : ObjectContent C) (h : Heap F)
      → view_object C (allocated h) (kind p) ≡ some v
      → ObjectCopied v h
          (Memory.◌>>=◌ (copy_pointer slot into (some p)) λ c. pure (as_object kind c))
  unfolding copy_pointer
  ObjectCopied-copy_pointer slot {into = into} {view = view} kind content same whole p v h e =
      let (w, found, last) =
        >>=-eq-some (view_at slot view (allocated h) p) (λ w. some (content w)) v
          (sym (same (allocated h) p) ∙ e) in
      let at = copy_at-IsDeepCopy slot whole in
      let y = at.copied p w h found in
      record {
        copy = kind y.result;
        after = y.after;
        ran = rw y.ran refl;
        kept = allocated_kept h y.after y.grows;
        fresh = same (allocated_since h y.after) y.result ∙ rw y.fresh last;
      }

  module _ (library : IsLibrary lib C) where
    -- If `DeepCopyInto` of the libraries' structs makes deep copies: `DeepCopyObject` on an object of any
    -- of the six kinds, whose content lies in what the heap has allocated, ends without a fault, leaves
    -- what was allocated as it was, and returns an object of the same kind and content, all of it in
    -- memory that was allocated meanwhile.
    pub deep_copy_object-ObjectCopied :
        (o : RuntimeObject) (v : ObjectContent C) (h : Heap F)
        → view_object C (allocated h) o ≡ some v
        → ObjectCopied v h (deep_copy_object lib o)
    unfolding deep_copy_object view_object deep_copy_object_fork deep_copy_fork
        deep_copy_object_fork_manager deep_copy_fork_manager deep_copy_object_vs_config
        deep_copy_vs_config deep_copy_object_fork_list deep_copy_fork_list
        deep_copy_object_fork_manager_list deep_copy_fork_manager_list
        deep_copy_object_vs_config_list deep_copy_vs_config_list
    deep_copy_object-ObjectCopied (fork_at p) v h e =
        ObjectCopied-copy_pointer fork_slot fork_at fork_content (λ s p. refl)
          (fork-IsDeepCopy library) p v h e
    deep_copy_object-ObjectCopied (fork_manager_at p) v h e =
        ObjectCopied-copy_pointer fork_manager_slot fork_manager_at fork_manager_content
          (λ s p. refl) (fork_manager-IsDeepCopy library) p v h e
    deep_copy_object-ObjectCopied (vs_config_at p) v h e =
        ObjectCopied-copy_pointer vs_config_slot vs_config_at vs_config_content (λ s p. refl)
          (vs_config-IsDeepCopy library) p v h e
    deep_copy_object-ObjectCopied (fork_list_at p) v h e =
        ObjectCopied-copy_pointer fork_list_slot fork_list_at fork_list_content (λ s p. refl)
          (fork_list-IsDeepCopy library) p v h e
    deep_copy_object-ObjectCopied (fork_manager_list_at p) v h e =
        ObjectCopied-copy_pointer fork_manager_list_slot fork_manager_list_at
          fork_manager_list_content (λ s p. refl) (fork_manager_list-IsDeepCopy library) p v h e
    deep_copy_object-ObjectCopied (vs_config_list_at p) v h e =
        ObjectCopied-copy_pointer vs_config_list_slot vs_config_list_at vs_config_list_content
          (λ s p. refl) (vs_config_list-IsDeepCopy library) p v h e

    view_object_mono :
        (s t : Store F) (o : RuntimeObject) (v : ObjectContent C)
        → s ⊑ t
        → view_object C s o ≡ some v
        → view_object C t o ≡ some v
    unfolding view_object
    view_object_mono s t (fork_at p) v le =
        let at = copy_at-IsDeepCopy fork_slot (fork-IsDeepCopy library) in
        >>=-mono _ _ _ _ v (λ w. at.mono s t p w le) (λ w e. e)
    view_object_mono s t (fork_manager_at p) v le =
        let at = copy_at-IsDeepCopy fork_manager_slot (fork_manager-IsDeepCopy library) in
        >>=-mono _ _ _ _ v (λ w. at.mono s t p w le) (λ w e. e)
    view_object_mono s t (vs_config_at p) v le =
        let at = copy_at-IsDeepCopy vs_config_slot (vs_config-IsDeepCopy library) in
        >>=-mono _ _ _ _ v (λ w. at.mono s t p w le) (λ w e. e)
    view_object_mono s t (fork_list_at p) v le =
        let at = copy_at-IsDeepCopy fork_list_slot (fork_list-IsDeepCopy library) in
        >>=-mono _ _ _ _ v (λ w. at.mono s t p w le) (λ w e. e)
    view_object_mono s t (fork_manager_list_at p) v le =
        let at = copy_at-IsDeepCopy fork_manager_list_slot (fork_manager_list-IsDeepCopy library) in
        >>=-mono _ _ _ _ v (λ w. at.mono s t p w le) (λ w e. e)
    view_object_mono s t (vs_config_list_at p) v le =
        let at = copy_at-IsDeepCopy vs_config_list_slot (vs_config_list-IsDeepCopy library) in
        >>=-mono _ _ _ _ v (λ w. at.mono s t p w le) (λ w e. e)

    -- If `DeepCopyInto` of the libraries' structs makes deep copies, and `DeepCopyObject` on an object whose
    -- content lies in what the heap has allocated returned a copy: the original has this content in any
    -- memory that agrees with the heap before the call, whatever was written to the memory of the copy,
    -- and the copy has it in any memory that agrees with what the call allocated, whatever was written
    -- to the memory of the original.
    pub deep_copy_object-unshared :
        (o o' : RuntimeObject) (v : ObjectContent C) (h h' : Heap F) (s t : Store F)
        → view_object C (allocated h) o ≡ some v
        → deep_copy_object lib o h ≡ some (some o', h')
        → allocated h ⊑ s
        → allocated_since h h' ⊑ t
        → (view_object C s o ≡ some v) × (view_object C t o' ≡ some v)
    deep_copy_object-unshared o o' v h h' s t seen run old new =
        let made = deep_copy_object-ObjectCopied o v h seen in
        let same_copy : made.copy ≡ o' = cc (made.ran) in
        let same_heap : made.after ≡ h' = cc (made.ran) in
        (
          view_object_mono (allocated h) s o v old seen,
          view_object_mono (allocated_since h h') t o' v new (
              subst₂ (λ c g. view_object C (allocated_since h g) c ≡ some v) same_copy same_heap
                made.fresh),
        )
