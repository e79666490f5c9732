-- ===== src/DeepCopies/Blocks.antt =====
-- The blocks for pointers, slices and maps keep what a deep copy promises.
use kubefork_controller.Base.{
  String, string_eq, ◌+◌, ◌≡◌, refl, ◌∙◌, nat_eq, true, Option, none, some, List, [], ◌∷◌, arith,
}
use mathlib.Core.Path.{fun_ext}
use kubefork_controller.Base.GoMap.{
  GoMap, lookup, NodupKeys, insert_all, lookup-insert_all, insert_all-NodupKeys, lookup-nil,
}
use kubefork_controller.DeepCopies.Memory.{
  Address, Foreign, Cell, Store, Heap, Slot, Alloc, pure, load, allocate, read_at,
}
use kubefork_controller.DeepCopies.Memory
use kubefork_controller.DeepCopies.Copying.{copy_at, copy_pointer, copy_elements, copy_entries}
use kubefork_controller.DeepCopies.Content.{
  View, view_at, view_pointer, view_elements, view_entries, distinct_keys,
}
use kubefork_controller.DeepCopies.Windows.{
  allocated, allocated_since, ◌⊑◌, Grows, Grows-refl, Grows-trans, allocated_since-⊑, read_at-⊑,
  window-⊑,
}
use kubefork_controller.DeepCopies.Laws.{
  >>=-eq-some, >>=-mono, Yields, IsDeepCopy, Yields-pure, part_then, field,
}

distinct_keys-NodupKeys : (m : GoMap String String) → distinct_keys m ≡ true → NodupKeys m
distinct_keys-NodupKeys [] e = tt
distinct_keys-NodupKeys ((k, v) ∷ m) e = ground (arith, distinct_keys-NodupKeys m)

NodupKeys-distinct_keys : (m : GoMap String String) → NodupKeys m → distinct_keys m ≡ true
NodupKeys-distinct_keys [] u = refl
NodupKeys-distinct_keys ((k, v) ∷ m) (fresh, u) = ground (arith, NodupKeys-distinct_keys m u)

module _ {F : Foreign} where
  module _ {X V : Type 0} (slot : Slot F X) {copy : X → Alloc F X} {view : View F X V}
      (whole : IsDeepCopy copy view) where
    -- The heap after a value was put at a new address.
    abbrev with_new : X → Heap F → Heap F
    with_new x h = record { next = h.next + 1; cell = Memory.write h.cell h.next (slot.put x) }

    with_new-Grows : (x : X) (h : Heap F) → Grows h (with_new x h)
    with_new-Grows x h = record { next_le = omega arith; kept = λ p lt. ground arith }

    read_at-with_new :
        (h₀ h : Heap F) (x : X)
        → Grows h₀ h
        → read_at slot (allocated_since h₀ (with_new x h)) h.next ≡ some x
    read_at-with_new h₀ h x g = ground (arith, g.next_le, slot.get-put x)

    load-allocated :
        (h : Heap F) (p : Address) (x : X)
        → read_at slot (allocated h) p ≡ some x
        → load slot p h ≡ some (x, h)
    unfolding load
    load-allocated h p x e =
        rw (read_at-⊑ slot (allocated h) h.cell p x (window-⊑ 0 h.next h.cell) e) refl

    view_at_mono :
        (s t : Store F) (p : Address) (v : V)
        → s ⊑ t
        → view_at slot view s p ≡ some v
        → view_at slot view t p ≡ some v
    unfolding view_at
    view_at_mono s t p v le =
        >>=-mono _ _ _ _ v (λ x. read_at-⊑ slot s t p x le) (λ x. whole.mono s t x v le)

    copied_at :
        (p : Address) (v : V) (h : Heap F)
        → view_at slot view (allocated h) p ≡ some v
        → Yields (view_at slot view) v h h (copy_at slot copy p)
    unfolding view_at copy_at allocate
    copied_at p v h e =
        let (x, found, content) = >>=-eq-some (read_at slot (allocated h) p) _ v e in
        let y = whole.copied x v h content in
        let g = with_new-Grows y.result y.after in
        record {
          result = y.after.next;
          after = with_new y.result y.after;
          ran = rw (load-allocated h p x found, y.ran) refl;
          grows = Grows-trans h y.after (with_new y.result y.after) y.grows g;
          fresh = rw (read_at-with_new h y.after y.result y.grows) (
              whole.mono _ _ y.result v
                (allocated_since-⊑ h h y.after (with_new y.result y.after) (Grows-refl h) g)
                y.fresh);
        }

    pub copy_at-IsDeepCopy : IsDeepCopy (copy_at slot copy) (view_at slot view)
    copy_at-IsDeepCopy = record { mono = view_at_mono; copied = copied_at }

    view_pointer_mono :
        (s t : Store F) (p : Option Address) (v : Option V)
        → s ⊑ t
        → view_pointer slot view s p ≡ some v
        → view_pointer slot view t p ≡ some v
    unfolding view_pointer
    view_pointer_mono s t none v le = λ e. e
    view_pointer_mono s t (some p) v le =
        >>=-mono _ _ _ _ v (λ w. view_at_mono s t p w le) (λ w e. e)

    copied_pointer :
        (p : Option Address) (v : Option V) (h : Heap F)
        → view_pointer slot view (allocated h) p ≡ some v
        → Yields (view_pointer slot view) v h h (copy_pointer slot copy p)
    unfolding view_pointer copy_pointer
    copied_pointer none v h e = Yields-pure (view_pointer slot view) v h h none e
    copied_pointer (some p) v h e =
        field (view_pointer slot view) v h copy_at-IsDeepCopy h p _ _ (Grows-refl h) e
          λ w q h' last g fresh.
            Yields-pure (view_pointer slot view) v h h' (some q)
              (rw (fresh h' (Grows-refl h')) last)

    pub copy_pointer-IsDeepCopy : IsDeepCopy (copy_pointer slot copy) (view_pointer slot view)
    copy_pointer-IsDeepCopy = record { mono = view_pointer_mono; copied = copied_pointer }

  module _ {X V : Type 0} {copy : X → Alloc F X} {view : View F X V}
      (whole : IsDeepCopy copy view) where
    view_elements_mono :
        (s t : Store F) (xs : List X) (vs : List V)
        → s ⊑ t
        → view_elements view s xs ≡ some vs
        → view_elements view t xs ≡ some vs
    unfolding view_elements
    view_elements_mono s t [] vs le = λ e. e
    view_elements_mono s t (x ∷ xs) vs le =
        >>=-mono _ _ _ _ vs (λ v. whole.mono s t x v le)
          (λ v. >>=-mono _ _ _ _ vs (λ rest. view_elements_mono s t xs rest le) (λ rest e. e))

    copied_elements :
        (xs : List X) (vs : List V) (h : Heap F)
        → view_elements view (allocated h) xs ≡ some vs
        → Yields (view_elements view) vs h h (copy_elements copy xs)
    unfolding view_elements copy_elements
    copied_elements [] vs h e = Yields-pure (view_elements view) vs h h [] e
    copied_elements (x ∷ xs) vs h e =
        field (view_elements view) vs h whole h x _ _ (Grows-refl h) e λ v x' h₁ e₁ g₁ fresh₁.
          part_then (view_elements view) vs h (view_elements view) xs (copy_elements copy xs) h₁ _ _
            view_elements_mono (λ ws. copied_elements xs ws h₁) g₁ e₁
            λ ws xs' h₂ e₂ g₂ fresh₂.
              Yields-pure (view_elements view) vs h h₂ (x' ∷ xs')
                (rw (fresh₁ h₂ g₂, fresh₂ h₂ (Grows-refl h₂)) e₂)

    pub copy_elements-IsDeepCopy : IsDeepCopy (copy_elements copy) (view_elements view)
    copy_elements-IsDeepCopy = record { mono = view_elements_mono; copied = copied_elements }

  view-copy_entries :
      (s t : Store F) (m : GoMap String String) (v : String → Option String)
      → view_entries s m ≡ some v
      → view_entries t (insert_all [] m) ≡ some v
  unfolding view_entries
  view-copy_entries s t m v e =
      let distinct : distinct_keys m ≡ true = ground arith in
      let u = distinct_keys-NodupKeys m distinct in
      let kept : Path (Option (String → Option String)) (some (λ k. lookup k m)) (some v) =
        ground arith in
      let same : Path (String → Option String) (λ k. lookup k (insert_all [] m)) (λ k. lookup k m) =
        fun_ext (λ k. lookup-insert_all k [] m u ∙ ground (arith, lookup-nil {V = String} k)) in
      rw (NodupKeys-distinct_keys (insert_all [] m) (insert_all-NodupKeys [] m tt), same) kept

  pub copy_entries-IsDeepCopy : IsDeepCopy {F = F} copy_entries view_entries
  unfolding copy_entries view_entries
  copy_entries-IsDeepCopy = record {
    mono = λ s t m v le e. e;
    copied = λ m v h e.
        Yields-pure view_entries v h h (insert_all [] m)
          (view-copy_entries (allocated h) (allocated_since h h) m v e);
  }
