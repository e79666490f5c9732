-- ===== src/DeepCopies/Windows.antt =====
-- Ranges of addresses, and what stays the same while memory is only allocated.
use kubefork_controller.Base.{
  ◌≤◌, ◌<◌, ◌≡◌, refl, ◌∙◌, nat_eq, ◌&&◌, leb, ltb, none, some, if◌then◌else◌, arith, Bool-cases,
  Option-cases, inl, inr,
}
use kubefork_controller.DeepCopies.Memory.{Address, Foreign, Cell, Store, Heap, Slot, read_at}

-- The memory from `low` up to `high`, and nothing else.
abbrev pub window : {F : Foreign} → Address → Address → Store F → Store F
window low high s p = if leb low p && ltb p high then s p else none

-- What a heap has allocated.
abbrev pub allocated : {F : Foreign} → Heap F → Store F
allocated h = window 0 h.next h.cell

-- What a heap has allocated since another.
abbrev pub allocated_since : {F : Foreign} → Heap F → Heap F → Store F
allocated_since h h' = window h.next h'.next h'.cell

infix 4 ◌⊑◌
abbrev pub ◌⊑◌ : {F : Foreign} → Store F → Store F → Type 0
◌⊑◌ {F} s t = (p : Address) (c : Cell F) → s p ≡ some c → t p ≡ some c

module _ {F : Foreign} where
  -- Nothing that was allocated is overwritten.
  pub record Grows (h h' : Heap F) : Type 0 where
    pub next_le : h.next ≤ h'.next
    pub kept : (p : Address) → p < h.next → h'.cell p ≡ h.cell p

  pub Grows-refl : (h : Heap F) → Grows h h
  Grows-refl h = record { next_le = omega arith; kept = λ p lt. refl }

  pub Grows-trans : (h h' h'' : Heap F) → Grows h h' → Grows h' h'' → Grows h h''
  Grows-trans h h' h'' g g' = record {
    next_le = omega (arith, g.next_le, g'.next_le);
    kept = λ p lt. g'.kept p (omega (arith, g.next_le)) ∙ g.kept p lt;
  }

  pub allocated-⊑ : (h h' : Heap F) → Grows h h' → allocated h ⊑ allocated h'
  allocated-⊑ h h' g p c e = elim (Bool-cases (ltb p h.next)) [
    | inl old ↦ ground (arith, g.kept p, g.next_le)
    | inr new ↦ ground arith
  ]

  pub allocated_since-⊑ :
      (h₀ h h' h'' : Heap F)
      → Grows h₀ h
      → Grows h' h''
      → allocated_since h h' ⊑ allocated_since h₀ h''
  allocated_since-⊑ h₀ h h' h'' g g' p c e = elim (Bool-cases (ltb p h'.next)) [
    | inl old ↦ ground (arith, g'.kept p, g.next_le, g'.next_le)
    | inr new ↦ ground arith
  ]

  pub read_at-⊑ :
      {X : Type 0} (slot : Slot F X) (s t : Store F) (p : Address) (x : X)
      → s ⊑ t
      → read_at slot s p ≡ some x
      → read_at slot t p ≡ some x
  read_at-⊑ slot s t p x le e = elim (Option-cases (s p)) [
    | inl empty ↦ ground arith
    | inr (c, full) ↦ ground (arith, le p c full)
  ]

  pub window-⊑ : (low high : Address) (s : Store F) → window low high s ⊑ s
  window-⊑ low high s p c e = ground arith
