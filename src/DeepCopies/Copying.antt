-- ===== src/DeepCopies/Copying.antt =====
-- The blocks that controller-gen writes for pointers, slices and maps, and the deep copies of the
-- libraries, which are parameters.
use kubefork_controller.Base.{String, string_eq, Option, none, some, List, [], ◌∷◌}
use kubefork_controller.Base.GoMap.{GoMap, insert_all}
use kubefork_controller.DeepCopies.Memory.{
  Address, Foreign, Slot, Alloc, pure, ◌>>=◌, load, allocate,
}

-- `DeepCopyInto` of the structs of Kubernetes' libraries.
pub record Library (F : Foreign) : Type 0 where
  pub time : F.Time → Alloc F F.Time
  pub object_meta : F.ObjectMeta → Alloc F F.ObjectMeta
  pub list_meta : F.ListMeta → Alloc F F.ListMeta
  pub label_selector : F.LabelSelector → Alloc F F.LabelSelector
  pub container : F.Container → Alloc F F.Container

module _ {F : Foreign} {X : Type 0} where
  -- `out := new(X); in.DeepCopyInto(out)`
  unfoldable pub copy_at : Slot F X → (X → Alloc F X) → Address → Alloc F Address
  copy_at slot into p = do x ← load slot p; out ← into x; allocate slot out

  -- The same where the pointer may be `nil`: `DeepCopy` of X, and the block of a field that points to
  -- an X. Of a slice, the address is that of its array.
  unfoldable pub copy_pointer :
      Slot F X → (X → Alloc F X) → Option Address → Alloc F (Option Address)
  copy_pointer slot into none = pure none
  copy_pointer slot into (some p) = do q ← copy_at slot into p; pure (some q)

  -- `for i := range *in { (*in)[i].DeepCopyInto(&(*out)[i]) }`
  unfoldable pub copy_elements : (X → Alloc F X) → List X → Alloc F (List X)
  copy_elements into [] = pure []
  copy_elements into (x ∷ xs) = do out ← into x; rest ← copy_elements into xs; pure (out ∷ rest)

module _ {F : Foreign} where
  -- `for key, val := range *in { (*out)[key] = val }`, into a map that is empty at first.
  unfoldable pub copy_entries : GoMap String String → Alloc F (GoMap String String)
  copy_entries m = pure (insert_all [] m)
