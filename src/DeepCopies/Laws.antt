-- ===== src/DeepCopies/Laws.antt =====
-- What a deep copy promises, and how a struct is copied field by field.
use kubefork_controller.Base.{string_eq, ◌≡◌, refl, nat_eq, Option, none, some}
use kubefork_controller.DeepCopies.Memory.{
  Address, Foreign, Cell, Store, Heap, Slot, Alloc, pure, load, allocate, read_at,
}
use kubefork_controller.DeepCopies.Memory
use kubefork_controller.DeepCopies.Copying.{Library}
use kubefork_controller.DeepCopies.Content.{LibraryContents, View, ◌>>=◌, view_flat}
use kubefork_controller.DeepCopies.Windows.{
  allocated, allocated_since, ◌⊑◌, Grows, Grows-refl, Grows-trans, allocated-⊑, allocated_since-⊑,
}

pub >>=-eq-some :
    {A B : Type 0} (m : Option A) (f : A → Option B) (b : B)
    → (m >>= f) ≡ some b
    → (a : A) × (m ≡ some a) × (f a ≡ some b)
>>=-eq-some none f b h = cc
>>=-eq-some (some a) f b h = (a, refl, h)

pub >>=-mono :
    {A B : Type 0} (m m' : Option A) (f f' : A → Option B) (b : B)
    → ((a : A) → m ≡ some a → m' ≡ some a)
    → ((a : A) → f a ≡ some b → f' a ≡ some b)
    → (m >>= f) ≡ some b
    → (m' >>= f') ≡ some b
>>=-mono m m' f f' b first rest h =
    let (a, e, h') = >>=-eq-some m f b h in rw (first a e) (rest a h')

module _ {F : Foreign} where
  -- The call ends without a fault, overwrites nothing that the heap had allocated, and its result has
  -- the content `v` within what was allocated since the heap `h₀`.
  pub record Yields {X V : Type 0} (view : View F X V) (v : V) (h₀ h : Heap F) (m : Alloc F X)
      : Type 0 where
    pub result : X
    pub after : Heap F
    pub ran : m h ≡ some (result, after)
    pub grows : Grows h after
    pub fresh : view (allocated_since h₀ after) result ≡ some v

  -- What can be read in a part of the memory is read alike in more of it, and a copy of a struct
  -- whose content lies in what is allocated has this content in what was allocated meanwhile.
  pub record IsDeepCopy {X V : Type 0} (copy : X → Alloc F X) (view : View F X V) : Type 0 where
    pub mono : (s t : Store F) (x : X) (v : V) → s ⊑ t → view s x ≡ some v → view t x ≡ some v
    pub copied :
        (x : X) (v : V) (h : Heap F) → view (allocated h) x ≡ some v → Yields view v h h (copy x)

  module _ {X V : Type 0} (view : View F X V) (v : V) (h₀ : Heap F) where
    pub Yields-pure :
        (h : Heap F) (x : X) → view (allocated_since h₀ h) x ≡ some v → Yields view v h₀ h (pure x)
    Yields-pure h x e = record {
      result = x;
      after = h;
      ran = refl;
      grows = Grows-refl h;
      fresh = e;
    }

    -- A part is copied, and then the others.
    pub part_then :
        {A W : Type 0} (part : View F A W) (a : A) (run : Alloc F A) (h : Heap F)
        (rest : W → Option V) (next : A → Alloc F X)
        → ((s t : Store F) (x : A) (w : W) → s ⊑ t → part s x ≡ some w → part t x ≡ some w)
        → ((w : W) → part (allocated h) a ≡ some w → Yields part w h h run)
        → Grows h₀ h
        → (part (allocated h₀) a >>= rest) ≡ some v
        → ((w : W) (a' : A) (h' : Heap F)
            → rest w ≡ some v
            → Grows h h'
            → ((h'' : Heap F) → Grows h' h'' → part (allocated_since h₀ h'') a' ≡ some w)
            → Yields view v h₀ h' (next a'))
        → Yields view v h₀ h (Memory.◌>>=◌ run next)
    part_then part a run h rest next mono copied g seen continue =
        let (w, e, others) = >>=-eq-some (part (allocated h₀) a) rest v seen in
        let y = copied w (mono _ _ a w (allocated-⊑ h₀ h g) e) in
        let z =
          continue w y.result y.after others y.grows
            (λ h'' g'. mono _ _ y.result w (allocated_since-⊑ h₀ h y.after h'' g g') y.fresh) in
        record {
          result = z.result;
          after = z.after;
          ran = rw y.ran z.ran;
          grows = Grows-trans h y.after z.after y.grows z.grows;
          fresh = z.fresh;
        }

    pub field :
        {A W : Type 0} {copy : A → Alloc F A} {part : View F A W} (whole : IsDeepCopy copy part)
        (h : Heap F) (a : A) (rest : W → Option V) (next : A → Alloc F X)
        → Grows h₀ h
        → (part (allocated h₀) a >>= rest) ≡ some v
        → ((w : W) (a' : A) (h' : Heap F)
            → rest w ≡ some v
            → Grows h h'
            → ((h'' : Heap F) → Grows h' h'' → part (allocated_since h₀ h'') a' ≡ some w)
            → Yields view v h₀ h' (next a'))
        → Yields view v h₀ h (Memory.◌>>=◌ (copy a) next)
    field {copy = copy} {part = part} whole h a rest next =
        part_then part a (copy a) h rest next whole.mono (λ w. whole.copied a w h)

  pub flat-IsDeepCopy : {X : Type 0} → IsDeepCopy {X = X} {V = X} pure view_flat
  flat-IsDeepCopy = record {
    mono = λ s t x v le e. e;
    copied = λ x v h e. Yields-pure view_flat v h h x e;
  }

-- `DeepCopyInto` of the structs of Kubernetes' libraries makes deep copies, as its documentation says.
pub record IsLibrary {F : Foreign} (lib : Library F) (C : LibraryContents F) : Type 0 where
  pub time : IsDeepCopy lib.time C.time
  pub object_meta : IsDeepCopy lib.object_meta C.object_meta
  pub list_meta : IsDeepCopy lib.list_meta C.list_meta
  pub label_selector : IsDeepCopy lib.label_selector C.label_selector
  pub container : IsDeepCopy lib.container C.container
