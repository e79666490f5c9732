-- ===== src/DeepCopies/Memory.antt =====
-- The memory that deep copies read and allocate. An address is used once, and what lies there is a
-- struct, the array of a slice, or the entries of a map.
use kubefork_controller.Base.{
  String, ℕ, ◌≡◌, ◌+◌, ◌==◌, nat_eq, Option, none, some, List, if◌then◌else◌,
}
use kubefork_controller.Base.GoMap.{GoMap}
use kubefork_controller.Api.{Int32, Upstream, VsConfigSpec}
use kubefork_controller.DeepCopies.Structs.{
  GatewayOptions, PodSpec, PodTemplateSpec, ForkService, ForkDeployment, ForkSpec, ForkManagerSpec,
  ForkStatus, ForkManagerStatus, VsConfigStatus, Resource, ResourceList,
}

abbrev pub Address : Type 0
Address = ℕ

-- The structs of Kubernetes' libraries, and what the pointers within them lead to.
pub record Foreign : Type 1 where
  pub Inner : Type 0
  pub Time : Type 0
  pub ObjectMeta : Type 0
  pub ListMeta : Type 0
  pub LabelSelector : Type 0
  pub Container : Type 0

module _ (F : Foreign) where
  abbrev pub StoredFork : Type 0
  StoredFork = Resource F.ObjectMeta (ForkSpec Address Address Address Address) ForkStatus

  abbrev pub StoredForkManager : Type 0
  StoredForkManager = Resource F.ObjectMeta (ForkManagerSpec Address) ForkManagerStatus

  abbrev pub StoredVsConfig : Type 0
  StoredVsConfig = Resource F.ObjectMeta VsConfigSpec VsConfigStatus

  abbrev pub StoredForkList : Type 0
  StoredForkList = ResourceList F.ListMeta Address

  abbrev pub StoredForkManagerList : Type 0
  StoredForkManagerList = ResourceList F.ListMeta Address

  abbrev pub StoredVsConfigList : Type 0
  StoredVsConfigList = ResourceList F.ListMeta Address

pub data Cell (F : Foreign) : Type 0 where
  inner : F.Inner → Cell F
  time : F.Time → Cell F
  object_meta : F.ObjectMeta → Cell F
  label_selector : F.LabelSelector → Cell F
  int32 : Int32 → Cell F
  string_map : GoMap String String → Cell F
  strings : List String → Cell F
  containers : List F.Container → Cell F
  upstreams : List Upstream → Cell F
  upstream : Upstream → Cell F
  gateway_options : GatewayOptions Address Address → Cell F
  pod_spec : PodSpec Address → Cell F
  pod_template_spec : PodTemplateSpec Address Address → Cell F
  fork_service : ForkService Address → Cell F
  fork_deployment : ForkDeployment Address Address Address → Cell F
  fork_spec : ForkSpec Address Address Address Address → Cell F
  fork_status : ForkStatus → Cell F
  fork : StoredFork F → Cell F
  forks : List (StoredFork F) → Cell F
  fork_list : StoredForkList F → Cell F
  fork_manager_spec : ForkManagerSpec Address → Cell F
  fork_manager_status : ForkManagerStatus → Cell F
  fork_manager : StoredForkManager F → Cell F
  fork_managers : List (StoredForkManager F) → Cell F
  fork_manager_list : StoredForkManagerList F → Cell F
  vs_config_spec : VsConfigSpec → Cell F
  vs_config_status : VsConfigStatus → Cell F
  vs_config : StoredVsConfig F → Cell F
  vs_configs : List (StoredVsConfig F) → Cell F
  vs_config_list : StoredVsConfigList F → Cell F

abbrev pub Store : Foreign → Type 0
Store F = Address → Option (Cell F)

-- From `next` on nothing is allocated.
pub record Heap (F : Foreign) : Type 0 where
  pub next : Address
  pub cell : Store F

-- `none` is a fault: an address at which something else lies, or nothing.
abbrev pub Alloc : Foreign → Type 0 → Type 0
Alloc F A = Heap F → Option (A × Heap F)

-- How values of a type are put into memory, and found there again.
pub record Slot (F : Foreign) (X : Type 0) : Type 0 where
  pub put : X → Cell F
  pub get : Cell F → Option X
  pub get-put : (x : X) → get (put x) ≡ some x

module _ {F : Foreign} where
  abbrev pub pure : {A : Type 0} → A → Alloc F A
  pure a h = some (a, h)

  abbrev pub and_then : {A B : Type 0} → Option (A × Heap F) → (A → Alloc F B) → Option (B × Heap F)
  and_then none f = none
  and_then (some (a, h)) f = f a h

  infixl 10 ◌>>=◌
  abbrev pub ◌>>=◌ : {A B : Type 0} → Alloc F A → (A → Alloc F B) → Alloc F B
  ◌>>=◌ m f h = and_then (m h) f

  abbrev pub read_at : {X : Type 0} → Slot F X → Store F → Address → Option X
  read_at slot s p = elim (s p) [ none ↦ none | some c ↦ slot.get c ]

  abbrev pub found : {X : Type 0} → Option X → Alloc F X
  found none h = none
  found (some x) h = some (x, h)

  -- `*p`
  unfoldable pub load : {X : Type 0} → Slot F X → Address → Alloc F X
  load slot p h = found (read_at slot h.cell p) h

  abbrev pub write : Store F → Address → Cell F → Store F
  write s p c q = if q == p then some c else s q

  -- `new` and `make`, with what is written there at once.
  unfoldable pub allocate : {X : Type 0} → Slot F X → X → Alloc F Address
  allocate slot x h =
      some (h.next, record { next = h.next + 1; cell = write h.cell h.next (slot.put x) })
