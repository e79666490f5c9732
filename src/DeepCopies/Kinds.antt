-- ===== src/DeepCopies/Kinds.antt =====
-- api/v1beta1/zz_generated.deepcopy.go: the kinds and their lists, and `DeepCopyObject`.
use kubefork_controller.Base.{Option, none, some}
use kubefork_controller.DeepCopies.Memory.{
  Address, Foreign, StoredFork, StoredForkManager, StoredVsConfig, StoredForkList,
  StoredForkManagerList, StoredVsConfigList, Alloc, pure, ◌>>=◌,
}
use kubefork_controller.DeepCopies.Slots.{
  fork_slot, forks_slot, fork_list_slot, fork_manager_slot, fork_managers_slot,
  fork_manager_list_slot, vs_config_slot, vs_configs_slot, vs_config_list_slot,
}
use kubefork_controller.DeepCopies.Copying.{Library, copy_pointer, copy_elements}
use kubefork_controller.DeepCopies.Specs.{
  deep_copy_into_fork_spec, deep_copy_into_fork_manager_spec,
}

-- A `runtime.Object` of one of the kinds: a pointer with its type.
pub data RuntimeObject : Type 0 where
  fork_at fork_list_at fork_manager_at fork_manager_list_at : Address → RuntimeObject
  vs_config_at vs_config_list_at : Address → RuntimeObject

-- `if c := in.DeepCopy(); c != nil { return c }; return nil`
abbrev pub as_object : (Address → RuntimeObject) → Option Address → Option RuntimeObject
as_object kind none = none
as_object kind (some p) = some (kind p)

module _ {F : Foreign} (lib : Library F) where
  unfoldable pub deep_copy_into_fork : StoredFork F → Alloc F (StoredFork F)
  deep_copy_into_fork x = do
    object_meta ← lib.object_meta x.object_meta
    spec ← deep_copy_into_fork_spec lib x.spec
    pure (record x { object_meta = object_meta; spec = spec })

  unfoldable pub deep_copy_fork : Option Address → Alloc F (Option Address)
  deep_copy_fork = copy_pointer fork_slot deep_copy_into_fork

  unfoldable pub deep_copy_object_fork : Option Address → Alloc F (Option RuntimeObject)
  unfolding deep_copy_fork
  deep_copy_object_fork p = do c ← deep_copy_fork p; pure (as_object fork_at c)

  unfoldable pub deep_copy_into_fork_manager : StoredForkManager F → Alloc F (StoredForkManager F)
  deep_copy_into_fork_manager x = do
    object_meta ← lib.object_meta x.object_meta
    spec ← deep_copy_into_fork_manager_spec x.spec
    pure (record x { object_meta = object_meta; spec = spec })

  unfoldable pub deep_copy_fork_manager : Option Address → Alloc F (Option Address)
  deep_copy_fork_manager = copy_pointer fork_manager_slot deep_copy_into_fork_manager

  unfoldable pub deep_copy_object_fork_manager : Option Address → Alloc F (Option RuntimeObject)
  unfolding deep_copy_fork_manager
  deep_copy_object_fork_manager p = do
    c ← deep_copy_fork_manager p
    pure (as_object fork_manager_at c)

  unfoldable pub deep_copy_into_vs_config : StoredVsConfig F → Alloc F (StoredVsConfig F)
  deep_copy_into_vs_config x = do
    object_meta ← lib.object_meta x.object_meta
    pure (record x { object_meta = object_meta })

  unfoldable pub deep_copy_vs_config : Option Address → Alloc F (Option Address)
  deep_copy_vs_config = copy_pointer vs_config_slot deep_copy_into_vs_config

  unfoldable pub deep_copy_object_vs_config : Option Address → Alloc F (Option RuntimeObject)
  unfolding deep_copy_vs_config
  deep_copy_object_vs_config p = do c ← deep_copy_vs_config p; pure (as_object vs_config_at c)

  unfoldable pub deep_copy_into_fork_list : StoredForkList F → Alloc F (StoredForkList F)
  deep_copy_into_fork_list x = do
    list_meta ← lib.list_meta x.list_meta
    items ← copy_pointer forks_slot (copy_elements deep_copy_into_fork) x.items
    pure (record x { list_meta = list_meta; items = items })

  unfoldable pub deep_copy_fork_list : Option Address → Alloc F (Option Address)
  deep_copy_fork_list = copy_pointer fork_list_slot deep_copy_into_fork_list

  unfoldable pub deep_copy_object_fork_list : Option Address → Alloc F (Option RuntimeObject)
  unfolding deep_copy_fork_list
  deep_copy_object_fork_list p = do c ← deep_copy_fork_list p; pure (as_object fork_list_at c)

  unfoldable pub deep_copy_into_fork_manager_list :
      StoredForkManagerList F → Alloc F (StoredForkManagerList F)
  deep_copy_into_fork_manager_list x = do
    list_meta ← lib.list_meta x.list_meta
    items ← copy_pointer fork_managers_slot (copy_elements deep_copy_into_fork_manager) x.items
    pure (record x { list_meta = list_meta; items = items })

  unfoldable pub deep_copy_fork_manager_list : Option Address → Alloc F (Option Address)
  deep_copy_fork_manager_list = copy_pointer fork_manager_list_slot deep_copy_into_fork_manager_list

  unfoldable pub deep_copy_object_fork_manager_list :
      Option Address → Alloc F (Option RuntimeObject)
  unfolding deep_copy_fork_manager_list
  deep_copy_object_fork_manager_list p = do
    c ← deep_copy_fork_manager_list p
    pure (as_object fork_manager_list_at c)

  unfoldable pub deep_copy_into_vs_config_list :
      StoredVsConfigList F → Alloc F (StoredVsConfigList F)
  deep_copy_into_vs_config_list x = do
    list_meta ← lib.list_meta x.list_meta
    items ← copy_pointer vs_configs_slot (copy_elements deep_copy_into_vs_config) x.items
    pure (record x { list_meta = list_meta; items = items })

  unfoldable pub deep_copy_vs_config_list : Option Address → Alloc F (Option Address)
  deep_copy_vs_config_list = copy_pointer vs_config_list_slot deep_copy_into_vs_config_list

  unfoldable pub deep_copy_object_vs_config_list : Option Address → Alloc F (Option RuntimeObject)
  unfolding deep_copy_vs_config_list
  deep_copy_object_vs_config_list p = do
    c ← deep_copy_vs_config_list p
    pure (as_object vs_config_list_at c)

  -- The call of `DeepCopyObject` on an object of any of the kinds.
  unfoldable pub deep_copy_object : RuntimeObject → Alloc F (Option RuntimeObject)
  deep_copy_object (fork_at p) = deep_copy_object_fork (some p)
  deep_copy_object (fork_manager_at p) = deep_copy_object_fork_manager (some p)
  deep_copy_object (vs_config_at p) = deep_copy_object_vs_config (some p)
  deep_copy_object (fork_list_at p) = deep_copy_object_fork_list (some p)
  deep_copy_object (fork_manager_list_at p) = deep_copy_object_fork_manager_list (some p)
  deep_copy_object (vs_config_list_at p) = deep_copy_object_vs_config_list (some p)
