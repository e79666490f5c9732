-- ===== src/Tests/DeepCopying.antt =====
-- The deep copy of a Fork whose labels, headers and upgrades lie in memory of their own.
use kubefork_controller.Base.{
  String, ℕ, ◌≡◌, refl, nat_eq, string_eq, Option, none, some, List, [], ◌∷◌, ◌==◌, if◌then◌else◌,
  ltb, arith,
}
use kubefork_controller.Base.GoMap.{GoMap, lookup, insert, insert_all}
use kubefork_controller.DeepCopies.Structs.{fork_status}
use kubefork_controller.DeepCopies.Memory.{
  Address, Foreign, Store, Heap, StoredFork, pure, load, allocate, fork, gateway_options,
  string_map, strings,
}
use kubefork_controller.DeepCopies.Slots.{string_map_slot}
use kubefork_controller.DeepCopies.Copying.{Library, copy_at, copy_pointer, copy_entries}
use kubefork_controller.DeepCopies.Specs.{deep_copy_into_fork_spec, deep_copy_into_gateway_options}
use kubefork_controller.DeepCopies.Kinds.{
  fork_at, deep_copy_object, deep_copy_object_fork, deep_copy_fork, deep_copy_into_fork,
}
use kubefork_controller.DeepCopies.Content.{
  LibraryContents, Entries, view_flat, view_at, view_pointer, view_entries, view_object, view_fork,
  view_fork_spec, view_gateway_options, ObjectContent, fork_content,
}
use kubefork_controller.DeepCopies.Windows.{allocated}
use kubefork_controller.DeepCopies.Laws.{IsLibrary, flat-IsDeepCopy}
use kubefork_controller.DeepCopies.Blocks.{copy_pointer-IsDeepCopy, copy_entries-IsDeepCopy}
use kubefork_controller.DeepCopies.Separate.{
  ObjectCopied, deep_copy_object-ObjectCopied, deep_copy_object-unshared,
}
use kubefork_controller.Tests.Blank.{no_type}

-- Of the metadata there are only labels, and the other structs of the libraries hold no pointers.
abbrev foreign : Foreign
foreign = record {
  Inner = Unit;
  Time = ℕ;
  ObjectMeta = Option Address;
  ListMeta = String;
  LabelSelector = String;
  Container = String;
}

abbrev library : Library foreign
library = record {
  time = pure;
  object_meta = copy_pointer string_map_slot copy_entries;
  list_meta = pure;
  label_selector = pure;
  container = pure;
}

abbrev contents : LibraryContents foreign
contents = record {
  Time = ℕ;
  ObjectMeta = Option Entries;
  ListMeta = String;
  LabelSelector = String;
  Container = String;
  time = view_flat;
  object_meta = view_pointer string_map_slot view_entries;
  list_meta = view_flat;
  label_selector = view_flat;
  container = view_flat;
}

is_library : IsLibrary library contents
is_library = record {
  time = flat-IsDeepCopy;
  object_meta = copy_pointer-IsDeepCopy string_map_slot copy_entries-IsDeepCopy;
  list_meta = flat-IsDeepCopy;
  label_selector = flat-IsDeepCopy;
  container = flat-IsDeepCopy;
}

abbrev labels : GoMap String String
labels = ("app", "web") ∷ []

abbrev headers : GoMap String String
headers = ("x-team", "a") ∷ ("x-user", "b") ∷ []

abbrev upgrades : List String
upgrades = "h2c" ∷ []

abbrev stored_fork : StoredFork foreign
stored_fork = record {
  type_meta = no_type;
  object_meta = some 0;
  spec = record {
    manager = "ns/manager";
    identifier = "id";
    deadline = none;
    gateway_options = some 3;
    services = none;
    deployments = none;
  };
  status = fork_status;
}

abbrev cells : Store foreign
cells p =
    if p == 0
    then some (string_map labels)
    else if p == 1
    then some (string_map headers)
    else if p == 2
    then some (strings upgrades)
    else if p == 3
    then some (gateway_options (record { add_request_headers = some 1; allow_upgrade = some 2 }))
    else if p == 4
    then some (fork stored_fork)
    else none

abbrev heap : Heap foreign
heap = record { next = 5; cell = cells }

abbrev content : ObjectContent contents
content = fork_content (record {
  type_meta = no_type;
  object_meta = some (λ k. lookup k labels);
  spec = record {
    manager = "ns/manager";
    identifier = "id";
    deadline = none;
    gateway_options = some (record {
      add_request_headers = some (λ k. lookup k headers);
      allow_upgrade = some upgrades;
    });
    services = none;
    deployments = none;
  };
  status = fork_status;
})

seen : view_object contents (allocated heap) (fork_at 4) ≡ some content
unfolding view_object view_at view_pointer view_entries view_fork view_fork_spec
    view_gateway_options lookup nat_eq string_eq
seen = refl

deep_copy_object-ObjectCopied_example :
    ObjectCopied library contents content heap (deep_copy_object library (fork_at 4))
deep_copy_object-ObjectCopied_example =
    deep_copy_object-ObjectCopied library contents is_library (fork_at 4) content heap seen

abbrev after : Heap foreign
after = elim (deep_copy_object library (fork_at 4) heap) [ none ↦ heap | some (_, h) ↦ h ]

copied_at : deep_copy_object library (fork_at 4) heap ≡ some (some (fork_at 9), after)
unfolding deep_copy_object deep_copy_object_fork deep_copy_fork copy_pointer copy_at load allocate
    deep_copy_into_fork deep_copy_into_fork_spec deep_copy_into_gateway_options copy_entries
    insert_all insert nat_eq string_eq
copied_at = refl

-- The memory after the new part of it was overwritten, and after the old part was.
abbrev over_new : Store foreign
over_new p = if ltb p 5 then cells p else some (strings [])

abbrev over_old : Store foreign
over_old p = if ltb p 5 then some (strings []) else after.cell p

deep_copy_object-unshared_example :
    (view_object contents over_new (fork_at 4) ≡ some content)
    × (view_object contents over_old (fork_at 9) ≡ some content)
deep_copy_object-unshared_example =
    deep_copy_object-unshared library contents is_library (fork_at 4) (fork_at 9) content heap after
      over_new over_old seen copied_at (λ p c e. ground arith) (λ p c e. ground arith)
