-- ===== src/Tests/Refreshing.antt =====
-- A refresh that deletes an outdated object and creates a new one, and `createResourceName`.
use kubefork_controller.Base.{
  String, ◌≡◌, refl, sym, ap, ◌∙◌, true, false, none, some, [], ◌∷◌, string_eq, arith, ◌==◌, ◌&&◌,
  contains, map, if◌then◌else◌,
}
use Prim.Native.String.{count}
use kubefork_controller.Base.{◌≤◌}
use kubefork_controller.Base.GoMap.{lookup}
use kubefork_controller.Base.Text.{take}
use kubefork_controller.Base.Result.{Result, ok, err}
use kubefork_controller.Base.Exec.{◌>>=◌, for_each}
use kubefork_controller.Api.{TypeMeta, NamespacedName}
use kubefork_controller.Kube.{Object, unstructured, Unstructured, meta}
use kubefork_controller.Refresh.{
  ObjectList, owned_by_parent, desired_ids, sweep, handle_existing, object_name, empty_object,
  mutate, apply_item, refresh,
}
use kubefork_controller.Refresh.Naming.{create_resource_name, shrink}
use kubefork_controller.Refresh.Existing.{holds}
use kubefork_controller.Refresh.Converge.{IsStable, item_name}
use kubefork_controller.Refresh.Sweep.{is_outdated}
use kubefork_controller.Refresh.Bounds.{length-object_name}
use kubefork_controller.Refresh.Outcome.{refresh-NoneOutdated, stored-refresh, refresh-written}
use kubefork_controller.Tests.Blank.{named_in}
use kubefork_controller.Tests.Floats.{fractions, fractions-IsAccurate}
use kubefork_controller.Tests.OneSlot.{Slot, one_slot, one_slot_tracks, held, IsUnstructured}

abbrev pub config_kind : TypeMeta
config_kind = record { kind = "VSConfig"; api_version = "v1beta1" }

abbrev pub parent : Object
parent =
    unstructured
      (record { type_meta = config_kind; metadata = named_in "ns" "parent"; content = "" })

abbrev pub named_object : String → Unstructured
named_object name = record { type_meta = config_kind; metadata = named_in "ns" name; content = "" }

abbrev pub owned_object : String → Unstructured
owned_object name = record (named_object name) {
  metadata = record (named_in "ns" name) {
    owner_references =
        record {
          api_version = "v1beta1";
          kind = "VSConfig";
          name = "parent";
          uid = "";
          controller = true;
        }
        ∷ [];
  };
}

abbrev pub by_name : ObjectList
by_name = record {
  items = unstructured (named_object "new") ∷ [];
  group_version_kind = config_kind;
  identity = λ o. ok (meta o).name;
}

abbrev name_of : Result Object → Result String
name_of (ok o) = ok (meta o).name
name_of (err e) = err e

run : Slot → Slot
unfolding refresh handle_existing sweep owned_by_parent desired_ids apply_item object_name
    empty_object mutate ◌>>=◌ for_each lookup string_eq
run w = (refresh one_slot parent by_name fractions w).1

replaced : run (some (owned_object "old")) ≡ some (owned_object "new")
unfolding run
replaced = refl

pub full_run :
    refresh one_slot parent by_name fractions (some (owned_object "old"))
    ≡ (ok tt, some (owned_object "new"))
unfolding run
full_run = refl

pub swept : handle_existing one_slot parent by_name (some (owned_object "old")) ≡ (ok [], none)
unfolding run
swept = refl

pub wanted : desired_ids by_name.identity by_name.items ≡ ok ("new" ∷ [])
unfolding desired_ids
wanted = refl

abbrev new_key : NamespacedName
new_key = record { namespace = "ns"; name = "new" }

pub typed :
    (name : String)
    → IsUnstructured (empty_object one_slot parent name (unstructured (named_object "new")))
unfolding empty_object
typed name = tt

pub stable :
    IsStable one_slot parent by_name fractions
      (one_slot_tracks config_kind "ns")
      []
      (unstructured (named_object "new"))
unfolding mutate object_name lookup string_eq one_slot_tracks
stable seen sent name h = sym (ap (λ (r : Result Object). name_of r) h) ∙ ap ok name

refresh-NoneOutdated_example :
    holds (is_outdated parent by_name ("new" ∷ [])) (held (some (owned_object "new")) new_key)
    ≡ false
refresh-NoneOutdated_example =
    refresh-NoneOutdated one_slot parent by_name fractions (one_slot_tracks config_kind "ns")
      ("new" ∷ []) [] (some (owned_object "old")) none (some (owned_object "new")) wanted
      ((typed, stable), tt) swept full_run new_key refl

abbrev old_key : NamespacedName
old_key = record { namespace = "ns"; name = "old" }

not_written :
    (old_key.namespace == "ns"
      && contains
          (map
            (item_name one_slot parent by_name fractions (one_slot_tracks config_kind "ns") [])
            by_name.items)
          old_key.name)
    ≡ false
unfolding object_name lookup string_eq
not_written = refl

stored-refresh_example : held (some (owned_object "new")) old_key ≡ (
    if old_key.namespace == "ns"
      && holds (is_outdated parent by_name ("new" ∷ [])) (held (some (owned_object "old")) old_key)
    then none
    else held (some (owned_object "old")) old_key)
stored-refresh_example =
    stored-refresh one_slot parent by_name fractions (one_slot_tracks config_kind "ns") ("new" ∷ [])
      [] (some (owned_object "old")) none (some (owned_object "new")) old_key wanted
      ((λ name. typed name), tt) swept full_run not_written

refresh-written_example :
    (seen sent : Object) × (mutate one_slot parent (unstructured (named_object "new")) seen
      ≡ ok sent)
    × ((meta seen).namespace ≡ "ns")
    × ((meta seen).name
        ≡ item_name one_slot parent by_name fractions
            (one_slot_tracks config_kind "ns")
            []
            (unstructured (named_object "new")))
    × (held (some (owned_object "new")) (record {
      namespace = "ns";
      name =
          item_name one_slot parent by_name fractions
            (one_slot_tracks config_kind "ns")
            []
            (unstructured (named_object "new"));
    })
        ≡ some ((one_slot_tracks config_kind "ns").admit sent))
refresh-written_example =
    refresh-written one_slot parent by_name fractions (one_slot_tracks config_kind "ns") []
      (some (owned_object "old")) none (some (owned_object "new")) [] []
      (unstructured (named_object "new")) refl ((λ name. typed name), tt) swept full_run refl

abbrev long : String
long = "a-name-of-a-service-that-is-quite-long-for-what-it-is-meant-to-be"

abbrev fork_name : String
fork_name = "kubefork-with-a-long-identifier"

shortened :
    create_resource_name fractions long fork_name
    ≡ "a-name-of-a-service-that-is-quite-long-f-kubefork-with-a-lon"
unfolding create_resource_name shrink take
shortened = refl

length-object_name_example :
    count (object_name one_slot parent by_name fractions [] long (unstructured (named_object "")))
    ≤ 63
length-object_name_example =
    length-object_name one_slot parent by_name fractions fractions-IsAccurate [] long
      (unstructured (named_object "")) (unfold lookup in refl) (omega arith)
