-- ===== src/Tests/Settled.antt =====
-- Two updates of the Mappings of a ForkManager in a row, on a cluster that reads what it holds.
use kubefork_controller.Base.{
  String, ◌≡◌, refl, sym, ap, ◌∙◌, Bool, false, Option, none, some, List, [], ◌∷◌, ◌++◌, string_eq,
  nat_eq, ◌==◌, inl, inr, Bool-cases, any, if◌then◌else◌, arith,
}
use kubefork_controller.Base.GoMap.{GoMap, lookup, insert, values, append_to}
use kubefork_controller.Base.Text.{replace_all}
use kubefork_controller.Base.Result.{ok, ok-injective}
use kubefork_controller.Base.Exec.{◌>>=◌, for_each}
use kubefork_controller.Api.{NamespacedName, Mapping}
use kubefork_controller.Kube.{Kube, Object, mapping}
use kubefork_controller.Kube.Laws.{Tracks, is_at}
use kubefork_controller.Mappings.{
  label_key, same_name, has_name, update, write_groups, write_upstreams, delete_candidates,
  erase_name, group_forks_by_identifier, mapping_key, delete_mapping, mutate_mapping,
}
use kubefork_controller.Mappings.Candidates.{Run, update-Run, is_named, is_desired}
use kubefork_controller.Mappings.Settled.{update-update}
use kubefork_controller.Refresh.Existing.{holds}
use kubefork_controller.Tests.Blank.{no_type}
use kubefork_controller.Tests.Cluster.{World, held, serving, serving_tracks, each_once, same_names}
use kubefork_controller.Tests.Samples.{same_order, old_mapping}

abbrev labelled_mapping : Mapping
labelled_mapping = record old_mapping {
  metadata = record (old_mapping.metadata) { labels = (label_key, "manager") ∷ [] };
}

abbrev has_label : GoMap String String → Bool
has_label [] = false
has_label ((k, v) ∷ _) = v == "manager"

abbrev carries : Object → Bool
carries (mapping mp) = has_label mp.metadata.labels
carries _ = false

abbrev gone : NamespacedName
gone = record { namespace = "ns"; name = "example-com-gone" }

abbrev wanted : NamespacedName
wanted = record { namespace = "ns"; name = "example-com-id" }

abbrev slug : NamespacedName
slug = record { namespace = "ns"; name = "manager" }

abbrev labelled : Option Object → List Mapping
labelled (some (mapping mp)) = if has_label mp.metadata.labels then mp ∷ [] else []
labelled _ = []

abbrev found_labelled : World → List Mapping
found_labelled w = labelled (w gone) ++ labelled (w wanted)

abbrev cluster : Kube World
cluster = serving found_labelled

cluster_tracks : Tracks cluster no_type "ns" (λ _. Unit {0}) held
cluster_tracks = serving_tracks found_labelled

abbrev start : World
start k = if is_at k (mapping labelled_mapping) then some (mapping labelled_mapping) else none

abbrev middle : World
middle = (update cluster same_order same_names slug start).1

abbrev finish : World
finish = (update cluster same_order same_names slug middle).1

updated : update cluster same_order same_names slug start ≡ (ok tt, middle)
unfolding update write_groups write_upstreams delete_candidates erase_name group_forks_by_identifier
    append_to values insert lookup mapping_key delete_mapping mutate_mapping ◌>>=◌ for_each
    string_eq nat_eq replace_all
updated = refl

updated_again : update cluster same_order same_names slug middle ≡ (ok tt, finish)
unfolding update write_groups write_upstreams delete_candidates erase_name group_forks_by_identifier
    append_to values insert lookup mapping_key delete_mapping mutate_mapping ◌>>=◌ for_each
    string_eq nat_eq replace_all
updated_again = refl

first : Run cluster same_order same_names slug start middle
first = update-Run cluster same_order same_names slug start middle updated

second : Run cluster same_order same_names slug middle finish
second = update-Run cluster same_order same_names slug middle finish updated_again

listed_start :
    (n : NamespacedName) → any (is_named n) (found_labelled start) ≡ holds carries (start n)
unfolding string_eq nat_eq
listed_start n = elim (Bool-cases (same_name n gone)) [
  | inl here ↦ ground arith
  | inr out ↦ ground arith
]

-- What the first update leaves: the Mapping that is wanted, with the label of the manager.
listed_middle :
    (n : NamespacedName) → any (is_named n) (found_labelled middle) ≡ holds carries (middle n)
unfolding update write_groups write_upstreams delete_candidates erase_name group_forks_by_identifier
    append_to values insert lookup mapping_key delete_mapping mutate_mapping ◌>>=◌ for_each
    string_eq nat_eq replace_all
listed_middle n = elim (string_eq.dec n.name gone.name) [
  | yes e ↦ let other : (n.name == wanted.name) ≡ false = rw e refl in ground arith
  | no d ↦ elim (Bool-cases (same_name n wanted)) [
    | inl here ↦ ground arith
    | inr out ↦ ground arith
  ]
]

update-update_example :
    (has_name second.left gone ≡ false)
    × (held finish gone ≡ (
        if is_desired second.fm gone (same_order _ (group_forks_by_identifier second.forks))
        then held second.written gone
        else held middle gone))
update-update_example =
    update-update cluster cluster_tracks (λ ns name. tt) same_order each_once same_names
      (λ l n. refl) slug carries start middle finish first second
      (λ requirement mps _ listed n.
        sym (ap (any (is_named n)) (ok-injective listed)) ∙ listed_start n)
      (λ requirement mps _ listed n.
        sym (ap (any (is_named n)) (ok-injective listed)) ∙ listed_middle n)
      (sym (ok-injective second.found) ∙ ok-injective first.found)
      (sym (ok-injective second.listed_forks) ∙ ok-injective first.listed_forks) gone
