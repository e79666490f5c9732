-- ===== src/Tests/Mappings.antt =====
-- The Mappings of a ForkManager.
use kubefork_controller.Base.{
  String, ◌≡◌, refl, ap, ◌∙◌, ◌||◌, none, some, List, [], ◌∷◌, string_eq, nat_eq, ◌==◌, any, All,
  contains, if◌then◌else◌, filter_by, arith,
}
use kubefork_controller.Base.GoMap.{lookup, insert, or_else, NodupKeys, append_to, values}
use kubefork_controller.Base.Text.{replace_all}
use kubefork_controller.Base.Result.{ok}
use kubefork_controller.Base.Exec.{◌>>=◌, for_each}
use kubefork_controller.Api.{Fork, Upstream, NamespacedName}
use kubefork_controller.Mappings.{
  update, write_groups, write_upstreams, delete_candidates, erase_name, group_forks_by_identifier,
  mapping_key, delete_mapping,
}
use kubefork_controller.Mappings.Grouping.{has_identifier, group_forks_by_identifier_lem}
use kubefork_controller.Mappings.Options.{
  spec_of_forks, last_header, asks_upgrade, HasNodupHeaders, IsSetLike, lookup-spec_of_forks,
  contains-spec_of_forks,
}
use kubefork_controller.Mappings.Candidates.{Run, update-Run}
use kubefork_controller.Tests.Blank.{as_set, insert_text}
use kubefork_controller.Tests.Samples.{
  sample_fork, sample_manager, sample_kube, same_order, old_mapping,
}

group_forks_by_identifier_lem_example :
    ((id : String)
      → lookup id (group_forks_by_identifier (sample_fork ∷ [])) ≡ (
          if any (has_identifier id) (sample_fork ∷ [])
          then some (filter_by (has_identifier id) (sample_fork ∷ []))
          else none))
    × NodupKeys (group_forks_by_identifier (sample_fork ∷ []))
group_forks_by_identifier_lem_example = group_forks_by_identifier_lem (sample_fork ∷ [])

abbrev header : String
header = "x-fork"

abbrev added : String
added = "h2c"

abbrev upstream : Upstream
upstream = record { host = "example.com"; original = "web:80"; host_rewrite = "" }

nodup : All HasNodupHeaders (sample_fork ∷ [])
unfolding lookup
nodup = ((refl, tt), tt)

lookup-spec_of_forks_example :
    lookup header
      (spec_of_forks as_set "id" upstream sample_manager (sample_fork ∷ [])).add_request_headers
    ≡ or_else (last_header header (sample_fork ∷ [])) (
        if header == "x-forwarded-host"
        then some "%REQ(:authority)%"
        else if header == "x-fork"
        then some "id"
        else none)
lookup-spec_of_forks_example =
    lookup-spec_of_forks as_set "id" upstream sample_manager (sample_fork ∷ []) header nodup

contains-insert_text :
    (x s : String) (l : List String) → contains (insert_text s l) x ≡ (x == s || contains l x)
contains-insert_text x s l = elim (string_eq.dec x s) [ yes e ↦ ground arith | no n ↦ ground arith ]

set_like : IsSetLike as_set
set_like x [] = refl
set_like x (s ∷ l) = contains-insert_text x s (as_set l) ∙ ap (λ b. x == s || b) (set_like x l)

contains-spec_of_forks_example :
    contains
      (spec_of_forks as_set "id" upstream sample_manager (sample_fork ∷ [])).allow_upgrade
      added
    ≡ (added == "websocket"
        || any (λ (f : Fork). asks_upgrade added f.spec.gateway_options) (sample_fork ∷ []))
contains-spec_of_forks_example =
    contains-spec_of_forks as_set "id" upstream sample_manager (sample_fork ∷ []) added set_like

abbrev manager_slug : NamespacedName
manager_slug = record { namespace = "ns"; name = "manager" }

abbrev same_names : List NamespacedName → List NamespacedName
same_names l = l

updated : update sample_kube same_order same_names manager_slug (some old_mapping) ≡ (ok tt, none)
unfolding update write_groups write_upstreams delete_candidates erase_name group_forks_by_identifier
    append_to values insert lookup mapping_key delete_mapping ◌>>=◌ for_each string_eq nat_eq
    replace_all
updated = refl

update-Run_example : Run sample_kube same_order same_names manager_slug (some old_mapping) none
update-Run_example =
    update-Run sample_kube same_order same_names manager_slug (some old_mapping) none updated
