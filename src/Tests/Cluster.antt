-- ===== src/Tests/Cluster.antt =====
-- A cluster that keeps objects by their names, and an update of its Mappings.
use kubefork_controller.Base.{
  ◌≡◌, refl, sym, ap, true, false, Option, none, some, List, [], ◌∷◌, string_eq, nat_eq, any,
  if◌then◌else◌,
}
use mathlib.Core.Path.{subst₂}
use kubefork_controller.Base.GoMap.{lookup, insert, values, append_to}
use kubefork_controller.Base.Text.{replace_all}
use kubefork_controller.Base.Result.{Result, ok, err, failure, ok-injective}
use kubefork_controller.Base.Exec.{◌>>=◌, for_each}
use kubefork_controller.Api.{NamespacedName, Mapping}
use kubefork_controller.Kube.{Kube, Object, mapping}
use kubefork_controller.Kube.Laws.{Tracks, is_at}
use kubefork_controller.Application.Routes.{IsRange}
use kubefork_controller.Mappings.{
  update, write_groups, write_upstreams, delete_candidates, erase_name, group_forks_by_identifier,
  mapping_key, delete_mapping, mutate_mapping,
}
use kubefork_controller.Mappings.Candidates.{Run, update-Run, is_desired, is_named}
use kubefork_controller.Mappings.Made.{Made}
use kubefork_controller.Mappings.Stored.{stored-update, update-Made, IsGroup}
use kubefork_controller.Tests.Blank.{blank, no_type}
use kubefork_controller.Tests.Samples.{sample_fork, sample_manager, same_order, old_mapping}

abbrev pub World : Type 0
World = NamespacedName → Option Object

abbrev pub held : World → NamespacedName → Option Object
held w k = w k

abbrev pub put : Object → Result Object → World → Result (Unit {0}) × World
put o (ok sent) w = (ok tt, λ k. if is_at k o then some sent else w k)
put o (err e) w = (err e, w)

-- A cluster with one ForkManager and one Fork, which lists the Mappings that a function finds.
abbrev pub serving : (World → List Mapping) → Kube World
serving mappings = record (blank World) {
  get_fork_manager = λ k w. ok sample_manager;
  list_forks = λ o w. ok (sample_fork ∷ []);
  list_mappings = λ o w. ok (mappings w);
  list_unstructured = λ t o w. err (failure "not served");
  delete = λ o w. (ok tt, λ k. if is_at k o then none else w k);
  create_or_update = λ o f w. put o (f o) w;
}

abbrev pub cluster : Kube World
cluster = serving (λ w. old_mapping ∷ [])

abbrev pub Put : Object → (Object → Result Object) → World → World → Type 0
Put o f w w' =
    (sent : Object) × (f o ≡ ok sent)
    × ((k : NamespacedName) → w' k ≡ (if is_at k o then some sent else w k))

pub put-Put :
    (o : Object) (f : Object → Result Object) (r : Result Object) (w w' : World)
    → f o ≡ r
    → put o r w ≡ (ok tt, w')
    → Put o f w w'
put-Put o f (ok sent) w w' e h =
    (sent, e, λ k. sym (ap (λ (r : Result (Unit {0}) × World). r.1 k) h))
put-Put o f (err _) w w' e h = cc (ap (λ (r : Result (Unit {0}) × World). r.0) h)

pub serving_tracks :
    (mappings : World → List Mapping) → Tracks (serving mappings) no_type "ns" (λ _. Unit {0}) held
serving_tracks mappings = record {
  admit = λ o. o;
  listed = λ w us e. cc;
  listed_all = λ w us e. cc;
  deleted = λ o w w' _ h k. sym (ap (λ (r : Result (Unit {0}) × World). r.1 k) h);
  written = λ o f w w' _ h.
      let (sent, built, after) = put-Put o f (f o) w w' refl h in
      (o, sent, refl, refl, built, after);
}

cluster_tracks : Tracks cluster no_type "ns" (λ _. Unit {0}) held
cluster_tracks = serving_tracks (λ w. old_mapping ∷ [])

abbrev pub start : World
start k = if is_at k (mapping old_mapping) then some (mapping old_mapping) else none

abbrev pub same_names : List NamespacedName → List NamespacedName
same_names l = l

abbrev slug : NamespacedName
slug = record { namespace = "ns"; name = "manager" }

abbrev finish : World
finish = (update cluster same_order same_names slug start).1

updated : update cluster same_order same_names slug start ≡ (ok tt, finish)
unfolding update write_groups write_upstreams delete_candidates erase_name group_forks_by_identifier
    append_to values insert lookup mapping_key delete_mapping mutate_mapping ◌>>=◌ for_each
    string_eq nat_eq replace_all
updated = refl

run : Run cluster same_order same_names slug start finish
run = update-Run cluster same_order same_names slug start finish updated

pub each_once : IsRange same_order
each_once = record { each = λ V m k u. refl; once = λ V m u. u }

abbrev gone : NamespacedName
gone = record { namespace = "ns"; name = "example-com-gone" }

gone_undesired_fork :
    is_desired sample_manager gone (group_forks_by_identifier (sample_fork ∷ [])) ≡ false
unfolding group_forks_by_identifier append_to values insert lookup mapping_key replace_all string_eq
    nat_eq
gone_undesired_fork = refl

gone_undesired : is_desired run.fm gone (same_order _ (group_forks_by_identifier run.forks)) ≡ false
gone_undesired =
    subst₂ (λ fm forks. is_desired fm gone (group_forks_by_identifier forks) ≡ false)
      (ok-injective run.found) (ok-injective run.listed_forks) gone_undesired_fork

stored-update_example :
    held finish gone ≡ (if any (is_named gone) run.mappings then none else held start gone)
stored-update_example =
    stored-update cluster cluster_tracks (λ ns name. tt) same_order each_once same_names
      (λ l n. refl) slug start finish run gone gone_undesired

abbrev wanted : NamespacedName
wanted = record { namespace = "ns"; name = "example-com-id" }

wanted_desired_fork :
    is_desired sample_manager wanted (group_forks_by_identifier (sample_fork ∷ [])) ≡ true
unfolding group_forks_by_identifier append_to values insert lookup mapping_key replace_all string_eq
    nat_eq
wanted_desired_fork = refl

wanted_desired :
    is_desired run.fm wanted (same_order _ (group_forks_by_identifier run.forks)) ≡ true
wanted_desired =
    subst₂ (λ fm forks. is_desired fm wanted (group_forks_by_identifier forks) ≡ true)
      (ok-injective run.found) (ok-injective run.listed_forks) wanted_desired_fork

update-Made_example :
    Made cluster cluster_tracks
      (λ ns name. tt)
      wanted
      slug
      run.fm
      (IsGroup cluster cluster_tracks
        (λ ns name. tt)
        same_order
        each_once
        same_names
        (λ l n. refl)
        slug
        start
        finish
        run
        wanted)
      finish
update-Made_example =
    update-Made cluster cluster_tracks (λ ns name. tt) same_order each_once same_names (λ l n. refl)
      slug start finish run wanted wanted_desired
