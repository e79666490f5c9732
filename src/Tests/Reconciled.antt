-- ===== src/Tests/Reconciled.antt =====
-- A reconciliation of a living Fork on a cluster that keeps Mappings by their names.
use kubefork_controller.Base.{
  ◌≡◌, refl, sym, ap, ◌∙◌, subst, true, false, Option, none, List, [], ◌∷◌, All, string_eq, nat_eq,
  ◌==◌, String, Bool, if◌then◌else◌, arith,
}
use kubefork_controller.Base.Order.{before}
use kubefork_controller.Base.Sort.{sort_by, insert_by}
use kubefork_controller.Base.Text.{split, take, replace_all}
use kubefork_controller.Base.GoMap.{lookup, append_to, insert, insert_all, values}
use kubefork_controller.Refresh.{
  owned_by_parent, empty_object, refresh, handle_existing, sweep, desired_ids, apply_item, mutate,
  object_name,
}
use kubefork_controller.Refresh.Naming.{create_resource_name, shrink}
use kubefork_controller.Application.{
  generate_deployment_copies, copied_deployment, generate_lists, generate_services,
  generate_vs_configs, service_objects, vs_config_objects, service_identity, vs_config_identity,
  copied_service,
}
use kubefork_controller.Application.Deployments
use kubefork_controller.Application.Deployments.{
  apply_metadata, apply_template, build_deployment_copy_spec, copy_spec, merge_map, routing_labels,
}
use kubefork_controller.Application.Services
use kubefork_controller.Application.Services.{
  get_label_key_for_routing_label, build_vs_config, copy_port, service_name,
}
use kubefork_controller.Slug.{parse_manager}
use kubefork_controller.Application.Builder.{
  get_fork_header_key, fork_target_services, existing_forked_services, collect_routes,
  list_deployments_routable_from_svc, list_routable, add_routes, routable_from, sort_by_name,
  add_inverse, add_inverses, by_name, inverse_from, inverse_map,
}
use kubefork_controller.Application.Builder
use kubefork_controller.Updaters.{update_microservice, update_fork, refresh_lists}
use kubefork_controller.Base.Result.{Result, ok, err, failure}
use kubefork_controller.Base.Exec.{Exec, ◌>>=◌, for_each}
use kubefork_controller.Api.{NamespacedName, TypeMeta}
use kubefork_controller.Kube.{Kube, Object, mapping, unstructured, Unstructured}
use kubefork_controller.Kube.Laws.{Tracks, is_at}
use kubefork_controller.Mappings
use kubefork_controller.Mappings.{
  write_groups, write_upstreams, delete_candidates, erase_name, insert_name,
  group_forks_by_identifier, group_from, mapping_key, delete_mapping, mutate_mapping, blank_mapping,
}
use kubefork_controller.Mappings.Candidates.{Run}
use kubefork_controller.Controllers.{reconcile_fork, reconcile_fork_from, is_expired}
use kubefork_controller.Controllers.Alive.{Updated, reconcile_fork-Updated}
use kubefork_controller.Forks.{is_kind, KindApart}
use kubefork_controller.Forks.Refreshed.{is_kind-set_meta}
use kubefork_controller.Tests.Blank.{named_in}
use kubefork_controller.Tests.Floats.{fractions}
use kubefork_controller.Tests.Samples.{sample_fork, sample_service, sample_deployment, same_order}
use kubefork_controller.Tests.Cluster.{
  World, put, held, put-Put, start, cluster, same_names, each_once,
}

abbrev accept : Result Object → Exec World (Unit {0})
accept (ok o) w = (ok tt, w)
accept (err e) w = (err e, w)

abbrev clear : Object → World → World
clear o w k = if is_at k o then none else w k

abbrev kept_cluster : Kube World
kept_cluster = record cluster {
  get_fork = λ k w. ok sample_fork;
  list_services = λ o w. elim o.label_selector [ [] ↦ ok (sample_service ∷ []) | _ ∷ _ ↦ ok [] ];
  list_deployments = λ o w. ok (sample_deployment ∷ []);
  list_unstructured =
      λ t o w. if t.kind == "MappingList" then err (failure "not served") else ok [];
  delete = λ o w. (ok tt, if is_kind "Mapping" o then clear o w else w);
  create_or_update = λ o f w. if is_kind "Mapping" o then put o (f o) w else accept (f o) w;
}

abbrev mapping_list : TypeMeta
mapping_list = record { kind = "MappingList"; api_version = "" }

nothing_else :
    (us : List Unstructured) (b : Bool)
    → b ≡ false
    → Path (Result (List Unstructured)) (if b then err (failure "not served") else ok []) (ok us)
    → [] ≡ us
nothing_else us b e h = ground arith

accept-keeps : (P : World → Type 0) (r : Result Object) (w : World) → P w → P (accept r w).1
accept-keeps P (ok o) w p = p
accept-keeps P (err e) w p = p

apart :
    (k : NamespacedName) (v : Option Object) → KindApart kept_cluster "Mapping" (λ w. held w k ≡ v)
apart k v = record {
  deleted = λ o other w p. rw other p;
  written = λ o f other w p. rw other (accept-keeps (λ u. held u k ≡ v) (f o) w p);
  listed = λ t options w us other e.
      subst (All (λ u. is_kind "Mapping" (unstructured u) ≡ false)) (nothing_else us _ other e) tt;
  like = λ o other. is_kind-set_meta "Mapping" (named_in "" "") o ∙ other;
}

listed_kind : (◌==◌ {A = String} "MappingList" "MappingList") ≡ true
unfolding string_eq
listed_kind = refl

tracks : Tracks kept_cluster mapping_list "ns" (λ o. is_kind "Mapping" o ≡ true) held
tracks = record {
  admit = λ o. o;
  listed = λ w us e. absurd (ground (arith, listed_kind));
  listed_all = λ w us e. absurd (ground (arith, listed_kind));
  deleted = λ o w w' is h k. sym (ap (λ (r : Result (Unit {0}) × World). r.1 k) (rw is at h));
  written = λ o f w w' is h.
      let (sent, made, after) = put-Put o f (f o) w w' refl (rw is at h) in
      (o, sent, refl, refl, made, after);
}

abbrev alice : NamespacedName
alice = record { namespace = "ns"; name = "alice" }

abbrev manager : NamespacedName
manager = record { namespace = "ns"; name = "manager" }

abbrev finish : World
finish = (reconcile_fork kept_cluster fractions same_order same_names 3 alice start).1

reconciled :
    reconcile_fork kept_cluster fractions same_order same_names 3 alice start ≡ (ok tt, finish)
unfolding reconcile_fork reconcile_fork_from is_expired Mappings.update write_groups write_upstreams
    delete_candidates erase_name insert_name group_forks_by_identifier group_from mapping_key
    delete_mapping mutate_mapping replace_all Builder.build get_fork_header_key parse_manager split
    nat_eq fork_target_services existing_forked_services collect_routes
    list_deployments_routable_from_svc list_routable add_routes routable_from sort_by_name sort_by
    insert_by before lookup string_eq add_inverse add_inverses by_name inverse_from inverse_map
    append_to insert values generate_deployment_copies copied_deployment Deployments.build_copy
    apply_metadata apply_template build_deployment_copy_spec copy_spec merge_map routing_labels
    get_label_key_for_routing_label insert_all update_microservice update_fork refresh_lists refresh
    handle_existing sweep desired_ids apply_item empty_object mutate object_name owned_by_parent
    take create_resource_name shrink for_each ◌>>=◌ generate_lists generate_services
    generate_vs_configs service_objects vs_config_objects service_identity vs_config_identity
    copied_service Services.build_copy build_vs_config copy_port service_name
reconciled = refl

alive : is_expired 3 sample_fork ≡ false
unfolding is_expired
alive = refl

readable : parse_manager sample_fork.spec.manager ≡ ok manager
unfolding parse_manager split nat_eq
readable = refl

typed :
    (namespace name : String) → is_kind "Mapping" (mapping (blank_mapping namespace name)) ≡ true
unfolding string_eq
typed namespace name = refl

reconcile_fork-Updated_example :
    (w₁ : World) × (done : Run kept_cluster same_order same_names manager start w₁) × Updated
      kept_cluster fractions same_order same_names 3 sample_fork alice manager start finish refl
      alive readable reconciled tracks typed each_once
      (λ l n. refl)
      apart
      w₁
      done
reconcile_fork-Updated_example =
    reconcile_fork-Updated kept_cluster fractions same_order same_names 3 sample_fork alice manager
      start finish refl alive readable reconciled tracks typed each_once (λ l n. refl) apart
