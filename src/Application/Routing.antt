-- ===== src/Application/Routing.antt =====
-- The copy of a Service selects the pods of the copy of a Deployment: labels that
-- domain/lister/internal/deployment.go sets against the selector of service.go.
use Prim.Native.String.{slice, len}
use text.Mathlib.TextPositions.{slice-append_left}
use text.Mathlib.TextEquality.{eq_iff}
use kubefork_controller.Base.{
  ◌<>◌, ◌≢◌, String, ◌≡◌, refl, sym, ap, ◌∙◌, true, false, Option, none, some, List, [], ◌∷◌, All,
  any, contains, string_eq, ◌==◌, if◌then◌else◌, arith,
}
use kubefork_controller.Base.GoMap.{
  GoMap, lookup, insert, or_else, NodupKeys, lookup-nil, lookup-cons, lookup-insert,
  insert-NodupKeys, insert_all, lookup-insert_all,
}
use kubefork_controller.Base.Result.{ok, ok-injective}
use kubefork_controller.Api.{
  ObjectMeta, Container, Fork, ForkDeployment, PodTemplateSpec, Deployment, DeploymentCopySpec,
  Service,
}
use kubefork_controller.Application.Services.{
  fork_identifer_label_key, routing_label_key_prefix, get_label_key_for_routing_label, build_copy,
}
use kubefork_controller.Application.Deployments.{
  merge_map, routing_labels, apply_metadata, apply_template, copy_spec, build_deployment_copy_spec,
}

pub lookup-routing_labels :
    (k : String) (labels : GoMap String String) (names : List String)
    → lookup k (routing_labels labels names) ≡ (
        if any (λ s. k == get_label_key_for_routing_label s) names
        then some "true"
        else lookup k labels)
unfolding routing_labels
lookup-routing_labels k labels [] = refl
lookup-routing_labels k labels (s ∷ names) = ground (
  arith,
  lookup-routing_labels k (insert (get_label_key_for_routing_label s) "true" labels) names,
  lookup-insert k (get_label_key_for_routing_label s) "true" labels,
)

routing_labels-NodupKeys :
    (labels : GoMap String String) (names : List String)
    → NodupKeys labels
    → NodupKeys (routing_labels labels names)
unfolding routing_labels
routing_labels-NodupKeys labels [] u = u
routing_labels-NodupKeys labels (s ∷ names) u =
    routing_labels-NodupKeys (insert (get_label_key_for_routing_label s) "true" labels) names
      (insert-NodupKeys (get_label_key_for_routing_label s) "true" labels u)

-- `mergeMap` of two maps: the second one wins.
lookup-merge_map :
    (k : String) (m n : GoMap String String)
    → NodupKeys m
    → NodupKeys n
    → lookup k (merge_map (m ∷ n ∷ [])) ≡ or_else (lookup k n) (lookup k m)
unfolding merge_map
lookup-merge_map k m n u v =
    lookup-insert_all k (insert_all [] m) n v
    ∙ ap (or_else (lookup k n))
        (lookup-insert_all k [] m u ∙ ground (arith, lookup-nil {V = String} k))

-- The key of a routing label is not that of the identifier.
routing_key_differs : (s : String) → fork_identifer_label_key ≢ get_label_key_for_routing_label s
unfolding get_label_key_for_routing_label
routing_key_differs s e =
    let cut : String → String = λ t. slice t 0 (len routing_label_key_prefix) in
    let same = ap cut e ∙ slice-append_left routing_label_key_prefix ("-" <> s) in
    absurd (cc ((eq_iff fork_identifer_label_key routing_label_key_prefix).1 same))

module _ (fork : Fork) where
  abbrev identifier_label : GoMap String String
  identifier_label = (fork_identifer_label_key, fork.spec.identifier) ∷ []

  -- The labels of a copy before the template.
  abbrev base_labels : List String → GoMap String String
  base_labels = routing_labels identifier_label

  base_labels-NodupKeys : (names : List String) → NodupKeys (base_labels names)
  base_labels-NodupKeys names =
      routing_labels-NodupKeys identifier_label names (lookup-nil fork_identifer_label_key, tt)

  any_key :
      (k : String) (names : List String)
      → ((s : String) → k ≢ get_label_key_for_routing_label s)
      → any (λ s. k == get_label_key_for_routing_label s) names ≡ false
  any_key k [] differs = refl
  any_key k (s ∷ names) differs = ground (arith, differs s, any_key k names differs)

  any_name :
      (svc : String) (names : List String)
      → contains names svc ≡ true
      → any (λ s. get_label_key_for_routing_label svc == get_label_key_for_routing_label s) names
        ≡ true
  any_name svc [] h = cc
  any_name svc (s ∷ names) h =
      ground (arith, any_name svc names, λ (e : svc ≡ s). ap get_label_key_for_routing_label e)

  base_labels-identifier :
      (names : List String)
      → lookup fork_identifer_label_key (base_labels names) ≡ some fork.spec.identifier
  base_labels-identifier names = ground (
    arith,
    lookup-routing_labels fork_identifer_label_key identifier_label names,
    any_key fork_identifer_label_key names routing_key_differs,
    lookup-cons fork_identifer_label_key fork_identifer_label_key fork.spec.identifier [],
  )

  base_labels-routing :
      (svc : String) (names : List String)
      → contains names svc ≡ true
      → lookup (get_label_key_for_routing_label svc) (base_labels names) ≡ some "true"
  base_labels-routing svc names h = ground (
    arith,
    lookup-routing_labels (get_label_key_for_routing_label svc) identifier_label names,
    any_name svc names h,
  )

abbrev metadata_labels : Option ObjectMeta → GoMap String String
metadata_labels none = []
metadata_labels (some m) = m.labels

abbrev spec_labels : Option PodTemplateSpec → GoMap String String
spec_labels none = []
spec_labels (some tmpl) = metadata_labels tmpl.metadata

-- The labels of the template of a fork, which a copy takes over its others.
abbrev pub template_labels : Option ForkDeployment → GoMap String String
template_labels none = []
template_labels (some deployments) = spec_labels deployments.template

lookup-apply_metadata :
    (k : String) (spec made : DeploymentCopySpec) (containers : List Container)
    (m : Option ObjectMeta)
    → NodupKeys spec.custom_labels
    → NodupKeys (metadata_labels m)
    → apply_metadata spec containers m ≡ ok made
    → lookup k made.custom_labels
      ≡ or_else (lookup k (metadata_labels m)) (lookup k spec.custom_labels)
unfolding apply_metadata
lookup-apply_metadata k spec made containers none u v h = cc
lookup-apply_metadata k spec made containers (some m) u v h =
    ap (λ (s : DeploymentCopySpec). lookup k s.custom_labels) (sym (ok-injective h))
    ∙ lookup-merge_map k spec.custom_labels m.labels u v

lookup-apply_template :
    (k : String) (spec made : DeploymentCopySpec) (tmpl : Option PodTemplateSpec)
    → NodupKeys spec.custom_labels
    → NodupKeys (spec_labels tmpl)
    → apply_template spec tmpl ≡ ok made
    → lookup k made.custom_labels
      ≡ or_else (lookup k (spec_labels tmpl)) (lookup k spec.custom_labels)
unfolding apply_template
lookup-apply_template k spec made none u v h =
    ap (λ (s : DeploymentCopySpec). lookup k s.custom_labels) (sym (ok-injective h))
    ∙ ground (arith, lookup-nil {V = String} k)
lookup-apply_template k spec made (some tmpl) u v h =
    lookup-apply_metadata k spec made tmpl.spec.containers tmpl.metadata u v h

lookup-copy_spec :
    (k : String) (d : Deployment) (fork : Fork) (names : List String) (o : Option ForkDeployment)
    (made : DeploymentCopySpec)
    → NodupKeys (template_labels o)
    → copy_spec d fork names o ≡ ok made
    → lookup k made.custom_labels
      ≡ or_else (lookup k (template_labels o)) (lookup k (base_labels fork names))
unfolding copy_spec
lookup-copy_spec k d fork names none made v h = cc
lookup-copy_spec k d fork names (some deployments) made v h =
    lookup-apply_template k _ made deployments.template (base_labels-NodupKeys fork names) v h

-- If the specification of a Deployment's copy is built, the Service is among those that are listed for
-- the Deployment, and the labels of the fork's template have no key twice and none of the keys of the
-- selector, then the custom labels of the copy have each entry of the selector of the Service's copy.
pub copy_selected :
    (d : Deployment) (svc : Service) (fork : Fork) (names : List String)
    (existing : GoMap String Service) (spec : DeploymentCopySpec)
    → build_deployment_copy_spec d fork names ≡ ok spec
    → contains names svc.metadata.name ≡ true
    → NodupKeys (template_labels fork.spec.deployments)
    → All
        (λ e. lookup e.0 (template_labels fork.spec.deployments) ≡ none)
        (build_copy svc fork existing).spec.selector
    → All
        (λ e. lookup e.0 spec.custom_labels ≡ some e.1)
        (build_copy svc fork existing).spec.selector
unfolding build_deployment_copy_spec build_copy
copy_selected d svc fork names existing spec made routed unique (free_key, (free_id, _)) =
    let key = get_label_key_for_routing_label svc.metadata.name in
    (
      lookup-copy_spec key d fork names fork.spec.deployments spec unique made
          ∙ ap (λ o. or_else o (lookup key (base_labels fork names))) free_key
          ∙ base_labels-routing fork svc.metadata.name names routed,
      (
        lookup-copy_spec fork_identifer_label_key d fork names fork.spec.deployments spec unique
              made
            ∙ ap (λ o. or_else o (lookup fork_identifer_label_key (base_labels fork names))) free_id
            ∙ base_labels-identifier fork names,
        tt,
      ),
    )
