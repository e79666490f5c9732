-- ===== src/Updaters/Made.antt =====
-- How the lists of domain/lister/internal/application.go are made from the Services of a Fork.
use kubefork_controller.Base.{
  String, ◌≡◌, refl, sym, ap, ◌∙◌, none, some, List, [], ◌∷◌, map, string_eq, nat_eq,
}
use kubefork_controller.Base.GoMap.{GoMap, lookup, insert, insert_all}
use kubefork_controller.Base.Result.{Result, ok, err, ok-injective}
use kubefork_controller.Base.Result
use kubefork_controller.Api.{ObjectMeta, Fork, Service, VsConfig}
use kubefork_controller.Kube.{
  Kube, Object, service, vs_config, set_meta, meta-set_meta, Unstructured,
}
use kubefork_controller.Refresh.Keyed.{Placing}
use kubefork_controller.Application.{
  App, generate_services, generate_vs_configs, service_identity, vs_config_identity,
  service_objects, vs_config_objects, copied_service, original_service_label,
}
use kubefork_controller.Application.Deployments.{merge_map}
use kubefork_controller.Application.Services.{service_name, build_vs_config}
use kubefork_controller.Application.Services
use kubefork_controller.Application.Builder
use kubefork_controller.Application.Builder.{
  get_fork_header_key, fork_target_services, existing_forked_services, collect_routes,
}
use kubefork_controller.Updaters.Originals.{MadeFor}

-- The Go type of an object.
abbrev pub IsService : Object → Type 0
IsService o = (s : Service) × (o ≡ service s)

abbrev pub IsVsConfig : Object → Type 0
IsVsConfig o = (v : VsConfig) × (o ≡ vs_config v)

pub service_identity-set_meta : Placing service_identity IsService
unfolding service_identity
service_identity-set_meta m o (s, e) same = (
  (record s { metadata = m }, ap (set_meta m) e),
  ap
        (λ (n : ObjectMeta). elim (lookup original_service_label n.labels) [
          | none ↦ ok ""
          | some name ↦ ok name
        ])
        (meta-set_meta m o)
      ∙ ap
          (λ (l : GoMap String String). elim (lookup original_service_label l) [
            | none ↦ ok ""
            | some name ↦ ok name
          ])
          same,
)

pub vs_config_identity-set_meta :
    (to_vs_config : Unstructured → Result VsConfig)
    → Placing (vs_config_identity to_vs_config) IsVsConfig
unfolding vs_config_identity
vs_config_identity-set_meta to_vs_config m o (v, e) same = (
  (record v { metadata = m }, ap (set_meta m) e),
  ap (λ p. vs_config_identity to_vs_config (set_meta m p)) e
      ∙ sym (ap (vs_config_identity to_vs_config) e),
)

pub build-fork :
    {W : Type 0} (kube : Kube W) (fork : Fork)
    (range : (V : Type 0) → GoMap String V → GoMap String V) (w : W) (app : App)
    → Builder.build kube fork range w ≡ ok app
    → app.fork ≡ fork
unfolding Builder.build
build-fork kube fork range w app h =
    let (_, _, h₁) = Result.>>=-eq-ok (get_fork_header_key kube fork w) _ app h in
    let (_, _, h₂) = Result.>>=-eq-ok (fork_target_services kube fork w) _ app h₁ in
    let (_, _, h₃) = Result.>>=-eq-ok (existing_forked_services kube fork w) _ app h₂ in
    let (_, _, h₄) = Result.>>=-eq-ok (collect_routes kube fork _ _ w) _ app h₃ in
    ap (λ (a : App). a.fork) (sym (ok-injective h₄))

identity-copied_service :
    (a : App) (svc : Service)
    → service_identity (service (copied_service a svc)) ≡ ok svc.metadata.name
unfolding service_identity copied_service Services.build_copy merge_map insert_all insert lookup
    string_eq nat_eq
identity-copied_service a svc = refl

service_objects-eq-map :
    (a : App) (svcs : List Service)
    → service_objects a svcs ≡ map (λ svc. service (copied_service a svc)) svcs
unfolding service_objects
service_objects-eq-map a [] = refl
service_objects-eq-map a (svc ∷ svcs) =
    ap (service (copied_service a svc) ∷◌) (service_objects-eq-map a svcs)

pub generate_services-MadeFor :
    (a : App) → MadeFor a.fork (generate_services a) a.services IsService
unfolding generate_services
generate_services-MadeFor a = record {
  item = λ svc. service (copied_service a svc);
  items_eq = service_objects-eq-map a a.services;
  identified = identity-copied_service a;
  named =
      λ svc. unfold copied_service in (unfold Services.build_copy in (unfold service_name in refl));
  typed = λ svc. (copied_service a svc, refl);
}

vs_config_objects-eq-map :
    (to_vs_config : Unstructured → Result VsConfig) (a : App) (svcs : List Service)
    → vs_config_objects to_vs_config a svcs
      ≡ map (λ svc. vs_config (build_vs_config svc a.fork a.fork_header)) svcs
unfolding vs_config_objects
vs_config_objects-eq-map to_vs_config a [] = refl
vs_config_objects-eq-map to_vs_config a (svc ∷ svcs) =
    ap (vs_config (build_vs_config svc a.fork a.fork_header) ∷◌)
      (vs_config_objects-eq-map to_vs_config a svcs)

pub generate_vs_configs-MadeFor :
    (to_vs_config : Unstructured → Result VsConfig) (a : App)
    → MadeFor a.fork (generate_vs_configs to_vs_config a) a.services IsVsConfig
unfolding generate_vs_configs vs_config_identity build_vs_config service_name
generate_vs_configs-MadeFor to_vs_config a = record {
  item = λ svc. vs_config (build_vs_config svc a.fork a.fork_header);
  items_eq = vs_config_objects-eq-map to_vs_config a a.services;
  identified = λ svc. refl;
  named = λ svc. refl;
  typed = λ svc. (build_vs_config svc a.fork a.fork_header, refl);
}
