-- ===== src/VirtualServices.antt =====
-- domain/lister/virtualservice.go: the VirtualService of a Service, from the VSConfigs of its
-- namespace.
pub mod Requests
pub mod Forked
pub mod Ordering
use kubefork_controller.Base.{
  String, ◌<◌, Bool, Option, none, some, List, [], ◌∷◌, ◌++◌, string_eq, ◌==◌, ◌||◌, not, ltb,
  length, if◌then◌else◌,
}
use kubefork_controller.Base.Sort.{sort_by}
use kubefork_controller.Base.Result.{Result, ok, err, unsupported_type, ◌>>=◌}
use kubefork_controller.Api.{
  NamespacedName, TypeMeta, VsConfig, Service, VirtualService, VirtualServiceSpec, HttpRoute, exact,
}
use kubefork_controller.Kube.{Kube, Object, virtual_service, unstructured, Unstructured}
use kubefork_controller.Refresh.{ObjectList}
use kubefork_controller.Application.Services.{new_meta}

abbrev pub label_key_for_vs : String
label_key_for_vs = "fork.k8s.wantedly.com/service"

abbrev pub virtual_service_kind : TypeMeta
virtual_service_kind = record {
  kind = "VirtualService";
  api_version = "networking.istio.io/v1beta1";
}

abbrev pub virtual_service_list : TypeMeta
virtual_service_list = record {
  kind = "VirtualServiceList";
  api_version = "networking.istio.io/v1beta1";
}

pub record VsLister : Type 0 where
  pub sorted_configs : List VsConfig
  pub service : Service

-- `sort.Slice` by name.
unfoldable pub sort_configs : List VsConfig → List VsConfig
sort_configs configs = sort_by (λ config. config.metadata.name) configs

module _ {W : Type 0} (kube : Kube W) (service_slug : NamespacedName) where
  -- `Build`
  unfoldable pub build : W → Result VsLister
  build w =
      kube.list_vs_configs (record { namespace = service_slug.namespace; label_selector = [] }) w
      >>= λ configs. kube.get_service service_slug w >>= λ service.
          ok (record { sorted_configs = sort_configs configs; service = service })

-- The route that one VSConfig adds.
abbrev pub config_route : VsConfig → HttpRoute
config_route config = record {
  match_requests =
      record { headers = (config.spec.header_name, exact config.spec.header_value) ∷ [] } ∷ [];
  destinations = config.spec.service ∷ [];
}

abbrev pub default_route : Service → HttpRoute
default_route service = record { match_requests = []; destinations = service.metadata.name ∷ [] }

-- The configurations that the loop of `buildHTTPRoutes` skips.
abbrev pub is_skipped : Service → VsConfig → Bool
is_skipped service config =
    not (config.spec.host == service.metadata.name) || config.spec.header_value == ""

unfoldable pub config_routes : Service → List VsConfig → List HttpRoute → List HttpRoute
config_routes service [] routes = routes
config_routes service (config ∷ configs) routes =
    config_routes service configs
      (if is_skipped service config then routes else routes ++ config_route config ∷ [])

unfoldable pub build_http_routes : VsLister → List HttpRoute
build_http_routes a = config_routes a.service a.sorted_configs [] ++ default_route a.service ∷ []

-- `hosts[len(hosts)-1]`, and `""` where there is no host.
abbrev pub last_host : List String → String
last_host [] = ""
last_host (h ∷ []) = h
last_host (h ∷ i ∷ hs) = last_host (i ∷ hs)

unfoldable pub virtual_service_of : VsLister → VirtualService
virtual_service_of a = record {
  type_meta = virtual_service_kind;
  metadata = record (new_meta a.service.metadata.namespace a.service.metadata.name) {
    labels = (label_key_for_vs, a.service.metadata.name) ∷ [];
  };
  spec = record { hosts = a.service.metadata.name ∷ []; http = build_http_routes a };
}

module _ (to_virtual_service : Unstructured → Result VirtualService) where
  -- `Identity`
  unfoldable pub virtual_service_identity : Object → Result String
  virtual_service_identity (virtual_service vs) = ok (last_host vs.spec.hosts)
  virtual_service_identity (unstructured u) =
      to_virtual_service u >>= λ vs. ok (last_host vs.spec.hosts)
  virtual_service_identity _ = err unsupported_type

  unfoldable pub build_virtual_service : VsLister → ObjectList
  build_virtual_service a = record {
    items =
        if ltb 1 (length (build_http_routes a))
        then virtual_service (virtual_service_of a) ∷ []
        else [];
    group_version_kind = virtual_service_list;
    identity = virtual_service_identity;
  }

  -- `GenerateLists`
  unfoldable pub generate_lists : VsLister → List ObjectList
  generate_lists a = build_virtual_service a ∷ []
