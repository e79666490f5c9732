-- ===== src/VirtualServices/Requests.antt =====
-- Where Istio sends a request by the routes of domain/lister/virtualservice.go.
use kubefork_controller.Base.{
  String, ◌≡◌, refl, sym, ap, ◌∙◌, Bool, true, false, ◌&&◌, not, none, some, List, [], ◌∷◌, ◌++◌,
  string_eq, ◌==◌, arith, if◌then◌else◌,
}
use mathlib.Core.List.{append-nil, append_assoc}
use kubefork_controller.Base.GoMap.{GoMap, lookup}
use kubefork_controller.Api.{VsConfig, Service, HttpRoute, HttpMatchRequest, StringMatch, exact}
use kubefork_controller.VirtualServices.{
  VsLister, config_route, config_routes, default_route, is_skipped, build_http_routes,
}

-- What Istio documents of routes: the first one that a request matches is taken. One matches if it
-- has no match request or if one of them holds, with the value that it asks for in each header.
abbrev header_matches : GoMap String String → GoMap String StringMatch → Bool
header_matches request [] = true
header_matches request ((k, exact v) ∷ m) =
    elim (lookup k request) [ none ↦ false | some w ↦ w == v ] && header_matches request m

abbrev any_matches : GoMap String String → List HttpMatchRequest → Bool
any_matches request [] = false
any_matches request (m ∷ ms) =
    if header_matches request m.headers then true else any_matches request ms

abbrev route_matches : GoMap String String → List HttpMatchRequest → Bool
route_matches request [] = true
route_matches request (m ∷ ms) = any_matches request (m ∷ ms)

abbrev pub destinations : GoMap String String → List HttpRoute → List String
destinations request [] = []
destinations request (r ∷ rs) =
    if route_matches request r.match_requests then r.destinations else destinations request rs

-- The header that the configuration asks for is among those of the request.
abbrev pub carries : GoMap String String → VsConfig → Bool
carries request config = elim (lookup config.spec.header_name request) [
  | none ↦ false
  | some v ↦ v == config.spec.header_value
]

-- A configuration for the Service, with a header value that is not empty and which the request carries.
abbrev pub takes : GoMap String String → Service → VsConfig → Bool
takes request service config =
    config.spec.host == service.metadata.name
    && (not (config.spec.header_value == "") && carries request config)

-- The Service of the first such configuration, or the Service itself.
abbrev pub chosen : GoMap String String → Service → List VsConfig → String
chosen request service [] = service.metadata.name
chosen request service (c ∷ cs) =
    if takes request service c then c.spec.service else chosen request service cs

pub config_routes-append :
    (service : Service) (configs : List VsConfig) (routes : List HttpRoute)
    → config_routes service configs routes ≡ routes ++ config_routes service configs []
unfolding config_routes
config_routes-append service [] routes = sym (append-nil routes)
config_routes-append service (c ∷ cs) routes =
    elim (is_skipped service c)
      as (λ skip.
        config_routes service cs (if skip then routes else routes ++ config_route c ∷ [])
        ≡ routes ++ config_routes service cs (if skip then [] else config_route c ∷ [])) [
          | true ↦ config_routes-append service cs routes
          | false ↦
              config_routes-append service cs (routes ++ config_route c ∷ [])
              ∙ append_assoc routes (config_route c ∷ []) (config_routes service cs [])
              ∙ ap (λ rs. routes ++ rs)
                  (sym (config_routes-append service cs (config_route c ∷ [])))
        ]

takes-eq-carries :
    (request : GoMap String String) (service : Service) (c : VsConfig)
    → takes request service c ≡ (not (is_skipped service c) && carries request c)
takes-eq-carries request service c = ground arith

-- The routes before the default one send a request to the first configuration that takes it.
destinations-config_routes :
    (request : GoMap String String) (service : Service) (cs : List VsConfig)
    → destinations request (config_routes service cs [] ++ default_route service ∷ [])
      ≡ chosen request service cs ∷ []
unfolding config_routes
destinations-config_routes request service [] = refl
destinations-config_routes request service (c ∷ cs) =
    rw (takes-eq-carries request service c)
      (elim (is_skipped service c)
        as (λ skip.
          destinations request (
            config_routes service cs (if skip then [] else config_route c ∷ [])
            ++ default_route service ∷ [])
          ≡ (if not skip && carries request c then c.spec.service else chosen request service cs)
            ∷ []) [
              | true ↦ destinations-config_routes request service cs
              | false ↦
                  rw (config_routes-append service cs (config_route c ∷ []))
                    (elim (carries request c)
                      as (λ carried.
                        (if (if carried && true then true else false)
                          then c.spec.service ∷ []
                          else destinations request
                              (config_routes service cs [] ++ default_route service ∷ []))
                        ≡ (if carried then c.spec.service else chosen request service cs) ∷ []) [
                          | true ↦ refl
                          | false ↦ destinations-config_routes request service cs
                        ])
            ])

-- A request to the Service goes to the forked Service of the first configuration in the list of the
-- lister that is for this Service and whose header value is not empty and is the one that the request
-- carries, and to the Service itself if there is none.
pub destinations-build_http_routes :
    (request : GoMap String String) (a : VsLister)
    → destinations request (build_http_routes a) ≡ chosen request a.service a.sorted_configs ∷ []
unfolding build_http_routes
destinations-build_http_routes request a =
    destinations-config_routes request a.service a.sorted_configs
