-- ===== src/VirtualServices/Forked.antt =====
-- The VSConfigs of domain/lister/internal/service.go, as domain/lister/virtualservice.go reads them.
use kubefork_controller.Base.{
  String, ◌≡◌, refl, ap, ◌∙◌, false, List, [], ◌∷◌, map, string_eq, ◌==◌, if◌then◌else◌, arith,
}
use kubefork_controller.Base.GoMap.{lookup-cons}
use kubefork_controller.Api.{Fork, Service}
use kubefork_controller.Application.Services.{service_name, build_vs_config}
use kubefork_controller.VirtualServices.{VsLister, build_http_routes}
use kubefork_controller.VirtualServices.Requests.{
  destinations, chosen, takes, destinations-build_http_routes,
}

-- The copy of the Service for the first Fork with the identifier, or the Service itself.
abbrev pub forked_service : String → Service → List Fork → String
forked_service id svc [] = svc.metadata.name
forked_service id svc (f ∷ fs) =
    if f.spec.identifier == id then service_name svc f else forked_service id svc fs

module _ (header id : String) (svc : Service) (named : (id == "") ≡ false) where
  takes-build_vs_config :
      (f : Fork)
      → takes ((header, id) ∷ []) svc (build_vs_config svc f header) ≡ (f.spec.identifier == id)
  unfolding build_vs_config
  takes-build_vs_config f = ground (arith, lookup-cons header header id [])

  chosen-build_vs_config :
      (fs : List Fork)
      → chosen ((header, id) ∷ []) svc (map (λ f. build_vs_config svc f header) fs)
        ≡ forked_service id svc fs
  unfolding build_vs_config
  chosen-build_vs_config [] = refl
  chosen-build_vs_config (f ∷ fs) =
      ground (arith, takes-build_vs_config f, chosen-build_vs_config fs)

  -- If the VSConfigs of the namespace are those that the Forks `fs` make for the Service under one
  -- header, in the order of their names, then a request that carries that header with a value that is not
  -- empty goes to the copy of the Service that the first Fork of that identifier makes, and to the
  -- Service itself if no Fork has it.
  pub destinations-of-forks :
      (a : VsLister) (fs : List Fork)
      → a.service ≡ svc
      → a.sorted_configs ≡ map (λ f. build_vs_config svc f header) fs
      → destinations ((header, id) ∷ []) (build_http_routes a) ≡ forked_service id svc fs ∷ []
  destinations-of-forks a fs same_service same_configs =
      destinations-build_http_routes ((header, id) ∷ []) a
      ∙ (λ i. chosen ((header, id) ∷ []) (same_service i) (same_configs i) ∷ [])
      ∙ ap (λ s. s ∷ []) (chosen-build_vs_config fs)
