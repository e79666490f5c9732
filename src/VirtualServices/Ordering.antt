-- ===== src/VirtualServices/Ordering.antt =====
-- The order in which the cluster lists the VSConfigs: domain/lister/virtualservice.go.
use kubefork_controller.Base.{String, ◌≡◌, refl, sym, ap, ◌∙◌, List, [], ◌∷◌, string_eq}
use kubefork_controller.Base.GoMap.{GoMap, lookup, NodupKeys}
use kubefork_controller.Base.Sort.{Named, sort_by-lookup, entries}
use kubefork_controller.Base.Result.{ok}
use kubefork_controller.Api.{NamespacedName, VsConfig}
use kubefork_controller.Kube.{Kube}
use kubefork_controller.VirtualServices.{sort_configs, build}

abbrev pub config_name : VsConfig → String
config_name config = config.metadata.name

-- The VSConfigs by their names.
abbrev pub by_config_name : List VsConfig → GoMap String VsConfig
by_config_name [] = []
by_config_name (c ∷ cs) = (config_name c, c) ∷ by_config_name cs

by_config_name-Named : (cs : List VsConfig) → Named config_name (by_config_name cs)
by_config_name-Named [] = tt
by_config_name-Named (c ∷ cs) = (refl, by_config_name-Named cs)

entries-by_config_name : (cs : List VsConfig) → entries (by_config_name cs) ≡ cs
entries-by_config_name [] = refl
entries-by_config_name (c ∷ cs) = ap (c ∷◌) (entries-by_config_name cs)

same_configs :
    (cs cs' : List VsConfig)
    → NodupKeys (by_config_name cs)
    → NodupKeys (by_config_name cs')
    → ((n : String) → lookup n (by_config_name cs) ≡ lookup n (by_config_name cs'))
    → sort_configs cs ≡ sort_configs cs'
unfolding sort_configs
same_configs cs cs' u u' same =
    ap sort_configs (sym (entries-by_config_name cs))
    ∙ sort_by-lookup config_name (by_config_name cs) (by_config_name cs') (by_config_name-Named cs)
        (by_config_name-Named cs') u u' same
    ∙ ap sort_configs (entries-by_config_name cs')

module _ {W : Type 0} (kube : Kube W) (service_slug : NamespacedName) where
  -- If two worlds hold the same Service, and list the same VSConfigs of its namespace, each name once
  -- but in whatever order, then `Build` makes the same lister of both.
  pub build-listed :
      (w w' : W) (cs cs' : List VsConfig)
      → kube.get_service service_slug w ≡ kube.get_service service_slug w'
      → kube.list_vs_configs (record { namespace = service_slug.namespace; label_selector = [] }) w
        ≡ ok cs
      → kube.list_vs_configs (record { namespace = service_slug.namespace; label_selector = [] }) w'
        ≡ ok cs'
      → NodupKeys (by_config_name cs)
      → NodupKeys (by_config_name cs')
      → ((n : String) → lookup n (by_config_name cs) ≡ lookup n (by_config_name cs'))
      → build kube service_slug w ≡ build kube service_slug w'
  unfolding build
  build-listed w w' cs cs' served listed listed' u u' same =
      rw (listed, listed', served, same_configs cs cs' u u' same) refl
