-- ===== src/Tests/Keeping.antt =====
-- Conversion, controller reference and admission of `Tests.OneKind` keep the identities of Services and
-- of VSConfigs.
use kubefork_controller.Base.{String, subst, ◌≡◌, refl, List, [], ◌∷◌, string_eq, nat_eq}
use kubefork_controller.Base.Result.{Result, ok, ok-injective}
use kubefork_controller.Api.{OwnerReference, TypeMeta}
use kubefork_controller.Kube.{Kube, Object, service, vs_config, meta, object_kind}
use kubefork_controller.Kube
use kubefork_controller.Application.{service_identity, vs_config_identity}
use kubefork_controller.Refresh.Keyed.{Keeping, Placing}
use kubefork_controller.Updaters.Made.{
  IsService, IsVsConfig, service_identity-set_meta, vs_config_identity-set_meta,
}
use kubefork_controller.Tests.Blank.{own_with}
use kubefork_controller.Tests.Samples.{sample_fork}
use kubefork_controller.Tests.OneKind.{one_kind, one_kind_tracks, read_config}

-- A reference to the controller is put beside the labels, which say the identity.
own_with-Placed :
    (identity : Object → Result String) (Typed : Object → Type 0)
    → Placing identity Typed
    → (parent o c : Object) (refs : List OwnerReference) → Typed o
    → own_with parent o refs ≡ ok c
    → Typed c × (identity c ≡ identity o)
own_with-Placed identity Typed placing parent o c [] typed e =
    subst (λ p. Typed p × (identity p ≡ identity o)) (ok-injective e) (placing _ o typed refl)
own_with-Placed identity Typed placing parent o c (_ ∷ _) typed e = cc

converted_kept :
    (identity : Object → Result String) (Typed : Object → Type 0) (o c : Object)
    → Typed o
    → ok o ≡ ok c
    → Typed c × (identity c ≡ identity o)
converted_kept identity Typed o c typed e =
    subst (λ p. Typed p × (identity p ≡ identity o)) (ok-injective e) (typed, refl)

module _ (type : TypeMeta) where
  pub IsService-Keeping :
      Keeping
        (one_kind type)
        (Kube.fork sample_fork)
        service_identity
        (one_kind_tracks type "ns").admit
        IsService
  unfolding one_kind_tracks service_identity
  IsService-Keeping = record {
    converted = λ o seen c t e. converted_kept service_identity IsService o c t e;
    referred = λ o c t e.
        own_with-Placed service_identity IsService service_identity-set_meta (Kube.fork sample_fork)
          o c (meta o).owner_references t e;
    admitted = λ o t. refl;
  }

  pub IsVsConfig-Keeping :
      Keeping
        (one_kind type)
        (Kube.fork sample_fork)
        (vs_config_identity read_config)
        (one_kind_tracks type "ns").admit
        IsVsConfig
  unfolding one_kind_tracks vs_config_identity
  IsVsConfig-Keeping = record {
    converted = λ o seen c t e. converted_kept (vs_config_identity read_config) IsVsConfig o c t e;
    referred = λ o c t e.
        own_with-Placed (vs_config_identity read_config) IsVsConfig
          (vs_config_identity-set_meta read_config) (Kube.fork sample_fork) o c
          (meta o).owner_references t e;
    admitted = λ o (v, e). rw e refl;
  }
