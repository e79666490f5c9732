-- ===== src/Controllers/Rejection.antt =====
-- What controllers/fork_controller.go does with a Fork whose manager is no namespaced name.
use kubefork_controller.Base.{String, ◌<>◌, ◌≡◌, refl, ap, ◌∙◌, false, List, [], ◌∷◌, ◌⊎◌, inl, inr}
use kubefork_controller.Base.GoMap.{GoMap}
use kubefork_controller.Base.Text.{split, Lacks}
use kubefork_controller.Base.Result.{ok, err, malformed_manager}
use kubefork_controller.Base.Exec.{◌>>=◌}
use kubefork_controller.Api.{NamespacedName, Fork, Time}
use kubefork_controller.Kube.{Kube}
use kubefork_controller.Refresh.Naming.{FloatOps}
use kubefork_controller.Slug.{slug_of_parts, parse_manager, parse_manager_iff}
use kubefork_controller.Controllers.{is_expired, reconcile_fork_from, reconcile_fork}

slug_of_parts-cases :
    (parts : List String)
    → (slug_of_parts parts ≡ err malformed_manager)
      ⊎ ((slug : NamespacedName) × (slug_of_parts parts ≡ ok slug))
slug_of_parts-cases (namespace ∷ name ∷ []) =
    inr (record { namespace = namespace; name = name }, refl)
slug_of_parts-cases _ = inl refl

abbrev IsSlugText : String → NamespacedName → Type 0
IsSlugText manager slug =
    (manager ≡ slug.namespace <> "/" <> slug.name)
    × Lacks b'/' slug.namespace
    × Lacks b'/' slug.name

parse_manager_rejects :
    (manager : String)
    → ((slug : NamespacedName) → ¬ IsSlugText manager slug)
    → parse_manager manager ≡ err malformed_manager
unfolding parse_manager
parse_manager_rejects manager broken = elim (slug_of_parts-cases (split b'/' manager)) [
  | inl rejected ↦ rejected
  | inr (slug, read) ↦ absurd (broken slug ((parse_manager_iff manager slug).0 read))
]

module _ {W : Type 0} (kube : Kube W) (floats : FloatOps)
    (range : (V : Type 0) → GoMap String V → GoMap String V)
    (range_names : List NamespacedName → List NamespacedName) where
  -- If the Fork is there, its deadline has not passed, and its manager is not a namespace and a name
  -- with one slash between them, neither of which holds a slash, then the reconciliation fails, and has
  -- written nothing: no Mapping, DeploymentCopy, Service or VSConfig.
  reconcile_fork-of-malformed :
      (now : Time) (frk : Fork) (slug : NamespacedName) (w : W)
      → ((manager : NamespacedName) → ¬ IsSlugText frk.spec.manager manager)
      → is_expired now frk ≡ false
      → kube.get_fork slug w ≡ ok frk
      → reconcile_fork kube floats range range_names now slug w ≡ (err malformed_manager, w)
  unfolding reconcile_fork reconcile_fork_from ◌>>=◌
  reconcile_fork-of-malformed now frk slug w broken alive found =
      ap (λ r. reconcile_fork_from kube floats range range_names now slug r w) found
      ∙ rw (alive, parse_manager_rejects frk.spec.manager broken) refl
