-- ===== src/Application/Ordering.antt =====
-- The order of the Deployments of an `App`: domain/lister/internal/builder.go.
use kubefork_controller.Base.{String, ◌≡◌, sym, ap, subst, ◌∙◌, List, [], ◌∷◌, string_eq}
use kubefork_controller.Base.GoMap.{GoMap, insert-NodupKeys, NodupKeys}
use kubefork_controller.Base.Sort.{
  Named, Ascending, insert-Named, reordered-Named, sort_by-lookup, sort_by-Ascending, entries,
}
use kubefork_controller.Base.Result
use kubefork_controller.Base.Result.{Result, ok, ok-injective}
use kubefork_controller.Api.{Fork, Service, Deployment}
use kubefork_controller.Kube.{Kube}
use kubefork_controller.Application.{App}
use kubefork_controller.Application.Builder.{
  Routes, add_routes, sort_by_name, list_deployments_routable_from_svc, collect_routes, build,
}
use kubefork_controller.Application.Routes.{IsRange, build-eq-ok, no_routes}

abbrev pub deployment_name : Deployment → String
deployment_name d = d.metadata.name

abbrev SoundSet : GoMap String Deployment → Type 0
SoundSet m = Named deployment_name m × NodupKeys m

add_routes-SoundSet :
    (svc : String) (ds : List Deployment) (r : Routes)
    → SoundSet r.deploy_set
    → SoundSet (add_routes svc ds r).deploy_set
unfolding add_routes
add_routes-SoundSet svc [] r sound = sound
add_routes-SoundSet svc (d ∷ ds) r (named, u) = add_routes-SoundSet svc ds _ (
  insert-Named deployment_name d r.deploy_set named,
  insert-NodupKeys d.metadata.name d r.deploy_set u,
)

same_sorted :
    (range range' : (V : Type 0) → GoMap String V → GoMap String V) (m : GoMap String Deployment)
    → IsRange range
    → IsRange range'
    → SoundSet m
    → sort_by_name (entries (range Deployment m)) ≡ sort_by_name (entries (range' Deployment m))
unfolding sort_by_name
same_sorted range range' m loop loop' (named, u) =
    let u₁ = loop.once Deployment m u in
    let u₂ = loop'.once Deployment m u in
    let same₁ = λ (k : String). loop.each Deployment m k u in
    let same₂ = λ (k : String). loop'.each Deployment m k u in
    sort_by-lookup deployment_name (range Deployment m) (range' Deployment m)
      (reordered-Named deployment_name m _ named u₁ same₁)
      (reordered-Named deployment_name m _ named u₂ same₂) u₁ u₂ (λ k. same₁ k ∙ sym (same₂ k))

sort_by_name-Ascending : (ds : List Deployment) → Ascending deployment_name (sort_by_name ds)
unfolding sort_by_name
sort_by_name-Ascending ds = sort_by-Ascending deployment_name ds

module _ {W : Type 0} (kube : Kube W) (fork : Fork) (w : W) where
  collect_routes-SoundSet :
      (svcs : List Service) (r r' : Routes)
      → SoundSet r.deploy_set
      → collect_routes kube fork svcs r w ≡ ok r'
      → SoundSet r'.deploy_set
  unfolding collect_routes
  collect_routes-SoundSet [] r r' sound h =
      subst (λ (s : Routes). SoundSet s.deploy_set) (ok-injective h) sound
  collect_routes-SoundSet (svc ∷ svcs) r r' sound h =
      let (ds, _, rest) =
        Result.>>=-eq-ok (list_deployments_routable_from_svc kube fork svc w) _ r' h in
      collect_routes-SoundSet svcs (add_routes svc.metadata.name ds r) r'
        (add_routes-SoundSet svc.metadata.name ds r sound) rest

  -- If `Build` succeeds with each of two orders in which Go may meet the entries of a map, each entry
  -- once, then both runs find the same Deployments, in the same order, which is that of their names.
  pub build-deployments :
      (range range' : (V : Type 0) → GoMap String V → GoMap String V) (app app' : App)
      → IsRange range
      → IsRange range'
      → build kube fork range w ≡ ok app
      → build kube fork range' w ≡ ok app'
      → (app.deployments ≡ app'.deployments) × Ascending deployment_name app.deployments
  build-deployments range range' app app' loop loop' h h' =
      let (listed, (r, collected, _, made)) = build-eq-ok kube fork w range app h in
      let (listed', (r', collected', _, made')) = build-eq-ok kube fork w range' app' h' in
      let served = ok-injective (sym listed' ∙ listed) in
      let same = ok-injective (
        sym collected
        ∙ subst (λ l. collect_routes kube fork l (no_routes kube fork w) w ≡ ok r') served
            collected') in
      (
        sym made
            ∙ same_sorted range range' r.deploy_set loop loop'
                (collect_routes-SoundSet app.services _ r (tt, tt) collected)
            ∙ ap (λ (s : Routes). sort_by_name (entries (range' Deployment s.deploy_set))) same
            ∙ made',
        subst (Ascending deployment_name) made (sort_by_name-Ascending _),
      )
