-- ===== src/Application/Routes.antt =====
-- Which Services route to which Deployments: the maps of domain/lister/internal/builder.go.
use kubefork_controller.Base.{
  String, ◌≡◌, sym, ap, subst, ◌∙◌, Bool, false, ◌&&◌, ◌||◌, none, List, [], ◌∷◌, any, contains,
  contains-append, string_eq, ◌==◌, if◌then◌else◌, arith, Option-cases, inl, inr,
}
use kubefork_controller.Base.GoMap.{
  GoMap, lookup, insert, values, append_to, values-append_to, append_to-NodupKeys, NodupKeys,
  lookup-cons, lookup-nil,
}
use kubefork_controller.Base.Result
use kubefork_controller.Base.Result.{Result, ok, err, ok-injective}
use kubefork_controller.Api.{Fork, Service, Deployment}
use kubefork_controller.Kube.{Kube}
use kubefork_controller.Application.{App}
use kubefork_controller.Application.Builder.{
  add_inverse, add_inverses, inverse_from, inverse_map, Routes, add_routes,
  list_deployments_routable_from_svc, collect_routes, build, get_fork_header_key,
  fork_target_services, existing_forked_services, sort_by_name,
}
use kubefork_controller.Base.Sort.{entries}

add_inverse-eq-append_to :
    (old_key new_key : String) (out : GoMap String (List String))
    → add_inverse old_key new_key out ≡ append_to new_key old_key out
unfolding add_inverse append_to values
add_inverse-eq-append_to old_key new_key out = elim (Option-cases (lookup new_key out)) [
  | inl missing ↦ ground arith
  | inr (current, there) ↦ ground arith
]

values-add_inverses :
    (x y a : String) (items : List String) (out : GoMap String (List String))
    → contains (values y (add_inverses x items out)) a
      ≡ (contains (values y out) a || (a == x && contains items y))
unfolding add_inverses
values-add_inverses x y a [] out = ground arith
values-add_inverses x y a (z ∷ items) out =
    values-add_inverses x y a items (add_inverse x z out)
    ∙ rw (add_inverse-eq-append_to x z out)
        (ground (arith, values-append_to y z x out, contains-append (values y out) (x ∷ []) a))

values-cons :
    (x k : String) (items : List String) (m : GoMap String (List String))
    → values x ((k, items) ∷ m) ≡ (if x == k then items else values x m)
unfolding values
values-cons x k items m = ground (arith, lookup-cons x k items m)

values-missing : (x : String) (m : GoMap String (List String)) → lookup x m ≡ none → values x m ≡ []
unfolding values
values-missing x m h = ground arith

contains-inverse_from :
    (x y : String) (m out : GoMap String (List String))
    → NodupKeys m
    → contains (values y (inverse_from m out)) x
      ≡ (contains (values y out) x || contains (values x m) y)
unfolding inverse_from
contains-inverse_from x y [] out _ = ground (arith, values-missing x [] (lookup-nil x))
contains-inverse_from x y ((k, items) ∷ m) out (fresh, u) =
    contains-inverse_from x y m (add_inverses k items out) u
    ∙ ground (
      arith,
      values-add_inverses k y x items out,
      values-cons x k items m,
      values-missing k m fresh,
      λ (e : x ≡ k). ap (λ j. values j m) e,
    )

-- For a map without a repeated key, `inverseMap` turns the relation round: `x` is listed under `y`
-- exactly when `y` was listed under `x`.
contains-inverse_map :
    (x y : String) (m : GoMap String (List String))
    → NodupKeys m
    → contains (values y (inverse_map m)) x ≡ contains (values x m) y
unfolding inverse_map
contains-inverse_map x y m u =
    contains-inverse_from x y m [] u ∙ ground (arith, values-missing y [] (lookup-nil y))

abbrev pub names_of : List Deployment → List String
names_of [] = []
names_of (d ∷ ds) = d.metadata.name ∷ names_of ds

abbrev pub NodupRoutes : Routes → Type 0
NodupRoutes r = NodupKeys r.service_name_to_deploy_name

values-add_routes :
    (svc x n : String) (ds : List Deployment) (r : Routes)
    → contains (values x (add_routes svc ds r).service_name_to_deploy_name) n ≡ (
        contains (values x r.service_name_to_deploy_name) n
        || (x == svc && contains (names_of ds) n))
unfolding add_routes
values-add_routes svc x n [] r = ground arith
values-add_routes svc x n (d ∷ ds) r =
    let m = r.service_name_to_deploy_name in
    values-add_routes svc x n ds (record {
      service_name_to_deploy_name = append_to svc d.metadata.name m;
      deploy_set = insert d.metadata.name d r.deploy_set;
    })
    ∙ ground (
      arith,
      values-append_to x svc d.metadata.name m,
      contains-append (values x m) (d.metadata.name ∷ []) n,
    )

add_routes-NodupRoutes :
    (svc : String) (ds : List Deployment) (r : Routes)
    → NodupRoutes r
    → NodupRoutes (add_routes svc ds r)
unfolding add_routes
add_routes-NodupRoutes svc [] r u = u
add_routes-NodupRoutes svc (d ∷ ds) r u =
    add_routes-NodupRoutes svc ds _
      (append_to-NodupKeys svc d.metadata.name r.service_name_to_deploy_name u)

abbrev lists : Result (List Deployment) → String → Bool
lists (ok ds) n = contains (names_of ds) n
lists (err e) n = false

-- A `range` loop meets each entry of a map once.
pub record IsRange (range : (V : Type 0) → GoMap String V → GoMap String V) : Type 1 where
  pub each :
      (V : Type 0) (m : GoMap String V) (k : String)
      → NodupKeys m
      → lookup k (range V m) ≡ lookup k m
  pub once : (V : Type 0) (m : GoMap String V) → NodupKeys m → NodupKeys (range V m)

values_of_lookup :
    (k : String) (m n : GoMap String (List String))
    → lookup k m ≡ lookup k n
    → values k m ≡ values k n
unfolding values
values_of_lookup k m n e = ground arith

module _ {W : Type 0} (kube : Kube W) (fork : Fork) (w : W) where
  -- A Deployment of the name is selected by the fork, and routable from the Service.
  abbrev pub routes_to : Service → String → Bool
  routes_to svc n = lists (list_deployments_routable_from_svc kube fork svc w) n

  values-collect_routes :
      (svcs : List Service) (r r' : Routes) (x n : String)
      → NodupRoutes r
      → collect_routes kube fork svcs r w ≡ ok r'
      → NodupRoutes r'
        × (contains (values x r'.service_name_to_deploy_name) n ≡ (
            contains (values x r.service_name_to_deploy_name) n
            || any (λ svc. x == svc.metadata.name && routes_to svc n) svcs))
  unfolding collect_routes
  values-collect_routes [] r r' x n u h =
      let e = ok-injective h in
      (
        subst NodupRoutes e u,
        ap (λ (s : Routes). contains (values x s.service_name_to_deploy_name) n) (sym e)
            ∙ ground arith,
      )
  values-collect_routes (svc ∷ svcs) r r' x n u h =
      let (ds, listed, rest) =
        Result.>>=-eq-ok (list_deployments_routable_from_svc kube fork svc w) _ r' h in
      let (v, ih) =
        values-collect_routes svcs (add_routes svc.metadata.name ds r) r' x n
          (add_routes-NodupRoutes svc.metadata.name ds r u) rest in
      (
        v,
        ih
            ∙ ground
                (arith, values-add_routes svc.metadata.name x n ds r, ap (λ l. lists l n) listed),
      )

  abbrev pub no_routes : Routes
  no_routes = record { service_name_to_deploy_name = []; deploy_set = [] }

  pub build-eq-ok :
      (range : (V : Type 0) → GoMap String V → GoMap String V) (app : App)
      → build kube fork range w ≡ ok app
      → (fork_target_services kube fork w ≡ ok app.services)
        × ((r : Routes) × (collect_routes kube fork app.services no_routes w ≡ ok r)
            × (inverse_map (range (List String) r.service_name_to_deploy_name)
                ≡ app.deploy_name_to_service_names)
            × (sort_by_name (entries (range Deployment r.deploy_set)) ≡ app.deployments))
  unfolding build
  build-eq-ok range app h =
      let (header, _, h₁) = Result.>>=-eq-ok (get_fork_header_key kube fork w) _ app h in
      let (services, listed, h₂) = Result.>>=-eq-ok (fork_target_services kube fork w) _ app h₁ in
      let (existing, _, h₃) = Result.>>=-eq-ok (existing_forked_services kube fork w) _ app h₂ in
      let (r, collected, h₄) =
        Result.>>=-eq-ok (collect_routes kube fork services no_routes w) _ app h₃ in
      let e = ok-injective h₄ in
      let served = ap (λ (a : App). a.services) e in
      (
        listed ∙ ap ok served,
        (
          r,
          subst (λ l. collect_routes kube fork l no_routes w ≡ ok r) served collected,
          ap (λ (a : App). a.deploy_name_to_service_names) e,
          ap (λ (a : App). a.deployments) e,
        ),
      )

  -- If `Build` succeeds, and a loop over a map meets each entry once, in whatever order, then a name is
  -- listed for a Deployment exactly when it is that of one of the fork's Services which routes to a
  -- Deployment of that name that the fork selects.
  pub build-routes :
      (range : (V : Type 0) → GoMap String V → GoMap String V) (app : App) (x n : String)
      → IsRange range
      → build kube fork range w ≡ ok app
      → contains (values n app.deploy_name_to_service_names) x
        ≡ any (λ svc. x == svc.metadata.name && routes_to svc n) app.services
  build-routes range app x n loop h =
      let (_, (r, collected, made, _)) = build-eq-ok range app h in
      let m = r.service_name_to_deploy_name in
      let (u, routed) = values-collect_routes app.services no_routes r x n tt collected in
      ap (λ i. contains (values n i) x) (sym made)
      ∙ contains-inverse_map x n (range (List String) m) (loop.once (List String) m u)
      ∙ ap (λ l. contains l n) (values_of_lookup x _ m (loop.each (List String) m x u))
      ∙ routed
      ∙ ground (arith, values-missing x [] (lookup-nil x))
