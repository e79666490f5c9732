-- ===== src/Updaters/Copied.antt =====
-- The DeploymentCopies of a Fork after `microserviceUpdater.Update` of domain/updater/microservice.go.
use Prim.Native.String.{count}
use kubefork_controller.Base.{
  String, ◌<>◌, ◌≡◌, ◌≢◌, refl, sym, ap, subst, ◌∙◌, ◌≤◌, ◌↔◌, true, Option, some, List, [], ◌∷◌,
  All, contains, string_eq,
}
use kubefork_controller.Base.GoMap.{GoMap}
use kubefork_controller.Base.Result.{Result, ok, map_ok, ok-injective}
use kubefork_controller.Base.Result
use kubefork_controller.Base.Exec
use kubefork_controller.Base.Exec.{
  Exec, lift, read, for_each, >>=-eq-ok, lift->>=-eq-ok, read->>=-eq-ok, for_each-cons,
}
use kubefork_controller.Api.{NamespacedName, Fork, Deployment, DeploymentCopy}
use kubefork_controller.Kube.{Kube, Object, deployment_copy, meta}
use kubefork_controller.Kube
use kubefork_controller.Kube.Laws.{Tracks}
use kubefork_controller.Refresh.{ObjectList, refresh, empty_object, owned_by_parent}
use kubefork_controller.Refresh.Naming.{FloatOps}
use kubefork_controller.Refresh.Owned.{Distinct, Owning}
use kubefork_controller.Refresh.ByName.{name_identity, names, IsWritable, refresh-Owns-names}
use kubefork_controller.Application
use kubefork_controller.Application.{
  App, copied_deployment, generate_deployment_copies, generate_services, generate_vs_configs,
  deployment_copy_list,
}
use kubefork_controller.Application.Deployments
use kubefork_controller.Application.Builder
use kubefork_controller.Updaters.{update_microservice, update_fork, refresh_lists}
use kubefork_controller.Updaters.Among.{refreshed_apart}
use kubefork_controller.Forks.{KindApart}
use kubefork_controller.Forks.Updated.{generate_services-ListApart, generate_vs_configs-ListApart}

-- The names of the copies that a Fork should have.
abbrev pub copy_names : App → List Deployment → List String
copy_names a [] = []
copy_names a (d ∷ ds) = (d.metadata.name <> "-" <> a.fork.metadata.name) ∷ copy_names a ds

pub copied_names :
    (a : App) (ds : List Deployment) (copies : List Object)
    → map_ok (copied_deployment a) ds ≡ ok copies
    → names copies ≡ copy_names a ds
unfolding copied_deployment Deployments.build_copy
copied_names a [] copies h = ap names (sym (ok-injective h))
copied_names a (d ∷ ds) copies h =
    let (o, copied, h₁) = Result.>>=-eq-ok (copied_deployment a d) _ copies h in
    let (copy, built, made) = Result.>>=-eq-ok (Deployments.build_copy d a.fork _) _ o copied in
    let (spec, _, whole) =
      Result.>>=-eq-ok (Deployments.build_deployment_copy_spec d a.fork _) _ copy built in
    let (os, rest, h₂) = Result.>>=-eq-ok (map_ok (copied_deployment a) ds) _ copies h₁ in
    ap names (sym (ok-injective h₂))
    ∙ ap (λ n. n ∷ names os)
        (ap (λ p. (meta p).name) (sym (ok-injective made))
          ∙ ap (λ (c : DeploymentCopy). c.metadata.name) (sym (ok-injective whole)))
    ∙ ap ((d.metadata.name <> "-" <> a.fork.metadata.name) ∷◌) (copied_names a ds os rest)

pub copied_typed :
    (a : App) (ds : List Deployment) (copies : List Object) (P : Object → Type 0)
    → ((c : DeploymentCopy) → P (deployment_copy c))
    → map_ok (copied_deployment a) ds ≡ ok copies
    → All P copies
unfolding copied_deployment
copied_typed a [] copies P typed h = subst (All P) (ok-injective h) tt
copied_typed a (d ∷ ds) copies P typed h =
    let (o, copied, h₁) = Result.>>=-eq-ok (copied_deployment a d) _ copies h in
    let (copy, _, made) = Result.>>=-eq-ok (Deployments.build_copy d a.fork _) _ o copied in
    let (os, rest, h₂) = Result.>>=-eq-ok (map_ok (copied_deployment a) ds) _ copies h₁ in
    subst (All P) (ok-injective h₂)
      (subst P (ok-injective made) (typed copy), copied_typed a ds os P typed rest)

-- A name that Kubernetes accepts and `Refresh` does not shorten.
abbrev pub IsShort : String → Type 0
IsShort n = (n ≢ "") × (count n ≤ 63)

pub IsShort-IsWritable : (os : List Object) → All IsShort (names os) → All IsWritable os
IsShort-IsWritable [] h = tt
IsShort-IsWritable (o ∷ os) (p, h) = (p, IsShort-IsWritable os h)

-- The Fork owns a DeploymentCopy of the name in its namespace.
abbrev pub OwnsCopy :
    {W : Type 0} → (W → NamespacedName → Option Object) → Fork → W → String → Type 0
OwnsCopy stored fork w name =
    (key : String) × (o : Object) × (stored w
        (record { namespace = fork.metadata.namespace; name = key })
      ≡ some o)
    × (owned_by_parent o (Kube.fork fork) ≡ true)
    × (name_identity o ≡ ok name)

module _ {W : Type 0} (kube : Kube W) (floats : FloatOps) (fork : Fork) (app : App)
    {Is : Object → Type 0} {stored : W → NamespacedName → Option Object}
    (tracks : Tracks kube deployment_copy_list fork.metadata.namespace Is stored)
    (apart : (k : NamespacedName) (v : Option Object)
      → KindApart kube "DeploymentCopy" (λ w. stored w k ≡ v)) where
  moved :
      (w w' : W) (name : String)
      → ((k : NamespacedName) → stored w' k ≡ stored w k)
      → OwnsCopy stored fork w name ↔ OwnsCopy stored fork w' name
  moved w w' name same = (
    λ (key, o, held, owned, named). (key, o, same _ ∙ held, owned, named),
    λ (key, o, held, owned, named). (key, o, sym (same _) ∙ held, owned, named),
  )

  copies-Owns :
      (copies : ObjectList) (w w' : W)
      → Owning kube (Kube.fork fork) tracks.admit
      → ((o : Object) → (meta (tracks.admit o)).name ≡ (meta o).name)
      → ((c : DeploymentCopy) (name : String)
          → Is (empty_object kube (Kube.fork fork) name (deployment_copy c)))
      → All IsShort (copy_names app app.deployments)
      → Distinct (copy_names app app.deployments)
      → generate_deployment_copies app ≡ ok copies
      → refresh kube (Kube.fork fork) copies floats w ≡ (ok tt, w')
      → (name : String)
      → OwnsCopy stored fork w' name ↔ (contains (copy_names app app.deployments) name ≡ true)
  unfolding generate_deployment_copies
  copies-Owns copies w w' owning keeps typed short distinct made h name =
      let (objects, copied, whole) =
        Result.>>=-eq-ok (map_ok (copied_deployment app) app.deployments) _ copies made in
      let same = copied_names app app.deployments objects copied in
      subst (λ l. OwnsCopy stored fork w' name ↔ (contains l name ≡ true)) same
        (refresh-Owns-names kube (Kube.fork fork) deployment_copy_list objects floats tracks w w'
          owning keeps (copied_typed app app.deployments objects _ typed copied)
          (IsShort-IsWritable objects (subst (All IsShort) (sym same) short))
          (subst Distinct (sym same) distinct)
          (ap (λ l. refresh kube (Kube.fork fork) l floats w) (ok-injective whole) ∙ h) name)

  abbrev last_list : List ObjectList
  last_list = generate_vs_configs kube.to_vs_config app ∷ []

  abbrev last_lists : List ObjectList
  last_lists = generate_services app ∷ last_list

  abbrev three_lists : ObjectList → List ObjectList
  three_lists copies = copies ∷ last_lists

  -- The last two of the three refreshes leave the DeploymentCopies alone.
  pub refresh_lists-copies :
      (copies : ObjectList) (w w' : W)
      → refresh_lists kube floats (Kube.fork fork) (three_lists copies) w ≡ (ok tt, w')
      → (w₁ : W) × (refresh kube (Kube.fork fork) copies floats w ≡ (ok tt, w₁))
        × ((k : NamespacedName) → stored w' k ≡ stored w₁ k)
  unfolding refresh_lists for_each string_eq
  refresh_lists-copies copies w w' h =
      let services = generate_services-ListApart "DeploymentCopy" app refl refl in
      let configs =
        generate_vs_configs-ListApart "DeploymentCopy" kube.to_vs_config app refl refl in
      let (w₁, first, rest) =
        for_each-cons (λ (l : ObjectList). refresh kube (Kube.fork fork) l floats) copies last_lists
          w w' h in
      (
        w₁,
        first,
        refreshed_apart kube floats "DeploymentCopy" stored apart (Kube.fork fork) last_lists w₁ w'
            (services, (configs, tt)) rest,
      )

  module _ (range : (V : Type 0) → GoMap String V → GoMap String V) (slug : NamespacedName) where
    pub update_microservice-eq :
        (copies : ObjectList) (w : W)
        → kube.get_fork slug w ≡ ok fork
        → Application.Builder.build kube fork range w ≡ ok app
        → generate_deployment_copies app ≡ ok copies
        → update_microservice kube floats range slug w
          ≡ refresh_lists kube floats (Kube.fork fork) (three_lists copies) w
    unfolding update_microservice update_fork Application.generate_lists Exec.◌>>=◌
    update_microservice-eq copies w got built made = rw (got, built, made) refl

    -- On a server that keeps the laws of `Tracks` and `Owning` for DeploymentCopies, keeps their names
    -- and holds the other kinds apart, if the names `<Deployment>-<Fork>` of the Deployments that are
    -- found for the Fork are distinct, not empty and of at most 63 characters, then after an update of
    -- the Fork that succeeds, these are exactly the names of the DeploymentCopies that the Fork owns in
    -- its namespace, whatever it owned before.
    pub update_microservice-OwnsCopy :
        (copies : ObjectList) (w w' : W)
        → Owning kube (Kube.fork fork) tracks.admit
        → ((o : Object) → (meta (tracks.admit o)).name ≡ (meta o).name)
        → ((c : DeploymentCopy) (name : String)
            → Is (empty_object kube (Kube.fork fork) name (deployment_copy c)))
        → All IsShort (copy_names app app.deployments)
        → Distinct (copy_names app app.deployments)
        → kube.get_fork slug w ≡ ok fork
        → Application.Builder.build kube fork range w ≡ ok app
        → generate_deployment_copies app ≡ ok copies
        → update_microservice kube floats range slug w ≡ (ok tt, w')
        → (name : String)
        → OwnsCopy stored fork w' name ↔ (contains (copy_names app app.deployments) name ≡ true)
    update_microservice-OwnsCopy copies w w' owning keeps typed short distinct got built made run
          name =
        let (w₁, first, same) =
          refresh_lists-copies copies w w'
            (sym (update_microservice-eq copies w got built made) ∙ run) in
        let (there, back) = moved w₁ w' name same in
        let (sound, complete) =
          copies-Owns copies w w₁ owning keeps typed short distinct made first name in
        (λ owns. sound (back owns), λ wanted. there (complete wanted))
