-- ===== src/Updaters/Recopied.antt =====
-- The DeploymentCopies of a Fork in a second `microserviceUpdater.Update` of
-- domain/updater/microservice.go right after the first.
use kubefork_controller.Base.{
  String, ◌≡◌, refl, sym, ap, subst, ◌∙◌, Option, [], ◌∷◌, All, string_eq,
}
use kubefork_controller.Base.GoMap.{GoMap}
use kubefork_controller.Base.Result.{Result, ok, map_ok, ok-injective}
use kubefork_controller.Base.Result
use kubefork_controller.Api.{NamespacedName, Fork, DeploymentCopy}
use kubefork_controller.Kube.{Kube, Object, deployment_copy, meta}
use kubefork_controller.Kube
use kubefork_controller.Kube.Laws.{Tracks}
use kubefork_controller.Refresh.{ObjectList, refresh, empty_object}
use kubefork_controller.Refresh.Naming.{FloatOps}
use kubefork_controller.Refresh.Owned.{Distinct}
use kubefork_controller.Refresh.ByName.{name_identity, list_by_name, desired_ids-names}
use kubefork_controller.Application
use kubefork_controller.Application.{
  App, copied_deployment, generate_deployment_copies, generate_services, generate_vs_configs,
  deployment_copy_list,
}
use kubefork_controller.Application.Builder
use kubefork_controller.Updaters.{update_microservice, refresh_lists}
use kubefork_controller.Forks.{KindApart}
use kubefork_controller.Updaters.Undisturbed.{Undisturbed, refresh_lists-Undisturbed}
use kubefork_controller.Forks.Updated.{generate_services-ListApart, generate_vs_configs-ListApart}
use kubefork_controller.Refresh.Standing.{
  Standing, Standing-again, Standing-between, refresh-Standing-names,
}
use kubefork_controller.Updaters.Copied.{
  copy_names, IsShort, IsShort-IsWritable, copied_names, copied_typed, refresh_lists-copies,
  update_microservice-eq,
}

module _ {W : Type 0} (kube : Kube W) (floats : FloatOps) (fork : Fork) {Is : Object → Type 0}
    {stored : W → NamespacedName → Option Object}
    (tracks : Tracks kube deployment_copy_list fork.metadata.namespace Is stored)
    (apart : (k : NamespacedName) (v : Option Object)
      → KindApart kube "DeploymentCopy" (λ w. stored w k ≡ v))
    (range : (V : Type 0) → GoMap String V → GoMap String V) (slug : NamespacedName)
    (keeps : (o : Object) → (meta (tracks.admit o)).name ≡ (meta o).name)
    (typed : (c : DeploymentCopy) (name : String)
      → Is (empty_object kube (Kube.fork fork) name (deployment_copy c))) where
  -- An update brings about the copies of the Deployments and takes away the others of the Fork.
  update_microservice-Standing :
      (app : App) (copies : ObjectList) (w w' : W)
      → All IsShort (copy_names app app.deployments)
      → Distinct (copy_names app app.deployments)
      → kube.get_fork slug w ≡ ok fork
      → Application.Builder.build kube fork range w ≡ ok app
      → generate_deployment_copies app ≡ ok copies
      → update_microservice kube floats range slug w ≡ (ok tt, w')
      → Standing stored
          (Kube.fork fork)
          name_identity
          (copy_names app app.deployments)
          (copy_names app app.deployments)
          w
          w'
  unfolding generate_deployment_copies
  update_microservice-Standing app copies w w' short distinct got built made run =
      let (objects, copied, whole) =
        Result.>>=-eq-ok (map_ok (copied_deployment app) app.deployments) _ copies made in
      let same = copied_names app app.deployments objects copied in
      let (w₁, first, kept) = refresh_lists-copies kube floats fork app tracks apart copies w w' (
        sym (
          update_microservice-eq kube floats fork app tracks apart range slug copies w got built
            made)
        ∙ run) in
      Standing-between stored (Kube.fork fork) name_identity (copy_names app app.deployments)
        (copy_names app app.deployments) w w₁ w w' (λ k. refl) kept
        (subst (λ l. Standing stored (Kube.fork fork) name_identity l l w w₁) same
          (refresh-Standing-names kube (Kube.fork fork) deployment_copy_list objects floats tracks w
            w₁ keeps (copied_typed app app.deployments objects _ typed copied)
            (IsShort-IsWritable objects (subst (All IsShort) (sym same) short))
            (subst Distinct (sym same) distinct)
            (ap (λ l. refresh kube (Kube.fork fork) l floats w) (ok-injective whole) ∙ first)))

  -- Two updates of a Fork follow each other and succeed; both find the Fork as it is, and
  -- Deployments of the same names, of which DeploymentCopies can be made. The names
  -- `<Deployment>-<Fork>` of these are distinct, not empty and at most 63 characters long. The
  -- server keeps the laws of `Tracks` for DeploymentCopies in the namespace of the Fork, and the
  -- names that it is sent, and takes what is made for a DeploymentCopy as one; and the calls about
  -- other kinds leave the DeploymentCopies alone and list none of them. Then the second update
  -- deletes no DeploymentCopy and creates none: as it refreshes their list, `handleExisting` leaves
  -- the whole world as it is, so that nothing is deleted; the keys that hold a DeploymentCopy are
  -- the same before and after its items are written; and the other lists that it refreshes leave
  -- the DeploymentCopies alone.
  pub copies-update_microservice_again :
      (app again : App) (copies copies_again : ObjectList) (w w' w'' : W)
      → copy_names again again.deployments ≡ copy_names app app.deployments
      → All IsShort (copy_names app app.deployments)
      → Distinct (copy_names app app.deployments)
      → kube.get_fork slug w ≡ ok fork
      → kube.get_fork slug w' ≡ ok fork
      → Application.Builder.build kube fork range w ≡ ok app
      → Application.Builder.build kube fork range w' ≡ ok again
      → generate_deployment_copies app ≡ ok copies
      → generate_deployment_copies again ≡ ok copies_again
      → update_microservice kube floats range slug w ≡ (ok tt, w')
      → update_microservice kube floats range slug w' ≡ (ok tt, w'')
      → Undisturbed kube floats stored
          (Kube.fork fork)
          []
          copies_again
          (generate_services again ∷ generate_vs_configs kube.to_vs_config again ∷ [])
          w'
          w''
  unfolding generate_deployment_copies string_eq
  copies-update_microservice_again app again copies copies_again w w' w'' same short distinct got
        got_again built built_again made made_again run run_again =
      let names = copy_names app app.deployments in
      let first = update_microservice-Standing app copies w w' short distinct got built made run in
      let second =
        subst (λ l. Standing stored (Kube.fork fork) name_identity l l w' w'') same
          (update_microservice-Standing again copies_again w' w''
            (subst (All IsShort) (sym same) short) (subst Distinct (sym same) distinct) got_again
            built_again made_again run_again) in
      let (objects, copied, whole) =
        Result.>>=-eq-ok (map_ok (copied_deployment again) again.deployments) _ copies_again
          made_again in
      let list = list_by_name deployment_copy_list objects in
      let lists = generate_services again ∷ generate_vs_configs kube.to_vs_config again ∷ [] in
      let wanted =
        desired_ids-names objects
        ∙ ap ok (copied_names again again.deployments objects copied ∙ same) in
      let run_lists =
        sym (
          update_microservice-eq kube floats fork again tracks apart range slug copies_again w'
            got_again built_again made_again)
        ∙ run_again in
      let quiet =
        refresh_lists-Undisturbed kube (Kube.fork fork) list tracks floats "DeploymentCopy" apart []
          lists names w' w'' tt
          (
            generate_services-ListApart "DeploymentCopy" again refl refl,
            (generate_vs_configs-ListApart "DeploymentCopy" kube.to_vs_config again refl refl, tt),
          )
          wanted first.current
          (Standing-again stored (Kube.fork fork) name_identity names names w w' w'' first second)
          (ap (λ l. refresh_lists kube floats (Kube.fork fork) (l ∷ lists) w') (ok-injective whole)
            ∙ run_lists) in
      subst (λ l. Undisturbed kube floats stored (Kube.fork fork) [] l lists w' w'')
        (ok-injective whole) quiet
