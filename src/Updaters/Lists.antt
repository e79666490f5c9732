-- ===== src/Updaters/Lists.antt =====
-- The lists that `Update` of domain/updater/microservice.go refreshes, and what that does to the objects
-- of one of them.
use kubefork_controller.Base.{
  String, ◌≡◌, sym, ap, subst, ◌∙◌, ◌↔◌, Bool, true, false, not, ◌&&◌, ◌==◌, Option, some, List, [],
  ◌∷◌, ◌++◌, All, contains, string_eq, nat_eq,
}
use kubefork_controller.Base.GoMap.{GoMap}
use kubefork_controller.Base.Result.{Result, ok, err, ok-injective}
use kubefork_controller.Base.Result
use kubefork_controller.Base.Exec.{read->>=-eq-ok, lift->>=-eq-ok}
use kubefork_controller.Api.{NamespacedName, Fork, Service}
use kubefork_controller.Kube.{
  Kube, Object, service, vs_config, meta, set_meta, meta-set_meta, Unstructured,
}
use kubefork_controller.Kube
use kubefork_controller.Kube.Laws.{Tracks}
use kubefork_controller.Refresh.{ObjectList, empty_object, owned_by_parent}
use kubefork_controller.Refresh.Naming.{FloatOps}
use kubefork_controller.Refresh.Sweep.{has_id}
use kubefork_controller.Refresh.Existing.{holds}
use kubefork_controller.Refresh.Owned.{Distinct, Owning}
use kubefork_controller.Refresh.Keyed.{Keeping, Placing}
use kubefork_controller.Refresh.Standing.{Standing, Standing-between}
use kubefork_controller.Application
use kubefork_controller.Application.{
  App, generate_deployment_copies, generate_services, generate_vs_configs, service_list,
  vs_config_list, service_identity, vs_config_identity, service_objects, vs_config_objects,
  copied_service, original_service_label,
}
use kubefork_controller.Application.Builder
use kubefork_controller.Application.Builder.{
  get_fork_header_key, fork_target_services, existing_forked_services, collect_routes,
}
use kubefork_controller.Updaters.{update_microservice, update_fork, refresh_lists}
use kubefork_controller.Updaters.Among.{refresh_lists-one}
use kubefork_controller.Updaters.Copied.{IsShort}
use kubefork_controller.Updaters.Originals.{
  original_names, names_for, name_for, MadeFor, refresh-Owns-originals,
  refresh-NamedAfter-originals, refresh-Standing-originals,
}
use kubefork_controller.Forks.{KindApart}
use kubefork_controller.Forks.Refreshed.{ListApart}

-- The Fork owns an object with the identity in its namespace.
abbrev pub OwnsAs :
    {W : Type 0}
    → (W → NamespacedName → Option Object)
    → Fork
    → (Object → Result String)
    → W
    → String
    → Type 0
OwnsAs stored fork identity w id =
    (name : String) × (o : Object) × (stored w
        (record { namespace = fork.metadata.namespace; name = name })
      ≡ some o)
    × (owned_by_parent o (Kube.fork fork) ≡ true)
    × (identity o ≡ ok id)

-- An object of the Fork has another name than `<identity>-<Fork>`.
abbrev pub misnamed_at : Fork → (Object → Result String) → String → Object → Bool
misnamed_at fork identity name o =
    owned_by_parent o (Kube.fork fork) && has_id (identity o) (λ id. not (name == name_for fork id))

-- Such an object stands under the name in the Fork's namespace.
abbrev pub is_misnamed :
    {W : Type 0}
    → (W → NamespacedName → Option Object)
    → Fork
    → (Object → Result String)
    → W
    → String
    → Bool
is_misnamed stored fork identity w name =
    holds (misnamed_at fork identity name)
      (stored w (record { namespace = fork.metadata.namespace; name = name }))

-- What an update of the Fork from one world to another did to the objects of one kind.
pub record Outcome {W : Type 0} (stored : W → NamespacedName → Option Object) (fork : Fork)
    (identity : Object → Result String) (svcs : List Service) (w w' : W) : Type 0 where
  pub owned :
      (id : String) → OwnsAs stored fork identity w' id ↔ (contains (original_names svcs) id ≡ true)
  pub named : (name : String) → is_misnamed stored fork identity w' name ≡ false
  pub standing :
      Standing stored (Kube.fork fork) identity (original_names svcs) (names_for fork svcs) w w'

module _ {W : Type 0} (kube : Kube W) (floats : FloatOps) (fork : Fork) (app : App)
    (range : (V : Type 0) → GoMap String V → GoMap String V) (slug : NamespacedName) where
  abbrev lists_after : App → ObjectList → List ObjectList
  lists_after a copies = copies ∷ generate_services a ∷ generate_vs_configs kube.to_vs_config a ∷ []

  -- The three refreshes of an update that succeeds.
  pub refreshed :
      (w w' : W)
      → kube.get_fork slug w ≡ ok fork
      → Builder.build kube fork range w ≡ ok app
      → update_microservice kube floats range slug w ≡ (ok tt, w')
      → (copies : ObjectList) × (generate_deployment_copies app ≡ ok copies)
        × (refresh_lists kube floats (Kube.fork fork) (lists_after app copies) w ≡ (ok tt, w'))
  unfolding update_microservice update_fork Application.generate_lists
  refreshed w w' got built run =
      let found_run : update_fork kube floats range (ok fork) w ≡ (ok tt, w') =
        ap (λ r. update_fork kube floats range r w) (sym got) ∙ run in
      let (a, built', h₁) = read->>=-eq-ok (Builder.build kube fork range) _ w w' tt found_run in
      let (lists, made, h₂) =
        lift->>=-eq-ok (Application.generate_lists kube.to_vs_config a) _ w w' tt h₁ in
      let (copies, copied, h₃) = Result.>>=-eq-ok (generate_deployment_copies a) _ lists made in
      subst
        (λ b.
          (copies : ObjectList) × (generate_deployment_copies b ≡ ok copies)
          × (refresh_lists kube floats (Kube.fork fork) (lists_after b copies) w ≡ (ok tt, w')))
        (ok-injective (sym built' ∙ built))
        (
          copies,
          copied,
          ap (λ l. refresh_lists kube floats (Kube.fork fork) l w) (ok-injective h₃) ∙ h₂,
        )

-- What an update does to the objects of one list.
module _ {W : Type 0} (kube : Kube W) (floats : FloatOps) (fork : Fork) {Is : Object → Type 0}
    {stored : W → NamespacedName → Option Object} (kind : String)
    (apart : (k : NamespacedName) (v : Option Object) → KindApart kube kind (λ w. stored w k ≡ v))
    (list : ObjectList) (svcs : List Service)
    (tracks : Tracks kube list.group_version_kind fork.metadata.namespace Is stored)
    (Typed : Object → Type 0) (made : MadeFor fork list svcs Typed)
    (keeping : Keeping kube (Kube.fork fork) list.identity tracks.admit Typed)
    (placing : Placing list.identity Typed)
    (typed : (o : Object)
      → Typed o
      → (name : String) → Is (empty_object kube (Kube.fork fork) name o))
    (owning : Owning kube (Kube.fork fork) tracks.admit) (short : All IsShort (names_for fork svcs))
    (distinct : Distinct (names_for fork svcs)) where
  pub list-Outcome :
      (before after : List ObjectList) (w w' : W)
      → All (ListApart kind) before
      → All (ListApart kind) after
      → ((name : String) → is_misnamed stored fork list.identity w name ≡ false)
      → refresh_lists kube floats (Kube.fork fork) (before ++ list ∷ after) w ≡ (ok tt, w')
      → Outcome stored fork list.identity svcs w w'
  list-Outcome before after w w' others later named h =
      let (w₁, w₂, here, same, same') =
        refresh_lists-one kube floats kind stored apart (Kube.fork fork) before after list w w'
          others later h in
      let at = λ (n : String).
        let k : NamespacedName = record { namespace = fork.metadata.namespace; name = n } in k in
      let named₁ : (n : String) → is_misnamed stored fork list.identity w₁ n ≡ false =
        λ n. ap (holds (misnamed_at fork list.identity n)) (same (at n)) ∙ named n in
      let is = λ (svc : Service). typed (made.item svc) (made.typed svc) in
      let owns =
        refresh-Owns-originals kube floats fork list svcs Typed made tracks keeping placing w₁ w₂
          owning named₁ is short distinct here in
      let named₂ =
        refresh-NamedAfter-originals kube floats fork list svcs Typed made tracks keeping placing w₁
          w₂ owning named₁ is short distinct here in
      let standing =
        refresh-Standing-originals kube floats fork list svcs Typed made tracks keeping placing w₁
          w₂ owning named₁ is short distinct here in
      record {
        owned = λ id. (
          λ (key, o, held, owned, read). (owns id).0 (key, o, sym (same' _) ∙ held, owned, read),
          λ wanted.
              let (key, o, held, owned, read) = (owns id).1 wanted in
              (key, o, same' _ ∙ held, owned, read),
        );
        named = λ name.
            ap (holds (misnamed_at fork list.identity name)) (same' (at name)) ∙ named₂ name;
        standing =
            Standing-between stored (Kube.fork fork) list.identity (original_names svcs)
              (names_for fork svcs) w₁ w₂ w w' same same' standing;
      }
