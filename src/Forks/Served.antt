-- ===== src/Forks/Served.antt =====
-- The Forks that the server holds, and what one request to a reconciler of controllers/ does to them.
use kubefork_controller.Base.{
  String, ◌≡◌, refl, ◌∙◌, true, false, Option, some, List, All, ◌⊎◌, inl, inr, string_eq, ◌==◌,
  Bool-cases, arith,
}
use kubefork_controller.Base.GoMap.{GoMap}
use kubefork_controller.Base.Result.{Result, ok, err, not_found}
use kubefork_controller.Base.Keeps.{Keeps, >>=-Keeps, lift->>=-Keeps}
use kubefork_controller.Api.{NamespacedName, TypeMeta, Fork, VsConfig, Service, Time}
use kubefork_controller.Kube.{Kube, Object, ListOptions, Unstructured, fork, unstructured}
use kubefork_controller.Kube.Laws.{is_at}
use kubefork_controller.Refresh.Naming.{FloatOps}
use kubefork_controller.Slug.{parse_manager}
use kubefork_controller.Mappings
use kubefork_controller.Controllers.{
  is_expired, reconcile_fork_from, reconcile_fork, reconcile_vs_config_from, reconcile_vs_config,
  reconcile_service_from, reconcile_service,
}
use kubefork_controller.Forks.{is_fork, KindApart}
use kubefork_controller.Forks.Updated.{
  Uncopied, update_microservice-Keeps, update_virtual_service-Keeps,
  update_all_virtual_services-Keeps,
}
use kubefork_controller.Forks.Mapped.{update-Keeps, update_all-Keeps}

-- `stored w k` is the Fork that the server holds under `k`. A call about another kind or another name
-- leaves it alone, and what `Get` returns is held under the name that was asked for.
pub record ForkServer {W : Type 0} (kube : Kube W) (stored : W → NamespacedName → Option Fork)
    : Type 0 where
  pub deleted :
      (o : Object) (w : W) (k : NamespacedName)
      → is_fork o ≡ false
      → stored (kube.delete o w).1 k ≡ stored w k
  pub written :
      (o : Object) (f : Object → Result Object) (w : W) (k : NamespacedName)
      → is_fork o ≡ false
      → stored (kube.create_or_update o f w).1 k ≡ stored w k
  pub listed :
      (kind : TypeMeta) (options : ListOptions) (w : W) (us : List Unstructured)
      → (kind.kind == "ForkList") ≡ false
      → kube.list_unstructured kind options w ≡ ok us
      → All (λ u. is_fork (unstructured u) ≡ false) us
  pub like : (o : Object) → is_fork o ≡ false → is_fork (kube.new_like o) ≡ false
  pub found :
      (k : NamespacedName) (w : W) (f : Fork)
      → kube.get_fork k w ≡ ok f
      → (stored w k ≡ some f) × (is_at k (fork f) ≡ true)
  pub deleted_fork :
      (f : Fork) (w : W) (k : NamespacedName)
      → is_at k (fork f) ≡ false
      → stored (kube.delete (fork f) w).1 k ≡ stored w k

fork-Uncopied : Uncopied "Fork"
unfolding string_eq
fork-Uncopied = record {
  copy = refl;
  copies = refl;
  service = refl;
  services = refl;
  config = refl;
  configs = refl;
}

pub same_place : (j k : NamespacedName) (o : Object) → is_at j o ≡ true → is_at k o ≡ true → j ≡ k
same_place j k o p q =
    let (spaces, names) = both in λ i. record { namespace = spaces i; name = names i }
  where
    both : (j.namespace ≡ k.namespace) × (j.name ≡ k.name)
    both = ground arith

module _ {W : Type 0} (kube : Kube W) (stored : W → NamespacedName → Option Fork)
    (server : ForkServer kube stored) (k : NamespacedName) where
  abbrev Holds : Option Fork → W → Type 0
  Holds found w = stored w k ≡ found

  apart : (found : Option Fork) → KindApart kube "Fork" (Holds found)
  apart found = record {
    deleted = λ o other w p. server.deleted o w k other ∙ p;
    written = λ o f other w p. server.written o f w k other ∙ p;
    listed = server.listed;
    like = server.like;
  }

  module _ (floats : FloatOps) (range : (V : Type 0) → GoMap String V → GoMap String V)
      (range_names : List NamespacedName → List NamespacedName) where
    alive-Keeps :
        (found : Option Fork) (slug : NamespacedName) (now : Time) (f : Fork)
        → is_expired now f ≡ false
        → Keeps (Holds found) (reconcile_fork_from kube floats range range_names now slug (ok f))
    unfolding reconcile_fork_from
    alive-Keeps found slug now f alive w p = rw (alive) (
        lift->>=-Keeps (Holds found) (parse_manager f.spec.manager) _
          (λ manager _.
            >>=-Keeps (Holds found) (Mappings.update kube range range_names manager) _
              (update-Keeps kube (Holds found) (apart found) range range_names manager)
              (λ _.
                update_microservice-Keeps kube "Fork" (Holds found) (apart found) floats
                  fork-Uncopied range slug))
          w p)

    -- A request for a Fork that is not the one in question, or not expired, leaves it alone.
    reconcile_fork_from-stored :
        (now : Time) (slug : NamespacedName) (w : W) (r : Result Fork)
        → kube.get_fork slug w ≡ r
        → (stored (reconcile_fork_from kube floats range range_names now slug r w).1 k ≡ stored w k)
          ⊎ ((f : Fork) × (kube.get_fork slug w ≡ ok f) × (is_expired now f ≡ true) × (k ≡ slug))
    unfolding reconcile_fork_from
    reconcile_fork_from-stored now slug w (err not_found) _ =
        inl
          (update_all-Keeps kube (Holds (stored w k)) (apart (stored w k)) range range_names w refl)
    reconcile_fork_from-stored now slug w (err _) _ = inl refl
    reconcile_fork_from-stored now slug w (ok f) read = elim (Bool-cases (is_expired now f)) [
      | inl expired ↦ elim (Bool-cases (is_at k (fork f))) [
        | inl here ↦
            inr (f, read, expired, same_place k slug (fork f) here (server.found slug w f read).1)
        | inr elsewhere ↦ inl (rw (expired) (server.deleted_fork f w k elsewhere))
      ]
      | inr alive ↦ inl (alive-Keeps (stored w k) slug now f alive w refl)
    ]

    -- After a request for a Fork, whether it ends well or fails, the server holds under any name what
    -- it held before, unless the name is that of the request and its Fork's deadline has passed.
    pub reconcile_fork-stored :
        (now : Time) (slug : NamespacedName) (w : W)
        → (stored (reconcile_fork kube floats range range_names now slug w).1 k ≡ stored w k)
          ⊎ ((f : Fork) × (kube.get_fork slug w ≡ ok f) × (is_expired now f ≡ true) × (k ≡ slug))
    unfolding reconcile_fork
    reconcile_fork-stored now slug w =
        reconcile_fork_from-stored now slug w (kube.get_fork slug w) refl

  module _ (floats : FloatOps) where
    vs_config_from-Keeps :
        (found : Option Fork) (slug : NamespacedName) (r : Result VsConfig)
        → Keeps (Holds found) (reconcile_vs_config_from kube floats slug r)
    unfolding reconcile_vs_config_from
    vs_config_from-Keeps found slug (err not_found) w p =
        update_all_virtual_services-Keeps kube (Holds found) (apart found) floats _ w p
    vs_config_from-Keeps found slug (err _) w p = p
    vs_config_from-Keeps found slug (ok config) w p =
        update_virtual_service-Keeps kube (Holds found) (apart found) floats _ w p

    pub reconcile_vs_config-stored :
        (slug : NamespacedName) (w : W)
        → stored (reconcile_vs_config kube floats slug w).1 k ≡ stored w k
    unfolding reconcile_vs_config
    reconcile_vs_config-stored slug w =
        vs_config_from-Keeps (stored w k) slug (kube.get_vs_config slug w) w refl

    service_from-Keeps :
        (found : Option Fork) (slug : NamespacedName) (r : Result Service)
        → Keeps (Holds found) (reconcile_service_from kube floats slug r)
    unfolding reconcile_service_from
    service_from-Keeps found slug (err e) w p = p
    service_from-Keeps found slug (ok _) w p =
        update_virtual_service-Keeps kube (Holds found) (apart found) floats slug w p

    pub reconcile_service-stored :
        (slug : NamespacedName) (w : W)
        → stored (reconcile_service kube floats slug w).1 k ≡ stored w k
    unfolding reconcile_service
    reconcile_service-stored slug w =
        service_from-Keeps (stored w k) slug (kube.get_service slug w) w refl
