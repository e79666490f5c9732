-- ===== src/Controllers/Alive.antt =====
-- A reconciliation of controllers/fork_controller.go of a Fork whose deadline has not passed, from the
-- request to the Mappings that it leaves.
use kubefork_controller.Base.{
  String, ◌≡◌, refl, sym, ap, ◌∙◌, true, false, Option, none, List, any, if◌then◌else◌, string_eq,
}
use kubefork_controller.Base.GoMap.{GoMap}
use kubefork_controller.Base.Result.{Result, ok, ok-injective}
use kubefork_controller.Base.Exec.{◌>>◌, lift->>=-eq-ok, >>=-eq-ok}
use kubefork_controller.Api.{NamespacedName, TypeMeta, Fork, Time}
use kubefork_controller.Kube.{Kube, Object, mapping}
use kubefork_controller.Kube.Laws.{Tracks}
use kubefork_controller.Refresh.Naming.{FloatOps}
use kubefork_controller.Slug.{parse_manager}
use kubefork_controller.Application.Routes.{IsRange}
use kubefork_controller.Mappings
use kubefork_controller.Mappings.{group_forks_by_identifier, blank_mapping, has_name}
use kubefork_controller.Mappings.Candidates.{Run, update-Run, is_desired, is_named}
use kubefork_controller.Mappings.Made.{Made, Made-stored}
use kubefork_controller.Mappings.Stored.{stored-update, update-Made, IsGroup, groups}
use kubefork_controller.Updaters.{update_microservice}
use kubefork_controller.Controllers.{is_expired, reconcile_fork_from, reconcile_fork}
use kubefork_controller.Forks.{KindApart}
use kubefork_controller.Forks.Updated.{Uncopied, update_microservice-Keeps}

mapping-Uncopied : Uncopied "Mapping"
unfolding string_eq
mapping-Uncopied = record {
  copy = refl;
  copies = refl;
  service = refl;
  services = refl;
  config = refl;
  configs = refl;
}

module _ {W : Type 0} (kube : Kube W) (floats : FloatOps)
    (range : (V : Type 0) → GoMap String V → GoMap String V)
    (range_names : List NamespacedName → List NamespacedName) (now : Time) (frk : Fork)
    (slug manager : NamespacedName) (w w' : W) (found : kube.get_fork slug w ≡ ok frk)
    (alive : is_expired now frk ≡ false) (read : parse_manager frk.spec.manager ≡ ok manager)
    (run : reconcile_fork kube floats range range_names now slug w ≡ (ok tt, w')) where
  alive-steps :
      (w₁ : W) × (Mappings.update kube range range_names manager w ≡ (ok tt, w₁))
      × (update_microservice kube floats range slug w₁ ≡ (ok tt, w'))
  unfolding reconcile_fork reconcile_fork_from
  alive-steps =
      let from =
        ap (λ r. reconcile_fork_from kube floats range range_names now slug r w) (sym found)
        ∙ run in
      let (manager', read', rest) =
        lift->>=-eq-ok (parse_manager frk.spec.manager) _ w w' tt (rw (alive) at from) in
      let same = ok-injective (sym read' ∙ read) in
      let both =
        ap
          (λ m.
            (Mappings.update kube range range_names m >> update_microservice kube floats range slug)
              w)
          (sym same)
        ∙ rest in
      let (_, w₁, first, second) =
        >>=-eq-ok (Mappings.update kube range range_names manager) _ w w' tt both in
      (w₁, first, second)

  module _ {kind : TypeMeta} {Is : Object → Type 0} {space : String}
      {stored : W → NamespacedName → Option Object} (tracks : Tracks kube kind space Is stored)
      (typed : (namespace name : String) → Is (mapping (blank_mapping namespace name)))
      (loop : IsRange range)
      (each_name : (l : List NamespacedName) (n : NamespacedName)
        → has_name (range_names l) n ≡ has_name l n)
      (apart : (k : NamespacedName) (v : Option Object)
        → KindApart kube "Mapping" (λ u. stored u k ≡ v)) where
    -- What the Mappings of a manager are after a run: those that are desired were made, the others that
    -- carried its label are gone, and the rest is as it was.
    abbrev pub Updated : (w₁ : W) → Run kube range range_names manager w w₁ → Type 0
    Updated w₁ done =
        (n : NamespacedName)
        → (is_desired done.fm n
                (groups kube tracks typed range loop range_names each_name manager w w₁ done n)
              ≡ true
            → Made kube tracks typed n manager done.fm
                (IsGroup kube tracks typed range loop range_names each_name manager w w₁ done n) w')
          × (is_desired done.fm n
                  (groups kube tracks typed range loop range_names each_name manager w w₁ done n)
                ≡ false
              → stored w' n ≡ (if any (is_named n) done.mappings then none else stored w n))

    -- On a server that keeps the laws of `Tracks` for Mappings and holds the other kinds apart, where each
    -- loop over a map meets each entry once: after a reconciliation that succeeds of a Fork that is
    -- there, whose deadline has not passed and whose manager can be read, under each name that is
    -- desired for an identifier and an upstream of the manager stands what was made of such a Mapping,
    -- and under any other name nothing if a Mapping of that name carried the label of the manager, and
    -- what stood there before if none did.
    pub reconcile_fork-Updated :
        (w₁ : W) × (done : Run kube range range_names manager w w₁) × Updated w₁ done
    reconcile_fork-Updated =
        let (w₁, first, second) = alive-steps in
        let done = update-Run kube range range_names manager w w₁ first in
        let same = λ (n : NamespacedName).
          ap (λ (r : Result (Unit {0}) × W). stored r.1 n) (sym second)
          ∙ update_microservice-Keeps kube "Mapping" (λ u. stored u n ≡ stored w₁ n)
              (apart n (stored w₁ n)) floats mapping-Uncopied range slug w₁ refl in
        (
          w₁,
          done,
          λ n. (
            λ wanted. Made-stored kube tracks typed n manager done.fm _ w₁ w' (same n) (
                update-Made kube tracks typed range loop range_names each_name manager w w₁ done n
                  wanted),
            λ out.
                same n
                ∙ stored-update kube tracks typed range loop range_names each_name manager w w₁ done
                    n out,
          ),
        )
