-- ===== src/Updaters/Among.antt =====
-- One of the lists that `Update` of domain/updater refreshes, among those of other kinds.
use kubefork_controller.Base.{String, ◌≡◌, refl, sym, ap, ◌∙◌, Option, List, ◌∷◌, ◌++◌, All}
use kubefork_controller.Base.Result.{Result, ok}
use kubefork_controller.Base.Exec.{for_each-append, for_each-cons}
use kubefork_controller.Api.{NamespacedName}
use kubefork_controller.Kube.{Kube, Object}
use kubefork_controller.Refresh.{ObjectList, refresh}
use kubefork_controller.Refresh.Naming.{FloatOps}
use kubefork_controller.Updaters.{refresh_lists}
use kubefork_controller.Forks.{KindApart}
use kubefork_controller.Forks.Refreshed.{ListApart}
use kubefork_controller.Forks.Updated.{refresh_lists-Keeps}

module _ {W : Type 0} (kube : Kube W) (floats : FloatOps) (kind : String)
    (stored : W → NamespacedName → Option Object)
    (apart : (k : NamespacedName) (v : Option Object) → KindApart kube kind (λ w. stored w k ≡ v))
    (parent : Object) where
  -- Lists of other kinds leave it alone.
  pub refreshed_apart :
      (lists : List ObjectList) (w w' : W)
      → All (ListApart kind) lists
      → refresh_lists kube floats parent lists w ≡ (ok tt, w')
      → (k : NamespacedName) → stored w' k ≡ stored w k
  refreshed_apart lists w w' other h k =
      ap (λ (r : Result (Unit {0}) × W). stored r.1 k) (sym h)
      ∙ refresh_lists-Keeps kube kind (λ v. stored v k ≡ stored w k) (apart k (stored w k)) floats
          parent lists other w refl

  -- What the server holds of the kind changes only while the one list is refreshed.
  pub refresh_lists-one :
      (before after : List ObjectList) (list : ObjectList) (w w' : W)
      → All (ListApart kind) before
      → All (ListApart kind) after
      → refresh_lists kube floats parent (before ++ list ∷ after) w ≡ (ok tt, w')
      → (w₁ w₂ : W) × (refresh kube parent list floats w₁ ≡ (ok tt, w₂))
        × ((k : NamespacedName) → stored w₁ k ≡ stored w k)
        × ((k : NamespacedName) → stored w' k ≡ stored w₂ k)
  unfolding refresh_lists
  refresh_lists-one before after list w w' others later h =
      let body = λ (l : ObjectList). refresh kube parent l floats in
      let (w₁, h₁, rest) = for_each-append body before (list ∷ after) w w' h in
      let (w₂, here, h₂) = for_each-cons body list after w₁ w' rest in
      (w₁, w₂, here, refreshed_apart before w w₁ others h₁, refreshed_apart after w₂ w' later h₂)
