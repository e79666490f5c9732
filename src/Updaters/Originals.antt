-- ===== src/Updaters/Originals.antt =====
-- The lists of domain/lister/internal/application.go with one object for each Service of a Fork, named
-- after the Service: those of the copied Services and of the VSConfigs.
use kubefork_controller.Base.{
  String, ◌<>◌, ◌≡◌, refl, sym, ap, subst, ◌∙◌, ◌↔◌, true, Option, List, [], ◌∷◌, map, All,
  contains, string_eq,
}
use kubefork_controller.Base.Result.{ok}
use kubefork_controller.Api.{NamespacedName, Fork, Service}
use kubefork_controller.Kube.{Kube, Object, meta}
use kubefork_controller.Kube
use kubefork_controller.Kube.Laws.{Tracks}
use kubefork_controller.Refresh.{ObjectList, refresh, desired_ids}
use kubefork_controller.Refresh.Naming.{FloatOps}
use kubefork_controller.Refresh.Converge.{IsTyped}
use kubefork_controller.Refresh.Owned.{Distinct, Owning, Owns}
use kubefork_controller.Refresh.ByName.{names}
use kubefork_controller.Refresh.Keyed.{Keeping, Placing, NamedAfter, Fits, refresh-Owns-Fits}
use kubefork_controller.Refresh.Standing.{Standing, refresh-Standing}
use kubefork_controller.Refresh.Named.{refresh-NamedAfter}
use kubefork_controller.Updaters.Copied.{IsShort}

-- The names of the Services, and of the objects that are made for them.
abbrev pub original_names : List Service → List String
original_names svcs = map (λ (svc : Service). svc.metadata.name) svcs

abbrev pub names_for : Fork → List Service → List String
names_for fork svcs = map (λ (svc : Service). svc.metadata.name <> "-" <> fork.metadata.name) svcs

abbrev pub name_for : Fork → String → String
name_for fork original = original <> "-" <> fork.metadata.name

-- How a list makes its items from the Services.
pub record MadeFor (fork : Fork) (list : ObjectList) (svcs : List Service) (Typed : Object → Type 0)
    : Type 0 where
  pub item : Service → Object
  pub items_eq : list.items ≡ map item svcs
  pub identified : (svc : Service) → list.identity (item svc) ≡ ok svc.metadata.name
  pub named : (svc : Service) → (meta (item svc)).name ≡ name_for fork svc.metadata.name
  pub typed : (svc : Service) → Typed (item svc)

module _ (fork : Fork) (list : ObjectList) (Typed : Object → Type 0) (item : Service → Object)
    (identified : (svc : Service) → list.identity (item svc) ≡ ok svc.metadata.name)
    (named : (svc : Service) → (meta (item svc)).name ≡ name_for fork svc.metadata.name) where
  desired_originals :
      (svcs : List Service) → desired_ids list.identity (map item svcs) ≡ ok (original_names svcs)
  unfolding desired_ids
  desired_originals [] = refl
  desired_originals (svc ∷ svcs) = rw (desired_originals svcs, identified svc) refl

  names_of_items : (svcs : List Service) → names (map item svcs) ≡ names_for fork svcs
  names_of_items [] = refl
  names_of_items (svc ∷ svcs) =
      ap (λ n. n ∷ names (map item svcs)) (named svc)
      ∙ ap (name_for fork svc.metadata.name ∷◌) (names_of_items svcs)

  All-items :
      (P : Object → Type 0) (svcs : List Service)
      → ((svc : Service) → P (item svc))
      → All P (map item svcs)
  All-items P [] p = tt
  All-items P (svc ∷ svcs) p = (p svc, All-items P svcs p)

pub MadeFor-wanted :
    (fork : Fork) (list : ObjectList) (svcs : List Service) (Typed : Object → Type 0)
    → MadeFor fork list svcs Typed
    → desired_ids list.identity list.items ≡ ok (original_names svcs)
MadeFor-wanted fork list svcs Typed made =
    subst (λ l. desired_ids list.identity l ≡ ok (original_names svcs)) (sym made.items_eq)
      (desired_originals fork list Typed made.item made.identified made.named svcs)

module _ {W : Type 0} (kube : Kube W) (floats : FloatOps) (fork : Fork) (list : ObjectList)
    (svcs : List Service) (Typed : Object → Type 0) (made : MadeFor fork list svcs Typed)
    {Is : Object → Type 0} {stored : W → NamespacedName → Option Object}
    (tracks : Tracks kube list.group_version_kind fork.metadata.namespace Is stored)
    (keeping : Keeping kube (Kube.fork fork) list.identity tracks.admit Typed)
    (placing : Placing list.identity Typed) where
  All-fit :
      (some_svcs : List Service)
      → All IsShort (names_for fork some_svcs)
      → All
          (Fits kube (Kube.fork fork) list floats tracks (name_for fork))
          (map made.item some_svcs)
  All-fit [] _ = tt
  All-fit (svc ∷ some_svcs) (short, shorts) = (
    (
      svc.metadata.name,
      made.identified svc,
      made.named svc,
      subst IsShort (sym (made.named svc)) short,
    ),
    All-fit some_svcs shorts,
  )

  module _ (w w' : W) (owning : Owning kube (Kube.fork fork) tracks.admit)
      (named : NamedAfter kube (Kube.fork fork) list floats tracks (name_for fork) w)
      (is : (svc : Service) → IsTyped kube (Kube.fork fork) list floats tracks (made.item svc))
      (short : All IsShort (names_for fork svcs)) (distinct : Distinct (names_for fork svcs))
      (h : refresh kube (Kube.fork fork) list floats w ≡ (ok tt, w')) where
    from_map : (P : List Object → Type 0) → P (map made.item svcs) → P list.items
    from_map P p = subst P (sym made.items_eq) p

    wanted : desired_ids list.identity list.items ≡ ok (original_names svcs)
    wanted = MadeFor-wanted fork list svcs Typed made

    go_typed : All Typed list.items
    go_typed =
        from_map (All Typed)
          (All-items fork list Typed made.item made.identified made.named Typed svcs made.typed)

    All-IsTyped : All (IsTyped kube (Kube.fork fork) list floats tracks) list.items
    All-IsTyped =
        from_map (All (IsTyped kube (Kube.fork fork) list floats tracks))
          (All-items fork list Typed made.item made.identified made.named _ svcs is)

    fits : All (Fits kube (Kube.fork fork) list floats tracks (name_for fork)) list.items
    fits =
        from_map (All (Fits kube (Kube.fork fork) list floats tracks (name_for fork)))
          (All-fit svcs short)

    Distinct-items : Distinct (names list.items)
    Distinct-items =
        from_map (λ l. Distinct (names l))
          (subst Distinct
            (sym (names_of_items fork list Typed made.item made.identified made.named svcs))
            distinct)

    -- The identities that the Fork owns are then the names of the Services.
    pub refresh-Owns-originals :
        (id : String)
        → Owns kube (Kube.fork fork) list floats tracks w' id
          ↔ (contains (original_names svcs) id ≡ true)
    refresh-Owns-originals =
        refresh-Owns-Fits kube (Kube.fork fork) list floats tracks (name_for fork) Typed keeping
          placing (original_names svcs) w w' owning named wanted All-IsTyped go_typed fits
          Distinct-items h

    -- And what the Fork owns is still named after them.
    pub refresh-NamedAfter-originals :
        NamedAfter kube (Kube.fork fork) list floats tracks (name_for fork) w'
    refresh-NamedAfter-originals =
        refresh-NamedAfter kube (Kube.fork fork) list floats tracks (name_for fork) Typed keeping
          placing (original_names svcs) w w' named wanted All-IsTyped go_typed fits Distinct-items h

    -- It stands under the names that are made for them.
    pub refresh-Standing-originals :
        Standing stored
          (Kube.fork fork)
          list.identity
          (original_names svcs)
          (names_for fork svcs)
          w
          w'
    refresh-Standing-originals =
        subst (λ l. Standing stored (Kube.fork fork) list.identity (original_names svcs) l w w')
          (ap names made.items_eq
            ∙ names_of_items fork list Typed made.item made.identified made.named svcs)
          (refresh-Standing kube (Kube.fork fork) list floats tracks (name_for fork) Typed keeping
            placing (original_names svcs) w w' named wanted All-IsTyped go_typed fits Distinct-items
            h)
