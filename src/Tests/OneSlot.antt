-- ===== src/Tests/OneSlot.antt =====
-- A cluster with room for one object of no fixed type, which is lawful.
use kubefork_controller.Base.{
  String, ◌≡◌, refl, sym, ap, subst, ◌∙◌, Bool, true, ◌&&◌, Option, none, some, List, [], ◌∷◌,
  string_eq, ◌==◌, if◌then◌else◌, arith, All,
}
use kubefork_controller.Base.Result.{Result, ok, ok-injective, err, not_found, failure}
use kubefork_controller.Base.Exec.{Exec}
use kubefork_controller.Api.{NamespacedName, TypeMeta}
use kubefork_controller.Kube.{Kube, Object, unstructured, Unstructured, meta}
use kubefork_controller.Kube.Laws.{Tracks, is_at, named}
use kubefork_controller.Tests.Blank.{blank}

abbrev pub Slot : Type 0
Slot = Option Unstructured

abbrev pub IsUnstructured : Object → Type 0
IsUnstructured (unstructured u) = Unit
IsUnstructured _ = ⊥

abbrev pub held : Slot → NamespacedName → Option Object
held none k = none
held (some u) k = if is_at k (unstructured u) then some (unstructured u) else none

abbrev pub same_key : Unstructured → Unstructured → Bool
same_key a b = a.metadata.namespace == b.metadata.namespace && a.metadata.name == b.metadata.name

abbrev pub free : Object → Slot → Exec Slot (Unit {0})
free (unstructured u) (some v) w = if same_key u v then (ok tt, none) else (err not_found, w)
free _ _ w = (err not_found, w)

abbrev pub keep : Unstructured → Result Object → Exec Slot (Unit {0})
keep u (ok (unstructured v)) w =
    if same_key u v then (ok tt, some v) else (err (failure "the key has changed"), w)
keep u (ok _) w = (err (failure "the kind has changed"), w)
keep u (err e) w = (err e, w)

abbrev pub put : Object → (Object → Result Object) → Slot → Exec Slot (Unit {0})
put (unstructured u) f none w = keep u (f (unstructured u)) w
put (unstructured u) f (some v) w =
    if same_key u v then keep u (f (unstructured v)) w else (err (failure "no room"), w)
put _ f _ w = (err (failure "another kind"), w)

abbrev pub shown : String → Slot → List Unstructured
shown ns none = []
shown ns (some u) = if ns == u.metadata.namespace then u ∷ [] else []

abbrev pub one_slot : Kube Slot
one_slot = record (blank Slot) {
  list_unstructured = λ t o w. ok (shown o.namespace w);
  delete = λ o w. free o w w;
  create_or_update = λ o f w. put o f w w;
}

pub held-shown :
    (ns : String) (w : Slot) (name : String)
    → held w (record { namespace = ns; name = name }) ≡ named name (shown ns w)
held-shown ns none name = refl
held-shown ns (some u) name = ground arith

abbrev pub IsHeld : String → Slot → Unstructured → Type 0
IsHeld ns w u =
    Unit {0}
    × (u.metadata.namespace ≡ ns)
    × (held w (record { namespace = ns; name = u.metadata.name }) ≡ some (unstructured u))

pub shown-IsHeld : (ns : String) (w : Slot) → All (IsHeld ns w) (shown ns w)
shown-IsHeld ns none = tt
shown-IsHeld ns (some u) = elim (string_eq.dec ns u.metadata.namespace) [
  | yes e ↦
      let only : shown ns (some u) ≡ u ∷ [] = ground arith in
      subst (All (IsHeld ns (some u))) (sym only) ((tt, sym e, ground arith), tt)
  | no n ↦
      let nothing : shown ns (some u) ≡ [] = ground arith in
      subst (All (IsHeld ns (some u))) (sym nothing) tt
]

pub held-free :
    (o : Object) (w w' : Slot)
    → IsUnstructured o
    → free o w w ≡ (ok tt, w')
    → (k : NamespacedName) → held w' k ≡ (if is_at k o then none else held w k)
held-free (unstructured u) none w' is h k = cc
held-free (unstructured u) (some v) w' is h k = ground arith
held-free _ w w' is h k = absurd is

keep-eq-ok :
    (u : Unstructured) (r : Result Object) (w w' : Slot)
    → keep u r w ≡ (ok tt, w')
    → (v : Unstructured) × (r ≡ ok (unstructured v)) × (same_key u v ≡ true) × (w' ≡ some v)
keep-eq-ok u (ok (unstructured v)) w w' h = (v, refl, ground arith, ground arith)
keep-eq-ok u _ w w' h = cc

abbrev pub Written : Object → (Object → Result Object) → Slot → Slot → Type 0
Written o f w w' =
    (found sent : Object) × ((meta found).namespace ≡ (meta o).namespace)
    × ((meta found).name ≡ (meta o).name)
    × (f found ≡ ok sent)
    × ((k : NamespacedName) → held w' k ≡ (if is_at k o then some sent else held w k))

pub put-Written :
    (o : Object) (f : Object → Result Object) (w w' : Slot)
    → IsUnstructured o
    → put o f w w ≡ (ok tt, w')
    → Written o f w w'
put-Written (unstructured u) f none w' is h =
    let (v, built, same, e) = keep-eq-ok u (f (unstructured u)) none w' h in
    (unstructured u, unstructured v, refl, refl, built, λ k. rw e (ground arith))
put-Written (unstructured u) f (some x) w' is h =
    let (v, built, same, e) = keep-eq-ok u (f (unstructured x)) (some x) w' (ground arith) in
    (unstructured x, unstructured v, ground arith, ground arith, built, λ k. rw e (ground arith))
put-Written _ f w w' is h = absurd is

unfoldable pub one_slot_tracks :
    (t : TypeMeta) (ns : String) → Tracks one_slot t ns IsUnstructured held
one_slot_tracks t ns = record {
  admit = λ o. o;
  listed = λ w us e name. held-shown ns w name ∙ ap (named name) (ok-injective e);
  listed_all = λ w us e. subst (All (IsHeld ns w)) (ok-injective e) (shown-IsHeld ns w);
  deleted = held-free;
  written = put-Written;
}
