-- ===== src/Refresh/Converge.antt =====
-- What a call of `Refresh` of pkg/refresh/refresh.go that succeeds leaves on the server.
use kubefork_controller.Base.{
  String, ◌≡◌, sym, ap, subst, not, ◌∙◌, true, false, ◌&&◌, Option, some, List, [], ◌∷◌, map, All,
  contains, string_eq, ◌==◌, if◌then◌else◌, arith,
}
use kubefork_controller.Base.GoMap.{GoMap}
use kubefork_controller.Base.Result.{Result, ok, err}
use kubefork_controller.Base.Exec.{lift->>=-eq-ok, >>=-eq-ok, for_each}
use kubefork_controller.Api.{NamespacedName}
use kubefork_controller.Kube.{Kube, Object, Unstructured, meta, meta-set_meta}
use kubefork_controller.Kube.Laws.{Tracks}
use kubefork_controller.Refresh.{ObjectList, empty_object, mutate, object_name, apply_item}
use kubefork_controller.Refresh.Naming.{FloatOps}
use kubefork_controller.Refresh.Sweep.{has_id, is_outdated}
use kubefork_controller.Refresh.Existing.{holds}

module _ {W : Type 0} (kube : Kube W) (parent : Object) (list : ObjectList) (floats : FloatOps)
    {Is : Object → Type 0} {stored : W → NamespacedName → Option Object}
    (tracks : Tracks kube list.group_version_kind (meta parent).namespace Is stored) where
  abbrev pub space : String
  space = (meta parent).namespace

  -- The name under which an item is written.
  abbrev pub name_by : GoMap String Unstructured → Object → Result String → String
  name_by found obj (ok key) = object_name kube parent list floats found key obj
  name_by found obj (err _) = ""

  abbrev pub item_name : GoMap String Unstructured → Object → String
  item_name found obj = name_by found obj (list.identity obj)

  -- An item's empty object is of the kind that is listed.
  abbrev pub IsTyped : Object → Type 0
  IsTyped obj = (name : String) → Is (empty_object kube parent name obj)

  -- What one round of the loop did: `sent` is what the function given to `CreateOrUpdate` made.
  pub record Wrote (found : GoMap String Unstructured) (obj : Object) (w w' : W) : Type 0 where
    pub key : String
    pub identity : list.identity obj ≡ ok key
    pub seen : Object
    pub sent : Object
    pub built : mutate kube parent obj seen ≡ ok sent
    pub seen_namespace : (meta seen).namespace ≡ space
    pub seen_name : (meta seen).name ≡ item_name found obj
    pub after :
        (k : NamespacedName)
        → stored w' k ≡ (
            if k.namespace == space && k.name == item_name found obj
            then some (tracks.admit sent)
            else stored w k)

  meta-empty_object :
      (name : String) (obj : Object)
      → ((meta (empty_object kube parent name obj)).namespace ≡ space)
        × ((meta (empty_object kube parent name obj)).name ≡ name)
  unfolding empty_object
  meta-empty_object name obj =
      let e =
        meta-set_meta (record (meta (kube.new_like obj)) { namespace = space; name = name })
          (kube.new_like obj) in
      (ap (λ m. m.namespace) e, ap (λ m. m.name) e)

  written-Wrote :
      (found : GoMap String Unstructured) (obj : Object) (w w' : W) (key : String)
      → IsTyped obj
      → list.identity obj ≡ ok key
      → kube.create_or_update
          (empty_object kube parent (object_name kube parent list floats found key obj) obj)
          (mutate kube parent obj)
          w
        ≡ (ok tt, w')
      → Wrote found obj w w'
  written-Wrote found obj w w' key typed identity written =
      let name = object_name kube parent list floats found key obj in
      let (seen, sent, e, f, built, after) =
        tracks.written (empty_object kube parent name obj) (mutate kube parent obj) w w'
          (typed name) written in
      let (space_eq, name_eq) = meta-empty_object name obj in
      let named : item_name found obj ≡ name = ap (name_by found obj) identity in
      record {
        key = key;
        identity = identity;
        seen = seen;
        sent = sent;
        built = built;
        seen_namespace = e ∙ space_eq;
        seen_name = f ∙ name_eq ∙ sym named;
        after = λ k. rw named (rw (space_eq, name_eq) at (after k));
      }

  pub apply_item-Wrote :
      (found : GoMap String Unstructured) (obj : Object) (w w' : W)
      → IsTyped obj
      → apply_item kube parent list floats found obj w ≡ (ok tt, w')
      → Wrote found obj w w'
  unfolding apply_item
  apply_item-Wrote found obj w w' typed h =
      let (key, identity, written) = lift->>=-eq-ok (list.identity obj) _ w w' tt h in
      written-Wrote found obj w w' key typed identity written

  -- Keys to which no item of the list is written stay as they are.
  pub stored-for_each :
      (found : GoMap String Unstructured) (items : List Object) (w w' : W) (k : NamespacedName)
      → All IsTyped items
      → for_each (apply_item kube parent list floats found) items w ≡ (ok tt, w')
      → (k.namespace == space && contains (map (item_name found) items) k.name) ≡ false
      → stored w' k ≡ stored w k
  unfolding for_each
  stored-for_each found [] w w' k _ h out = ap (λ v. stored v k) (sym (ap (λ r. r.1) h))
  stored-for_each found (obj ∷ items) w w' k (typed, all) h out =
      let (_, w₁, first, rest) =
        >>=-eq-ok (apply_item kube parent list floats found obj) _ w w' tt h in
      let wrote = apply_item-Wrote found obj w w₁ typed first in
      ground (arith, stored-for_each found items w₁ w' k all rest, wrote.after k)

  -- The identity of what the server holds after a write is that of the item.
  abbrev pub IsStable : GoMap String Unstructured → Object → Type 0
  IsStable found obj =
      (seen sent : Object)
      → (meta seen).name ≡ item_name found obj
      → mutate kube parent obj seen ≡ ok sent
      → list.identity (tracks.admit sent) ≡ list.identity obj

  abbrev pub NoneOutdated : List String → W → Type 0
  NoneOutdated ids w =
      (k : NamespacedName)
      → k.namespace ≡ space
      → holds (is_outdated parent list ids) (stored w k) ≡ false

  Wrote-NoneOutdated :
      (ids : List String) (found : GoMap String Unstructured) (obj : Object) (w w' : W)
      → IsStable found obj
      → has_id (list.identity obj) (contains ids) ≡ true
      → Wrote found obj w w'
      → NoneOutdated ids w
      → NoneOutdated ids w'
  Wrote-NoneOutdated ids found obj w w' stable wanted wrote clean k inside = ground (
    arith,
    clean k inside,
    wrote.after k,
    ap (λ r. has_id r (λ j. not (contains ids j)))
        (stable wrote.seen wrote.sent wrote.seen_name wrote.built),
    ap (λ r. has_id r (λ j. not (contains ids j))) wrote.identity,
    ap (λ r. has_id r (contains ids)) wrote.identity,
  )

  pub for_each-NoneOutdated :
      (ids : List String) (found : GoMap String Unstructured) (items : List Object) (w w' : W)
      → All
          (λ obj.
            IsTyped obj × IsStable found obj × (has_id (list.identity obj) (contains ids) ≡ true))
          items
      → for_each (apply_item kube parent list floats found) items w ≡ (ok tt, w')
      → NoneOutdated ids w
      → NoneOutdated ids w'
  unfolding for_each
  for_each-NoneOutdated ids found [] w w' _ h clean =
      subst (NoneOutdated ids) (ap (λ r. r.1) h) clean
  for_each-NoneOutdated ids found (obj ∷ items) w w' ((typed, stable, wanted), all) h clean =
      let (_, w₁, first, rest) =
        >>=-eq-ok (apply_item kube parent list floats found obj) _ w w' tt h in
      let wrote = apply_item-Wrote found obj w w₁ typed first in
      for_each-NoneOutdated ids found items w₁ w' all rest
        (Wrote-NoneOutdated ids found obj w w₁ stable wanted wrote clean)
