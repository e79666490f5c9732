-- ===== src/Tests/OneKind.antt =====
-- A cluster with room for one object of one kind, of which it keeps the metadata and the host that a
-- VSConfig is for, and which takes objects of the other kinds without keeping them. It is lawful.
use kubefork_controller.Base.{
  String, ◌<>◌, ◌≡◌, refl, sym, ap, subst, ◌∙◌, Bool, true, false, ◌&&◌, Option, none, some, List,
  [], ◌∷◌, string_eq, ◌==◌, if◌then◌else◌, arith, All,
}
use kubefork_controller.Base.Result.{Result, ok, ok-injective, err, not_found, failure}
use kubefork_controller.Base.Exec.{Exec}
use kubefork_controller.Api.{NamespacedName, ObjectMeta, TypeMeta, VsConfig}
use kubefork_controller.Kube.{Kube, Object, vs_config, unstructured, Unstructured, meta}
use kubefork_controller.Kube.Laws.{Tracks, is_at, named}
use kubefork_controller.Forks.{is_kind, KindApart}
use kubefork_controller.Forks.Refreshed.{is_kind-set_meta}
use kubefork_controller.Tests.Blank.{blank, named_in}
use kubefork_controller.Tests.Samples.{
  sample_fork, sample_manager, sample_service, sample_deployment,
}

abbrev pub Kept : Type 0
Kept = ObjectMeta × String

abbrev pub Slot : Type 0
Slot = Option Kept

abbrev pub host_of : Object → String
host_of (vs_config v) = v.spec.host
host_of (unstructured u) = u.content
host_of _ = ""

abbrev pub kept : Object → Kept
kept o = (meta o, host_of o)

abbrev pub read_config : Unstructured → Result VsConfig
read_config u = ok (record {
  type_meta = u.type_meta;
  metadata = u.metadata;
  spec = record { host = u.content; service = ""; header_name = ""; header_value = "" };
})

eq_self : (s : String) → (s == s) ≡ true
eq_self s = elim (string_eq.dec s s) [ yes e ↦ ground arith | no n ↦ absurd (n refl) ]

module _ (type : TypeMeta) where
  abbrev pub view : Kept → Unstructured
  view (m, host) = record { type_meta = type; metadata = m; content = host }

  abbrev pub held : Slot → NamespacedName → Option Object
  held none k = none
  held (some m) k = if is_at k (unstructured (view m)) then some (unstructured (view m)) else none

  abbrev pub same_key : ObjectMeta → ObjectMeta → Bool
  same_key a b = a.namespace == b.namespace && a.name == b.name

  abbrev pub free : ObjectMeta → Slot → Exec Slot (Unit {0})
  free m none w = (err not_found, w)
  free m (some n) w = if same_key m n.0 then (ok tt, none) else (err not_found, w)

  abbrev pub keep : ObjectMeta → Result Object → Exec Slot (Unit {0})
  keep m (ok sent) w =
      if same_key m (meta sent)
      then (ok tt, some (kept sent))
      else (err (failure "the key has changed"), w)
  keep m (err e) w = (err e, w)

  abbrev pub put : Object → (Object → Result Object) → Slot → Exec Slot (Unit {0})
  put o f none w = keep (meta o) (f o) w
  put o f (some m) w =
      if same_key (meta o) m.0
      then keep (meta o) (f (unstructured (view m))) w
      else (err (failure "no room"), w)

  abbrev pub accept : Result Object → Exec Slot (Unit {0})
  accept (ok o) w = (ok tt, w)
  accept (err e) w = (err e, w)

  abbrev pub shown : String → Slot → List Unstructured
  shown ns none = []
  shown ns (some m) = if ns == m.0.namespace then view m ∷ [] else []

  abbrev pub list_type : TypeMeta
  list_type = record { kind = type.kind <> "List"; api_version = type.api_version }

  abbrev pub one_kind : Kube Slot
  one_kind = record (blank Slot) {
    get_fork = λ k w. ok sample_fork;
    get_fork_manager = λ k w. ok sample_manager;
    list_services = λ o w. elim o.label_selector [ [] ↦ ok (sample_service ∷ []) | _ ∷ _ ↦ ok [] ];
    list_deployments = λ o w. ok (sample_deployment ∷ []);
    list_unstructured =
        λ t o w. ok (if t.kind == type.kind <> "List" then shown o.namespace w else []);
    delete = λ o w. if is_kind type.kind o then free (meta o) w w else (ok tt, w);
    to_vs_config = read_config;
    create_or_update = λ o f w. if is_kind type.kind o then put o f w w else accept (f o) w;
  }

  abbrev pub IsKept : Object → Type 0
  IsKept o = is_kind type.kind o ≡ true

  abbrev pub admit : Object → Object
  admit o = unstructured (view (kept o))

  pub held-shown :
      (ns : String) (w : Slot) (name : String)
      → held w (record { namespace = ns; name = name }) ≡ named name (shown ns w)
  held-shown ns none name = refl
  held-shown ns (some m) name = ground arith

  abbrev pub IsHeld : String → Slot → Unstructured → Type 0
  IsHeld ns w u =
      IsKept (unstructured u)
      × (u.metadata.namespace ≡ ns)
      × (held w (record { namespace = ns; name = u.metadata.name }) ≡ some (unstructured u))

  view-IsKept : (m : Kept) → IsKept (unstructured (view m))
  view-IsKept m = eq_self type.kind

  pub shown-IsHeld : (ns : String) (w : Slot) → All (IsHeld ns w) (shown ns w)
  shown-IsHeld ns none = tt
  shown-IsHeld ns (some m) = elim (string_eq.dec ns m.0.namespace) [
    | yes e ↦
        let only : shown ns (some m) ≡ view m ∷ [] = ground arith in
        subst (All (IsHeld ns (some m))) (sym only) ((view-IsKept m, sym e, ground arith), tt)
    | no n ↦
        let nothing : shown ns (some m) ≡ [] = ground arith in
        subst (All (IsHeld ns (some m))) (sym nothing) tt
  ]

  pub free-held :
      (m : ObjectMeta) (o : Object) (w w' : Slot)
      → meta o ≡ m
      → free m w w ≡ (ok tt, w')
      → (k : NamespacedName) → held w' k ≡ (if is_at k o then none else held w k)
  free-held m o none w' e h k = cc
  free-held m o (some n) w' e h k = ground arith

  keep-eq-ok :
      (m : ObjectMeta) (r : Result Object) (w w' : Slot)
      → keep m r w ≡ (ok tt, w')
      → (sent : Object) × (r ≡ ok sent) × (same_key m (meta sent) ≡ true) × (w' ≡ some (kept sent))
  keep-eq-ok m (ok sent) w w' h = (sent, refl, ground arith, ground arith)
  keep-eq-ok m (err e) w w' h = cc

  abbrev pub Written : Object → (Object → Result Object) → Slot → Slot → Type 0
  Written o f w w' =
      (found sent : Object) × ((meta found).namespace ≡ (meta o).namespace)
      × ((meta found).name ≡ (meta o).name)
      × (f found ≡ ok sent)
      × ((k : NamespacedName) → held w' k ≡ (if is_at k o then some (admit sent) else held w k))

  pub put-Written :
      (o : Object) (f : Object → Result Object) (w w' : Slot)
      → put o f w w ≡ (ok tt, w')
      → Written o f w w'
  put-Written o f none w' h =
      let (sent, built, same, e) = keep-eq-ok (meta o) (f o) none w' h in
      (o, sent, refl, refl, built, λ k. rw e (ground arith))
  put-Written o f (some m) w' h =
      let (sent, built, same, e) =
        keep-eq-ok (meta o) (f (unstructured (view m))) (some m) w' (ground arith) in
      (unstructured (view m), sent, ground arith, ground arith, built, λ k. rw e (ground arith))

  pub listed-shown :
      (ns : String) (w : Slot) (us : List Unstructured)
      → one_kind.list_unstructured list_type (record { namespace = ns; label_selector = [] }) w
        ≡ ok us
      → shown ns w ≡ us
  listed-shown ns w us e = ground (arith, ok-injective e, eq_self (type.kind <> "List"))

  unfoldable pub one_kind_tracks : (ns : String) → Tracks one_kind list_type ns IsKept held
  one_kind_tracks ns = record {
    admit = admit;
    listed = λ w us e name. held-shown ns w name ∙ ap (named name) (listed-shown ns w us e);
    listed_all = λ w us e. subst (All (IsHeld ns w)) (listed-shown ns w us e) (shown-IsHeld ns w);
    deleted = λ o w w' is h k. free-held (meta o) o w w' refl (rw is at h) k;
    written = λ o f w w' is h. put-Written o f w w' (rw is at h);
  }

  accept-keeps : (P : Slot → Type 0) (r : Result Object) (w : Slot) → P w → P (accept r w).1
  accept-keeps P (ok o) w p = p
  accept-keeps P (err e) w p = p

  other_kinds :
      (b : Bool) (us vs : List Unstructured)
      → b ≡ false
      → ok (if b then us else []) ≡ ok vs
      → [] ≡ vs
  other_kinds b us vs other e = ground arith

  pub one_kind-KindApart :
      (k : NamespacedName) (v : Option Object) → KindApart one_kind type.kind (λ w. held w k ≡ v)
  one_kind-KindApart k v = record {
    deleted = λ o other w p. rw other p;
    written = λ o f other w p. rw other (accept-keeps (λ u. held u k ≡ v) (f o) w p);
    listed = λ t options w us other e.
        subst (All (λ u. is_kind type.kind (unstructured u) ≡ false))
          (other_kinds _ (shown options.namespace w) us other e) tt;
    like = λ o other. is_kind-set_meta type.kind (named_in "" "") o ∙ other;
  }
