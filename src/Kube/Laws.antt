-- ===== src/Kube/Laws.antt =====
-- What the documentation of the Kubernetes API and of its Go libraries promises, as far as the
-- theorems rest on it. `stored w k` is the object of one kind that the server holds under `k`, and
-- `Is` says of an object that it is of that kind.
use kubefork_controller.Base.{
  String, ◌≡◌, Bool, Option, none, some, List, [], ◌∷◌, All, string_eq, ◌==◌, ◌&&◌, if◌then◌else◌,
}
use kubefork_controller.Base.Result.{Result, ok}
use kubefork_controller.Api.{NamespacedName, TypeMeta}
use kubefork_controller.Kube.{Kube, Object, unstructured, Unstructured, meta}

abbrev pub is_at : NamespacedName → Object → Bool
is_at k o = k.namespace == (meta o).namespace && k.name == (meta o).name

-- The object of a list that has the name.
abbrev pub named : String → List Unstructured → Option Object
named name [] = none
named name (u ∷ us) =
    let rest = named name us in if name == u.metadata.name then some (unstructured u) else rest

module _ {W : Type 0} (kube : Kube W) (list_kind : TypeMeta) (space : String) (Is : Object → Type 0)
    (stored : W → NamespacedName → Option Object) where
  -- The list of the namespace `space` holds its objects, and a write or a deletion that succeeds is
  -- seen at its key and at no other. What is sent is completed by the server: `admit`. No object has
  -- finalizers, for which a deletion would wait.
  pub record Tracks : Type 0 where
    pub admit : Object → Object
    pub listed :
        (w : W) (us : List Unstructured)
        → kube.list_unstructured list_kind (record { namespace = space; label_selector = [] }) w
          ≡ ok us
        → (name : String) → stored w (record { namespace = space; name = name }) ≡ named name us
    pub listed_all :
        (w : W) (us : List Unstructured)
        → kube.list_unstructured list_kind (record { namespace = space; label_selector = [] }) w
          ≡ ok us
        → All
            (λ u.
              Is (unstructured u)
              × (u.metadata.namespace ≡ space)
              × (stored w (record { namespace = space; name = u.metadata.name })
                  ≡ some (unstructured u)))
            us
    pub deleted :
        (o : Object) (w w' : W)
        → Is o
        → kube.delete o w ≡ (ok tt, w')
        → (k : NamespacedName) → stored w' k ≡ (if is_at k o then none else stored w k)
    pub written :
        (o : Object) (f : Object → Result Object) (w w' : W)
        → Is o
        → kube.create_or_update o f w ≡ (ok tt, w')
        → (found sent : Object) × ((meta found).namespace ≡ (meta o).namespace)
          × ((meta found).name ≡ (meta o).name)
          × (f found ≡ ok sent)
          × ((k : NamespacedName)
              → stored w' k ≡ (if is_at k o then some (admit sent) else stored w k))
