-- ===== src/Tests/Blank.antt =====
-- A cluster in which nothing is found and nothing can be written, as a start for the others.
-- The functions of apimachinery that need no cluster do what their documentation says.
use kubefork_controller.Base.{
  String, Bool, true, false, ◌&&◌, Option, none, some, List, [], ◌∷◌, string_eq, ◌==◌,
  if◌then◌else◌, contains,
}
use kubefork_controller.Base.GoMap.{GoMap, lookup}
use kubefork_controller.Base.Result.{Result, ok, err, not_found, failure}
use kubefork_controller.Api.{
  ObjectMeta, TypeMeta, OwnerReference, LabelSelector, LabelSelectorRequirement,
}
use kubefork_controller.Kube.{Kube, Object, meta, set_meta, object_kind}

abbrev pub no_type : TypeMeta
no_type = record { kind = ""; api_version = "" }

abbrev pub named_in : String → String → ObjectMeta
named_in namespace name = record {
  name = name;
  namespace = namespace;
  labels = [];
  annotations = [];
  owner_references = [];
  resource_version = "";
  uid = "";
}

-- With the parent as the controller, which no other object may be.
abbrev pub owner : Object → OwnerReference
owner parent = record {
  api_version = (object_kind parent).api_version;
  kind = (object_kind parent).kind;
  name = (meta parent).name;
  uid = (meta parent).uid;
  controller = true;
}

abbrev pub own_with : Object → Object → List OwnerReference → Result Object
own_with parent o [] = ok (set_meta (record (meta o) { owner_references = owner parent ∷ [] }) o)
own_with parent o (_ ∷ _) = err (failure "already owned")

abbrev pub own : Object → Object → Result Object
own parent o = own_with parent o (meta o).owner_references

abbrev pub holds_all : GoMap String String → GoMap String String → Bool
holds_all [] labels = true
holds_all ((k, v) ∷ set) labels =
    elim (lookup k labels) [ none ↦ false | some w ↦ v == w ] && holds_all set labels

abbrev pub insert_text : String → List String → List String
insert_text s l = if contains l s then l else s ∷ l

abbrev pub as_set : List String → List String
as_set [] = []
as_set (s ∷ l) = insert_text s (as_set l)

abbrev pub equality : String → String → LabelSelectorRequirement
equality k v = record { key = k; operator = "="; values = v ∷ [] }

abbrev pub equalities : GoMap String String → List LabelSelectorRequirement
equalities [] = []
equalities ((k, v) ∷ m) = equality k v ∷ equalities m

abbrev pub requirements : Option LabelSelector → List LabelSelectorRequirement
requirements none = []
requirements (some s) = equalities s.match_labels

abbrev pub blank : (W : Type 0) → Kube W
blank W = record {
  get_fork = λ k w. err not_found;
  get_fork_manager = λ k w. err not_found;
  get_service = λ k w. err not_found;
  get_vs_config = λ k w. err not_found;
  list_forks = λ o w. ok [];
  list_fork_managers = λ o w. ok [];
  list_services = λ o w. ok [];
  list_deployments = λ o w. ok [];
  list_vs_configs = λ o w. ok [];
  list_mappings = λ o w. ok [];
  list_unstructured = λ t o w. ok [];
  delete = λ o w. (err not_found, w);
  create_or_update = λ o f w. (err (failure "read only"), w);
  set_controller_reference = own;
  convert = λ o found. ok o;
  new_like = λ o. set_meta (named_in "" "") o;
  to_vs_config = λ u. err (failure "no JSON");
  to_virtual_service = λ u. err (failure "no JSON");
  new_requirement = λ k v. ok (equality k v);
  as_selector = λ s. ok (requirements s);
  set_matches = holds_all;
  sorted_set = as_set;
}
