-- ===== src/Mappings.antt =====
-- domain/updater/mapping.go: the Ambassador Mappings of a ForkManager, one for each upstream and each
-- identifier of a Fork. The order in which Go's `range` meets the entries of a map is a parameter.
pub mod Grouping
pub mod Options
pub mod Candidates
pub mod Made
pub mod Stored
pub mod Settled
use Prim.Native.Char.{Char}
use kubefork_controller.Base.{
  String, ◌<>◌, Bool, Option, none, some, List, [], ◌∷◌, ◌++◌, string_eq, ◌==◌, ◌&&◌, is_some,
  filter_by, not, true, false, if◌then◌else◌,
}
use kubefork_controller.Base.GoMap.{GoMap, lookup, insert, values, append_to}
use kubefork_controller.Base.Text.{split, first_part, replace_all}
use kubefork_controller.Base.Result
use kubefork_controller.Base.Result.{Result, ok, err, unsupported_type}
use kubefork_controller.Base.Exec.{Exec, pure, lift, read, ◌>>=◌, ◌>>◌, for_each}
use kubefork_controller.Api.{
  NamespacedName, TypeMeta, ObjectMeta, Fork, GatewayOptions, ForkManager, Upstream, Mapping,
  MappingSpec,
}
use kubefork_controller.Kube.{Kube, Object, mapping, fork_manager}
use kubefork_controller.Application.Services.{new_meta}

abbrev pub label_key : String
label_key = "fork.k8s.wantedly.com/manager"

abbrev pub mapping_kind : TypeMeta
mapping_kind = record { kind = ""; api_version = "" }

-- `groupForksByIdentifier`
unfoldable pub group_from : List Fork → GoMap String (List Fork) → GoMap String (List Fork)
group_from [] res = res
group_from (f ∷ forks) res =
    let started =
      if is_some (lookup f.spec.identifier res) then res else insert f.spec.identifier [] res in
    group_from forks (append_to f.spec.identifier f started)

unfoldable pub group_forks_by_identifier : List Fork → GoMap String (List Fork)
unfolding group_from
group_forks_by_identifier forks = group_from forks []

-- `trimPort`
unfoldable pub trim_port : String → String
trim_port target = first_part (split b':' target)

unfoldable pub mapping_key : String → Upstream → String
mapping_key identifier upstream = replace_all "." "-" (upstream.host <> "-" <> identifier)

-- A set of names: the keys of a `map[types.NamespacedName]struct{}`.
abbrev pub same_name : NamespacedName → NamespacedName → Bool
same_name a b = a.namespace == b.namespace && a.name == b.name

abbrev pub has_name : List NamespacedName → NamespacedName → Bool
has_name [] n = false
has_name (x ∷ xs) n = if same_name n x then true else has_name xs n

unfoldable pub insert_name : NamespacedName → List NamespacedName → List NamespacedName
insert_name n ns = if has_name ns n then ns else n ∷ ns

unfoldable pub erase_name : NamespacedName → List NamespacedName → List NamespacedName
erase_name n ns = filter_by (λ x. not (same_name n x)) ns

abbrev pub name_of : Mapping → NamespacedName
name_of mp = record { namespace = mp.metadata.namespace; name = mp.metadata.name }

unfoldable pub delete_candidates : List Mapping → List NamespacedName → List NamespacedName
unfolding insert_name
delete_candidates [] candidates = candidates
delete_candidates (mp ∷ mps) candidates =
    delete_candidates mps (insert_name (name_of mp) candidates)

abbrev pub empty_spec : MappingSpec
empty_spec = record {
  add_request_headers = [];
  allow_upgrade = [];
  ambassador_id = [];
  host = "";
  prefix = "";
  rewrite = none;
  service = "";
  host_rewrite = "";
  timeout_ms = 0;
}

abbrev pub blank_mapping : String → String → Mapping
blank_mapping namespace name = record {
  type_meta = mapping_kind;
  metadata = new_meta namespace name;
  spec = empty_spec;
}

unfoldable pub base_headers : String → ForkManager → GoMap String String
base_headers identifier fm =
    insert "x-forwarded-host" "%REQ(:authority)%" (insert fm.spec.header_key identifier [])

unfoldable pub service_of : Upstream → String
service_of upstream =
    if upstream.original == "" then "https://" <> upstream.host else upstream.original

unfoldable pub host_rewrite_of : Upstream → String
host_rewrite_of upstream =
    if not (upstream.original == "")
    then if not (upstream.host_rewrite == "")
      then upstream.host_rewrite
      else trim_port upstream.original
    else ""

unfoldable pub base_spec : String → Upstream → ForkManager → MappingSpec
base_spec identifier upstream fm = record {
  add_request_headers = base_headers identifier fm;
  allow_upgrade = "websocket" ∷ [];
  ambassador_id = fm.spec.ambassador_id ∷ [];
  host = identifier <> "." <> upstream.host;
  prefix = "/";
  rewrite = some "";
  service = service_of upstream;
  host_rewrite = host_rewrite_of upstream;
  timeout_ms = 90000;
}

module _ (sorted_set : List String → List String) where
  -- The loop of `applyOptionsToMapping`: the upgrades are added within it.
  unfoldable pub apply_headers : List String → GoMap String String → MappingSpec → MappingSpec
  apply_headers upgrades [] spec = spec
  apply_headers upgrades ((k, v) ∷ headers) spec = apply_headers upgrades headers (record spec {
    add_request_headers = insert k v spec.add_request_headers;
    allow_upgrade = sorted_set (spec.allow_upgrade ++ upgrades);
  })

  abbrev pub apply_gateway_options : MappingSpec → Option GatewayOptions → MappingSpec
  apply_gateway_options spec none = spec
  apply_gateway_options spec (some options) =
      apply_headers options.allow_upgrade options.add_request_headers spec

  unfoldable pub apply_options_to_mapping : MappingSpec → Fork → MappingSpec
  apply_options_to_mapping spec fork = apply_gateway_options spec fork.spec.gateway_options

  unfoldable pub apply_all : List Fork → MappingSpec → MappingSpec
  apply_all [] spec = spec
  apply_all (fork ∷ forks) spec = apply_all forks (apply_options_to_mapping spec fork)

abbrev pub desired_name : ForkManager → String → Upstream → NamespacedName
desired_name fm identifier upstream = record {
  namespace = fm.metadata.namespace;
  name = mapping_key identifier upstream;
}

module _ {W : Type 0} (kube : Kube W) (manager_slug : NamespacedName) (fm : ForkManager) where
  -- The function given to `CreateOrUpdate`.
  unfoldable pub mutate_mapping : String → List Fork → Upstream → Object → Result Object
  mutate_mapping identifier forks upstream (mapping mp) =
      kube.set_controller_reference (fork_manager fm) (
        mapping (record mp {
          metadata = record (mp.metadata) { labels = (label_key, manager_slug.name) ∷ [] };
          spec = apply_all kube.sorted_set forks (base_spec identifier upstream fm);
        }))
  mutate_mapping identifier forks upstream _ = err unsupported_type

  -- The loop over the upstreams, with what is left of the candidates.
  unfoldable pub write_upstreams :
      String → List Fork → List Upstream → List NamespacedName → Exec W (List NamespacedName)
  write_upstreams identifier forks [] candidates = pure candidates
  write_upstreams identifier forks (upstream ∷ upstreams) candidates =
      let rest =
        write_upstreams identifier forks upstreams
          (erase_name (desired_name fm identifier upstream) candidates) in
      kube.create_or_update
        (mapping (blank_mapping fm.metadata.namespace (mapping_key identifier upstream)))
        (mutate_mapping identifier forks upstream)
      >> rest

  -- The loop over the groups.
  unfoldable pub write_groups :
      GoMap String (List Fork) → List NamespacedName → Exec W (List NamespacedName)
  write_groups [] candidates = pure candidates
  write_groups ((identifier, forks) ∷ groups) candidates =
      let rest = λ (left : List NamespacedName). write_groups groups left in
      write_upstreams identifier forks fm.spec.upstreams candidates >>= rest

module _ {W : Type 0} (kube : Kube W) where
  unfoldable pub delete_mapping : NamespacedName → Exec W (Unit {0})
  delete_mapping n = kube.delete (mapping (blank_mapping n.namespace n.name))

module _ {W : Type 0} (kube : Kube W) (range : (V : Type 0) → GoMap String V → GoMap String V)
    (range_names : List NamespacedName → List NamespacedName) where
  unfoldable pub update : NamespacedName → Exec W (Unit {0})
  update manager_slug = do
    fm ← read (kube.get_fork_manager manager_slug)
    frks ← read (kube.list_forks (record { namespace = ""; label_selector = [] }))
    req ← lift (kube.new_requirement label_key manager_slug.name)
    mps ← read (kube.list_mappings (record { namespace = ""; label_selector = req ∷ [] }))
    left ←
        write_groups kube manager_slug fm (range (List Fork) (group_forks_by_identifier frks))
          (delete_candidates mps [])
    for_each (delete_mapping kube) (range_names left)

  unfoldable pub update_all : Exec W (Unit {0})
  update_all = do
    managers ← read (kube.list_fork_managers (record { namespace = ""; label_selector = [] }))
    for_each
        (λ (item : ForkManager).
          update (record { namespace = item.metadata.namespace; name = item.metadata.name }))
        managers
