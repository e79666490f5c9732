-- ===== src/Mappings/Options.antt =====
-- The headers and the upgrades of a Mapping of domain/updater/mapping.go, against the gateway options
-- of the Forks that share it.
use kubefork_controller.Base.{
  String, ◌≡◌, refl, Bool, true, false, ◌||◌, ◌&&◌, Option, none, some, List, [], ◌∷◌, ◌++◌,
  string_eq, ◌==◌, any, contains, contains-append, All, if◌then◌else◌, arith, ◌∙◌, ap,
}
use kubefork_controller.Base.GoMap.{
  GoMap, lookup, insert, or_else, lookup-insert, lookup-cons, lookup-nil, NodupKeys,
}
use kubefork_controller.Api.{Fork, GatewayOptions, ForkManager, Upstream, MappingSpec}
use kubefork_controller.Mappings.{
  apply_headers, apply_gateway_options, apply_options_to_mapping, apply_all, base_headers,
  base_spec,
}

-- What a Fork asks for: its header under a key, and whether it lists an upgrade beside a header.
abbrev headers_of : Option GatewayOptions → GoMap String String
headers_of none = []
headers_of (some options) = options.add_request_headers

abbrev pub has_headers : GoMap String String → Bool
has_headers [] = false
has_headers (_ ∷ _) = true

abbrev pub asks_upgrade : String → Option GatewayOptions → Bool
asks_upgrade x none = false
asks_upgrade x (some options) =
    has_headers options.add_request_headers && contains options.allow_upgrade x

abbrev pub HasNodupHeaders : Fork → Type 0
HasNodupHeaders fork = NodupKeys (headers_of fork.spec.gateway_options)

-- The header of the last Fork that has one under the key.
abbrev pub last_header : String → List Fork → Option String
last_header k [] = none
last_header k (fork ∷ forks) =
    or_else (last_header k forks) (lookup k (headers_of fork.spec.gateway_options))

abbrev pub IsSetLike : (List String → List String) → Type 0
IsSetLike sorted_set = (x : String) (l : List String) → contains (sorted_set l) x ≡ contains l x

module _ (sorted_set : List String → List String) where
  headers-apply_headers :
      (k : String) (upgrades : List String) (m : GoMap String String) (spec : MappingSpec)
      → NodupKeys m
      → lookup k (apply_headers sorted_set upgrades m spec).add_request_headers
        ≡ or_else (lookup k m) (lookup k spec.add_request_headers)
  unfolding apply_headers
  headers-apply_headers k upgrades [] spec _ = ground (arith, lookup-nil {V = String} k)
  headers-apply_headers k upgrades ((j, v) ∷ m) spec (fresh, u) =
      headers-apply_headers k upgrades m
        (record spec {
          add_request_headers = insert j v spec.add_request_headers;
          allow_upgrade = sorted_set (spec.allow_upgrade ++ upgrades);
        })
        u
      ∙ ground (arith, lookup-insert k j v spec.add_request_headers, lookup-cons k j v m)

  headers-apply_gateway_options :
      (k : String) (options : Option GatewayOptions) (spec : MappingSpec)
      → NodupKeys (headers_of options)
      → lookup k (apply_gateway_options sorted_set spec options).add_request_headers
        ≡ or_else (lookup k (headers_of options)) (lookup k spec.add_request_headers)
  headers-apply_gateway_options k none spec _ = ground (arith, lookup-nil {V = String} k)
  headers-apply_gateway_options k (some options) spec u =
      headers-apply_headers k options.allow_upgrade options.add_request_headers spec u

  headers-apply_all :
      (k : String) (forks : List Fork) (spec : MappingSpec)
      → All HasNodupHeaders forks
      → lookup k (apply_all sorted_set forks spec).add_request_headers
        ≡ or_else (last_header k forks) (lookup k spec.add_request_headers)
  unfolding apply_all apply_options_to_mapping
  headers-apply_all k [] spec _ = refl
  headers-apply_all k (fork ∷ forks) spec (u, us) =
      headers-apply_all k forks (apply_options_to_mapping sorted_set spec fork) us
      ∙ ground (arith, headers-apply_gateway_options k fork.spec.gateway_options spec u)

  module _ (set_like : IsSetLike sorted_set) where
    upgrades-apply_headers :
        (x : String) (upgrades : List String) (m : GoMap String String) (spec : MappingSpec)
        → contains (apply_headers sorted_set upgrades m spec).allow_upgrade x
          ≡ (contains spec.allow_upgrade x || (has_headers m && contains upgrades x))
    unfolding apply_headers
    upgrades-apply_headers x upgrades [] spec = ground arith
    upgrades-apply_headers x upgrades ((j, v) ∷ m) spec =
        upgrades-apply_headers x upgrades m (record spec {
          add_request_headers = insert j v spec.add_request_headers;
          allow_upgrade = sorted_set (spec.allow_upgrade ++ upgrades);
        })
        ∙ ground (
          arith,
          set_like x (spec.allow_upgrade ++ upgrades),
          contains-append spec.allow_upgrade upgrades x,
        )

    upgrades-apply_gateway_options :
        (x : String) (options : Option GatewayOptions) (spec : MappingSpec)
        → contains (apply_gateway_options sorted_set spec options).allow_upgrade x
          ≡ (contains spec.allow_upgrade x || asks_upgrade x options)
    upgrades-apply_gateway_options x none spec = ground arith
    upgrades-apply_gateway_options x (some options) spec =
        upgrades-apply_headers x options.allow_upgrade options.add_request_headers spec

    upgrades-apply_all :
        (x : String) (forks : List Fork) (spec : MappingSpec)
        → contains (apply_all sorted_set forks spec).allow_upgrade x ≡ (
            contains spec.allow_upgrade x
            || any (λ (f : Fork). asks_upgrade x f.spec.gateway_options) forks)
    unfolding apply_all apply_options_to_mapping
    upgrades-apply_all x [] spec = ground arith
    upgrades-apply_all x (fork ∷ forks) spec =
        upgrades-apply_all x forks (apply_options_to_mapping sorted_set spec fork)
        ∙ ground (arith, upgrades-apply_gateway_options x fork.spec.gateway_options spec)

module _ (sorted_set : List String → List String) (identifier : String) (upstream : Upstream)
    (fm : ForkManager) (forks : List Fork) where
  abbrev pub spec_of_forks : MappingSpec
  spec_of_forks = apply_all sorted_set forks (base_spec identifier upstream fm)

  -- If the headers that each Fork asks for stand under distinct keys, a request that passes the
  -- Mapping of these Forks gets, under each key, the header of the last Fork that asks for one. Where
  -- no Fork does, it gets the identifier under the key of the ForkManager, the authority under
  -- `x-forwarded-host`, which wins should the two keys be the same, and nothing else.
  pub lookup-spec_of_forks :
      (k : String)
      → All HasNodupHeaders forks
      → lookup k spec_of_forks.add_request_headers
        ≡ or_else (last_header k forks) (
            if k == "x-forwarded-host"
            then some "%REQ(:authority)%"
            else if k == fm.spec.header_key
            then some identifier
            else none)
  unfolding base_spec base_headers
  lookup-spec_of_forks k us =
      headers-apply_all sorted_set k forks (base_spec identifier upstream fm) us
      ∙ ap (or_else (last_header k forks)) (
          ground (
            arith,
            lookup-insert k "x-forwarded-host" "%REQ(:authority)%"
                (insert fm.spec.header_key identifier []),
            lookup-insert k fm.spec.header_key identifier [],
            lookup-nil {V = String} k,
          ))

  -- If `sets.String` keeps what is inserted and adds nothing, the upgrades that a Mapping allows are
  -- the websocket and those listed by the Forks of its identifier that also ask for a header: what a
  -- Fork lists without asking for a header is left out.
  pub contains-spec_of_forks :
      (x : String)
      → IsSetLike sorted_set
      → contains spec_of_forks.allow_upgrade x
        ≡ (x == "websocket" || any (λ (f : Fork). asks_upgrade x f.spec.gateway_options) forks)
  unfolding base_spec
  contains-spec_of_forks x set_like =
      upgrades-apply_all sorted_set set_like x forks (base_spec identifier upstream fm)
      ∙ ground arith
