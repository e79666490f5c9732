-- ===== src/Mappings/Grouping.antt =====
-- The groups that domain/updater/mapping.go makes of the Forks.
use kubefork_controller.Base.{
  String, ◌≡◌, Bool, true, false, none, some, List, [], ◌∷◌, ◌++◌, string_eq, ◌==◌, is_some, any,
  filter_by, inl, inr, Option-cases, if◌then◌else◌, arith, ◌∙◌, sym,
}
use mathlib.Core.List.{append_assoc, append-nil}
use kubefork_controller.Base.GoMap.{
  GoMap, lookup, insert, values, append_to, values-append_to, lookup-insert, lookup-append_to,
  NodupKeys, insert-NodupKeys, append_to-NodupKeys, lookup-nil,
}
use kubefork_controller.Api.{Fork}
use kubefork_controller.Mappings.{group_from, group_forks_by_identifier}

abbrev pub has_identifier : String → Fork → Bool
has_identifier id f = id == f.spec.identifier

abbrev start : String → GoMap String (List Fork) → GoMap String (List Fork)
start id res = if is_some (lookup id res) then res else insert id [] res

values-start :
    (id k : String) (res : GoMap String (List Fork)) → values k (start id res) ≡ values k res
unfolding values
values-start id k res = elim (Option-cases (lookup id res)) [
  | inl missing ↦ ground (arith, lookup-insert k id [] res)
  | inr (fs, there) ↦ ground arith
]

lookup-start :
    (id k : String) (res : GoMap String (List Fork))
    → (k == id) ≡ false
    → lookup k (start id res) ≡ lookup k res
lookup-start id k res differs = elim (Option-cases (lookup id res)) [
  | inl missing ↦ ground (arith, lookup-insert k id [] res)
  | inr (fs, there) ↦ ground arith
]

start-NodupKeys :
    (id : String) (res : GoMap String (List Fork)) → NodupKeys res → NodupKeys (start id res)
start-NodupKeys id res u =
    elim (is_some (lookup id res)) as (λ b. NodupKeys (if b then res else insert id [] res)) [
      | true ↦ u
      | false ↦ insert-NodupKeys id [] res u
    ]

values-group_from :
    (id : String) (forks : List Fork) (res : GoMap String (List Fork))
    → values id (group_from forks res) ≡ values id res ++ filter_by (has_identifier id) forks
unfolding group_from
values-group_from id [] res = sym (append-nil (values id res))
values-group_from id (f ∷ forks) res =
    values-group_from id forks (append_to f.spec.identifier f (start f.spec.identifier res))
    ∙ ground (
      arith,
      values-append_to id f.spec.identifier f (start f.spec.identifier res),
      values-start f.spec.identifier id res,
      append_assoc (values id res) (f ∷ []) (filter_by (has_identifier id) forks),
    )

is_some-group_from :
    (id : String) (forks : List Fork) (res : GoMap String (List Fork))
    → is_some (lookup id (group_from forks res))
      ≡ (if is_some (lookup id res) then true else any (has_identifier id) forks)
unfolding group_from
is_some-group_from id [] res = ground arith
is_some-group_from id (f ∷ forks) res =
    is_some-group_from id forks (append_to f.spec.identifier f (start f.spec.identifier res))
    ∙ ground (
      arith,
      lookup-append_to id f.spec.identifier f (start f.spec.identifier res),
      lookup-start f.spec.identifier id res,
    )

group_from-NodupKeys :
    (forks : List Fork) (res : GoMap String (List Fork))
    → NodupKeys res
    → NodupKeys (group_from forks res)
unfolding group_from
group_from-NodupKeys [] res u = u
group_from-NodupKeys (f ∷ forks) res u =
    group_from-NodupKeys forks (append_to f.spec.identifier f (start f.spec.identifier res)) (
      append_to-NodupKeys f.spec.identifier f (start f.spec.identifier res)
        (start-NodupKeys f.spec.identifier res u))

module _ (forks : List Fork) where
  -- Under each identifier stand the Forks that have it, all of them, in the order of the list; an
  -- identifier that no Fork has is no key, and no key stands twice.
  pub group_forks_by_identifier_lem :
      ((id : String)
        → lookup id (group_forks_by_identifier forks) ≡ (
            if any (has_identifier id) forks
            then some (filter_by (has_identifier id) forks)
            else none))
      × NodupKeys (group_forks_by_identifier forks)
  unfolding group_forks_by_identifier values
  group_forks_by_identifier_lem = (
    λ id. ground (
      arith,
      values-group_from id forks [],
      is_some-group_from id forks [],
      lookup-nil {V = List Fork} id,
    ),
    group_from-NodupKeys forks [] tt,
  )
