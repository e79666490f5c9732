-- ===== src/Ctl.antt =====
-- kubeforkctl/: the command that prints the manifest of a Fork, from its options.
pub mod Labels
pub mod Manifest
use kubefork_controller.Base.{
  String, ◌<>◌, ℕ, ◌+◌, ◌*◌, Bool, Option, none, some, List, [], ◌∷◌, ◌++◌, map, length, string_eq,
  nat_eq, ◌==◌, ◌&&◌, if◌then◌else◌,
}
use Prim.Native.Nat.{◌%◌}
use kubefork_controller.Base.GoMap.{GoMap, insert, insert_all, lookup, keys}
use kubefork_controller.Base.Text.{split, split_two, first_part}
use kubefork_controller.Base.Result.{Result, ok, err, malformed_label, nil_map_write, ◌>>=◌}
use kubefork_controller.Api.{
  LabelSelector, LabelSelectorRequirement, EnvVar, Container, Fork, ObjectMeta, TypeMeta, Int32,
  Time,
}
use kubefork_controller.Application.Services.{new_meta}

-- `parts[1]`, of two parts.
abbrev pub second_part : List String → String
second_part (_ ∷ p ∷ _) = p
second_part _ = ""

-- What the loop of `NewSelector` fills. The map of labels that it is given may be `nil`.
pub record Selection : Type 0 where
  pub match_labels : Option (GoMap String String)
  pub match_expressions : List LabelSelectorRequirement

abbrev pub add_expression : String → String → List String → Selection → Selection
add_expression key operator values s = record s {
  match_expressions =
      s.match_expressions ++ record { key = key; operator = operator; values = values } ∷ [];
}

abbrev pub set_label : String → String → Selection → Result Selection
set_label key value s = elim s.match_labels [
  | none ↦ err nil_map_write
  | some labels ↦ ok (record s { match_labels = some (insert key value labels) })
]

-- One round, from the label and what it is split into at `!=`, `=` and `!`.
abbrev pub add_parts :
    String → List String → List String → List String → Selection → Result Selection
add_parts l arr_not_eq arr_eq arr_exc s =
    if length arr_not_eq == 2
    then ok (add_expression (first_part arr_not_eq) "NotIn" (second_part arr_not_eq ∷ []) s)
    else if length arr_eq == 1 && length arr_exc == 1
    then ok (add_expression l "Exists" [] s)
    else if length arr_eq == 1 && length arr_exc == 2
    then ok (add_expression (second_part arr_exc) "DoesNotExist" [] s)
    else if length arr_eq == 2 && length arr_exc == 1
    then set_label (first_part arr_eq) (second_part arr_eq) s
    else err (malformed_label l)

unfoldable pub add_label : String → Selection → Result Selection
add_label l s = add_parts l (split_two b'!' b'=' l) (split b'=' l) (split b'!' l) s

unfoldable pub add_labels : List String → Selection → Result Selection
add_labels [] s = ok s
add_labels (l ∷ ls) s = let rest = λ (t : Selection). add_labels ls t in add_label l s >>= rest

abbrev pub entries_of : Option (GoMap String String) → GoMap String String
entries_of none = []
entries_of (some labels) = labels

-- `NewSelector`
unfoldable pub new_selector : List String → Option (GoMap String String) → Result LabelSelector
unfolding add_labels
new_selector from_option from_name =
    add_labels from_option (record { match_labels = from_name; match_expressions = [] }) >>= λ s.
    ok
      (record { match_labels = entries_of s.match_labels; match_expressions = s.match_expressions })

-- `NewContainers`
unfoldable pub new_containers : String → List String → List EnvVar → List Container
new_containers image names env =
    map (λ name. record { name = name; image = image; env = env }) names

-- The loop of `NewEnv`, over the entries in the order of the loop.
unfoldable pub env_of : GoMap String String → List EnvVar
env_of [] = []
env_of ((k, v) ∷ m) = record { name = k; value = v } ∷ env_of m

unfoldable pub new_env : String → GoMap String String → List EnvVar
unfolding env_of
new_env identifier env_map =
    record { name = "FORK_IDENTIFIER"; value = identifier } ∷ env_of env_map

-- `Merge`: the second map wins.
unfoldable pub merge : GoMap String String → GoMap String String → GoMap String String
merge m1 m2 = insert_all (insert_all [] m1) m2
