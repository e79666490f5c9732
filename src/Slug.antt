-- ===== src/Slug.antt =====
-- The field `manager` of a Fork, "<namespace>/<name>": read by domain/lister/internal/builder.go and
-- by controllers/fork_controller.go.
use Prim.Native.Char.{Char}
use text.Mathlib.TextLemmas.{nil-append, cons-append}
use Prim.Native.String.{◌∷◌ as ◌∷ᶜ◌}
use kubefork_controller.Base.{
  String, ◌<>◌, ◌≡◌, ap, sym, subst, ◌∙◌, All, ◌↔◌, List, [], ◌∷◌, arith,
}
use kubefork_controller.Base.Text.{
  split, Lacks, split-append, split_of_Lacks, join, join-split, split-Lacks,
}
use kubefork_controller.Base.Result.{Result, ok, err, malformed_manager}
use kubefork_controller.Api.{NamespacedName}

abbrev pub slug_of_parts : List String → Result NamespacedName
slug_of_parts (namespace ∷ name ∷ []) = ok (record { namespace = namespace; name = name })
slug_of_parts _ = err malformed_manager

unfoldable pub parse_manager : String → Result NamespacedName
parse_manager manager = slug_of_parts (split b'/' manager)

abbrev slash : Char
slash = "/"

parts_of_slug :
    (parts : List String) (slug : NamespacedName)
    → slug_of_parts parts ≡ ok slug
    → parts ≡ slug.namespace ∷ slug.name ∷ []
parts_of_slug (namespace ∷ name ∷ []) slug h = ground arith
parts_of_slug _ slug h = cc

slash-append : (s : String) → "/" <> s ≡ (slash ∷ᶜ s)
slash-append s = cons-append slash "" s ∙ ap (λ t. slash ∷ᶜ t) (nil-append s)

-- A text is accepted exactly when it is a namespace and a name with one slash between them, neither
-- of which holds a slash; the slug is those two.
pub parse_manager_iff :
    (manager : String) (slug : NamespacedName)
    → (parse_manager manager ≡ ok slug) ↔ (
        (manager ≡ slug.namespace <> "/" <> slug.name)
        × Lacks b'/' slug.namespace
        × Lacks b'/' slug.name)
unfolding parse_manager
parse_manager_iff manager slug = (
  λ h.
      let parts = parts_of_slug (split b'/' manager) slug h in
      let (p, (q, _)) = subst (All (Lacks b'/')) parts (split-Lacks b'/' manager) in
      (
        sym (join-split slash manager)
            ∙ ap (join slash) parts
            ∙ ap (λ t. slug.namespace <> t) (sym (slash-append slug.name)),
        p,
        q,
      ),
  λ (e, p, q).
      let parts =
        split-append slash slug.namespace slug.name p
        ∙ ap (λ l. slug.namespace ∷ l) (split_of_Lacks b'/' slug.name q) in
      rw (e, slash-append slug.name) (ap slug_of_parts parts),
)
