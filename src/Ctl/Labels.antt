-- ===== src/Ctl/Labels.antt =====
-- The label options of kubeforkctl/domain/fork.go: what `NewSelector` reads is what was written.
use Prim.Native.Char.{Char, code}
use Prim.Native.String.{[], ◌∷◌}
use text.Mathlib.TextLemmas.{nil-append, cons-append}
use kubefork_controller.Base.{
  String, ◌<>◌, ◌≡◌, refl, sym, ap, subst, ◌∙◌, ◌≢◌, ℕ, some, List, ◌++◌, map, string_eq, nat_eq,
  All, arith,
}
use mathlib.Core.List.{[], ◌∷◌, append_assoc, append-nil}
use kubefork_controller.Base.GoMap.{GoMap, insert}
use kubefork_controller.Base.Text.{
  split, split_two, Lacks, split-append, split_of_Lacks, char-append,
}
use kubefork_controller.Base.Result.{Result, ok, ◌>>=◌}
use kubefork_controller.Api.{LabelSelectorRequirement}
use kubefork_controller.Ctl.{
  Selection, add_expression, set_label, add_parts, add_label, add_labels, new_selector,
}

-- The four forms of the documentation of `--service-label`.
pub data Label : Type 0 where
  equals : String → String → Label
  differs : String → String → Label
  present : String → Label
  missing : String → Label

unfoldable pub print : Label → String
print (equals k v) = k <> "=" <> v
print (differs k v) = k <> "!=" <> v
print (present k) = k
print (missing k) = "!" <> k

-- Neither `=` nor `!`.
abbrev pub IsPlain : String → Type 0
IsPlain s = Lacks b'=' s × Lacks b'!' s

abbrev pub IsPlainLabel : Label → Type 0
IsPlainLabel (equals k v) = IsPlain k × IsPlain v
IsPlainLabel (differs k v) = IsPlain k × IsPlain v
IsPlainLabel (present k) = IsPlain k
IsPlainLabel (missing k) = IsPlain k

-- What the options say: the labels, and the expressions in the order of the options.
abbrev with_label : Label → GoMap String String → GoMap String String
with_label (equals k v) m = insert k v m
with_label _ m = m

abbrev pub labels_of : List Label → GoMap String String → GoMap String String
labels_of [] m = m
labels_of (l ∷ ls) m = labels_of ls (with_label l m)

abbrev expression : String → String → List String → LabelSelectorRequirement
expression key operator values = record { key = key; operator = operator; values = values }

abbrev expressions_of_label : Label → List LabelSelectorRequirement
expressions_of_label (equals k v) = []
expressions_of_label (differs k v) = expression k "NotIn" (v ∷ []) ∷ []
expressions_of_label (present k) = expression k "Exists" [] ∷ []
expressions_of_label (missing k) = expression k "DoesNotExist" [] ∷ []

abbrev pub expressions_of : List Label → List LabelSelectorRequirement
expressions_of [] = []
expressions_of (l ∷ ls) = expressions_of_label l ++ expressions_of ls

Lacks-append : (sep : ℕ) (a b : String) → Lacks sep a → Lacks sep b → Lacks sep (a <> b)
Lacks-append sep [] b _ h = rw nil-append h
Lacks-append sep (c ∷ a) b (p, k) h = rw cons-append (p, Lacks-append sep a b k h)

split_two_of_Lacks : (a b : ℕ) (s : String) → Lacks a s → split_two a b s ≡ s ∷ []
unfolding split_two
split_two_of_Lacks a b [] h = refl
split_two_of_Lacks a b (c ∷ []) h = refl
split_two_of_Lacks a b (c ∷ d ∷ s) (p, h) = rw (split_two_of_Lacks a b (d ∷ s) h) (ground arith)

abbrev bang : Char
bang = "!"

abbrev equal_sign : Char
equal_sign = "="

bang_differs : code equal_sign ≢ b'!'
bang_differs e = omega arith

equal_sign_differs : code bang ≢ b'='
equal_sign_differs e = omega arith

-- The texts of the forms, with their signs as characters.
print-equals : (k v : String) → print (equals k v) ≡ k <> (equal_sign ∷ v)
unfolding print
print-equals k v = ap (λ t. k <> t) (char-append equal_sign v)

print-differs : (k v : String) → print (differs k v) ≡ k <> (bang ∷ equal_sign ∷ v)
unfolding print
print-differs k v =
    ap (λ t. k <> t) (cons-append bang "=" v ∙ ap (λ t. bang ∷ t) (char-append equal_sign v))

split-bang : (k : String) → Lacks b'!' k → split b'!' (bang ∷ k) ≡ "" ∷ k ∷ []
unfolding split nat_eq
split-bang k h = ap (λ ps. "" ∷ ps) (split_of_Lacks b'!' k h)

print-missing : (k : String) → print (missing k) ≡ bang ∷ k
unfolding print
print-missing k = char-append bang k

split_two-append :
    (a b : Char) (k v : String)
    → Lacks (code a) k
    → split_two (code a) (code b) (k <> (a ∷ b ∷ v)) ≡ k ∷ split_two (code a) (code b) v
unfolding split_two
split_two-append a b [] v _ = rw nil-append (ground arith)
split_two-append a b (c ∷ []) v (p, _) = rw (cons-append, nil-append) (ground arith)
split_two-append a b (c ∷ d ∷ k) v (p, h) =
    let rest =
      subst (λ t. split_two (code a) (code b) t ≡ (d ∷ k) ∷ split_two (code a) (code b) v)
        (cons-append d k (a ∷ b ∷ v)) (split_two-append a b (d ∷ k) v h) in
    rw (cons-append c (d ∷ k) (a ∷ b ∷ v), cons-append d k (a ∷ b ∷ v), rest) (ground arith)

split_two-bang : (k : String) → IsPlain k → split_two b'!' b'=' (bang ∷ k) ≡ (bang ∷ k) ∷ []
unfolding split_two
split_two-bang [] _ = refl
split_two-bang (d ∷ k) ((p, _), j) = rw (split_two_of_Lacks b'!' b'=' (d ∷ k) j) (ground arith)

-- What an option adds, by its form.
abbrev added : Label → Selection → Result Selection
added (equals k v) s = set_label k v s
added (differs k v) s = ok (add_expression k "NotIn" (v ∷ []) s)
added (present k) s = ok (add_expression k "Exists" [] s)
added (missing k) s = ok (add_expression k "DoesNotExist" [] s)

add_label-of :
    (l : String) (s : Selection) (not_eq eq exc : List String)
    → split_two b'!' b'=' l ≡ not_eq
    → split b'=' l ≡ eq
    → split b'!' l ≡ exc
    → add_label l s ≡ add_parts l not_eq eq exc s
unfolding add_label
add_label-of l s not_eq eq exc p q r = rw (p, q, r) refl

add_label-print : (l : Label) (s : Selection) → IsPlainLabel l → add_label (print l) s ≡ added l s
unfolding nat_eq
add_label-print (equals k v) s ((k1, k2), (v1, v2)) = rw (print-equals k v) (
    let whole = Lacks-append b'!' k (equal_sign ∷ v) k2 (bang_differs, v2) in
    add_label-of (k <> (equal_sign ∷ v)) s _ (k ∷ v ∷ []) _
      (split_two_of_Lacks b'!' b'=' (k <> (equal_sign ∷ v)) whole)
      (split-append equal_sign k v k1 ∙ ap (λ ps. k ∷ ps) (split_of_Lacks b'=' v v1))
      (split_of_Lacks b'!' (k <> (equal_sign ∷ v)) whole))
add_label-print (differs k v) s ((k1, k2), (v1, v2)) = rw (print-differs k v) (
    add_label-of (k <> (bang ∷ equal_sign ∷ v)) s (k ∷ v ∷ []) _ _
      (split_two-append bang equal_sign k v k2
        ∙ ap (λ ps. k ∷ ps) (split_two_of_Lacks b'!' b'=' v v2))
      refl refl)
add_label-print (present k) s (k1, k2) =
    unfold print in
    add_label-of k s _ _ _ (split_two_of_Lacks b'!' b'=' k k2) (split_of_Lacks b'=' k k1)
      (split_of_Lacks b'!' k k2)
add_label-print (missing k) s (k1, k2) = rw (print-missing k) (
    add_label-of (bang ∷ k) s _ _ ("" ∷ k ∷ []) (split_two-bang k (k1, k2))
      (split_of_Lacks b'=' (bang ∷ k) (equal_sign_differs, k1)) (split-bang k k2))

abbrev selection : GoMap String String → List LabelSelectorRequirement → Selection
selection m es = record { match_labels = some m; match_expressions = es }

added-selection :
    (l : Label) (m : GoMap String String) (es : List LabelSelectorRequirement)
    → added l (selection m es) ≡ ok (selection (with_label l m) (es ++ expressions_of_label l))
added-selection (equals k v) m es = ap (λ l. ok (selection (insert k v m) l)) (sym (append-nil es))
added-selection (differs k v) m es = refl
added-selection (present k) m es = refl
added-selection (missing k) m es = refl

add_labels-print :
    (ls : List Label) (m : GoMap String String) (es : List LabelSelectorRequirement)
    → All IsPlainLabel ls
    → add_labels (map print ls) (selection m es)
      ≡ ok (selection (labels_of ls m) (es ++ expressions_of ls))
unfolding add_labels
add_labels-print [] m es _ = ap (λ l. ok (selection m l)) (sym (append-nil es))
add_labels-print (l ∷ ls) m es (p, ps) =
    ap (λ r. r >>= λ t. add_labels (map print ls) t)
      (add_label-print l (selection m es) p ∙ added-selection l m es)
    ∙ add_labels-print ls (with_label l m) (es ++ expressions_of_label l) ps
    ∙ ap (λ l'. ok (selection (labels_of ls (with_label l m)) l'))
        (append_assoc es (expressions_of_label l) (expressions_of ls))

-- For options that are written in the documented forms with keys and values free of `=` and `!`, and a
-- map of labels that is not `nil`, the selector has the labels of the map, over which the `=` options
-- are written in their order, and one expression for each other option, in their order.
pub new_selector-print :
    (ls : List Label) (m : GoMap String String)
    → All IsPlainLabel ls
    → new_selector (map print ls) (some m)
      ≡ ok (record { match_labels = labels_of ls m; match_expressions = expressions_of ls })
unfolding new_selector
new_selector-print ls m plain = rw (add_labels-print ls m [] plain) refl
