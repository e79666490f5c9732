-- ===== src/Base/Text.antt =====
-- The functions of Go's `strings` that the program calls, by the characters of a string.
-- The names of Kubernetes objects are ASCII, so that a character is a byte.
use Prim.Native.Nat.{ℕ, zero, suc, ◌≤◌}
use Prim.Native.Char.{Char, code}
use Prim.Native.String.{String, [], ◌∷◌, ◌++◌ as ◌<>◌, count}
use mathlib.Core.Path.{◌≡◌, refl, ap, ◌∙◌}
use mathlib.Core.Logic.{◌≢◌}
use mathlib.Core.Bool.{◌&&◌}
use mathlib.Core.List.{List, [], ◌∷◌}
use native.Mathlib.Omega.{arith}
use native.Mathlib.Decide.{ℕ_discrete}
use text.Mathlib.TextEquality.{Char-path}
use text.Mathlib.TextLemmas.{nil-append, cons-append, length-nil, length-cons}
use kubefork_controller.Base.Equality.{if◌then◌else◌, ◌==◌, nat_eq}
use kubefork_controller.Base.Lists.{All}

abbrev pub cons_head : Char → List String → List String
cons_head c [] = (c ∷ []) ∷ []
cons_head c (p ∷ ps) = (c ∷ p) ∷ ps

-- `strings.Split` at a separator of one character.
unfoldable pub split : ℕ → String → List String
split sep [] = "" ∷ []
split sep (c ∷ s) = let rest = split sep s in if code c == sep then "" ∷ rest else cons_head c rest

-- `strings.Split` at a separator of two characters.
unfoldable pub split_two : ℕ → ℕ → String → List String
split_two a b [] = "" ∷ []
split_two a b (c ∷ []) = (c ∷ []) ∷ []
split_two a b (c ∷ d ∷ s) =
    let cut = split_two a b s in
    let kept = split_two a b (d ∷ s) in
    if code c == a && code d == b then "" ∷ cut else cons_head c kept

-- `parts[0]`. No result of `Split` is empty.
abbrev pub first_part : List String → String
first_part [] = ""
first_part (p ∷ _) = p

-- `strings.ReplaceAll` of one character by another.
unfoldable pub replace_all : Char → Char → String → String
replace_all old new [] = []
replace_all old new (c ∷ s) = (if code c == code old then new else c) ∷ replace_all old new s

-- `s[:n]`, for `n` up to the length; the whole of `s` past it.
unfoldable pub take : ℕ → String → String
take zero s = []
take (suc n) [] = []
take (suc n) (c ∷ s) = c ∷ take n s

abbrev pub Lacks : ℕ → String → Type 0
Lacks sep [] = Unit
Lacks sep (c ∷ s) = (code c ≢ sep) × Lacks sep s

pub char-append : (c : Char) (s : String) → (c ∷ []) <> s ≡ c ∷ s
char-append c s = cons-append c [] s ∙ ap (λ t. c ∷ t) (nil-append s)

pub split-append :
    (sep : Char) (a b : String)
    → Lacks (code sep) a
    → split (code sep) (a <> (sep ∷ b)) ≡ a ∷ split (code sep) b
unfolding split
split-append sep [] b _ = rw nil-append (ground arith)
split-append sep (c ∷ a) b (p, h) = rw (cons-append, split, split-append sep a b h) (ground arith)

pub split_of_Lacks : (sep : ℕ) (a : String) → Lacks sep a → split sep a ≡ a ∷ []
unfolding split
split_of_Lacks sep [] _ = refl
split_of_Lacks sep (c ∷ a) (p, h) = rw (split, split_of_Lacks sep a h) (ground arith)

-- The parts in a row, with the separator between them: `strings.Join`.
abbrev pub join : Char → List String → String
join sep [] = ""
join sep (p ∷ []) = p
join sep (p ∷ q ∷ ps) = p <> (sep ∷ join sep (q ∷ ps))

Lacks-cons_head :
    (sep : ℕ) (c : Char) (ps : List String)
    → code c ≢ sep
    → All (Lacks sep) ps
    → All (Lacks sep) (cons_head c ps)
Lacks-cons_head sep c [] p h = ((p, tt), tt)
Lacks-cons_head sep c (q ∷ ps) p (k, h) = ((p, k), h)

join-cons_head : (sep c : Char) (ps : List String) → join sep (cons_head c ps) ≡ c ∷ join sep ps
join-cons_head sep c [] = refl
join-cons_head sep c (p ∷ []) = refl
join-cons_head sep c (p ∷ q ∷ ps) = cons-append c p _

pub split-cons : (sep : ℕ) (s : String) → (p : String) × (ps : List String) × (split sep s ≡ p ∷ ps)
unfolding split
split-cons sep [] = ("", [], refl)
split-cons sep (c ∷ s) = elim (ℕ_discrete (code c) sep) [
  | yes e ↦ ("", split sep s, ground arith)
  | no n ↦ let (p, ps, e) = split-cons sep s in (c ∷ p, ps, rw e (ground arith))
]

split_at_sep :
    (sep : ℕ) (c : Char) (s : String) → code c ≡ sep → split sep (c ∷ s) ≡ "" ∷ split sep s
unfolding split
split_at_sep sep c s e = ground arith

split_at_other :
    (sep : ℕ) (c : Char) (s : String) → code c ≢ sep → split sep (c ∷ s) ≡ cons_head c (split sep s)
unfolding split
split_at_other sep c s n = ground arith

join-nil-cons :
    (sep : Char) (ps : List String)
    → (p : String) × (qs : List String) × (ps ≡ p ∷ qs)
    → join sep ("" ∷ ps) ≡ sep ∷ join sep ps
join-nil-cons sep ps (p, qs, e) = rw e (nil-append _)

-- To join the parts again gives the text.
pub join-split : (sep : Char) (s : String) → join sep (split (code sep) s) ≡ s
join-split sep [] = unfold split in refl
join-split sep (c ∷ s) = elim (ℕ_discrete (code c) (code sep)) [
  | yes e ↦
      rw
        (
          split_at_sep (code sep) c s e,
          join-nil-cons sep (split (code sep) s) (split-cons (code sep) s),
          join-split sep s,
        )
        (cc (Char-path c sep e))
  | no n ↦ rw (split_at_other (code sep) c s n, join-cons_head, join-split sep s)
]

-- No part holds the separator.
pub split-Lacks : (sep : ℕ) (s : String) → All (Lacks sep) (split sep s)
unfolding split
split-Lacks sep [] = (tt, tt)
split-Lacks sep (c ∷ s) = ground (arith, split-Lacks sep s, Lacks-cons_head sep c (split sep s))

pub length-take : (n : ℕ) (s : String) → count (take n s) ≤ n
unfolding take
length-take zero s = rw length-nil (omega arith)
length-take (suc n) [] = rw length-nil (omega arith)
length-take (suc n) (c ∷ s) = rw length-cons (omega (arith, length-take n s))
