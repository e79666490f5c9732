-- ===== src/Base/Order.antt =====
-- Go's `<` on strings: the order of their bytes, which is that of the characters.
use Prim.Native.Nat.{ℕ, Ordering, compare as compare_ℕ}
use Prim.Native.Char.{Char, code}
use Prim.Native.String.{String, [], ◌∷◌, compare, then}
use Prim.Native.String.compare
use mathlib.Core.Path.{◌≡◌, refl, sym, ap, subst, ◌∙◌}
use mathlib.Core.Logic.{inl, inr}
use mathlib.Core.Bool.{Bool, true, false, ◌&&◌, ◌||◌}
use native.Mathlib.Omega.{arith}
use text.Mathlib.Text.{is_lt}
use text.Mathlib.TextEquality.{Char-path}
use kubefork_controller.Base.Equality.{◌==◌, nat_eq, ltb, Bool-cases}

-- `s < t`
unfoldable pub before : String → String → Bool
before s t = is_lt (compare s t)

is_lt-then :
    (m n : ℕ) (o : Ordering) → is_lt (then (compare_ℕ m n) o) ≡ (ltb m n || (m == n && is_lt o))
is_lt-then m n o = ground arith

before-cons :
    (c d : Char) (s t : String)
    → before (c ∷ s) (d ∷ t) ≡ (ltb (code c) (code d) || (code c == code d && before s t))
unfolding before
before-cons c d s t =
    ap is_lt (compare.cons-cons c d s t) ∙ is_lt-then (code c) (code d) (compare s t)

before-nil-nil : before [] [] ≡ false
unfolding before
before-nil-nil = ap is_lt compare.nil-nil

before-nil-cons : (d : Char) (t : String) → before [] (d ∷ t) ≡ true
unfolding before
before-nil-cons d t = ap is_lt (compare.nil-cons d t)

before-cons-nil : (c : Char) (s : String) → before (c ∷ s) [] ≡ false
unfolding before
before-cons-nil c s = ap is_lt (compare.cons-nil c s)

pub before_trans : (s t u : String) → before s t ≡ true → before t u ≡ true → before s u ≡ true
before_trans s [] [] p q = ground (arith, before-nil-nil)
before_trans s (d ∷ t) [] p q = ground (arith, before-cons-nil d t)
before_trans [] t (e ∷ u) p q = before-nil-cons e u
before_trans (c ∷ s) [] (e ∷ u) p q = ground (arith, before-cons-nil c s)
before_trans (c ∷ s) (d ∷ t) (e ∷ u) p q =
    ground
      (arith, before-cons c d s t, before-cons d e t u, before-cons c e s u, before_trans s t u)

-- No string is before itself, and of two others one is before the other.
pub before_irrefl : (s : String) → before s s ≡ false
before_irrefl [] = before-nil-nil
before_irrefl (c ∷ s) = ground (arith, before-cons c c s s, before_irrefl s)

heads :
    (m n : ℕ) (b b' : Bool)
    → (ltb m n || (m == n && b)) ≡ false
    → (ltb n m || (n == m && b')) ≡ false
    → (m ≡ n) × ((b ≡ false) × (b' ≡ false))
heads m n b b' p q = ground arith

pub before_total : (s t : String) → before s t ≡ false → before t s ≡ false → s ≡ t
before_total [] [] p q = refl
before_total [] (d ∷ t) p q = ground (arith, before-nil-cons d t)
before_total (c ∷ s) [] p q = ground (arith, before-nil-cons c s)
before_total (c ∷ s) (d ∷ t) p q =
    let (same, (p', q')) =
      heads (code c) (code d) (before s t) (before t s) (sym (before-cons c d s t) ∙ p)
        (sym (before-cons d c t s) ∙ q) in
    λ i. Char-path c d same i ∷ before_total s t p' q' i

pub before_asym : (s t : String) → before s t ≡ true → before t s ≡ false
before_asym s t p = ground (arith, before_trans s t s, before_irrefl s)

-- With `t ≤ s` as the negation of `s < t`.
pub before_le_trans : (s t u : String) → before s t ≡ false → before s u ≡ true → before t u ≡ true
before_le_trans s t u p q = elim (Bool-cases (before t s)) [
  | inl lt ↦ before_trans t s u lt q
  | inr ge ↦ subst (λ r. before r u ≡ true) (before_total s t p ge) q
]
