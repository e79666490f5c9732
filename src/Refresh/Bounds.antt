-- ===== src/Refresh/Bounds.antt =====
-- The length of the names that pkg/refresh/refresh.go makes up. Kubernetes takes 63 characters.
use Prim.Native.String.{count, ◌++◌ as ◌<>◌}
use native.Mathlib.Decide.{dec_le}
use native.Mathlib.Nat.{mul-le-mul_right}
use text.Mathlib.TextLemmas.{length-append}
use kubefork_controller.Base.{
  ℕ, ◌+◌, ◌*◌, ◌≤◌, ◌≡◌, refl, String, none, arith, ltb, Bool-cases, inl, inr, string_eq,
}
use kubefork_controller.Base.GoMap.{GoMap, lookup}
use kubefork_controller.Base.Text.{take, length-take}
use kubefork_controller.Kube.{Kube, Object, Unstructured, meta}
use kubefork_controller.Refresh.{ObjectList, object_name}
use kubefork_controller.Refresh.Naming.{FloatOps, IsAccurate, shrink, create_resource_name}

shares : (f l t u n : ℕ) → n ≡ f + (1 + l) → t * n ≤ f * 60 → u * n ≤ l * 60 → t + (1 + u) ≤ 60
shares f l t u n e p q = elim (dec_le 60 (t + u)) [
  | yes big ↦ absurd (grind (arith, mul-le-mul_right n big))
  | no small ↦ omega arith
]

join_length : (a b : String) → count (a <> "-" <> b) ≡ count a + (1 + count b)
join_length a b = rw (length-append a ("-" <> b), length-append "-" b) refl

module _ (floats : FloatOps) (accurate : IsAccurate floats) where
  module _ (first last : String) where
    abbrev whole : ℕ
    whole = count (first <> "-" <> last)

    abbrev cut : String → ℕ
    cut part = floats.to_int (
        floats.sub (floats.of_int (count part)) (
          floats.mul (floats.div (floats.of_int (count part)) (floats.of_int whole))
            (floats.sub (floats.of_int whole) (floats.of_int 60))))

    cut_length : 60 ≤ whole → whole ≤ 1048575 → cut first + (1 + cut last) ≤ 60
    cut_length long short =
        let e = join_length first last in
        shares (count first) (count last) (cut first) (cut last) whole e
          (accurate.below (count first) whole long short (omega (arith, e)))
          (accurate.below (count last) whole long short (omega (arith, e)))

    -- If the floating-point operations are accurate to the bound of `IsAccurate`, then the name that
    -- `createResourceName` makes of two texts, of at most 1048575 characters with the dash between
    -- them, has at most 60 characters.
    length-create_resource_name :
        count first + (1 + count last) ≤ 1048575
        → count (create_resource_name floats first last) ≤ 60
    unfolding create_resource_name shrink
    length-create_resource_name h =
        let exact =
          accurate.lt_exact whole 60 (omega (arith, join_length first last, h)) (omega arith) in
        elim (Bool-cases (ltb whole 60)) [
          | inl short ↦ rw (exact, short) (ground arith)
          | inr long ↦
              rw (exact, long)
                (omega (
                  arith,
                  join_length (take (cut first) first) (take (cut last) last),
                  length-take (cut first) first,
                  length-take (cut last) last,
                  cut_length (ground arith) (omega (arith, join_length first last)),
                ))
        ]

module _ {W : Type 0} (kube : Kube W) (parent : Object) (list : ObjectList) (floats : FloatOps)
    (accurate : IsAccurate floats) where
  -- If the floating-point operations are accurate to the bound of `IsAccurate`, then the name under
  -- which `Refresh` writes an item has at most 63 characters, where no object that is there has the
  -- item's identity, and that identity and the parent's name have at most 1048575 characters with the
  -- dash between them.
  pub length-object_name :
      (found : GoMap String Unstructured) (key : String) (obj : Object)
      → lookup key found ≡ none
      → count key + (1 + count (meta parent).name) ≤ 1048575
      → count (object_name kube parent list floats found key obj) ≤ 63
  unfolding object_name
  length-object_name found key obj fresh short =
      rw (fresh, object_name)
        (ground (
          arith,
          length-create_resource_name floats accurate key (meta parent).name short,
          length-take 63 (meta obj).name,
        ))
