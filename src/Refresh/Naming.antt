-- ===== src/Refresh/Naming.antt =====
-- `createResourceName` of pkg/refresh/refresh.go.
-- There are no floats here: `float64` and its operations are a parameter.
use Prim.Native.String.{count}
use kubefork_controller.Base.{ℕ, ◌*◌, ◌≤◌, ◌≡◌, ltb, String, ◌<>◌, Bool, if◌then◌else◌}
use kubefork_controller.Base.Text.{take}

pub record FloatOps : Type 1 where
  pub Float : Type 0
  pub of_int : ℕ → Float
  pub sub : Float → Float → Float
  pub mul : Float → Float → Float
  pub div : Float → Float → Float
  pub lt : Float → Float → Bool
  -- `int(x)`, for a result that is not negative
  pub to_int : Float → ℕ

-- What IEEE 754 gives: whole numbers up to 2 ^ 53 are exact, and so is their order; and `a - a / n * (n - 60)`, of the exact value `60 * a / n`, is rounded by less than the
-- `1 / n` that would lift it over a whole number, as long as `n` has at most 20 bits.
pub record IsAccurate (f : FloatOps) : Type 0 where
  pub lt_exact :
      (a b : ℕ)
      → a ≤ 9007199254740992
      → b ≤ 9007199254740992
      → f.lt (f.of_int a) (f.of_int b) ≡ ltb a b
  pub below :
      (a n : ℕ)
      → 60 ≤ n
      → n ≤ 1048575
      → a ≤ n
      → f.to_int (
            f.sub
              (f.of_int a)
              (f.mul (f.div (f.of_int a) (f.of_int n)) (f.sub (f.of_int n) (f.of_int 60))))
          * n
        ≤ a * 60

module _ (floats : FloatOps) where
  open floats use {Float, of_int, sub, mul, div, lt, to_int}

  -- `int(partLen - (partLen / length * restLen))`
  unfoldable pub shrink : Float → Float → Float → ℕ
  shrink part_len length rest_len = to_int (sub part_len (mul (div part_len length) rest_len))

  -- The format of the one call is "%s-%s".
  unfoldable pub create_resource_name : String → String → String
  create_resource_name first last =
      let name = first <> "-" <> last in
      let length = of_int (count name) in
      let rest_len = sub length (of_int 60) in
      if lt length (of_int 60)
      then name
      else take (shrink (of_int (count first)) length rest_len) first
        <> "-"
        <> take (shrink (of_int (count last)) length rest_len) last
