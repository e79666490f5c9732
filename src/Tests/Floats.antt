-- ===== src/Tests/Floats.antt =====
-- Exact fractions in the place of `float64`, for runs of `createResourceName`.
use Prim.Native.Nat.{◌/◌}
use native.Mathlib.Nat.{div-mul-le_self}
use mathlib.Core.Path.{subst₂}
use kubefork_controller.Base.{ℕ, ◌+◌, ◌-◌, ◌*◌, ◌≤◌, ◌≡◌, sym, subst, ltb, arith}
use kubefork_controller.Refresh.Naming.{FloatOps, IsAccurate}

abbrev pub fractions : FloatOps
fractions = record {
  Float = ℕ × ℕ;
  of_int = λ n. (n, 1);
  sub = λ x y. (x.0 * y.1 - y.0 * x.1, x.1 * y.1);
  mul = λ x y. (x.0 * y.0, x.1 * y.1);
  div = λ x y. (x.0 * y.1, x.1 * y.0);
  lt = λ x y. ltb (x.0 * y.1) (y.0 * x.1);
  to_int = λ x. x.0 / x.1;
}

share : (a m : ℕ) → a * (1 * (m + 60) * 1) - a * 1 * ((m + 60) * 1 - 60) * 1 ≡ a * 60
share a m = let e : (m + 60) * 1 - 60 ≡ m = omega arith in rw e (omega arith)

share_below :
    (a n : ℕ)
    → 60 ≤ n
    → (a * (1 * n * 1) - a * 1 * (n * 1 - 60) * 1) / (1 * (1 * n * 1)) * n ≤ a * 60
share_below a n long =
    let e : n ≡ (n - 60) + 60 = omega arith in
    let den : 1 * (1 * n * 1) ≡ n = omega arith in
    let num =
      subst (λ k. a * (1 * k * 1) - a * 1 * (k * 1 - 60) * 1 ≡ a * 60) (sym e) (share a (n - 60)) in
    subst₂ (λ x y. x / y * n ≤ a * 60) (sym num) (sym den) (div-mul-le_self (a * 60) n)

pub fractions-IsAccurate : IsAccurate fractions
fractions-IsAccurate = record {
  lt_exact = λ a b small small_too. ground arith;
  below = λ a n long short part. share_below a n long;
}
