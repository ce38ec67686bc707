-- ===== src/Base/Float.antt =====
-- `double` and `<cmath>`, which the code takes from the platform: a parameter of the model.
use Prim.Native.Nat.{ℕ, zero, suc, ◌+◌, ◌-◌, ◌*◌, ◌/◌, ◌^◌}
use mathlib.Core.Bool.{Bool}
use npchain.Base.Tests.{ltb, leb, if◌then◌else◌, ◌==◌}

pub record Floats : Type 1 where
  pub Double : Type 0
  -- static_cast<double>(n)
  pub of_uint : ℕ → Double
  -- The literal n / 10 ^ k.
  pub literal : ℕ → ℕ → Double
  pub add : Double → Double → Double
  pub sub : Double → Double → Double
  pub mul : Double → Double → Double
  pub div : Double → Double → Double
  pub less : Double → Double → Bool
  pub at_most : Double → Double → Bool
  pub log2 : Double → Double
  pub ln : Double → Double
  -- The conversion to an unsigned integer, before the wrap to its width.
  pub to_uint : Double → ℕ

-- std::clamp(x, lo, hi)
abbrev pub clamp : (fl : Floats) → fl.Double → fl.Double → fl.Double → fl.Double
clamp fl x lo hi = if fl.less x lo then lo else if fl.less hi x then hi else x

unfoldable pub log2_floor : ℕ → ℕ → ℕ
log2_floor zero n = 0
log2_floor (suc fuel) n = let rest = log2_floor fuel (n / 2) in if ltb n 2 then 0 else 1 + rest

-- An instance over non-negative fractions, for the concrete runs.
abbrev pub fractions : Floats
fractions = record {
  Double = ℕ × ℕ;
  of_uint = λ n. (n, 1);
  literal = λ n k. (n, 10 ^ k);
  add = λ (a, b) (c, d). (a * d + c * b, b * d);
  sub = λ (a, b) (c, d). (a * d - c * b, b * d);
  mul = λ (a, b) (c, d). (a * c, b * d);
  div = λ (a, b) (c, d). (a * d, b * c);
  less = λ (a, b) (c, d). ltb (a * d) (c * b);
  at_most = λ (a, b) (c, d). leb (a * d) (c * b);
  log2 = λ (a, b). (log2_floor 64 (a / b), 1);
  ln = λ (a, b). (log2_floor 64 (a / b) * 7, 10);
  to_uint = λ (a, b). if b == 0 then 0 else a / b;
}
