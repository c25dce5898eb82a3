-- ===== src/Scoring/Whole.antt =====
-- Whole numbers in the place of `float64`, for the tests: exact but for the division, which rounds
-- towards zero.
use ctfboard.Base.{◌≡◌, refl, arith, ◌+◌, ◌*◌}
use ctfboard.Base.Int.{ℤ, pos, pos_part, neg_part, sub_ℕ, ◌+ℤ◌, ◌-ℤ◌, negsuc, ◌≤ℤ◌}
use Prim.Native.Nat.{◌/◌, suc}
use native.Mathlib.Nat.{mul-le-mul, zero-div}
use ctfboard.Scoring.{Float64}
use ctfboard.Scoring.Curve.{IsRounded}

abbrev mul : ℤ → ℤ → ℤ
mul a b =
    sub_ℕ (pos_part a * pos_part b + neg_part a * neg_part b)
      (pos_part a * neg_part b + neg_part a * pos_part b)

-- Division that rounds towards zero.
abbrev div : ℤ → ℤ → ℤ
div a (pos b) = sub_ℕ (pos_part a / b) (neg_part a / b)
div a (negsuc b) = sub_ℕ (neg_part a / suc b) (pos_part a / suc b)

abbrev pub whole : Float64
whole = record {
  Carrier = ℤ;
  of_int = λ a. a;
  add = λ a b. a +ℤ b;
  sub = λ a b. a -ℤ b;
  mul = mul;
  div = div;
  ceil = λ a. a;
}

div_sign : (a b : ℤ) → a ≤ℤ pos 0 → pos 0 ≤ℤ b → div a b ≤ℤ pos 0
div_sign (pos n) (pos d) h k = let e : n ≡ 0 = omega arith in rw e (ground (arith, zero-div d))
div_sign (negsuc n) (pos d) h k = ground (arith, zero-div d)
div_sign a (negsuc d) h k = absurd (omega arith)

square_sign : (a : ℤ) → pos 0 ≤ℤ mul a a
square_sign (pos n) = ground arith
square_sign (negsuc n) = ground arith

square_mono : (a b : ℤ) → pos 0 ≤ℤ a → a ≤ℤ b → mul a a ≤ℤ mul b b
square_mono (pos m) (pos n) h k =
    ground (arith, mul-le-mul {n₁ = m} {m₁ = m} {n₂ = n} {m₂ = n} (omega arith) (omega arith))
square_mono (pos m) (negsuc n) h k = absurd (omega arith)
square_mono (negsuc m) b h k = absurd (omega arith)

mul_sign : (a b : ℤ) → a ≤ℤ pos 0 → pos 0 ≤ℤ b → mul a b ≤ℤ pos 0
mul_sign (pos m) b h k = let e : m ≡ 0 = omega arith in rw e (ground arith)
mul_sign (negsuc m) (pos n) h k = ground arith
mul_sign (negsuc m) (negsuc n) h k = absurd (omega arith)

mul_antitone : (a b c : ℤ) → a ≤ℤ pos 0 → b ≤ℤ c → mul a c ≤ℤ mul a b
mul_antitone (pos m) b c h k = let e : m ≡ 0 = omega arith in rw e (ground arith)
mul_antitone (negsuc m) (pos b) (pos c) h k =
    ground
      (arith, mul-le-mul {n₁ = suc m} {m₁ = b} {n₂ = suc m} {m₂ = c} (omega arith) (omega arith))
mul_antitone (negsuc m) (pos b) (negsuc c) h k = absurd (omega arith)
mul_antitone (negsuc m) (negsuc b) (pos c) h k = ground arith
mul_antitone (negsuc m) (negsuc b) (negsuc c) h k = ground (
  arith,
  mul-le-mul {n₁ = suc m} {m₁ = suc c} {n₂ = suc m} {m₂ = suc b} (omega arith) (omega arith),
)

pub whole-IsRounded : IsRounded whole
unfolding ◌+ℤ◌ ◌-ℤ◌
whole-IsRounded = record {
  Le = λ a b. a ≤ℤ b;
  of_int_mono = λ a b h. h;
  sub_sign = λ a b h. ground (arith, h);
  div_sign = div_sign;
  square_sign = square_sign;
  square_mono = square_mono;
  mul_sign = mul_sign;
  mul_antitone = mul_antitone;
  add_mono = λ a b c h. ground (arith, h);
  add_zero_le = λ a. ground arith;
  add_zero_ge = λ a. ground arith;
  mul_zero = λ a. ground arith;
  square_zero = refl;
  ceil_mono = λ a b h. h;
  ceil_exact = λ a h k. refl;
  le_trans = λ a b c h k. ground (arith, h, k);
}
