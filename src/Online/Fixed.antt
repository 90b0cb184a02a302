-- ===== src/Online/Fixed.antt =====
-- An instance of the score interface to run the pipeline on: millionths, rounded down, without
-- negative numbers; `exp` of a negated number is taken as 1, and logarithms as 0 or 1.
use project_loom.Common.{
  ℕ, ◌<◌, zero, suc, ◌+◌, ◌-◌, ◌*◌, ◌/◌, ◌^◌, ◌≤◌, ◌≡◌, min, max, true, leb, ◌==◌, arith, leb→le,
  not_leb→lt, if◌then◌else◌,
}
use native.Mathlib.Nat.{
  pow-suc, div-mul-le_self, mul-le-mul_right, le-div_iff_mul-le, le_of_mul-le-mul_right,
}
use project_loom.Common.Int.{pos_part}
use project_loom.Online.Float.{Float, IsLawful}

abbrev million : ℕ
million = 1000000

abbrev pub millionths : Float ℕ
millionths = record {
  lit = λ n d. n * million / 10 ^ d;
  of_nat = λ n. n * million;
  of_int = λ k. pos_part k * million;
  add = λ a b. a + b;
  sub = λ a b. a - b;
  mul = λ a b. a * b / million;
  div = λ a b. a * million / b;
  neg = λ a. 0;
  exp = λ a. million;
  ln = λ a. million;
  log2 = λ a. if leb a million then 0 else million;
  min_f = min;
  max_f = max;
  clamp = λ a. min a million;
  le = leb;
  is_zero = λ a. a == 0;
}

le→leb : (a b : ℕ) → a ≤ b → leb a b ≡ true
le→leb a b h = ground arith

lit-is_zero : (n d : ℕ) → d ≤ 2 → (n * million / 10 ^ d == 0) ≡ (n == 0)
lit-is_zero n zero h = ground arith
lit-is_zero n (suc zero) h = ground arith
lit-is_zero n (suc (suc zero)) h = ground arith
lit-is_zero n (suc (suc (suc d))) h = absurd (omega (arith, h))

power_pos : (d : ℕ) → 0 < 10 ^ d
power_pos zero = omega arith
power_pos (suc d) = rw (pow-suc 10 d) (omega (arith, power_pos d))

-- x / d is at most m / e where x * d is at most n and n * e at most m * d.
lit-le :
    (n d m e : ℕ)
    → n * 10 ^ e ≤ m * 10 ^ d
    → leb (n * million / 10 ^ d) (m * million / 10 ^ e) ≡ true
lit-le n d m e h =
    let x = n * million / 10 ^ d in
    let below : x * 10 ^ d ≤ n * million = div-mul-le_self (n * million) (10 ^ d) in
    let scaled : x * 10 ^ d * 10 ^ e ≤ n * million * 10 ^ e = mul-le-mul_right (10 ^ e) below in
    let wider : n * 10 ^ e * million ≤ m * 10 ^ d * million = mul-le-mul_right million h in
    let cross : x * 10 ^ e * 10 ^ d ≤ m * million * 10 ^ d = grind (arith, scaled, wider) in
    le→leb _ _ ((le-div_iff_mul-le (power_pos e)).1 (le_of_mul-le-mul_right cross (power_pos d)))

pub millionths-IsLawful : IsLawful millionths
millionths-IsLawful = record {
  le-total = λ a b h. ground (arith, not_leb→lt a b h);
  le-trans = λ a b c h k. ground (arith, leb→le a b h, leb→le b c k);
  lit-is_zero = lit-is_zero;
  lit-le = lit-le;
  sub-zero = λ a. ground arith;
  clamp-ge = λ a. ground arith;
  clamp-le = λ a. ground arith;
}
