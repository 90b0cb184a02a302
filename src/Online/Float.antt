-- ===== src/Online/Float.antt =====
-- The operations on `f64` that the scoring uses, as an interface, with the laws of the IEEE
-- numbers (NaN apart) that its properties need. `lit n d` is the number nearest to n / 10^d, and
-- `clamp` is `clamp(0.0, 1.0)`.
use project_loom.Common.{ℕ, ◌≤◌, ◌*◌, ◌^◌, ◌≡◌, Bool, true, false, ◌==◌}
use project_loom.Common.Int.{ℤ}

pub record Float (S : Type 0) : Type 0 where
  pub lit : ℕ → ℕ → S
  pub of_nat : ℕ → S
  pub of_int : ℤ → S
  pub add : S → S → S
  pub sub : S → S → S
  pub mul : S → S → S
  pub div : S → S → S
  pub neg : S → S
  pub exp : S → S
  pub ln : S → S
  pub log2 : S → S
  pub min_f : S → S → S
  pub max_f : S → S → S
  pub clamp : S → S
  pub le : S → S → Bool
  pub is_zero : S → Bool

pub record IsLawful {S : Type 0} (F : Float S) : Type 0 where
  pub le-total : (a b : S) → F.le a b ≡ false → F.le b a ≡ true
  pub le-trans : (a b c : S) → F.le a b ≡ true → F.le b c ≡ true → F.le a c ≡ true
  pub lit-is_zero : (n d : ℕ) → d ≤ 2 → F.is_zero (F.lit n d) ≡ (n == 0)
  pub lit-le : (n d m e : ℕ) → n * 10 ^ e ≤ m * 10 ^ d → F.le (F.lit n d) (F.lit m e) ≡ true
  pub sub-zero : (a : S) → F.sub a (F.lit 0 0) ≡ a
  pub clamp-ge : (a : S) → F.le (F.lit 0 0) (F.clamp a) ≡ true
  pub clamp-le : (a : S) → F.le (F.clamp a) (F.lit 1 0) ≡ true
