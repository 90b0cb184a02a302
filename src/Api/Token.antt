-- ===== src/Api/Token.antt =====
-- The constant-time comparison is equality, and a route runs for its token only
-- (`constant_time_eq`, `require_bearer_token`).
use Prim.Native.Nat.{bit_or, bit_xor, digits, differ, bit_or-bitwise, bit_xor-bitwise}
use project_loom.Common.{
  ℕ, zero, suc, ◌/◌, ◌%◌, ◌≤◌, ◌≡◌, ◌≢◌, refl, ap, ◌∙◌, sym, ◌↔◌, ◌⊎◌, inl, inr, true, Option, none,
  some, List, [], ◌∷◌, ◌++◌, length, ◌==◌, ==_iff, ==-refl, max, arith, Bool-cases, Option-cases,
  get_or_default,
}
use project_loom.Common.Text.{Text, strip_prefix}
use project_loom.Api.Auth.{
  fold_differences, constant_time_eq, unauthorized, handled, bearer, require_bearer_token,
}

or_digits-zero : (n a b : ℕ) → a ≤ n → digits (λ b. b) max n a b ≡ 0 → (a ≡ 0) × (b ≡ 0)
or_digits-zero zero a b h e = (omega (arith, h), e)
or_digits-zero (suc n) zero b h e = (refl, e)
or_digits-zero (suc n) (suc a) b h e =
    let ih = or_digits-zero n (suc a / 2) (b / 2) (omega (arith, h)) (omega (arith, e)) in
    absurd (omega (arith, ih.0, e))

bit_or-zero : (a b : ℕ) → bit_or a b ≡ 0 → (a ≡ 0) × (b ≡ 0)
bit_or-zero a b e = or_digits-zero a a b (omega arith) (sym (bit_or-bitwise a b) ∙ e)

differ-zero : (x y : ℕ) → differ x y ≡ 0 → x ≡ y
differ-zero zero y e = sym e
differ-zero (suc x) zero e = e
differ-zero (suc x) (suc y) e = ap suc (differ-zero x y e)

differ_self : (x : ℕ) → differ x x ≡ 0
differ_self zero = refl
differ_self (suc x) = differ_self x

xor_digits-zero : (n a b : ℕ) → a ≤ n → digits (λ b. b) differ n a b ≡ 0 → a ≡ b
xor_digits-zero zero a b h e = omega (arith, h, e)
xor_digits-zero (suc n) zero b h e = sym e
xor_digits-zero (suc n) (suc a) b h e =
    let ih = xor_digits-zero n (suc a / 2) (b / 2) (omega (arith, h)) (omega (arith, e)) in
    let low = differ-zero (suc a % 2) (b % 2) (omega (arith, e)) in omega (arith, ih, low)

xor_digits_self : (n a : ℕ) → a ≤ n → digits (λ b. b) differ n a a ≡ 0
xor_digits_self zero a h = omega (arith, h)
xor_digits_self (suc n) zero h = refl
xor_digits_self (suc n) (suc a) h =
    omega (arith, xor_digits_self n (suc a / 2) (omega (arith, h)), differ_self (suc a % 2))

bit_xor-zero : (a b : ℕ) → bit_xor a b ≡ 0 → a ≡ b
bit_xor-zero a b e = xor_digits-zero a a b (omega arith) (sym (bit_xor-bitwise a b) ∙ e)

bit_xor_self : (a : ℕ) → bit_xor a a ≡ 0
bit_xor_self a = bit_xor-bitwise a a ∙ xor_digits_self a a (omega arith)

fold-zero :
    (acc : ℕ) (xs ys : List ℕ)
    → length xs ≡ length ys
    → fold_differences acc xs ys ≡ 0
    → (acc ≡ 0) × (xs ≡ ys)
unfolding fold_differences
fold-zero acc [] [] l e = (e, refl)
fold-zero acc [] (y ∷ ys) l e = absurd (omega (arith, l))
fold-zero acc (x ∷ xs) [] l e = absurd (omega (arith, l))
fold-zero acc (x ∷ xs) (y ∷ ys) l e =
    let (both, rest) = fold-zero (bit_or acc (bit_xor x y)) xs ys (omega (arith, l)) e in
    let (none_before, same) = bit_or-zero acc (bit_xor x y) both in
    let head = bit_xor-zero x y same in (none_before, cc)

fold_self : (xs : List ℕ) → fold_differences 0 xs xs ≡ 0
unfolding fold_differences
fold_self [] = refl
fold_self (x ∷ xs) = rw (bit_xor_self x) (fold_self xs)

to : (a b : List ℕ) → constant_time_eq a b ≡ true → a ≡ b
unfolding constant_time_eq
to a b h = elim (Bool-cases (length a == length b)) [
  | inr e ↦ cc (rw e at h)
  | inl e ↦ (fold-zero 0 a b ((==_iff _ _).0 e) ((==_iff _ _).0 (rw e at h))).1
]

from : (a : List ℕ) → constant_time_eq a a ≡ true
unfolding constant_time_eq
from a = rw (==-refl (length a)) (rw (fold_self a) refl)

constant_time_eq_iff : (a b : List ℕ) → (constant_time_eq a b ≡ true) ↔ (a ≡ b)
constant_time_eq_iff a b = (to a b, λ e. rw e (from b))

strip_prefix-some : (p s r : Text) → strip_prefix p s ≡ some r → s ≡ p ++ r
strip_prefix-some [] s r h = ground (arith, h)
strip_prefix-some (x ∷ p) [] r h = cc
strip_prefix-some (x ∷ p) (c ∷ s) r h = elim (Bool-cases (x == c)) [
  | inr e ↦ cc (rw e at h)
  | inl e ↦ let tail = strip_prefix-some p s r (rw e at h) in let head = (==_iff x c).0 e in cc
]

strip_prefix-append : (p r : Text) → strip_prefix p (p ++ r) ≡ some r
strip_prefix-append [] r = refl
strip_prefix-append (x ∷ p) r = rw (==-refl x) (strip_prefix-append p r)

carries :
    (h expected : Text)
    → ◌≡◌ {A = Option Text} (some h) (some (bearer ++ expected))
    → strip_prefix bearer h ≡ some expected
carries h expected q =
    let e : h ≡ bearer ++ expected = ap (λ o. get_or_default o []) q in
    rw e (strip_prefix-append bearer expected)

-- A request reaches its route exactly if its header is the word Bearer, a space and the token; any
-- other request, also one without a readable header, is unauthorized.
pub require_bearer_token_lem :
    {A : Type 0} (expected_token : Text) (auth_header : Option Text) (next : A)
    → ((auth_header ≡ some (bearer ++ expected_token))
        × (require_bearer_token expected_token auth_header next ≡ handled next))
      ⊎ ((auth_header ≢ some (bearer ++ expected_token))
          × (require_bearer_token expected_token auth_header next ≡ unauthorized))
unfolding require_bearer_token
require_bearer_token_lem expected none next = inr ((λ e. cc), refl)
require_bearer_token_lem expected (some h) next = elim (Option-cases (strip_prefix bearer h)) [
  | inl e ↦ inr ((λ q. let p = carries h expected q in cc), rw (e, require_bearer_token) refl)
  | inr (token, e) ↦ elim (Bool-cases (constant_time_eq token expected)) [
    | inl same ↦
        let t = to token expected same in
        let whole = strip_prefix-some bearer h token e in
        inl (rw (whole, t) refl, rw (e, require_bearer_token) (rw same refl))
    | inr differs ↦ inr (
      (λ q.
          let p = carries h expected q in
          let same : token ≡ expected = ground (arith, p, e) in
          let equal : constant_time_eq token expected ≡ true = rw same (from expected) in cc),
      rw (e, require_bearer_token) (rw differs refl),
    )
  ]
]
