-- ===== src/Api/Auth.antt =====
-- The middleware that asks for a bearer token (loom-engine/src/api/auth.rs). Texts are their bytes.
use Prim.Native.Nat.{bit_or, bit_xor}
use project_loom.Common.{
  ℕ, Bool, false, Option, none, some, List, [], ◌∷◌, length, ◌==◌, not, if◌then◌else◌,
}
use project_loom.Common.Text.{Text, text, strip_prefix}

-- `iter().zip().fold(0, |acc, (x, y)| acc | (x ^ y))`
unfoldable pub fold_differences : ℕ → List ℕ → List ℕ → ℕ
fold_differences acc [] ys = acc
fold_differences acc (x ∷ xs) [] = acc
fold_differences acc (x ∷ xs) (y ∷ ys) = fold_differences (bit_or acc (bit_xor x y)) xs ys

unfoldable pub constant_time_eq : List ℕ → List ℕ → Bool
unfolding fold_differences
constant_time_eq a b = if not (length a == length b) then false else fold_differences 0 a b == 0

pub data Response (A : Type 0) : Type 0 where
  unauthorized : Response A
  handled : A → Response A

abbrev pub bearer : Text
bearer = text "Bearer "

-- `&h["Bearer ".len()..]` of a header that starts so.
abbrev pub submitted : Option Text → Option Text
submitted none = none
submitted (some h) = strip_prefix bearer h

-- The header is none where it is missing or no visible ASCII; `next` is the response of the route.
unfoldable pub require_bearer_token : {A : Type 0} → Text → Option Text → A → Response A
unfolding constant_time_eq
require_bearer_token expected_token auth_header next = elim (submitted auth_header) [
  | none ↦ unauthorized
  | some token ↦ if not (constant_time_eq token expected_token) then unauthorized else handled next
]
