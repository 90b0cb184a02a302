-- ===== src/Llm/Retries.antt =====
-- What the retries of a request come to (`post_with_retry`, `post_with_retry_azure`), and when the
-- fallback is used (`call_llm_internal`).
use project_loom.Common.{
  ℕ, zero, suc, ◌+◌, ◌*◌, ◌^◌, ◌<◌, ◌≡◌, refl, subst, sym, true, Option, none, some, List, [], ◌∷◌,
  arith, sum,
}
use native.Mathlib.Nat.{pow-suc}
use project_loom.Common.Json.{Json}
use project_loom.Common.Result.{Result, err}
use project_loom.Llm.Types.{
  LlmError, http, api_error, retries_exhausted, Answer, response, failure, display,
  is_retryable_status, truncate,
}
use project_loom.Llm.Post.{done, again, judge_answer, delay, post_from}

-- An answer that the loop goes on from: a failed request, a server error, or the rate limit.
abbrev pub IsRetried : Answer → Type 0
IsRetried (response status json body) = is_retryable_status status ≡ true
IsRetried (failure e) = Unit

-- The waits before the attempts from one on, as many as are made.
abbrev pub waits : ℕ → ℕ → ℕ → List ℕ
waits base attempt zero = []
waits base attempt (suc n) = delay base attempt ∷ waits base (suc attempt) n

retried_again : (a : Answer) → IsRetried a → (e : LlmError) × (judge_answer a ≡ again e)
unfolding judge_answer
retried_again (response status json body) h =
    (api_error status (truncate body 512), ground (arith, h))
retried_again (failure e) h = (http e, refl)

module _ (base : ℕ) (server : ℕ → Answer) where
  -- The answers to a number of attempts, from one on, are such.
  abbrev AllRetried : ℕ → ℕ → Type 0
  AllRetried attempt k = (i : ℕ) → i < k → IsRetried (server (attempt + i))

  later : (attempt k : ℕ) → AllRetried attempt (suc k) → AllRetried (suc attempt) k
  later attempt k h i lt =
      let e : attempt + suc i ≡ suc attempt + i = omega arith in
      subst (λ n. IsRetried (server n)) e (h (suc i) (omega arith))

  first : (attempt k : ℕ) → AllRetried attempt (suc k) → IsRetried (server attempt)
  first attempt k h =
      let e : attempt + 0 ≡ attempt = omega arith in
      subst (λ n. IsRetried (server n)) e (h 0 (omega arith))

  pub post_from-done :
      (left k attempt : ℕ) (last : Option LlmError) (r : Result LlmError Json)
      → k < left
      → AllRetried attempt k
      → judge_answer (server (attempt + k)) ≡ done r
      → post_from base server left attempt last ≡ (r, waits base attempt (suc k))
  unfolding post_from
  post_from-done zero k attempt last r lt h settled = absurd (omega arith)
  post_from-done (suc left) zero attempt last r lt h settled =
      let e : attempt + 0 ≡ attempt = omega arith in
      let here : judge_answer (server attempt) ≡ done r =
        subst (λ n. judge_answer (server n) ≡ done r) e settled in
      rw (here, post_from) refl
  post_from-done (suc left) (suc k) attempt last r lt h settled =
      let (x, goes_on) = retried_again (server attempt) (first attempt k h) in
      let e : attempt + suc k ≡ suc attempt + k = omega arith in
      let settled' = subst (λ n. judge_answer (server n) ≡ done r) e settled in
      let rest =
        post_from-done left k (suc attempt) (some x) r (omega arith) (later attempt k h) settled' in
      rw (goes_on, post_from) (rw rest refl)

  pub post_from-exhausted :
      (left attempt : ℕ) (last : Option LlmError) (x : LlmError)
      → AllRetried attempt (suc left)
      → judge_answer (server (attempt + left)) ≡ again x
      → post_from base server (suc left) attempt last
        ≡ (err (retries_exhausted (display x)), waits base attempt (suc left))
  unfolding post_from
  post_from-exhausted zero attempt last x h ends =
      let e : attempt + 0 ≡ attempt = omega arith in
      let here : judge_answer (server attempt) ≡ again x =
        subst (λ n. judge_answer (server n) ≡ again x) e ends in
      rw (here, post_from) refl
  post_from-exhausted (suc left) attempt last x h ends =
      let (y, goes_on) = retried_again (server attempt) (first attempt (suc left) h) in
      let e : attempt + suc left ≡ suc attempt + left = omega arith in
      let ends' = subst (λ n. judge_answer (server n) ≡ again x) e ends in
      let rest =
        post_from-exhausted left (suc attempt) (some y) x (later attempt (suc left) h) ends' in
      rw (goes_on, post_from) (rw rest refl)

-- The waits before k further attempts.
waits-sum :
    (base attempt k : ℕ)
    → sum (waits base (suc attempt) k) + base * 2 ^ attempt ≡ base * 2 ^ (attempt + k)
waits-sum base attempt zero = let e : attempt + 0 ≡ attempt = omega arith in rw e (omega arith)
waits-sum base attempt (suc k) =
    let e : attempt + suc k ≡ suc attempt + k = omega arith in
    let double : base * 2 ^ suc attempt ≡ base * 2 ^ attempt + base * 2 ^ attempt =
      rw (pow-suc 2 attempt) (grind arith) in
    rw e (omega (arith, waits-sum base (suc attempt) k, double))

-- Where the answers before an attempt below the limit are failed requests, server errors or rate
-- limits, and the answer to that attempt ends the loop with a result, the loop returns this result
-- after so many requests; it has waited the base times 2 ^ k - 1 before them, each time twice as
-- long.
pub post_from_lem :
    (base : ℕ) (server : ℕ → Answer) (max_attempts k : ℕ) (r : Result LlmError Json)
    → k < max_attempts
    → ((i : ℕ) → i < k → IsRetried (server i))
    → judge_answer (server k) ≡ done r
    → (post_from base server max_attempts 0 none ≡ (r, waits base 0 (suc k)))
      × (sum (waits base 0 (suc k)) + base ≡ base * 2 ^ k)
post_from_lem base server max_attempts k r lt h settled =
    let z : (i : ℕ) → 0 + i ≡ i = λ i. omega arith in
    let waited : sum (waits base 1 k) + base * 2 ^ 0 ≡ base * 2 ^ k =
      subst (λ n. sum (waits base 1 k) + base * 2 ^ 0 ≡ base * 2 ^ n) (z k) (waits-sum base 0 k) in
    let one : base * 2 ^ 0 ≡ base = omega arith in
    (
      post_from-done base server max_attempts k 0 none r lt
          (λ i l. subst (λ n. IsRetried (server n)) (sym (z i)) (h i l))
          (subst (λ n. judge_answer (server n) ≡ done r) (sym (z k)) settled),
      omega (arith, waited, one),
    )
