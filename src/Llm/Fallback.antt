-- ===== src/Llm/Fallback.antt =====
-- When a call goes to Azure (`call_llm_internal`, `call_embeddings_inner` of
-- loom-engine/src/llm/client.rs).
use project_loom.Common.{ℕ, ◌+◌, ◌<◌, ◌≡◌, refl, ap, sym, subst, true, false, none, arith}
use project_loom.Common.Json.{Json}
use project_loom.Common.Result.{Result, ok, err, ◌>>=◌}
use project_loom.Llm.Types.{
  LlmError, http, api_error, parse, retries_exhausted, no_fallback, Answer, response, failure,
  display, is_connection_error,
}
use project_loom.Llm.Post.{
  done, again, judge_answer, post_with_retry, post_with_retry_azure, max_retries,
  azure_rate_limit_max_retries, backoff_base, azure_rate_limit_backoff_base,
}
use project_loom.Llm.Client.{Serde, LlmClient, azure_config, with_fallback}
use project_loom.Llm.Retries.{IsRetried, post_from_lem, post_from-exhausted}

module _ {S : Type 0} (d : Serde S) where
  judged_error :
      (a : Answer) (e : LlmError)
      → judge_answer a ≡ done (err e)
      → is_connection_error d.to_lowercase e ≡ false
  unfolding judge_answer is_connection_error
  judged_error (failure x) e h = cc
  judged_error (response status json body) (api_error n b) h = refl
  judged_error (response status json body) (parse m) h = refl
  judged_error (response status json body) no_fallback h = refl
  judged_error (response status (ok j) body) (http x) h = ground (arith, h)
  judged_error (response status (err y) body) (http x) h = ground (arith, h)
  judged_error (response status (ok j) body) (retries_exhausted m) h = ground (arith, h)
  judged_error (response status (err y) body) (retries_exhausted m) h = ground (arith, h)

  settled :
      {A : Type 0} (c : LlmClient) (body azure_body : Json) (read : Json → Result LlmError A)
      (r : Result LlmError Json) (a : Answer)
      → judge_answer a ≡ done r
      → (post_with_retry (c.ollama body)).0 ≡ r
      → with_fallback d c body azure_body read ≡ (r >>= read)
  unfolding with_fallback
  settled c body azure_body read (ok j) a h e = rw (e, with_fallback) refl
  settled c body azure_body read (err x) a h e =
      rw (e, with_fallback) (rw (judged_error a x h) refl)

  -- Where Ollama answers one of the three attempts, after failures, with anything but a failure, a
  -- server error or the rate limit, this answer is the result: Azure is not asked.
  pub with_fallback-answered :
      {A : Type 0} (c : LlmClient) (body azure_body : Json) (read : Json → Result LlmError A)
      (k : ℕ) (r : Result LlmError Json)
      → k < max_retries
      → ((i : ℕ) → i < k → IsRetried (c.ollama body i))
      → judge_answer (c.ollama body k) ≡ done r
      → with_fallback d c body azure_body read ≡ (r >>= read)
  unfolding post_with_retry
  with_fallback-answered c body azure_body read k r lt h ends =
      settled c body azure_body read r (c.ollama body k) ends
        (ap (λ q. q.0) (post_from_lem backoff_base (c.ollama body) max_retries k r lt h ends).0)

  unreachable :
      {A : Type 0} (c : LlmClient) (body azure_body : Json) (read : Json → Result LlmError A)
      (e : LlmError) (r : Result LlmError Json)
      → (post_with_retry (c.ollama body)).0 ≡ err e
      → is_connection_error d.to_lowercase e ≡ true
      → azure_config d c ≡ true
      → (post_with_retry_azure (c.azure azure_body)).0 ≡ r
      → with_fallback d c body azure_body read ≡ (r >>= read)
  unfolding with_fallback
  unreachable c body azure_body read e r failed named configured taken =
      rw (failed, with_fallback) (rw (named, configured, taken) refl)

  -- Where the three attempts at Ollama fail, the text of the last error speaks of the connection,
  -- Azure is configured, and answers one of five attempts, after failures, with anything but a
  -- failure, a server error or the rate limit, this answer is the result.
  pub with_fallback-unreachable :
      {A : Type 0} (c : LlmClient) (body azure_body : Json) (read : Json → Result LlmError A)
      (x : LlmError) (k : ℕ) (r : Result LlmError Json)
      → ((i : ℕ) → i < max_retries → IsRetried (c.ollama body i))
      → judge_answer (c.ollama body 2) ≡ again x
      → is_connection_error d.to_lowercase (retries_exhausted (display x)) ≡ true
      → azure_config d c ≡ true
      → k < azure_rate_limit_max_retries
      → ((i : ℕ) → i < k → IsRetried (c.azure azure_body i))
      → judge_answer (c.azure azure_body k) ≡ done r
      → with_fallback d c body azure_body read ≡ (r >>= read)
  unfolding post_with_retry post_with_retry_azure
  with_fallback-unreachable c body azure_body read x k r down last named configured lt h ends =
      let z : (i : ℕ) → 0 + i ≡ i = λ i. omega arith in
      let gone =
        post_from-exhausted backoff_base (c.ollama body) 2 0 none x
          (λ i l. subst (λ n. IsRetried (c.ollama body n)) (sym (z i)) (down i l)) last in
      let answered =
        post_from_lem azure_rate_limit_backoff_base (c.azure azure_body)
          azure_rate_limit_max_retries k r lt h ends in
      let failed : (post_with_retry (c.ollama body)).0 ≡ err (retries_exhausted (display x)) =
        ap (λ q. q.0) gone in
      let taken : (post_with_retry_azure (c.azure azure_body)).0 ≡ r = ap (λ q. q.0) answered.0 in
      unreachable c body azure_body read (retries_exhausted (display x)) r failed named configured
        taken
