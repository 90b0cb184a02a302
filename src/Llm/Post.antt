-- ===== src/Llm/Post.antt =====
-- A request with retries (`post_with_retry`, `post_with_retry_azure` of
-- loom-engine/src/llm/client.rs). The answers of the server are a function of the attempt; the
-- result comes with the waits before the requests that were made, in milliseconds.
use project_loom.Common.{ℕ, zero, suc, ◌*◌, ◌^◌, Option, none, some, List, [], ◌∷◌, if◌then◌else◌}
use project_loom.Common.Json.{Json}
use project_loom.Common.Result.{Result, ok, err}
use project_loom.Common.Text.{Text, text}
use project_loom.Llm.Types.{
  LlmError, http, api_error, parse, retries_exhausted, Answer, response, failure, display,
  is_success, is_retryable_status, truncate,
}

abbrev pub max_retries : ℕ
max_retries = 3

abbrev pub azure_rate_limit_max_retries : ℕ
azure_rate_limit_max_retries = 5

-- Milliseconds.
abbrev pub backoff_base : ℕ
backoff_base = 500

abbrev pub azure_rate_limit_backoff_base : ℕ
azure_rate_limit_backoff_base = 1000

-- An answer ends the loop with a result, or is an error to go on from.
pub data Step : Type 0 where
  done : Result LlmError Json → Step
  again : LlmError → Step

abbrev pub read_json : Result Text Json → Result LlmError Json
read_json (ok j) = ok j
read_json (err e) = err (parse e)

unfoldable pub judge_answer : Answer → Step
unfolding truncate
judge_answer (response status json body) =
    if is_success status
    then done (read_json json)
    else if is_retryable_status status
    then again (api_error status (truncate body 512))
    else done (err (api_error status (truncate body 512)))
judge_answer (failure e) = again (http e)

abbrev pub exhausted : Option LlmError → LlmError
exhausted (some e) = retries_exhausted (display e)
exhausted none = retries_exhausted (text "unknown")

-- The wait before an attempt; there is none before the first.
abbrev pub delay : ℕ → ℕ → ℕ
delay base zero = 0
delay base (suc k) = base * 2 ^ k

module _ (base : ℕ) (server : ℕ → Answer) where
  -- The loop with the attempts that are left, the number of the attempt, and the last error.
  unfoldable pub post_from : ℕ → ℕ → Option LlmError → Result LlmError Json × List ℕ
  unfolding judge_answer
  post_from zero attempt last_err = (err (exhausted last_err), [])
  post_from (suc left) attempt last_err = elim (judge_answer (server attempt)) [
    | done r ↦ (r, delay base attempt ∷ [])
    | again e ↦
        let rest = post_from left (suc attempt) (some e) in (rest.0, delay base attempt ∷ rest.1)
  ]

unfoldable pub post_with_retry : (ℕ → Answer) → Result LlmError Json × List ℕ
unfolding post_from
post_with_retry server = post_from backoff_base server max_retries 0 none

unfoldable pub post_with_retry_azure : (ℕ → Answer) → Result LlmError Json × List ℕ
unfolding post_from
post_with_retry_azure server =
    post_from azure_rate_limit_backoff_base server azure_rate_limit_max_retries 0 none
