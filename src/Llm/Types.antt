-- ===== src/Llm/Types.antt =====
-- Errors of the client, what an HTTP request may answer, and the tests on errors
-- (loom-engine/src/llm/client.rs). Messages are code points, since the code searches them.
use project_loom.Common.{
  ℕ, Bool, false, List, [], ◌∷◌, ◌++◌, ◌&&◌, ◌||◌, any, leb, ltb, ◌==◌, length, take, if◌then◌else◌,
}
use project_loom.Common.Json.{Json}
use project_loom.Common.Result.{Result}
use project_loom.Common.Text.{Text, text, contains_text, digits}

-- `reqwest::Error`
pub record HttpError : Type 0 where
  pub message : Text
  pub is_connect : Bool
  pub is_timeout : Bool

pub data LlmError : Type 0 where
  http : HttpError → LlmError
  api_error : ℕ → Text → LlmError
  parse : Text → LlmError
  retries_exhausted : Text → LlmError
  no_fallback : LlmError

-- `send().await`: a response, with its body read as JSON and as text, or a failed request.
pub data Answer : Type 0 where
  response : ℕ → Result Text Json → Text → Answer
  failure : HttpError → Answer

-- `Display` of the errors
abbrev pub display : LlmError → Text
display (http e) = text "HTTP request failed: " ++ e.message
display (api_error status body) =
    text "API returned status " ++ (digits 5 status ++ (text ": " ++ body))
display (parse m) = text "failed to parse response JSON: " ++ m
display (retries_exhausted m) = text "all retries exhausted: " ++ m
display no_fallback = text "Azure OpenAI fallback not configured"

abbrev pub is_success : ℕ → Bool
is_success status = leb 200 status && ltb status 300

-- Server errors and the rate limit are tried again.
abbrev pub is_retryable_status : ℕ → Bool
is_retryable_status status = (leb 500 status && ltb status 600) || status == 429

unfoldable pub truncate : Text → ℕ → Text
truncate s max = if leb (length s) max then s else take max s ++ text "…"

abbrev pub contains_any : List Text → Text → Bool
contains_any ms s = any (λ m. contains_text m s) ms

unfoldable pub is_reqwest_connection_error : (Text → Text) → HttpError → Bool
is_reqwest_connection_error to_lowercase e =
    (e.is_connect || e.is_timeout)
    || contains_any
        (text "connect"
          ∷ text "connection refused"
          ∷ text "dns"
          ∷ text "error sending request"
          ∷ [])
        (to_lowercase e.message)

unfoldable pub is_connection_error : (Text → Text) → LlmError → Bool
unfolding is_reqwest_connection_error
is_connection_error to_lowercase (http e) = is_reqwest_connection_error to_lowercase e
is_connection_error to_lowercase (retries_exhausted m) =
    contains_any
      (text "connect"
        ∷ text "timeout"
        ∷ text "timed out"
        ∷ text "error sending request"
        ∷ text "dns"
        ∷ text "connection refused"
        ∷ [])
      (to_lowercase m)
is_connection_error to_lowercase _ = false

unfoldable pub is_context_length_error : LlmError → Bool
is_context_length_error (api_error status body) =
    status == 400 && contains_text (text "context length") body
is_context_length_error _ = false
