-- ===== src/Llm/Tests.antt =====
-- Runs of the client and of the classification.
use project_loom.Common.{
  ℕ, String, ◌+◌, ◌*◌, ◌^◌, ◌<◌, ◌≡◌, refl, ◌⊎◌, true, false, none, some, List, [], ◌∷◌, arith, All,
  sum, zero, suc,
}
use project_loom.Common.Json.{Json, string, object, end, field, array, cons, nil, null}
use project_loom.Common.Result.{ok, ◌>>=◌}
use project_loom.Common.Text.{text}
use project_loom.Online.{debug, chat}
use project_loom.Online.Fixed.{millionths, millionths-IsLawful}
use project_loom.Llm.Types.{http, is_connection_error, Answer, response, failure}
use project_loom.Llm.Post.{judge_answer, post_from, post_with_retry}
use project_loom.Llm.Client.{Serde, LlmClient, with_fallback, parse_chat_response, call_llm}
use project_loom.Llm.Classify.{
  ClassEntry, ClassificationOutput, Reader, parse_classification_response, default_chat_output, lt,
  deserialize_response,
}
use project_loom.Llm.Chosen.{IsChosen, parse_classification_response_lem}
use project_loom.Llm.Retries.{IsRetried, waits, post_from_lem}
use project_loom.Llm.Fallback.{with_fallback-unreachable}

abbrev reply : String → Json
reply s = object (
    field "choices"
      (array (cons (object (field "message" (object (field "content" (string s) end)) end)) nil))
      end)

-- A server that is busy twice, and then answers.
abbrev busy_twice : ℕ → Answer
busy_twice zero = response 503 (ok null) (text "busy")
busy_twice (suc zero) = response 429 (ok null) (text "slow down")
busy_twice (suc (suc n)) = response 200 (ok (reply "hello")) []

abbrev refused : ℕ → Answer
refused n = failure (record {
  message = text "error sending request: connection refused";
  is_connect = true;
  is_timeout = false;
})

abbrev serde : Serde ℕ
serde = record {
  from_str = λ s. none;
  to_text = λ j. [];
  as_f64 = λ s. none;
  of_text = λ t. "";
  to_lowercase = λ t. t;
}

abbrev client : (ℕ → Answer) → LlmClient
client ollama = record {
  ollama = λ body. ollama;
  azure = λ body. busy_twice;
  azure_url = some "https://azure";
  azure_key = some "key";
}

waited : (post_with_retry busy_twice).1 ≡ 0 ∷ 500 ∷ 1000 ∷ []
unfolding post_with_retry
waited = refl

no_answer_retried : call_llm serde (client refused) "m" "s" "u" ≡ ok (string "hello")
unfolding call_llm
no_answer_retried = refl

busy_twice-IsRetried : (i : ℕ) → i < 2 → IsRetried (busy_twice i)
busy_twice-IsRetried zero h = refl
busy_twice-IsRetried (suc zero) h = refl
busy_twice-IsRetried (suc (suc i)) h = absurd (omega (arith, h))

post_from_example :
    (post_from 500 busy_twice 3 0 none ≡ (ok (reply "hello"), waits 500 0 3))
    × (sum (waits 500 0 3) + 500 ≡ 500 * 2 ^ 2)
unfolding judge_answer
post_from_example =
    post_from_lem 500 busy_twice 3 2 (ok (reply "hello")) (omega arith) busy_twice-IsRetried refl

with_fallback-unreachable_example :
    with_fallback serde (client refused) null null (parse_chat_response serde)
    ≡ (ok (reply "hello") >>= parse_chat_response serde)
unfolding judge_answer is_connection_error
with_fallback-unreachable_example =
    with_fallback-unreachable serde (client refused) null null (parse_chat_response serde)
      (http (record {
        message = text "error sending request: connection refused";
        is_connect = true;
        is_timeout = false;
      }))
      2 (ok (reply "hello")) (λ i h. tt) refl refl refl (omega arith) busy_twice-IsRetried refl

abbrev entries : List (ClassEntry ℕ)
entries =
    record { class = "chat"; confidence = 300000 }
    ∷ record { class = "debug"; confidence = 550000 }
    ∷ record { class = "poetry"; confidence = 100000 }
    ∷ []

abbrev reader : Reader ℕ
reader = record {
  from_value = λ j. elim j [ object fs ↦ some entries | _ ↦ none ];
  from_str = λ s. none;
  to_lowercase = λ s. s;
}

classified :
    parse_classification_response millionths reader (object end) "gemma"
    ≡ ok (record {
      result = record {
        primary_class = debug;
        secondary_class = some chat;
        primary_confidence = 550000;
        secondary_confidence = some 300000;
      };
      model = "gemma";
    })
unfolding parse_classification_response
classified = refl

parse_classification_response_example :
    (out : ClassificationOutput ℕ) × (parse_classification_response millionths reader
        (object end)
        "gemma"
      ≡ ok out)
    × (((out ≡ default_chat_output millionths "gemma")
          × All (λ e. lt millionths e.confidence 100000 ≡ true) entries)
        ⊎ IsChosen millionths millionths-IsLawful entries out.result)
unfolding deserialize_response
parse_classification_response_example =
    parse_classification_response_lem millionths millionths-IsLawful reader (object end) "gemma"
      entries refl
