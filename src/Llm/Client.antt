-- ===== src/Llm/Client.antt =====
-- Chat and embedding calls, with the fallback from Ollama to Azure (loom-engine/src/llm/client.rs).
-- A service answers a request by its body and the number of the attempt; the JSON of serde and the
-- case of letters are functions of the host.
use project_loom.Common.{
  ℕ, ◌/◌, String, Bool, true, false, Option, none, some, List, [], ◌∷◌, ◌++◌, length, take,
  if◌then◌else◌,
}
use project_loom.Common.Json.{
  Json, Items, Fields, string, number, array, object, nil, cons, bool, end, field, get, set_field,
}
use project_loom.Common.Result.{Result, ok, err, ◌>>=◌}
use project_loom.Common.Text.{Text, text}
use project_loom.Llm.Types.{
  LlmError, parse, no_fallback, Answer, truncate, is_connection_error, is_context_length_error,
}
use project_loom.Llm.Post.{post_with_retry, post_with_retry_azure}

-- `from_str`, `to_string` and `as_f64` of serde_json, and `str::to_lowercase`.
pub record Serde (S : Type 0) : Type 0 where
  pub from_str : String → Option Json
  pub to_text : Json → Text
  pub as_f64 : String → Option S
  pub of_text : Text → String
  pub to_lowercase : Text → Text

abbrev pub Service : Type 0
Service = Json → ℕ → Answer

pub record LlmClient : Type 0 where
  pub ollama : Service
  pub azure : Service
  pub azure_url : Option String
  pub azure_key : Option String

abbrev pub role : String → String → Json
role name content = object (field "role" (string name) (field "content" (string content) end))

abbrev pub response_format : String → Json → Json
response_format name schema = object (
    field "type" (string "json_schema") (
      field "json_schema"
        (object
          (field "name" (string name) (field "schema" schema (field "strict" (bool true) end))))
        end))

abbrev pub chat_fields : String → String → String → Fields
chat_fields model system_prompt user_prompt = field "model" (string model) (
    field "messages"
      (array (cons (role "system" system_prompt) (cons (role "user" user_prompt) nil)))
      (field "temperature" (number "0.1") end))

unfoldable pub build_chat_body : String → String → String → Option (String × Json) → Json
build_chat_body model system_prompt user_prompt none =
    object (chat_fields model system_prompt user_prompt)
build_chat_body model system_prompt user_prompt (some (name, schema)) = object (
    set_field "response_format" (response_format name schema)
      (chat_fields model system_prompt user_prompt))

abbrev pub embedding_body : String → String → Json
embedding_body model input =
    object (
      field "model" (string model)
        (field "input" (string input) (field "truncate" (bool true) end)))

abbrev pub azure_embedding_body : String → Json
azure_embedding_body input =
    object (field "model" (string "text-embedding-3-small") (field "input" (string input) end))

abbrev pub first_item : Json → Option Json
first_item (array (cons j js)) = some j
first_item _ = none

abbrev pub and_get : String → Option Json → Option Json
and_get k none = none
and_get k (some j) = get k j

abbrev pub and_first : Option Json → Option Json
and_first none = none
and_first (some j) = first_item j

module _ {S : Type 0} (d : Serde S) where
  abbrev pub unexpected : String → Json → LlmError
  unexpected what resp = parse (text what ++ truncate (d.to_text resp) 256)

  abbrev pub content_of : Json → Option Json
  content_of resp = and_get "content" (and_get "message" (and_first (get "choices" resp)))

  abbrev pub read_content : Json → Option Json → Result LlmError Json
  read_content resp (some (string s)) = elim (d.from_str s) [ some j ↦ ok j | none ↦ ok (string s) ]
  read_content resp _ = err (unexpected "unexpected chat response structure: " resp)

  unfoldable pub parse_chat_response : Json → Result LlmError Json
  unfolding truncate
  parse_chat_response resp = read_content resp (content_of resp)

  abbrev pub cons_number : Option S → Result LlmError (List S) → Result LlmError (List S)
  cons_number none rest = err (parse (text "embedding element is not a number"))
  cons_number (some x) (ok xs) = ok (x ∷ xs)
  cons_number (some x) (err e) = err e

  abbrev pub number_of : Json → Option S
  number_of (number s) = d.as_f64 s
  number_of _ = none

  abbrev pub numbers : Items → Result LlmError (List S)
  numbers nil = ok []
  numbers (cons j js) = cons_number (number_of j) (numbers js)

  abbrev pub read_embedding : Json → Option Json → Result LlmError (List S)
  read_embedding resp (some (array js)) = numbers js
  read_embedding resp _ = err (unexpected "unexpected embedding response structure: " resp)

  unfoldable pub parse_embedding_response : Json → Result LlmError (List S)
  unfolding truncate
  parse_embedding_response resp =
      read_embedding resp (and_get "embedding" (and_first (get "data" resp)))

  -- `azure_config`: both the address and the key.
  abbrev pub azure_config : LlmClient → Bool
  azure_config c = elim c.azure_url [
    | none ↦ false
    | some _ ↦ elim c.azure_key [ none ↦ false | some _ ↦ true ]
  ]

  -- A call of Ollama, and one of Azure where Ollama cannot be reached.
  unfoldable pub with_fallback :
      {A : Type 0} → LlmClient → Json → Json → (Json → Result LlmError A) → Result LlmError A
  unfolding post_with_retry post_with_retry_azure is_connection_error
  with_fallback c body azure_body read = elim (post_with_retry (c.ollama body)).0 [
    | ok resp ↦ read resp
    | err e ↦
        if is_connection_error d.to_lowercase e
        then if azure_config c
          then (post_with_retry_azure (c.azure azure_body)).0 >>= read
          else err no_fallback
        else err e
  ]

  unfoldable pub call_llm_internal :
      LlmClient → String → String → String → Option (String × Json) → Result LlmError Json
  unfolding build_chat_body with_fallback parse_chat_response
  call_llm_internal c model system_prompt user_prompt schema =
      with_fallback c (build_chat_body model system_prompt user_prompt schema)
        (build_chat_body "gpt-4.1-mini" system_prompt user_prompt schema) parse_chat_response

  unfoldable pub call_llm : LlmClient → String → String → String → Result LlmError Json
  unfolding call_llm_internal
  call_llm c model system_prompt user_prompt =
      call_llm_internal c model system_prompt user_prompt none

  unfoldable pub call_embeddings_inner : LlmClient → String → Text → Result LlmError (List S)
  unfolding with_fallback parse_embedding_response
  call_embeddings_inner c model input =
      with_fallback c (embedding_body model (d.of_text input))
        (azure_embedding_body (d.of_text input)) parse_embedding_response

  -- An input that is too long is tried once more, cut to half its characters.
  abbrev pub or_halved :
      LlmClient → String → Text → Result LlmError (List S) → Result LlmError (List S)
  or_halved c model input (ok v) = ok v
  or_halved c model input (err e) =
      if is_context_length_error e
      then call_embeddings_inner c model (take (length input / 2) input)
      else err e

  unfoldable pub call_embeddings : LlmClient → String → Text → Result LlmError (List S)
  unfolding call_embeddings_inner is_context_length_error
  call_embeddings c model input = or_halved c model input (call_embeddings_inner c model input)
