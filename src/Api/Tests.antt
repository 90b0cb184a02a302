-- ===== src/Api/Tests.antt =====
-- Runs of the middleware and of the dispatcher.
use project_loom.Common.{String, Option, ℕ, suc, ◌≡◌, ◌≢◌, refl, ◌⊎◌, true, false, none, some, ◌++◌}
use project_loom.Common.Json.{Json, null, number, has_item}
use project_loom.Common.Result.{Result, ok}
use project_loom.Common.Text.{Text, text}
use Prim.Native.String.{◌++◌ as str_append}
use project_loom.Api.Auth.{unauthorized, handled, bearer, require_bearer_token}
use project_loom.Api.Catalog.{tools_catalog}
use project_loom.Api.Rpc.{
  Server, Tool, no_content, tool_name, handle_mcp_rpc, run_checked, tool_error,
}
use project_loom.Api.Token.{require_bearer_token_lem}
use project_loom.Api.Replies.{IsAnswer, handle_mcp_rpc-IsAnswer}
use project_loom.Api.Runs.{offered, tools_call, handle_mcp_rpc-catalog, handle_mcp_rpc-notification}

require_bearer_token_example :
    ((◌≡◌ {A = Option Text} (some (text "Bearer s3cret")) (some (bearer ++ text "s3cret")))
      × (require_bearer_token {A = ℕ} (text "s3cret") (some (text "Bearer s3cret")) 7 ≡ handled 7))
    ⊎ ((◌≢◌ {A = Option Text} (some (text "Bearer s3cret")) (some (bearer ++ text "s3cret")))
        × (require_bearer_token {A = ℕ} (text "s3cret") (some (text "Bearer s3cret")) 7
            ≡ unauthorized))
require_bearer_token_example =
    require_bearer_token_lem {A = ℕ} (text "s3cret") (some (text "Bearer s3cret")) 7

wrong_token :
    require_bearer_token {A = ℕ} (text "s3cret") (some (text "Bearer s3cre")) 7 ≡ unauthorized
unfolding require_bearer_token
wrong_token = refl

right_token :
    require_bearer_token {A = ℕ} (text "s3cret") (some (text "Bearer s3cret")) 7 ≡ handled 7
unfolding require_bearer_token
right_token = refl

-- A server that counts its calls.
abbrev count_call : Json → ℕ → Result String Json × ℕ
count_call arguments n = (ok arguments, suc n)

abbrev counting : Server ℕ
counting = record {
  version = "0.1.0";
  check_arguments = λ tool arguments. ok tt;
  handle = λ tool arguments n. count_call arguments n;
  to_string_pretty = λ j. "{}";
  read_params = λ p. ok ("loom_learn", p);
}

handle_mcp_rpc-IsAnswer_example :
    IsAnswer
      (number "1")
      (handle_mcp_rpc counting
        (record { jsonrpc = "2.0"; id = some (number "1"); method = "ping"; params = none })
        0).0
handle_mcp_rpc-IsAnswer_example =
    handle_mcp_rpc-IsAnswer counting "2.0" "ping" (number "1") none 0 (λ e. cc)

handle_mcp_rpc-catalog_example :
    ((has_item "loom_learn" (offered tools_catalog) ≡ true)
      × ((tool : Tool) × (tool_name tool ≡ "loom_learn")
          × (handle_mcp_rpc counting (tools_call (number "1") null) 0
              ≡ run_checked counting
                  (number "1")
                  tool
                  null
                  0
                  (counting.check_arguments tool null))))
    ⊎ ((has_item "loom_learn" (offered tools_catalog) ≡ false)
        × (handle_mcp_rpc counting (tools_call (number "1") null) 0
            ≡ (tool_error (number "1") (str_append "unknown tool: " "loom_learn"), 0)))
handle_mcp_rpc-catalog_example =
    handle_mcp_rpc-catalog counting (number "1") null null "loom_learn" 0 refl

counted : (handle_mcp_rpc counting (tools_call (number "1") null) 0).1 ≡ 1
unfolding handle_mcp_rpc
counted = refl

handle_mcp_rpc-notification_example :
    handle_mcp_rpc counting
      (record { jsonrpc = "2.0"; id = none; method = "tools/call"; params = some null })
      0
    ≡ (no_content, 0)
handle_mcp_rpc-notification_example =
    handle_mcp_rpc-notification counting "tools/call" (some null) 0
