-- ===== src/Api/Rpc.antt =====
-- The dispatcher of JSON-RPC calls (loom-engine/src/api/mcp_rpc.rs). The
-- reading of arguments by serde and the three handlers are parameters.
use Prim.Native.String.{◌++◌}
use project_loom.Api.Catalog.{tools_catalog}
use project_loom.Common.{
  String, true, Option, none, some, is_none, get_or_default, not, if◌then◌else◌,
}
use project_loom.Common.Int.{ℤ, negsuc}
use project_loom.Common.Json.{Json, null, bool, string, array, object, nil, cons, end, field, get}
use project_loom.Common.Result.{Result, ok, err}
use package.text.Mathlib.Text.{◌==◌ as str_eq}

-- As serde reads it: an id that is null is none.
pub record JsonRpcRequest : Type 0 where
  pub jsonrpc : String
  pub id : Option Json
  pub method : String
  pub params : Option Json

pub record JsonRpcErrorObj : Type 0 where
  pub code : ℤ
  pub message : String
  pub data_ : Option Json

pub record JsonRpcResponse : Type 0 where
  pub jsonrpc : String
  pub id : Json
  pub result : Option Json
  pub error : Option JsonRpcErrorObj

pub data Reply : Type 0 where
  no_content : Reply
  ok_json : JsonRpcResponse → Reply

abbrev pub err_invalid_request : ℤ
err_invalid_request = negsuc 32599

abbrev pub err_method_not_found : ℤ
err_method_not_found = negsuc 32600

abbrev pub err_invalid_params : ℤ
err_invalid_params = negsuc 32601

abbrev pub default_protocol_version : String
default_protocol_version = "2025-06-18"

unfoldable pub negotiate_protocol_version : Option String → String
negotiate_protocol_version client_version = get_or_default client_version default_protocol_version

-- `JsonRpcResponse::result` in a response.
unfoldable pub json_ok : Json → Json → Reply
json_ok id result =
    ok_json (record { jsonrpc = "2.0"; id = id; result = some result; error = none })

unfoldable pub json_error : Json → ℤ → String → Reply
json_error id code message = ok_json (record {
  jsonrpc = "2.0";
  id = id;
  result = none;
  error = some (record { code = code; message = message; data_ = none });
})

abbrev pub text_content : String → Json
text_content s =
    array (cons (object (field "type" (string "text") (field "text" (string s) end))) nil)

unfoldable pub tool_error : Json → String → Reply
unfolding json_ok
tool_error id s =
    json_ok id (object (field "content" (text_content s) (field "isError" (bool true) end)))

-- What the dispatcher calls: the version of the package, `from_value` of the arguments
-- of a tool, its handler, and the pretty printer.
pub data Tool : Type 0 where
  loom_learn loom_think loom_recall : Tool

pub record Server (St : Type 0) : Type 0 where
  pub version : String
  pub check_arguments : Tool → Json → Result String (Unit {0})
  pub handle : Tool → Json → St → Result String Json × St
  pub to_string_pretty : Json → String
  pub read_params : Json → Result String (String × Json)

abbrev pub tool_name : Tool → String
tool_name loom_learn = "loom_learn"
tool_name loom_think = "loom_think"
tool_name loom_recall = "loom_recall"

abbrev pub tool_of : String → Option Tool
tool_of s =
    if str_eq s "loom_learn"
    then some loom_learn
    else if str_eq s "loom_think"
    then some loom_think
    else if str_eq s "loom_recall"
    then some loom_recall
    else none

abbrev pub as_str : Option Json → Option String
as_str (some (string s)) = some s
as_str _ = none

abbrev pub and_get : String → Option Json → Option Json
and_get k (some j) = get k j
and_get k none = none

module _ {St : Type 0} (server : Server St) where
  unfoldable pub tool_ok : Json → Json → Reply
  unfolding json_ok
  tool_ok id payload =
      json_ok id (object (field "content" (text_content (server.to_string_pretty payload)) end))

  abbrev pub reply_of : Json → Result String Json × St → Reply × St
  reply_of id (ok payload, st) = (tool_ok id payload, st)
  reply_of id (err e, st) = (tool_error id e, st)

  -- One of the three tools, with its arguments.
  abbrev pub run_checked : Json → Tool → Json → St → Result String (Unit {0}) → Reply × St
  run_checked id tool arguments st (err e) =
      (tool_error id ("invalid arguments for " ++ (tool_name tool ++ (": " ++ e))), st)
  run_checked id tool arguments st (ok _) = reply_of id (server.handle tool arguments st)

  abbrev pub call_tool : Json → String → Json → St → Option Tool → Reply × St
  call_tool id name arguments st (some tool) =
      run_checked id tool arguments st (server.check_arguments tool arguments)
  call_tool id name arguments st none = (tool_error id ("unknown tool: " ++ name), st)

  abbrev pub call_with : Json → Result String (String × Json) → St → Reply × St
  call_with id (err e) st =
      (json_error id err_invalid_params ("invalid tools/call params: " ++ e), st)
  call_with id (ok (name, arguments)) st = call_tool id name arguments st (tool_of name)

  unfoldable pub dispatch_tool_call : Json → Option Json → St → Reply × St
  unfolding json_error tool_error tool_ok
  dispatch_tool_call id none st =
      (json_error id err_invalid_params "tools/call requires params: { name, arguments }", st)
  dispatch_tool_call id (some p) st = call_with id (server.read_params p) st

  abbrev pub server_info : Json
  server_info = object (field "name" (string "loom") (field "version" (string server.version) end))

  abbrev pub server_capabilities : Json
  server_capabilities = object (field "tools" (object end) end)

  unfoldable pub initialize_result : Option Json → Json
  unfolding negotiate_protocol_version
  initialize_result params = object (
      field "protocolVersion"
        (string (negotiate_protocol_version (as_str (and_get "protocolVersion" params))))
        (field "capabilities" server_capabilities (field "serverInfo" server_info end)))

  -- The `match` on the method, for a request of the right version.
  unfoldable pub dispatch : JsonRpcRequest → St → Reply × St
  unfolding initialize_result json_ok json_error dispatch_tool_call tools_catalog
  dispatch req st =
      let id = get_or_default req.id null in
      let is_notification = is_none req.id in
      if str_eq req.method "initialize"
      then if is_notification
        then (no_content, st)
        else (json_ok id (initialize_result req.params), st)
      else if str_eq req.method "notifications/initialized"
      then (no_content, st)
      else if str_eq req.method "ping"
      then if is_notification then (no_content, st) else (json_ok id (object end), st)
      else if str_eq req.method "tools/list"
      then if is_notification then (no_content, st) else (json_ok id tools_catalog, st)
      else if str_eq req.method "tools/call"
      then if is_notification then (no_content, st) else dispatch_tool_call id req.params st
      else if is_notification
      then (no_content, st)
      else (json_error id err_method_not_found ("method not found: " ++ req.method), st)

  unfoldable pub handle_mcp_rpc : JsonRpcRequest → St → Reply × St
  unfolding dispatch json_error
  handle_mcp_rpc req st =
      if not (str_eq req.jsonrpc "2.0")
      then (
        json_error (get_or_default req.id null) err_invalid_request "jsonrpc must be \"2.0\"",
        st,
      )
      else dispatch req st
