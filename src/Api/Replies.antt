-- ===== src/Api/Replies.antt =====
-- The replies to a call over JSON-RPC (`handle_mcp_rpc`, `dispatch_tool_call`).
use project_loom.Common.{
  String, ◌≢◌, inl, inr, Bool, true, false, Option, none, some, not, Bool-cases, if◌then◌else◌,
}
use project_loom.Common.Json.{Json}
use project_loom.Common.Result.{Result, ok, err}
use package.text.Mathlib.Text.{◌==◌ as str_eq}
use package.text.Mathlib.TextEquality.{eq_iff}
use project_loom.Api.Rpc.{
  JsonRpcErrorObj, Reply, ok_json, Server, Tool, tool_of, handle_mcp_rpc, dispatch,
  dispatch_tool_call, run_checked, call_tool, call_with, reply_of, json_ok, json_error, tool_ok,
  tool_error,
}

-- One envelope of version 2.0 with the id of the request, and a result or an error.
pub data IsAnswer (id : Json) : Reply → Type 0 where
  with_result :
      (v : Json)
      → IsAnswer id (ok_json (record { jsonrpc = "2.0"; id = id; result = some v; error = none }))
  with_error :
      (e : JsonRpcErrorObj)
      → IsAnswer id (ok_json (record { jsonrpc = "2.0"; id = id; result = none; error = some e }))

module _ {St : Type 0} (server : Server St) where
  reply_of-IsAnswer :
      (id : Json) (r : Result String Json × St) → IsAnswer id (reply_of server id r).0
  unfolding tool_ok tool_error json_ok
  reply_of-IsAnswer id (ok payload, st) = with_result _
  reply_of-IsAnswer id (err e, st) = with_result _

  run_checked-IsAnswer :
      (id : Json) (tool : Tool) (arguments : Json) (st : St) (r : Result String (Unit {0}))
      → IsAnswer id (run_checked server id tool arguments st r).0
  unfolding tool_error json_ok
  run_checked-IsAnswer id tool arguments st (err e) = with_result _
  run_checked-IsAnswer id tool arguments st (ok _) =
      reply_of-IsAnswer id (server.handle tool arguments st)

  call_tool-IsAnswer :
      (id : Json) (name : String) (arguments : Json) (st : St) (t : Option Tool)
      → IsAnswer id (call_tool server id name arguments st t).0
  unfolding tool_error json_ok
  call_tool-IsAnswer id name arguments st (some tool) =
      run_checked-IsAnswer id tool arguments st (server.check_arguments tool arguments)
  call_tool-IsAnswer id name arguments st none = with_result _

  call_with-IsAnswer :
      (id : Json) (r : Result String (String × Json)) (st : St)
      → IsAnswer id (call_with server id r st).0
  unfolding json_error
  call_with-IsAnswer id (err e) st = with_error _
  call_with-IsAnswer id (ok (name, arguments)) st =
      call_tool-IsAnswer id name arguments st (tool_of name)

  dispatch_tool_call-IsAnswer :
      (id : Json) (params : Option Json) (st : St)
      → IsAnswer id (dispatch_tool_call server id params st).0
  unfolding dispatch_tool_call json_error
  dispatch_tool_call-IsAnswer id none st = with_error _
  dispatch_tool_call-IsAnswer id (some p) st = call_with-IsAnswer id (server.read_params p) st

  either :
      (b : Bool) (x y : Reply × St) (id : Json)
      → IsAnswer id x.0
      → IsAnswer id y.0
      → IsAnswer id (if b then x else y).0
  either true x y id p q = p
  either false x y id p q = q

  dispatch-IsAnswer :
      (jsonrpc method : String) (id : Json) (params : Option Json) (st : St)
      → method ≢ "notifications/initialized"
      → IsAnswer id
          (dispatch server
            (record { jsonrpc = jsonrpc; id = some id; method = method; params = params })
            st).0
  unfolding dispatch json_ok json_error
  dispatch-IsAnswer jsonrpc method id params st other =
      elim (Bool-cases (str_eq method "notifications/initialized")) [
        | inl same ↦ absurd (other ((eq_iff method "notifications/initialized").0 same))
        | inr differs ↦ rw differs (
            either (str_eq method "initialize") _ _ id (with_result _) (
              either (str_eq method "ping") _ _ id (with_result _) (
                either (str_eq method "tools/list") _ _ id (with_result _) (
                  either (str_eq method "tools/call") _ _ id
                    (dispatch_tool_call-IsAnswer id params st) (with_error _)))))
      ]

  -- A request with an id gets one envelope of version 2.0 with this id and either a result or an
  -- error, whatever its version, method and parameters are and whatever the tools do; the method
  -- `notifications/initialized` alone is excepted.
  pub handle_mcp_rpc-IsAnswer :
      (jsonrpc method : String) (id : Json) (params : Option Json) (st : St)
      → method ≢ "notifications/initialized"
      → IsAnswer id
          (handle_mcp_rpc server
            (record { jsonrpc = jsonrpc; id = some id; method = method; params = params })
            st).0
  unfolding handle_mcp_rpc json_error
  handle_mcp_rpc-IsAnswer jsonrpc method id params st other =
      either (not (str_eq jsonrpc "2.0")) _ _ id (with_error _)
        (dispatch-IsAnswer jsonrpc method id params st other)
