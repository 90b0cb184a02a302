-- ===== src/Api/Runs.antt =====
-- What a call over JSON-RPC does to the server, and which names of tools it knows
-- (`handle_mcp_rpc`, `dispatch_tool_call`, `tools_catalog`).
use project_loom.Common.{
  String, ◌≡◌, refl, ◌⊎◌, inl, inr, Bool, true, false, Option, none, some, Bool-cases,
  if◌then◌else◌,
}
use project_loom.Common.Json.{Json, Items, nil, cons, array, get, has_item, eq_comm}
use project_loom.Common.Result.{ok}
use Prim.Native.String.{◌++◌}
use package.text.Mathlib.Text.{◌==◌ as str_eq}
use package.text.Mathlib.TextEquality.{eq_iff}
use project_loom.Api.Catalog.{tools_catalog}
use project_loom.Api.Rpc.{
  JsonRpcRequest, Reply, no_content, Server, Tool, loom_learn, loom_think, loom_recall, tool_of,
  tool_name, handle_mcp_rpc, dispatch, dispatch_tool_call, run_checked, tool_error,
}

-- The names in a catalog of tools.
abbrev pub names : Items → Items
names nil = nil
names (cons tool rest) = elim (get "name" tool) [
  | some name ↦ cons name (names rest)
  | none ↦ names rest
]

abbrev pub offered : Json → Items
offered catalog = elim (get "tools" catalog) [ some (array tools) ↦ names tools | _ ↦ nil ]

-- A name of the catalog is that of a tool, and any other is not.
known :
    (s : String)
    → ((t : Tool) × (tool_of s ≡ some t)
        × (tool_name t ≡ s)
        × (has_item s (offered tools_catalog) ≡ true))
      ⊎ ((tool_of s ≡ none) × (has_item s (offered tools_catalog) ≡ false))
unfolding tools_catalog
known s = elim (Bool-cases (str_eq s "loom_learn")) [
  | inl e ↦ let p = (eq_iff s "loom_learn").0 e in inl (loom_learn, rw p refl, rw p refl, rw p refl)
  | inr e1 ↦ elim (Bool-cases (str_eq s "loom_think")) [
    | inl e ↦
        let p = (eq_iff s "loom_think").0 e in inl (loom_think, rw p refl, rw p refl, rw p refl)
    | inr e2 ↦ elim (Bool-cases (str_eq s "loom_recall")) [
      | inl e ↦
          let p = (eq_iff s "loom_recall").0 e in inl (loom_recall, rw p refl, rw p refl, rw p refl)
      | inr e3 ↦ inr (
        rw e1 (rw e2 (rw e3 refl)),
        rw (eq_comm "loom_learn" s, e1)
            (rw (eq_comm "loom_think" s, e2) (rw (eq_comm "loom_recall" s, e3) refl)),
      )
    ]
  ]
]

abbrev pub tools_call : Json → Json → JsonRpcRequest
tools_call id params = record {
  jsonrpc = "2.0";
  id = some id;
  method = "tools/call";
  params = some params;
}

module _ {St : Type 0} (server : Server St) where
  -- A call of a tool, whose parameters have a name and arguments, runs the tool of this name if the
  -- catalog of `tools/list` has it, and otherwise reports the name and leaves the state alone.
  pub handle_mcp_rpc-catalog :
      (id params arguments : Json) (name : String) (st : St)
      → server.read_params params ≡ ok (name, arguments)
      → ((has_item name (offered tools_catalog) ≡ true)
          × ((tool : Tool) × (tool_name tool ≡ name)
              × (handle_mcp_rpc server (tools_call id params) st
                  ≡ run_checked server id tool arguments st
                      (server.check_arguments tool arguments))))
        ⊎ ((has_item name (offered tools_catalog) ≡ false)
            × (handle_mcp_rpc server (tools_call id params) st
                ≡ (tool_error id ("unknown tool: " ++ name), st)))
  unfolding handle_mcp_rpc dispatch dispatch_tool_call
  handle_mcp_rpc-catalog id params arguments name st h = elim (known name) [
    | inl (tool, found, named, listed) ↦ inl (listed, (tool, named, rw h (rw found refl)))
    | inr (missing, unlisted) ↦ inr (unlisted, rw h (rw missing refl))
  ]

  same : (b : Bool) (x : Reply × St) → (if b then x else x) ≡ x
  same true x = refl
  same false x = refl

  -- A request of version 2.0 without an id gets no reply and changes nothing: no tool runs for it.
  pub handle_mcp_rpc-notification :
      (method : String) (params : Option Json) (st : St)
      → handle_mcp_rpc server
          (record { jsonrpc = "2.0"; id = none; method = method; params = params })
          st
        ≡ (no_content, st)
  unfolding handle_mcp_rpc dispatch
  handle_mcp_rpc-notification method params st = simp (same)
