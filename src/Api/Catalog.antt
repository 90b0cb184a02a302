-- ===== src/Api/Catalog.antt =====
-- The catalog of the tools that `tools/list` returns (loom-engine/src/api/mcp_rpc.rs).
use project_loom.Common.{String, [], ◌∷◌, false}
use project_loom.Common.Json.{Json, bool, string, array, object, nil, cons, end, field, strings}

-- A property of a schema, with its type.
abbrev described : String → String → Json
described type description =
    object (field "type" (string type) (field "description" (string description) end))

abbrev loom_learn_properties : Json
loom_learn_properties = object (
    field "content" (described "string" "Verbatim episode text. Never a summary.") (
      field "source"
        (described "string"
          "Free-form source identifier (e.g. claude-code, claude-desktop, chatgpt, github-copilot, m365-copilot, manual).")
        (field "namespace"
          (described "string"
            "Isolation boundary for this memory. Memory in one namespace is invisible to queries in another.")
          (field "occurred_at"
            (object (
              field "type" (string "string") (
                field "format" (string "date-time")
                  (field "description" (string "ISO-8601 timestamp. Defaults to now.") end))))
            (field "metadata"
              (described "object" "Arbitrary source-specific metadata (session_id, channel, etc.).")
              (field "participants"
                (object (
                  field "type" (string "array") (
                    field "items" (object (field "type" (string "string") end))
                      (field "description" (string "People involved in the interaction.") end))))
                (field "source_event_id"
                  (described "string" "Deduplication key within the source system.") end)))))))

abbrev loom_learn_entry : Json
loom_learn_entry = object (
    field "name" (string "loom_learn") (
      field "description"
        (string
          "Ingest an interaction episode into Loom memory. Stores the episode and returns immediately; entity + fact extraction runs asynchronously in the offline pipeline. The `content` parameter MUST be verbatim — a transcript excerpt, quoted user prose, or raw source material. Never summaries, paraphrases, or reconstructions. The server hardcodes ingestion_mode to live_mcp_capture on this transport; clients cannot override it.")
        (field "inputSchema"
          (object (
            field "type" (string "object") (
              field "properties" loom_learn_properties
                (field "required" (strings ("content" ∷ "source" ∷ "namespace" ∷ [])) end))))
          end)))

abbrev loom_think_properties : Json
loom_think_properties = object (
    field "query" (described "string" "The question to compile context for.") (
      field "namespace" (described "string" "Which namespace to search.") (
        field "task_class_override"
          (object (
            field "type" (string "string") (
              field "enum"
                (strings ("debug" ∷ "architecture" ∷ "compliance" ∷ "writing" ∷ "chat" ∷ []))
                (field "description" (string "Force a task class, bypassing the classifier.")
                  end))))
          (field "target_model"
            (described "string"
              "Target model identifier. Model names containing 'claude' get XML structured output; everything else gets JSON compact output.")
            end))))

abbrev loom_think_entry : Json
loom_think_entry = object (
    field "name" (string "loom_think") (
      field "description"
        (string
          "Compile a context package for a query. Runs the full online pipeline: intent classification → retrieval-profile selection → parallel retrieval → 4-dimension ranking → compilation. Returns the assembled context, its token count, and a compilation ID that can be used to audit the retrieval decisions in the Loom dashboard.")
        (field "inputSchema"
          (object (
            field "type" (string "object") (
              field "properties" loom_think_properties
                (field "required" (strings ("query" ∷ "namespace" ∷ [])) end))))
          end)))

abbrev loom_recall_properties : Json
loom_recall_properties = object (
    field "entity_names"
      (object (
        field "type" (string "array") (
          field "items" (object (field "type" (string "string") end)) (
            field "description"
              (string "Entity names to look up. Matched case-insensitively within the namespace.")
              end))))
      (field "namespace" (described "string" "Which namespace to search.") (
        field "include_historical"
          (object (
            field "type" (string "boolean") (
              field "default" (bool false)
                (field "description" (string "Include superseded and soft-deleted facts.") end))))
          end)))

abbrev loom_recall_entry : Json
loom_recall_entry = object (
    field "name" (string "loom_recall") (
      field "description"
        (string
          "Direct fact lookup for named entities. Bypasses intent classification and retrieval profiles. Returns raw facts with provenance — useful when you already know which entity you care about and want its current (or historical) relationships.")
        (field "inputSchema"
          (object (
            field "type" (string "object") (
              field "properties" loom_recall_properties
                (field "required" (strings ("entity_names" ∷ "namespace" ∷ [])) end))))
          end)))

unfoldable pub tools_catalog : Json
tools_catalog = object (
    field "tools"
      (array (cons loom_learn_entry (cons loom_think_entry (cons loom_recall_entry nil)))) end)
