-- ===== src/Ingest/Blank.antt =====
-- A blank parser field: the check of the engine against that of the table
-- (`validate_parser_fields`, and the constraint `chk_parser_fields_vendor_import`).
use project_loom.Common.{ℕ, String, ◌≡◌, refl, ap, ◌∙◌, true, false, none, some}
use project_loom.Common.Text.{Text, text}
use project_loom.Common.Result.{ok, err}
use project_loom.Common.Table.{check_violation, find_where}
use project_loom.Episode.{Episodes}
use project_loom.Online.{user_authored_seed}
use project_loom.Ingest.Mode.{as_str}
use project_loom.Ingest.Input.{is_blank, validate_episode_input, validate_parser_fields}
use project_loom.Ingest.Insert.{
  same_content, same_event, IngestEpisodeInput, database, ingest_episode, new_episode_from,
  after_insert, parser_fields_agree,
}
use project_loom.Ingest.Idempotent.{alone, passed, by_insertion, row_refused}

-- A seed with a blank parser version passes the checks of the engine; where it is no
-- duplicate, the table refuses it, and the ingestion ends with a database error.
pub ingest_episode-blank_version :
    (hash : Text → ℕ) (id now : ℕ) (input : IngestEpisodeInput) (version : String) (t : Episodes)
    → input.ingestion_mode ≡ user_authored_seed
    → input.parser_version ≡ some version
    → input.parser_source_schema ≡ none
    → is_blank (text version) ≡ true
    → validate_episode_input input.content input.source input.namespace ≡ ok tt
    → find_where (same_content (hash input.content) input.namespace) t ≡ none
    → find_where (same_event input.namespace input.source input.source_event_id) t ≡ none
    → ingest_episode hash id now alone input t ≡ (err (database check_violation), t)
unfolding validate_parser_fields new_episode_from as_str
ingest_episode-blank_version hash id now input version t mode v s blank valid new_content
      new_event =
    let agree : validate_parser_fields input.ingestion_mode input.parser_version
          input.parser_source_schema
        ≡ ok tt =
      rw (mode, v, s) (rw blank refl) in
    let wrong : parser_fields_agree (new_episode_from hash input) ≡ false = rw (mode, v) refl in
    passed hash input id now alone t valid agree
    ∙ by_insertion hash input id now t new_content new_event
    ∙ ap (after_insert input) (row_refused hash input id now t wrong)
