-- ===== src/Ingest/Insert.antt =====
-- `insert_episode` (db/episodes.rs) and `ingest_episode` (pipeline/offline/ingest.rs). The id and
-- the time of a new row, which the database gives it, are arguments, as is the SHA-256 hash; what
-- other sessions do to the table between the search for the event and the INSERT is a function.
use project_loom.Common.{
  ℕ, String, Bool, false, Option, none, some, List, ◌∷◌, ◌&&◌, any, ◌==◌, is_some, is_none,
  get_or_default, if◌then◌else◌,
}
use text.Mathlib.Text.{◌==◌ as str_eq}
use project_loom.Common.Text.{Text}
use project_loom.Common.Result.{Result, ok, err}
use project_loom.Common.Table.{DbError, unique_violation, check_violation, find_where}
use project_loom.Episode.{Episode, Episodes, pending}
use project_loom.Online.{IngestionMode}
use project_loom.Ingest.Mode.{as_str}
use project_loom.Ingest.Input.{FieldError, validate_episode_input, validate_parser_fields}

pub record NewEpisode : Type 0 where
  pub source : String
  pub source_id : Option String
  pub source_event_id : Option String
  pub content : Text
  pub content_hash : ℕ
  pub occurred_at : ℕ
  pub namespace : String
  pub metadata : Option Text
  pub participants : Option Text
  pub ingestion_mode : String
  pub parser_version : Option String
  pub parser_source_schema : Option String

-- The row with the defaults of the table.
abbrev pub new_row : ℕ → ℕ → NewEpisode → Episode
new_row id now ep = record {
  id = id;
  source = ep.source;
  source_id = ep.source_id;
  source_event_id = ep.source_event_id;
  content = ep.content;
  content_hash = ep.content_hash;
  occurred_at = ep.occurred_at;
  ingested_at = now;
  namespace = ep.namespace;
  metadata = ep.metadata;
  participants = ep.participants;
  extraction_model = none;
  classification_model = none;
  extraction_metrics = none;
  ingestion_mode = ep.ingestion_mode;
  parser_version = ep.parser_version;
  parser_source_schema = ep.parser_source_schema;
  embedding = none;
  tags = none;
  processed = some false;
  processing_status = pending;
  processing_attempts = 0;
  processing_last_attempt = none;
  processing_last_error = none;
  deleted_at = none;
  deletion_reason = none;
}

-- `source_event_id = $3`, where NULL is equal to nothing
abbrev pub same_event_id : Option String → Option String → Bool
same_event_id (some a) (some b) = str_eq a b
same_event_id _ _ = false

-- The columns of the unique index `idx_episodes_namespace_source_event`.
abbrev pub same_event : String → String → Option String → Episode → Bool
same_event namespace source event_id e =
    str_eq e.namespace namespace
    && (str_eq e.source source && same_event_id e.source_event_id event_id)

-- The constraint `chk_parser_fields_vendor_import`.
abbrev pub parser_fields_agree : NewEpisode → Bool
parser_fields_agree ep =
    if str_eq ep.ingestion_mode "vendor_import"
    then is_some ep.parser_version && is_some ep.parser_source_schema
    else is_none ep.parser_version && is_none ep.parser_source_schema

-- The INSERT, with the check and the index of the table.
abbrev pub insert_row : ℕ → ℕ → NewEpisode → Episodes → Result DbError Episode × Episodes
insert_row id now ep t =
    if parser_fields_agree ep
    then if any (same_event ep.namespace ep.source ep.source_event_id) t
      then (err unique_violation, t)
      else (ok (new_row id now ep), new_row id now ep ∷ t)
    else (err check_violation, t)

abbrev pub existing_event : NewEpisode → Episodes → Option Episode
existing_event ep t = find_where (same_event ep.namespace ep.source ep.source_event_id) t

unfoldable pub insert_episode :
    ℕ → ℕ → (Episodes → Episodes) → NewEpisode → Episodes → Result DbError Episode × Episodes
insert_episode id now meanwhile ep t = elim (existing_event ep t) [
  | some row ↦ (ok row, t)
  | none ↦ insert_row id now ep (meanwhile t)
]

pub data IngestError : Type 0 where
  invalid_data : List FieldError → IngestError
  database constraint_violation : DbError → IngestError

-- `impl From<EpisodeError>`: a unique violation is told from other errors.
abbrev pub ingest_error : DbError → IngestError
ingest_error unique_violation = constraint_violation unique_violation
ingest_error e = database e

pub record IngestResult : Type 0 where
  pub episode_id : ℕ
  pub status : String

pub record IngestEpisodeInput : Type 0 where
  pub content : Text
  pub source : String
  pub namespace : String
  pub source_event_id : Option String
  pub occurred_at : ℕ
  pub metadata : Option Text
  pub participants : Option Text
  pub ingestion_mode : IngestionMode
  pub parser_version : Option String
  pub parser_source_schema : Option String

abbrev pub same_content : ℕ → String → Episode → Bool
same_content content_hash namespace e =
    e.content_hash == content_hash && str_eq e.namespace namespace

unfoldable pub new_episode_from : (Text → ℕ) → IngestEpisodeInput → NewEpisode
unfolding as_str
new_episode_from hash input = record {
  source = input.source;
  source_id = none;
  source_event_id = input.source_event_id;
  content = input.content;
  content_hash = hash input.content;
  occurred_at = input.occurred_at;
  namespace = input.namespace;
  metadata = input.metadata;
  participants = input.participants;
  ingestion_mode = as_str input.ingestion_mode;
  parser_version = input.parser_version;
  parser_source_schema = input.parser_source_schema;
}

abbrev pub duplicate_of : Episode → IngestResult
duplicate_of e = record { episode_id = e.id; status = "duplicate" }

abbrev pub accepted : Episode → IngestResult
accepted e = record {
  episode_id = e.id;
  status = if get_or_default e.processed false then "duplicate" else "queued";
}

-- The last `match`: a violated index is a duplicate of the row that is found then.
abbrev pub after_insert :
    IngestEpisodeInput
    → Result DbError Episode × Episodes
    → Result IngestError IngestResult × Episodes
after_insert input (ok e, t) = (ok (accepted e), t)
after_insert input (err unique_violation, t) =
    elim (find_where (same_event input.namespace input.source input.source_event_id) t) [
      | some e ↦ (ok (duplicate_of e), t)
      | none ↦ (err (constraint_violation unique_violation), t)
    ]
after_insert input (err e, t) = (err (ingest_error e), t)

unfoldable pub insert_unless_present :
    (Text → ℕ)
    → ℕ
    → ℕ
    → (Episodes → Episodes)
    → IngestEpisodeInput
    → Episodes
    → Result IngestError IngestResult × Episodes
unfolding new_episode_from insert_episode
insert_unless_present hash id now meanwhile input t =
    elim (find_where (same_content (hash input.content) input.namespace) t) [
      | some e ↦ (ok (duplicate_of e), t)
      | none ↦ after_insert input (insert_episode id now meanwhile (new_episode_from hash input) t)
    ]

unfoldable pub ingest_episode :
    (Text → ℕ)
    → ℕ
    → ℕ
    → (Episodes → Episodes)
    → IngestEpisodeInput
    → Episodes
    → Result IngestError IngestResult × Episodes
unfolding validate_episode_input validate_parser_fields insert_unless_present
ingest_episode hash id now meanwhile input t =
    elim (validate_episode_input input.content input.source input.namespace) [
      | err errors ↦ (err (invalid_data errors), t)
      | ok _ ↦
          elim (validate_parser_fields input.ingestion_mode input.parser_version
            input.parser_source_schema) [
              | err errors ↦ (err (invalid_data errors), t)
              | ok _ ↦ insert_unless_present hash id now meanwhile input t
            ]
    ]
