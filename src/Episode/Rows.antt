-- ===== src/Episode/Rows.antt =====
-- The columns of `loom_episodes` (loom-engine/src/types/episode.rs). JSON documents, participants
-- and tags, which no query of the model looks into, are kept as text.
use project_loom.Common.{ℕ, String, Bool, true, false, Option, List, ◌==◌}
use project_loom.Common.Text.{Text}

pub data ProcessingStatus : Type 0 where
  pending processing completed failed : ProcessingStatus

pub record Episode : Type 0 where
  pub id : ℕ
  pub source : String
  pub source_id : Option String
  pub source_event_id : Option String
  pub content : Text
  pub content_hash : ℕ
  pub occurred_at : ℕ
  pub ingested_at : ℕ
  pub namespace : String
  pub metadata : Option Text
  pub participants : Option Text
  pub extraction_model : Option String
  pub classification_model : Option String
  pub extraction_metrics : Option Text
  pub ingestion_mode : String
  pub parser_version : Option String
  pub parser_source_schema : Option String
  pub embedding : Option Text
  pub tags : Option Text
  pub processed : Option Bool
  pub processing_status : ProcessingStatus
  pub processing_attempts : ℕ
  pub processing_last_attempt : Option ℕ
  pub processing_last_error : Option Text
  pub deleted_at : Option ℕ
  pub deletion_reason : Option Text

abbrev pub Episodes : Type 0
Episodes = List Episode

abbrev pub is_pending : ProcessingStatus → Bool
is_pending pending = true
is_pending _ = false

abbrev pub is_processing : ProcessingStatus → Bool
is_processing processing = true
is_processing _ = false

abbrev pub is_failed : ProcessingStatus → Bool
is_failed failed = true
is_failed _ = false

abbrev pub has_id : ℕ → Episode → Bool
has_id i e = e.id == i
