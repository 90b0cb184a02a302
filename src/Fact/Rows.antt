-- ===== src/Fact/Rows.antt =====
-- The columns of `loom_facts` (loom-engine/src/types/fact.rs), and those of `loom_summaries`
-- (types/summary.rs) that the queries of the model read or write. The CHECK constraint on
-- `evidence_status` makes it a type of seven values; properties are kept as text.
use project_loom.Common.{ℕ, String, Bool, true, false, Option, List, ◌==◌, is_none, ◌&&◌}
use project_loom.Common.Text.{Text}

pub data EvidenceStatus : Type 0 where
  user_asserted observed extracted inferred promoted deprecated superseded : EvidenceStatus

pub record Fact : Type 0 where
  pub id : ℕ
  pub subject_id : ℕ
  pub predicate : String
  pub object_id : ℕ
  pub namespace : String
  pub valid_from : ℕ
  pub valid_until : Option ℕ
  pub source_episodes : List ℕ
  pub superseded_by : Option ℕ
  pub evidence_status : EvidenceStatus
  pub evidence_strength : Option String
  pub properties : Option Text
  pub created_at : Option ℕ
  pub deleted_at : Option ℕ

pub record KnowledgeSummary : Type 0 where
  pub id : ℕ
  pub namespace : String
  pub subject_entity_id : ℕ
  pub summary_text : Text
  pub source_facts : List ℕ
  pub invalidated_at : Option ℕ
  pub deleted_at : Option ℕ

-- The two tables that supersession works on.
pub record Store : Type 0 where
  pub facts : List Fact
  pub summaries : List KnowledgeSummary

abbrev pub has_id : ℕ → Fact → Bool
has_id i f = f.id == i

abbrev pub is_superseded : EvidenceStatus → Bool
is_superseded superseded = true
is_superseded _ = false

-- `valid_until IS NULL AND deleted_at IS NULL`
abbrev pub is_current : Fact → Bool
is_current f = is_none f.valid_until && is_none f.deleted_at
