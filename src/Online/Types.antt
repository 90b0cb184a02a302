-- ===== src/Online/Types.antt =====
-- The types that the stages of the online pipeline hand on (types/classification.rs,
-- types/ingestion.rs, types/compilation.rs, pipeline/online/retrieve.rs), over the type of their
-- scores. Names and predicates are native strings; texts whose length in bytes counts are code
-- points.
use project_loom.Common.{ℕ, String, Option, List}
use project_loom.Common.Int.{ℤ}
use project_loom.Common.Text.{Text}

pub data TaskClass : Type 0 where
  debug architecture compliance writing chat : TaskClass

pub data IngestionMode : Type 0 where
  user_authored_seed vendor_import live_mcp_capture : IngestionMode

pub data MemoryType : Type 0 where
  semantic episodic graph procedural : MemoryType

pub data RetrievalProfile : Type 0 where
  fact_lookup episode_recall graph_neighborhood procedure_assist : RetrievalProfile

pub record FactCandidate : Type 0 where
  pub subject_id : ℕ
  pub subject_name : String
  pub predicate : String
  pub object_id : ℕ
  pub object_name : String
  pub evidence_status : String
  pub source_episodes : List ℕ
  pub namespace : String

-- Times are in microseconds, as in the database.
pub record EpisodeCandidate : Type 0 where
  pub source : String
  pub content : Text
  pub occurred_at : ℕ
  pub namespace : String

pub record GraphCandidate : Type 0 where
  pub entity_id : ℕ
  pub entity_name : String
  pub entity_type : String
  pub fact_id : Option ℕ
  pub predicate : Option String
  pub hop_depth : ℤ

pub record ProcedureCandidate (S : Type 0) : Type 0 where
  pub pattern : Text
  pub confidence : S
  pub observation_count : ℤ
  pub namespace : String

pub record SummaryCandidate : Type 0 where
  pub summary_id : ℕ
  pub subject_entity_id : ℕ
  pub summary_text : Text
  pub fact_count : ℤ
  pub evidence_status : String
  pub namespace : String

pub data CandidatePayload (S : Type 0) : Type 0 where
  fact : FactCandidate → CandidatePayload S
  episode : EpisodeCandidate → CandidatePayload S
  graph_result : GraphCandidate → CandidatePayload S
  procedure : ProcedureCandidate S → CandidatePayload S
  summary : SummaryCandidate → CandidatePayload S

pub record RetrievalCandidate (S : Type 0) : Type 0 where
  pub id : ℕ
  pub score : S
  pub source_profile : RetrievalProfile
  pub memory_type : MemoryType
  pub payload : CandidatePayload S
  pub provenance_mode : Option IngestionMode

pub record WeightedCandidate (S : Type 0) : Type 0 where
  pub candidate : RetrievalCandidate S
  pub weight : S
  pub weighted_score : S

pub record RankingScore (S : Type 0) : Type 0 where
  pub relevance : S
  pub recency : S
  pub stability : S
  pub provenance : S

pub record RankedCandidate (S : Type 0) : Type 0 where
  pub candidate : RetrievalCandidate S
  pub scores : RankingScore S
  pub final_score : S
