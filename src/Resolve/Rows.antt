-- ===== src/Resolve/Rows.antt =====
-- The rows of `loom_entities` and `loom_resolution_conflicts`, and what the model extracts
-- (loom-engine/src/types/entity.rs). The serving state is that of the tiers.
use project_loom.Common.{ℕ, String, Bool, Option, List, ◌==◌, is_none}
use project_loom.Common.Json.{Json}
use project_loom.Common.Text.{Text}
use project_loom.Tier.{ServingState}

pub record Entity : Type 0 where
  pub id : ℕ
  pub name : String
  pub entity_type : String
  pub namespace : String
  pub properties : Option Json
  pub created_at : Option ℕ
  pub source_episodes : Option (List ℕ)
  pub deleted_at : Option ℕ

pub record EntityWithScore (S : Type 0) : Type 0 where
  pub entity : Entity
  pub similarity : S

pub record ExtractedEntity : Type 0 where
  pub name : String
  pub entity_type : String
  pub aliases : List String
  pub properties : Json

pub record NewEntity : Type 0 where
  pub name : String
  pub entity_type : String
  pub namespace : String
  pub properties : Option Json
  pub source_episodes : Option (List ℕ)

pub data Method : Type 0 where
  exact alias semantic new : Method

pub record ResolutionResult (S : Type 0) : Type 0 where
  pub entity_id : ℕ
  pub method : Method
  pub confidence : S

-- The candidates are kept as the payload lists them, ids and scores.
pub record ResolutionConflict (S : Type 0) : Type 0 where
  pub id : ℕ
  pub entity_name : String
  pub entity_type : String
  pub namespace : String
  pub candidates : List (EntityWithScore S)
  pub resolved : Option Bool
  pub resolution : Option String
  pub resolved_at : Option ℕ
  pub created_at : Option ℕ

-- The three tables that a resolution works on.
pub record Store (S : Type 0) : Type 0 where
  pub entities : List Entity
  pub states : List (ServingState S)
  pub conflicts : List (ResolutionConflict S)

-- What the host gives: `LOWER` of the database, `str::to_lowercase`, the text of a JSON value that
-- is no string, the order of `DISTINCT`, and the distance `<=>` of two vectors.
pub record Host (S : Type 0) : Type 0 where
  pub lower : String → String
  pub to_lowercase : String → String
  pub text_of : Json → String
  pub collate : Option String → Option String → Bool
  pub distance : Text → Text → S

abbrev pub has_id : ℕ → Entity → Bool
has_id i e = e.id == i

abbrev pub is_live : Entity → Bool
is_live e = is_none e.deleted_at
