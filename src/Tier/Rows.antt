-- ===== src/Tier/Rows.antt =====
-- The rows of the serving state (types/fact.rs, types/entity.rs) and those that its queries join.
-- Both tables have the same columns but for a summary, which no query here looks at. A column
-- without NOT NULL is an option, and a comparison with NULL is not true.
use project_loom.Common.{ℕ, String, Bool, true, false, Option, some, List, ◌==◌, is_none, ◌&&◌, any}
use project_loom.Common.Int.{ℤ}
use project_loom.Common.Text.{Text}
use project_loom.Fact.{Fact}
use text.Mathlib.Text.{◌==◌ as str_eq}

pub data Tier : Type 0 where
  hot warm : Tier

-- A row of `loom_fact_state`, or of `loom_entity_state`.
pub record ServingState (S : Type 0) : Type 0 where
  pub item_id : ℕ
  pub embedding : Option Text
  pub salience_score : Option S
  pub access_count : Option ℤ
  pub last_accessed : Option ℕ
  pub tier : Option Tier
  pub pinned : Option Bool
  pub updated_at : Option ℕ

-- What the queries read of `loom_entities`, `loom_procedures` and `loom_namespace_config`.
pub record Entity : Type 0 where
  pub id : ℕ
  pub namespace : String
  pub deleted_at : Option ℕ

pub record Procedure : Type 0 where
  pub namespace : String
  pub tier : Option Tier
  pub deleted_at : Option ℕ

pub record NamespaceConfig : Type 0 where
  pub namespace : String
  pub hot_tier_budget : Option ℤ

pub record Tables (S : Type 0) : Type 0 where
  pub entity_states : List (ServingState S)
  pub fact_states : List (ServingState S)
  pub entities : List Entity
  pub facts : List Fact
  pub procedures : List Procedure
  pub configs : List NamespaceConfig

abbrev pub tier_is_hot : Option Tier → Bool
tier_is_hot (some hot) = true
tier_is_hot _ = false

abbrev pub tier_is_warm : Option Tier → Bool
tier_is_warm (some warm) = true
tier_is_warm _ = false

-- `pinned = false`
abbrev pub is_false : Option Bool → Bool
is_false (some false) = true
is_false _ = false

module _ {S : Type 0} where
  abbrev pub key_of : ServingState S → ℕ
  key_of r = r.item_id

  abbrev pub has_key : ℕ → ServingState S → Bool
  has_key i r = r.item_id == i

  abbrev pub is_hot : ServingState S → Bool
  is_hot r = tier_is_hot r.tier

  abbrev pub is_warm : ServingState S → Bool
  is_warm r = tier_is_warm r.tier

  abbrev pub is_unpinned : ServingState S → Bool
  is_unpinned r = is_false r.pinned

  abbrev pub set_tier : ℕ → Tier → ServingState S → ServingState S
  set_tier now tier r = record r { tier = some tier; updated_at = some now }

-- `SELECT id FROM loom_entities WHERE namespace = $1 AND deleted_at IS NULL`, and for facts
abbrev pub lives_in : String → List Entity → ℕ → Bool
lives_in namespace entities i =
    any (λ e. e.id == i && (str_eq e.namespace namespace && is_none e.deleted_at)) entities

abbrev pub fact_lives_in : String → List Fact → ℕ → Bool
fact_lives_in namespace facts i =
    any (λ (f : Fact). f.id == i && (str_eq f.namespace namespace && is_none f.deleted_at)) facts
