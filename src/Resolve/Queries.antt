-- ===== src/Resolve/Queries.antt =====
-- The queries on entities (loom-engine/src/db/entities.rs), with the constraints of their table
-- (migrations/002_entities.sql). The id and the time of a new row are arguments. Where a query has
-- no ORDER BY the rows come as they stand in the table.
use project_loom.Common.{
  ℕ, String, Bool, Option, none, some, List, [], ◌∷◌, ◌&&◌, any, keep, take, map, if◌then◌else◌,
}
use text.Mathlib.Text.{◌==◌ as str_eq}
use project_loom.Common.Json.{Json, get, contains_string}
use project_loom.Common.Result.{Result, ok, err}
use project_loom.Common.Sort.{sort_by}
use project_loom.Common.Table.{DbError, unique_violation, check_violation, find_where}
use project_loom.Common.Text.{Text}
use project_loom.Online.Float.{Float}
use project_loom.Tier.{ServingState, has_key}
use project_loom.Resolve.Rows.{Entity, EntityWithScore, NewEntity, Host, is_live}

abbrev pub entity_types : List String
entity_types =
    "person" ∷ "organization" ∷ "project" ∷ "service" ∷ "technology" ∷ "pattern" ∷ "environment"
    ∷ "document" ∷ "metric" ∷ "decision" ∷ []

-- `[&str]::contains`, and `entity_type IN (...)`
unfoldable pub is_entity_type : String → Bool
is_entity_type t = any (λ s. str_eq s t) entity_types

module _ {S : Type 0} (h : Host S) where
  abbrev pub has_name : String → String → String → Entity → Bool
  has_name name entity_type namespace e =
      str_eq (h.lower e.name) (h.lower name)
      && (str_eq e.entity_type entity_type && (str_eq e.namespace namespace && is_live e))

  unfoldable pub get_entity_by_name_type_namespace :
      String → String → String → List Entity → Option Entity
  get_entity_by_name_type_namespace name entity_type namespace t =
      find_where (has_name name entity_type namespace) t

-- The columns of the UNIQUE constraint, which does not look at `deleted_at`.
abbrev pub same_row : NewEntity → Entity → Bool
same_row n e =
    str_eq e.name n.name && (str_eq e.entity_type n.entity_type && str_eq e.namespace n.namespace)

abbrev pub new_row : ℕ → ℕ → NewEntity → Entity
new_row id now n = record {
  id = id;
  name = n.name;
  entity_type = n.entity_type;
  namespace = n.namespace;
  properties = n.properties;
  created_at = some now;
  source_episodes = n.source_episodes;
  deleted_at = none;
}

unfoldable pub insert_row : ℕ → ℕ → NewEntity → List Entity → Result DbError Entity × List Entity
unfolding is_entity_type
insert_row id now n t =
    if is_entity_type n.entity_type
    then if any (same_row n) t
      then (err unique_violation, t)
      else (ok (new_row id now n), new_row id now n ∷ t)
    else (err check_violation, t)

unfoldable pub insert_entity :
    {S : Type 0} → Host S → ℕ → ℕ → NewEntity → List Entity → Result DbError Entity × List Entity
unfolding get_entity_by_name_type_namespace insert_row
insert_entity h id now n t =
    elim (get_entity_by_name_type_namespace h n.name n.entity_type n.namespace t) [
      | some row ↦ (ok row, t)
      | none ↦ insert_row id now n t
    ]

-- `properties->'aliases'`, NULL where the properties are
abbrev pub aliases_of : Entity → Option Json
aliases_of e = elim e.properties [ none ↦ none | some p ↦ get "aliases" p ]

abbrev pub has_alias : String → String → String → Entity → Bool
has_alias alias entity_type namespace e =
    contains_string alias (aliases_of e)
    && (str_eq e.entity_type entity_type && (str_eq e.namespace namespace && is_live e))

unfoldable pub query_entities_by_alias : String → String → String → List Entity → List Entity
query_entities_by_alias alias entity_type namespace t =
    keep (has_alias alias entity_type namespace) t

abbrev pub embedding_of : {S : Type 0} → Option (ServingState S) → Option Text
embedding_of none = none
embedding_of (some st) = st.embedding

abbrev pub prepend : {A : Type 0} → Option A → List A → List A
prepend none xs = xs
prepend (some x) xs = x ∷ xs

module _ {S : Type 0} (F : Float S) (h : Host S) where
  abbrev pub similarity_of : Text → Text → S
  similarity_of v w = F.sub (F.lit 1 0) (h.distance w v)

  -- A row of the join, with its distance; without an embedding there is none.
  abbrev pub scored :
      Text → String → String → S → Entity → Option Text → Option (S × EntityWithScore S)
  scored v entity_type namespace threshold e none = none
  scored v entity_type namespace threshold e (some w) =
      if str_eq e.entity_type entity_type
        && (str_eq e.namespace namespace && (is_live e && F.le threshold (similarity_of v w)))
      then some (h.distance w v, record { entity = e; similarity = similarity_of v w })
      else none

  abbrev pub join :
      Text
      → String
      → String
      → S
      → List (ServingState S)
      → List Entity
      → List (S × EntityWithScore S)
  join v entity_type namespace threshold states [] = []
  join v entity_type namespace threshold states (e ∷ t) =
      prepend
        (scored v entity_type namespace threshold e
          (embedding_of (find_where (has_key e.id) states)))
        (join v entity_type namespace threshold states t)

  unfoldable pub query_entities_by_embedding_similarity :
      Text
      → String
      → String
      → S
      → ℕ
      → List (ServingState S)
      → List Entity
      → List (EntityWithScore S)
  query_entities_by_embedding_similarity v entity_type namespace threshold limit states t =
      take limit (
        map (λ (row : S × EntityWithScore S). row.1)
          (sort_by (λ (a b : S × EntityWithScore S). F.le a.0 b.0)
            (join v entity_type namespace threshold states t)))
