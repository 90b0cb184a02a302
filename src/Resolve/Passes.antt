-- ===== src/Resolve/Passes.antt =====
-- The three passes of the resolution (loom-engine/src/pipeline/offline/resolve.rs). What the
-- embedding service answers is an argument.
use project_loom.Common.{
  ℕ, String, Bool, Option, none, some, List, [], ◌∷◌, ◌&&◌, not, any, keep, get_or_default,
  if◌then◌else◌,
}
use text.Mathlib.Text.{◌==◌ as str_eq}
use project_loom.Common.Json.{as_strings}
use project_loom.Common.Result.{Result, ok, err, and_then, lift}
use project_loom.Common.Table.{DbError}
use project_loom.Common.Text.{Text}
use project_loom.Online.Float.{Float}
use project_loom.Resolve.Rows.{
  Entity, EntityWithScore, Host, Store, has_id, ResolutionResult, exact, alias, semantic,
}
use project_loom.Resolve.Queries.{
  is_entity_type, get_entity_by_name_type_namespace, query_entities_by_alias,
  query_entities_by_embedding_similarity, aliases_of,
}
use project_loom.Resolve.Updates.{update_entity_aliases}

-- `panicked` is an index out of range.
pub data ResolveError : Type 0 where
  entity : DbError → ResolveError
  embedding : Text → ResolveError
  type_constraint : String → ResolveError
  panicked : ResolveError

unfoldable pub validate_entity_type :
    {S : Type 0} → Host S → String → Result ResolveError (Unit {0})
unfolding is_entity_type
validate_entity_type h entity_type =
    if is_entity_type (h.to_lowercase entity_type) then ok tt else err (type_constraint entity_type)

abbrev pub semantic_threshold : {S : Type 0} → Float S → S
semantic_threshold F = F.lit 92 2

abbrev pub semantic_gap : {S : Type 0} → Float S → S
semantic_gap F = F.lit 3 2

abbrev pub semantic_limit : ℕ
semantic_limit = 10

-- `HashMap::entry(id).or_insert`: the first entity of an id stays.
abbrev pub or_insert : Entity → List Entity → List Entity
or_insert e cs = if any (has_id e.id) cs then cs else e ∷ cs

abbrev pub or_insert_all : List Entity → List Entity → List Entity
or_insert_all [] cs = cs
or_insert_all (e ∷ es) cs = or_insert_all es (or_insert e cs)

module _ {S : Type 0} (F : Float S) (h : Host S) where
  unfoldable pub pass1_exact_match :
      String → String → String → List Entity → Option (ResolutionResult S)
  unfolding get_entity_by_name_type_namespace
  pass1_exact_match name entity_type namespace t =
      elim (get_entity_by_name_type_namespace h name entity_type namespace t) [
        | none ↦ none
        | some e ↦ some (record { entity_id = e.id; method = exact; confidence = F.lit 1 0 })
      ]

  -- The aliases of the extracted entity that are names of others.
  abbrev pub reverse_matches :
      String → String → List String → List Entity → List Entity → List Entity
  reverse_matches entity_type namespace [] t cs = cs
  reverse_matches entity_type namespace (a ∷ aliases) t cs =
      let next : List Entity =
        elim (get_entity_by_name_type_namespace h a entity_type namespace t) [
          | none ↦ cs
          | some e ↦ or_insert e cs
        ] in
      reverse_matches entity_type namespace aliases t next

  unfoldable pub alias_candidates :
      String → List String → String → String → List Entity → List Entity
  unfolding query_entities_by_alias get_entity_by_name_type_namespace
  alias_candidates name aliases entity_type namespace t =
      reverse_matches entity_type namespace aliases t
        (or_insert_all (query_entities_by_alias name entity_type namespace t) [])

  abbrev pub existing_aliases : Entity → List String
  existing_aliases e = elim (aliases_of e) [ none ↦ [] | some j ↦ get_or_default (as_strings j) [] ]

  abbrev pub already_present : String → Entity → Bool
  already_present name e =
      any (λ a. str_eq (h.to_lowercase a) (h.to_lowercase name)) (existing_aliases e)

  abbrev pub by_alias : Entity → ResolutionResult S
  by_alias e = record { entity_id = e.id; method = alias; confidence = F.lit 95 2 }

  abbrev pub append_alias :
      String
      → Entity
      → List Entity
      → Result ResolveError (Option (ResolutionResult S)) × List Entity
  append_alias name e t =
      and_then (lift entity (λ t'. t') (update_entity_aliases h e.id (name ∷ []) t))
        (λ _ t'. (ok (some (by_alias e)), t'))

  -- The branch of a single candidate.
  unfoldable pub merge_alias :
      String
      → Entity
      → List Entity
      → Result ResolveError (Option (ResolutionResult S)) × List Entity
  unfolding update_entity_aliases
  merge_alias name e t =
      if already_present name e then (ok (some (by_alias e)), t) else append_alias name e t

  -- The `match` on the number of candidates.
  abbrev pub alias_outcome :
      String
      → List Entity
      → List Entity
      → Result ResolveError (Option (ResolutionResult S)) × List Entity
  alias_outcome name [] t = (ok none, t)
  alias_outcome name (e ∷ []) t = merge_alias name e t
  alias_outcome name (e ∷ f ∷ cs) t = (ok none, t)

  unfoldable pub pass2_alias_match :
      String
      → List String
      → String
      → String
      → List Entity
      → Result ResolveError (Option (ResolutionResult S)) × List Entity
  unfolding alias_candidates merge_alias
  pass2_alias_match name aliases entity_type namespace t =
      alias_outcome name (alias_candidates name aliases entity_type namespace t) t

pub data SemanticResult (S : Type 0) : Type 0 where
  merge : ResolutionResult S → SemanticResult S
  new_entity : SemanticResult S
  conflict : List (EntityWithScore S) → SemanticResult S

module _ {S : Type 0} (F : Float S) (h : Host S) where
  -- `a < b`, which NaN fails
  abbrev pub lt : S → S → Bool
  lt a b = F.le a b && not (F.le b a)

  abbrev pub second_score : List (EntityWithScore S) → S
  second_score [] = F.lit 0 0
  second_score (c ∷ cs) = c.similarity

  abbrev pub near : S → EntityWithScore S → Bool
  near top c = lt (F.sub top c.similarity) (semantic_gap F)

  -- The log message of an ambiguous match reads `candidates[1]`.
  abbrev pub ambiguous :
      EntityWithScore S → List (EntityWithScore S) → Result ResolveError (SemanticResult S)
  ambiguous top [] = err panicked
  ambiguous top (c ∷ cs) = ok (conflict (keep (near top.similarity) (top ∷ c ∷ cs)))

  unfoldable pub judge : List (EntityWithScore S) → Result ResolveError (SemanticResult S)
  judge [] = ok new_entity
  judge (top ∷ cs) =
      if lt top.similarity (semantic_threshold F)
      then ok new_entity
      else if F.le (semantic_gap F) (F.sub top.similarity (second_score cs))
      then ok (
          merge
            (record { entity_id = top.entity.id; method = semantic; confidence = top.similarity }))
      else ambiguous top cs

  unfoldable pub pass3_semantic_match :
      Result Text Text → String → String → Store S → Result ResolveError (SemanticResult S)
  unfolding judge query_entities_by_embedding_similarity
  pass3_semantic_match (err e) entity_type namespace s = err (embedding e)
  pass3_semantic_match (ok v) entity_type namespace s = judge (
      query_entities_by_embedding_similarity F h v entity_type namespace (F.lit 0 0) semantic_limit
        s.states s.entities)
