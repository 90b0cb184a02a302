-- ===== src/Resolve/Run.antt =====
-- The resolution of one extracted entity (`resolve_entity` of
-- loom-engine/src/pipeline/offline/resolve.rs), and the map from names to entities that the
-- pipeline builds (pipeline/offline/extract.rs). The answers of the embedding service, the ids of
-- new rows and the time are arguments.
use project_loom.Common.{ℕ, String, false, Option, none, some, List, [], ◌∷◌, if◌then◌else◌}
use project_loom.Common.Int.{pos}
use project_loom.Common.Json.{Json, object, end, is_object, set_field, strings}
use project_loom.Common.Result.{Result, ok, err, and_then, lift}
use project_loom.Common.Table.{DbError}
use project_loom.Common.Text.{Text}
use project_loom.Online.Float.{Float}
use project_loom.Tier.{warm, ServingState}
use project_loom.Resolve.Rows.{
  Entity, EntityWithScore, ExtractedEntity, NewEntity, Host, Store, ResolutionConflict,
  ResolutionResult, new,
}
use project_loom.Resolve.Queries.{insert_entity}
use project_loom.Resolve.Updates.{append_source_episode, update_entity_state}
use project_loom.Resolve.Passes.{
  ResolveError, entity, embedding, panicked, pass1_exact_match, pass2_alias_match,
  pass3_semantic_match, SemanticResult, merge, new_entity, conflict,
}

-- What one resolution gets from outside: the answers of the embedding service to the two calls,
-- the ids that new rows get, whether the INSERT of a conflict succeeds, and the time.
pub record Outside : Type 0 where
  pub for_match : Result Text Text
  pub for_state : Result Text Text
  pub entity_id : ℕ
  pub conflict_id : ℕ
  pub conflict_failure : Option DbError
  pub now : ℕ

abbrev pub set_aliases : List String → Json → Json
set_aliases [] p = p
set_aliases (a ∷ as') (object fs) = object (set_field "aliases" (strings (a ∷ as')) fs)
set_aliases (a ∷ as') p = p

abbrev pub properties_of : ExtractedEntity → Json
properties_of x =
    set_aliases x.aliases (if is_object x.properties then x.properties else object end)

abbrev pub new_entity_from : ExtractedEntity → String → ℕ → NewEntity
new_entity_from x namespace episode_id = record {
  name = x.name;
  entity_type = x.entity_type;
  namespace = namespace;
  properties = some (properties_of x);
  source_episodes = some (episode_id ∷ []);
}

module _ {S : Type 0} (F : Float S) (h : Host S) where
  unfoldable pub create_new_entity :
      Outside → ExtractedEntity → String → ℕ → List Entity → Result DbError Entity × List Entity
  unfolding insert_entity
  create_new_entity w x namespace episode_id t =
      insert_entity h w.entity_id w.now (new_entity_from x namespace episode_id) t

  abbrev pub new_conflict :
      Outside → ExtractedEntity → String → List (EntityWithScore S) → ResolutionConflict S
  new_conflict w x namespace candidates = record {
    id = w.conflict_id;
    entity_name = x.name;
    entity_type = x.entity_type;
    namespace = namespace;
    candidates = candidates;
    resolved = some false;
    resolution = none;
    resolved_at = none;
    created_at = some w.now;
  }

  unfoldable pub log_resolution_conflict :
      Outside
      → ExtractedEntity
      → String
      → List (EntityWithScore S)
      → Store S
      → Result ResolveError ℕ × Store S
  log_resolution_conflict w x namespace candidates s = elim w.conflict_failure [
    | some e ↦ (err (entity e), s)
    | none ↦ (
      ok w.conflict_id,
      record s { conflicts = new_conflict w x namespace candidates ∷ s.conflicts },
    )
  ]

  -- The statements after the embedding: the new states are given.
  unfoldable pub link :
      ℕ → ℕ → List (ServingState S) → Store S → Result ResolveError (Unit {0}) × Store S
  unfolding append_source_episode
  link id episode_id states s =
      and_then
        (lift entity (λ t. record s { entities = t; states = states })
          (append_source_episode id episode_id s.entities))
        (λ _ s'. (ok tt, s'))

  unfoldable pub update_serving_state_and_link :
      Outside → ℕ → ℕ → Store S → Result ResolveError (Unit {0}) × Store S
  unfolding link update_entity_state
  update_serving_state_and_link w id episode_id s = elim w.for_state [
    | err e ↦ (err (embedding e), s)
    | ok v ↦
        link id episode_id
          (update_entity_state w.now id (some v) (F.lit 5 1) warm (pos 0) none s.states) s
  ]

  -- A resolved entity, after its serving state is renewed and the episode is linked.
  unfoldable pub finish :
      Outside
      → ℕ
      → ResolutionResult S
      → Store S
      → Result ResolveError (ResolutionResult S) × Store S
  unfolding update_serving_state_and_link
  finish w episode_id r s =
      and_then (update_serving_state_and_link w r.entity_id episode_id s) (λ _ s'. (ok r, s'))

  -- A failure of the third pass is logged as a conflict without candidates, and the entity is new;
  -- a panic is no failure that the code sees.
  abbrev pub after_failure :
      Outside
      → ExtractedEntity
      → String
      → ResolveError
      → Store S
      → Result ResolveError (SemanticResult S) × Store S
  after_failure w x namespace panicked s = (err panicked, s)
  after_failure w x namespace e s = (ok new_entity, (log_resolution_conflict w x namespace [] s).1)

  unfoldable pub semantic_or_new :
      Outside
      → ExtractedEntity
      → String
      → Store S
      → Result ResolveError (SemanticResult S) × Store S
  unfolding pass3_semantic_match log_resolution_conflict
  semantic_or_new w x namespace s =
      elim (pass3_semantic_match F h w.for_match x.entity_type namespace s) [
        | ok r ↦ (ok r, s)
        | err e ↦ after_failure w x namespace e s
      ]

  abbrev pub as_new : Entity → ResolutionResult S
  as_new e = record { entity_id = e.id; method = new; confidence = F.lit 1 0 }

  abbrev pub with_entities : Store S → List Entity → Store S
  with_entities s t = record s { entities = t }

  abbrev pub created :
      Outside → ExtractedEntity → String → ℕ → Store S → Result ResolveError Entity × Store S
  created w x namespace episode_id s =
      lift entity (with_entities s) (create_new_entity w x namespace episode_id s.entities)

  -- The `match` on the outcome of the third pass.
  unfoldable pub settle :
      Outside
      → ExtractedEntity
      → String
      → ℕ
      → SemanticResult S
      → Store S
      → Result ResolveError (ResolutionResult S) × Store S
  unfolding create_new_entity log_resolution_conflict
  settle w x namespace episode_id (merge r) s = (ok r, s)
  settle w x namespace episode_id new_entity s =
      and_then (created w x namespace episode_id s) (λ e s'. (ok (as_new e), s'))
  settle w x namespace episode_id (conflict candidates) s =
      and_then (created w x namespace episode_id s) (λ e s'.
        and_then (log_resolution_conflict w x namespace candidates s')
          (λ _ s''. (ok (as_new e), s'')))

  -- What comes after the two passes by name.
  unfoldable pub resolve_by_meaning :
      Outside
      → ExtractedEntity
      → String
      → ℕ
      → Store S
      → Result ResolveError (ResolutionResult S) × Store S
  unfolding semantic_or_new settle finish
  resolve_by_meaning w x namespace episode_id s =
      and_then (semantic_or_new w x namespace s) (λ outcome s'.
        and_then (settle w x namespace episode_id outcome s') (λ r s''. finish w episode_id r s''))

  abbrev pub or_by_meaning :
      Outside
      → ExtractedEntity
      → String
      → ℕ
      → Option (ResolutionResult S)
      → Store S
      → Result ResolveError (ResolutionResult S) × Store S
  or_by_meaning w x namespace episode_id (some r) s = finish w episode_id r s
  or_by_meaning w x namespace episode_id none s = resolve_by_meaning w x namespace episode_id s

  unfoldable pub resolve_by_alias :
      Outside
      → ExtractedEntity
      → String
      → ℕ
      → Store S
      → Result ResolveError (ResolutionResult S) × Store S
  unfolding pass2_alias_match finish resolve_by_meaning
  resolve_by_alias w x namespace episode_id s =
      and_then
        (lift (λ e. e) (with_entities s)
          (pass2_alias_match F h x.name x.aliases x.entity_type namespace s.entities))
        (or_by_meaning w x namespace episode_id)

  unfoldable pub resolve_entity :
      Outside
      → ExtractedEntity
      → String
      → ℕ
      → Store S
      → Result ResolveError (ResolutionResult S) × Store S
  unfolding pass1_exact_match finish resolve_by_alias
  resolve_entity w x namespace episode_id s =
      elim (pass1_exact_match F h x.name x.entity_type namespace s.entities) [
        | some r ↦ finish w episode_id r s
        | none ↦ resolve_by_alias w x namespace episode_id s
      ]
