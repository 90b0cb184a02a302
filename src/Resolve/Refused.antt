-- ===== src/Resolve/Refused.antt =====
-- New entities that the table refuses, and what a mention does to the serving state
-- (`resolve_entity`).
use project_loom.Common.{ℕ, String, ◌≡◌, refl, ap, true, false, none, some, List, [], any}
use project_loom.Common.Int.{pos}
use project_loom.Common.Text.{Text}
use project_loom.Common.Result.{
  ok, err, lift, Ends, and_then-Ends, lift-Ends, Ends-weaken, Ends-value,
}
use project_loom.Common.Table.{
  DbError, find_where, unique_violation, check_violation, find_where_sound,
}
use project_loom.Online.Float.{Float}
use project_loom.Tier.{ServingState, hot, warm, has_key}
use project_loom.Resolve.Rows.{ExtractedEntity, Entity, Host, Store, ResolutionResult, exact}
use project_loom.Resolve.Queries.{
  is_entity_type, same_row, get_entity_by_name_type_namespace, insert_row, insert_entity,
}
use project_loom.Resolve.Updates.{renewed, update_entity_state, append_source_episode}
use project_loom.Resolve.Passes.{
  entity, pass1_exact_match, pass2_alias_match, alias_candidates, pass3_semantic_match, new_entity,
  validate_entity_type,
}
use project_loom.Resolve.Run.{
  Outside, create_new_entity, new_entity_from, semantic_or_new, settle, resolve_by_meaning,
  resolve_by_alias, resolve_entity, finish, link, update_serving_state_and_link,
}
use project_loom.Common.Found.{found-any}
use project_loom.Common.Keyed.{find_where-update_key}
use project_loom.Resolve.Matches.{Present, append_source_episode-Ends, named-Present}

module _ {S : Type 0} (F : Float S) (h : Host S) (w : Outside) (x : ExtractedEntity)
    (namespace : String) (episode_id : ℕ) (s : Store S) where
  -- No pass finds an entity, up to the answer of the third.
  abbrev pub Unmatched : Type 0
  Unmatched =
      (get_entity_by_name_type_namespace h x.name x.entity_type namespace s.entities ≡ none)
      × (alias_candidates F h x.name x.aliases x.entity_type namespace s.entities ≡ [])
      × (pass3_semantic_match F h w.for_match x.entity_type namespace s ≡ ok new_entity)

  refused :
      (e : DbError)
      → Unmatched
      → insert_row w.entity_id w.now (new_entity_from x namespace episode_id) s.entities
        ≡ (err e, s.entities)
      → resolve_entity F h w x namespace episode_id s ≡ (err (entity e), s)
  unfolding resolve_entity resolve_by_alias resolve_by_meaning semantic_or_new settle
      create_new_entity insert_entity pass1_exact_match pass2_alias_match
  refused e (named, aliases, meaning) out =
      rw (named, resolve_entity, pass1_exact_match)
        (rw (aliases, resolve_by_alias, pass2_alias_match)
          (rw (meaning, semantic_or_new, resolve_by_meaning)
            (rw (named, settle, create_new_entity, insert_entity) (rw (out, insert_row) refl))))

  -- An entity that no pass finds, whose type and name a deleted row has, is not resolved: the INSERT
  -- violates the UNIQUE constraint, and the call ends with that error and leaves all tables.
  pub resolve_entity-deleted_name :
      Unmatched
      → is_entity_type x.entity_type ≡ true
      → any (same_row (new_entity_from x namespace episode_id)) s.entities ≡ true
      → resolve_entity F h w x namespace episode_id s ≡ (err (entity unique_violation), s)
  unfolding insert_row
  resolve_entity-deleted_name none_found valid taken =
      refused unique_violation none_found (rw (valid, taken) refl)

  -- An entity whose type is one of the ten in another case passes the validation; where no pass
  -- finds it, the INSERT violates the CHECK constraint, and the call ends with that error.
  pub resolve_entity-other_case :
      Unmatched
      → is_entity_type (h.to_lowercase x.entity_type) ≡ true
      → is_entity_type x.entity_type ≡ false
      → (validate_entity_type h x.entity_type ≡ ok tt)
        × (resolve_entity F h w x namespace episode_id s ≡ (err (entity check_violation), s))
  unfolding insert_row validate_entity_type
  resolve_entity-other_case none_found lower_valid invalid =
      (rw lower_valid refl, refused check_violation none_found (rw invalid refl))

module _ {S : Type 0} (F : Float S) (h : Host S) (w : Outside) (x : ExtractedEntity)
    (namespace : String) (episode_id : ℕ) where
  -- What a resolution makes of the serving state of an entity that has one.
  abbrev pub mentioned : Text → ServingState S → ServingState S
  mentioned v st = renewed w.now (some v) (F.lit 5 1) warm (pos 0) none st

  Mentioned : ℕ → Text → ServingState S → Store S → Type 0
  Mentioned id v st s' = find_where (has_key id) s'.states ≡ some (mentioned v st)

  link-Mentioned :
      (id : ℕ) (v : Text) (st : ServingState S) (s : Store S)
      → Present x.entity_type namespace s.entities id
      → find_where (has_key id) s.states ≡ some st
      → Ends
          (λ _ s'. Mentioned id v st s')
          (link F h id episode_id
            (update_entity_state w.now id (some v) (F.lit 5 1) warm (pos 0) none s.states)
            s)
  unfolding link update_entity_state Mentioned
  link-Mentioned id v st s here held =
      let states' = update_entity_state w.now id (some v) (F.lit 5 1) warm (pos 0) none s.states in
      let put : List Entity → Store S = λ t. record s { entities = t; states = states' } in
      let appended = append_source_episode id episode_id s.entities in
      let one : any (has_key id) s.states ≡ true =
        found-any (has_key id) (has_key id) s.states st held
          (find_where_sound _ s.states st held) in
      let changed : find_where (has_key id) states' ≡ some (mentioned v st) = rw one (
        find_where-update_key (λ (r : ServingState S). r.item_id) id
          (renewed w.now (some v) (F.lit 5 1) warm (pos 0) none) s.states st (λ r. refl) held) in
      and_then-Ends (λ _ s'. Mentioned id v st s') (λ _ s'. Mentioned id v st s')
        (lift entity put appended) (λ _ s'. (ok tt, s'))
        (lift-Ends (λ _ s'. Mentioned id v st s') entity put appended
          (Ends-weaken _ _ appended
            (append_source_episode-Ends x.entity_type namespace episode_id id s.entities here)
            (λ _ t _. changed)))
        (λ _ s' k. k)

  finish-Mentioned :
      (v : Text) (st : ServingState S) (r : ResolutionResult S) (s : Store S)
      → w.for_state ≡ ok v
      → Present x.entity_type namespace s.entities r.entity_id
      → find_where (has_key r.entity_id) s.states ≡ some st
      → Ends (λ r' s'. (r' ≡ r) × Mentioned r.entity_id v st s') (finish F h w episode_id r s)
  unfolding finish update_serving_state_and_link Mentioned
  finish-Mentioned v st r s embedded here held =
      rw (embedded, update_serving_state_and_link)
        (and_then-Ends (λ _ s'. Mentioned r.entity_id v st s')
          (λ r' s'. (r' ≡ r) × Mentioned r.entity_id v st s') _ (λ _ s'. (ok r, s'))
          (link-Mentioned r.entity_id v st s here held) (λ _ s' k. (refl, k)))

  -- Where the first pass finds an entity whose serving state is hot and pinned, and its embedding is
  -- answered, the resolution succeeds with that entity, and afterwards its serving state is warm,
  -- still pinned, and has no access on record.
  pub resolve_entity-pinned :
      (s : Store S) (e : Entity) (v : Text) (st : ServingState S)
      → get_entity_by_name_type_namespace h x.name x.entity_type namespace s.entities ≡ some e
      → w.for_state ≡ ok v
      → find_where (has_key e.id) s.states ≡ some st
      → st.tier ≡ some hot
      → st.pinned ≡ some true
      → (r : ResolutionResult S) × (s' : Store S) × (st' : ServingState S) × (resolve_entity F h w x
            namespace episode_id s
          ≡ (ok r, s'))
        × (r.entity_id ≡ e.id)
        × (find_where (has_key e.id) s'.states ≡ some st')
        × (st'.tier ≡ some warm)
        × (st'.pinned ≡ some true)
        × (st'.access_count ≡ some (pos 0))
        × (st'.last_accessed ≡ none)
  unfolding resolve_entity pass1_exact_match Mentioned
  resolve_entity-pinned s e v st found embedded held is_hot pinned =
      let r0 : ResolutionResult S = record {
        entity_id = e.id;
        method = exact;
        confidence = F.lit 1 0;
      } in
      let (r, s', same, done) =
        Ends-value (λ r' s'. (r' ≡ r0) × Mentioned e.id v st s') (finish F h w episode_id r0 s)
          (finish-Mentioned v st r0 s embedded
            (named-Present x.entity_type namespace F h x.name s.entities e found) held) in
      (
        r,
        s',
        mentioned v st,
        rw (found, resolve_entity, pass1_exact_match) same,
        ap (λ (q : ResolutionResult S). q.entity_id) done.0,
        done.1,
        refl,
        pinned,
        refl,
        refl,
      )
