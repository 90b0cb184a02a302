-- ===== src/Resolve/Unique.antt =====
-- Resolutions one after another keep the live entities apart by their names (`resolve_entity`).
use project_loom.Common.{
  ℕ, Option, String, ◌≡◌, inl, inr, Bool, false, none, some, List, [], ◌∷◌, ◌&&◌, Bool-cases,
  Option-cases, All, All-map, any,
}
use project_loom.Common.Table.{find_where, update_where, All-update_where}
use project_loom.Common.Result.{Result-cases, lift, and_then, ok, and_then_keeps, lift_keeps}
use project_loom.Online.Float.{Float}
use project_loom.Common.Found.{find_where-none}
use project_loom.Tier.{ServingState}
use project_loom.Resolve.Rows.{
  Entity, ExtractedEntity, EntityWithScore, ResolutionResult, Host, Store, NewEntity, is_live,
  has_id,
}
use project_loom.Resolve.Queries.{
  has_name, is_entity_type, same_row, get_entity_by_name_type_namespace, insert_row, insert_entity,
}
use project_loom.Resolve.Updates.{update_entity_aliases, append_source_episode, with_aliases}
use project_loom.Resolve.Passes.{
  already_present, pass1_exact_match, pass2_alias_match, alias_candidates, alias_outcome,
  append_alias, by_alias, entity, merge_alias, pass3_semantic_match, SemanticResult, merge,
  new_entity, conflict, ResolveError, embedding, type_constraint, panicked,
}
use project_loom.Resolve.Run.{
  Outside, created, with_entities, as_new, create_new_entity, log_resolution_conflict,
  update_serving_state_and_link, finish, semantic_or_new, settle, resolve_by_meaning, or_by_meaning,
  resolve_by_alias, after_failure, link, resolve_entity,
}

module _ {S : Type 0} (h : Host S) where
  -- Two live entities of one name, up to case, of one type and in one namespace.
  abbrev pub clash : Entity → Entity → Bool
  clash a b = is_live a && has_name h a.name a.entity_type a.namespace b

  abbrev pub IsUnique : List Entity → Type 0
  IsUnique [] = Unit
  IsUnique (a ∷ t) = All (λ b. clash a b ≡ false) t × IsUnique t

  -- An update that gives no row a new name keeps the rows apart.
  update_where-IsUnique :
      (p : Entity → Bool) (f : Entity → Entity) (t : List Entity)
      → ((a b : Entity) → clash a b ≡ false → clash (f a) b ≡ false)
      → ((a b : Entity) → clash a b ≡ false → clash a (f b) ≡ false)
      → IsUnique t
      → IsUnique (update_where p f t)
  update_where-IsUnique p f [] left right u = tt
  update_where-IsUnique p f (a ∷ t) left right u =
      let rest = update_where-IsUnique p f t left right u.1 in
      let apart = All-update_where p f t (λ b c _. right a b c) u.0 in
      elim (Bool-cases (p a)) [
        | inl e ↦
            rw e (All-map _ (λ b. clash (f a) b ≡ false) (update_where p f t) (left a) apart, rest)
        | inr e ↦ rw e (apart, rest)
      ]

  insert_row-IsUnique :
      (id now : ℕ) (n : NewEntity) (t : List Entity)
      → All (λ b. has_name h n.name n.entity_type n.namespace b ≡ false) t
      → IsUnique t
      → IsUnique (insert_row id now n t).1
  unfolding insert_row
  insert_row-IsUnique id now n t fresh u = elim (Bool-cases (is_entity_type n.entity_type)) [
    | inr e ↦ rw e u
    | inl e ↦ rw e (elim (Bool-cases (any (same_row n) t)) [
      | inl taken ↦ rw taken u
      | inr free ↦ rw free (fresh, u)
    ])
  ]

  insert_entity-IsUnique :
      (id now : ℕ) (n : NewEntity) (t : List Entity)
      → IsUnique t
      → IsUnique (insert_entity h id now n t).1
  unfolding insert_entity get_entity_by_name_type_namespace
  insert_entity-IsUnique id now n t u =
      elim (Option-cases (find_where (has_name h n.name n.entity_type n.namespace) t)) [
        | inl e ↦ rw (e, insert_entity) (insert_row-IsUnique id now n t (find_where-none _ t e) u)
        | inr (r, e) ↦ rw (e, insert_entity) u
      ]

  update_entity_aliases-IsUnique :
      (id : ℕ) (aliases : List String) (t : List Entity)
      → IsUnique t
      → IsUnique (update_entity_aliases h id aliases t).1
  unfolding update_entity_aliases
  update_entity_aliases-IsUnique id aliases t u = elim (Option-cases (find_where (has_id id) t)) [
    | inl e ↦ rw (e, update_entity_aliases) u
    | inr (r, e) ↦
        rw (e, update_entity_aliases)
          (elim (Result-cases (with_aliases h aliases r)) [
            | inl (p, ok_p) ↦
                rw ok_p (update_where-IsUnique (has_id id) _ t (λ a b c. c) (λ a b c. c) u)
            | inr (x, err_x) ↦ rw err_x u
          ])
  ]

  append_source_episode-IsUnique :
      (id episode_id : ℕ) (t : List Entity)
      → IsUnique t
      → IsUnique (append_source_episode id episode_id t).1
  unfolding append_source_episode
  append_source_episode-IsUnique id episode_id t u =
      update_where-IsUnique (has_id id) _ t (λ a b c. c) (λ a b c. c) u

module _ {S : Type 0} (F : Float S) (h : Host S) where
  abbrev Keeps : Store S → Type 0
  Keeps s = IsUnique h s.entities

  merge_alias-IsUnique :
      (name : String) (e : Entity) (t : List Entity)
      → IsUnique h t
      → IsUnique h (merge_alias F h name e t).1
  unfolding merge_alias
  merge_alias-IsUnique name e t u = elim (Bool-cases (already_present F h name e)) [
    | inl old ↦ rw old u
    | inr fresh ↦
        let kept : IsUnique h (append_alias F h name e t).1 =
          and_then_keeps (IsUnique h)
            (lift entity (λ t'. t') (update_entity_aliases h e.id (name ∷ []) t))
            (λ _ t'. (ok (some (by_alias F h e)), t'))
            (lift_keeps (IsUnique h) entity (λ t'. t') (update_entity_aliases h e.id (name ∷ []) t)
              (update_entity_aliases-IsUnique h e.id (name ∷ []) t u))
            (λ _ t' v. v) in
        rw fresh kept
  ]

  alias_outcome-IsUnique :
      (name : String) (cs t : List Entity)
      → IsUnique h t
      → IsUnique h (alias_outcome F h name cs t).1
  alias_outcome-IsUnique name [] t u = u
  alias_outcome-IsUnique name (e ∷ []) t u = merge_alias-IsUnique name e t u
  alias_outcome-IsUnique name (e ∷ f ∷ cs) t u = u

  log_resolution_conflict-Keeps :
      (w : Outside) (x : ExtractedEntity) (namespace : String) (cs : List (EntityWithScore S))
      (s : Store S)
      → Keeps s
      → Keeps (log_resolution_conflict F h w x namespace cs s).1
  unfolding log_resolution_conflict
  log_resolution_conflict-Keeps w x namespace cs s u = elim (Option-cases w.conflict_failure) [
    | inl e ↦ rw (e, log_resolution_conflict) u
    | inr (y, e) ↦ rw (e, log_resolution_conflict) u
  ]

  link-Keeps :
      (id episode_id : ℕ) (states : List (ServingState S)) (s : Store S)
      → Keeps s
      → Keeps (link F h id episode_id states s).1
  unfolding link
  link-Keeps id episode_id states s u =
      let put : List Entity → Store S = λ t. record s { entities = t; states = states } in
      let appended = append_source_episode id episode_id s.entities in
      and_then_keeps Keeps (lift entity put appended) (λ _ s'. (ok tt, s'))
        (lift_keeps Keeps entity put appended
          (append_source_episode-IsUnique h id episode_id s.entities u))
        (λ _ s' k. k)

  update_serving_state_and_link-Keeps :
      (w : Outside) (id episode_id : ℕ) (s : Store S)
      → Keeps s
      → Keeps (update_serving_state_and_link F h w id episode_id s).1
  unfolding update_serving_state_and_link
  update_serving_state_and_link-Keeps w id episode_id s u = elim (Result-cases w.for_state) [
    | inr (y, e) ↦ rw (e, update_serving_state_and_link) u
    | inl (v, e) ↦ rw (e, update_serving_state_and_link) (link-Keeps id episode_id _ s u)
  ]

  finish-Keeps :
      (w : Outside) (episode_id : ℕ) (r : ResolutionResult S) (s : Store S)
      → Keeps s
      → Keeps (finish F h w episode_id r s).1
  unfolding finish
  finish-Keeps w episode_id r s u =
      and_then_keeps Keeps (update_serving_state_and_link F h w r.entity_id episode_id s)
        (λ _ s'. (ok r, s')) (update_serving_state_and_link-Keeps w r.entity_id episode_id s u)
        (λ _ s' k. k)

  after_failure-Keeps :
      (w : Outside) (x : ExtractedEntity) (namespace : String) (y : ResolveError) (s : Store S)
      → Keeps s
      → Keeps (after_failure F h w x namespace y s).1
  after_failure-Keeps w x namespace (ResolveError.entity e) s u =
      log_resolution_conflict-Keeps w x namespace [] s u
  after_failure-Keeps w x namespace (embedding e) s u =
      log_resolution_conflict-Keeps w x namespace [] s u
  after_failure-Keeps w x namespace (type_constraint t) s u =
      log_resolution_conflict-Keeps w x namespace [] s u
  after_failure-Keeps w x namespace panicked s u = u

  semantic_or_new-Keeps :
      (w : Outside) (x : ExtractedEntity) (namespace : String) (s : Store S)
      → Keeps s
      → Keeps (semantic_or_new F h w x namespace s).1
  unfolding semantic_or_new
  semantic_or_new-Keeps w x namespace s u =
      elim (Result-cases (pass3_semantic_match F h w.for_match x.entity_type namespace s)) [
        | inl (r, e) ↦ rw (e, semantic_or_new) u
        | inr (y, e) ↦ rw (e, semantic_or_new) (after_failure-Keeps w x namespace y s u)
      ]

  created-Keeps :
      (w : Outside) (x : ExtractedEntity) (namespace : String) (episode_id : ℕ) (s : Store S)
      → Keeps s
      → Keeps (created F h w x namespace episode_id s).1
  unfolding create_new_entity
  created-Keeps w x namespace episode_id s u =
      lift_keeps Keeps entity (with_entities F h s)
        (create_new_entity F h w x namespace episode_id s.entities)
        (insert_entity-IsUnique h w.entity_id w.now _ s.entities u)

  settle-Keeps :
      (w : Outside) (x : ExtractedEntity) (namespace : String) (episode_id : ℕ)
      (outcome : SemanticResult S) (s : Store S)
      → Keeps s
      → Keeps (settle F h w x namespace episode_id outcome s).1
  unfolding settle
  settle-Keeps w x namespace episode_id (merge r) s u = u
  settle-Keeps w x namespace episode_id new_entity s u =
      and_then_keeps Keeps (created F h w x namespace episode_id s)
        (λ e s'. (ok (as_new F h e), s')) (created-Keeps w x namespace episode_id s u) (λ e s' k. k)
  settle-Keeps w x namespace episode_id (conflict cs) s u =
      and_then_keeps Keeps (created F h w x namespace episode_id s)
        (λ e s'.
          and_then (log_resolution_conflict F h w x namespace cs s')
            (λ _ s''. (ok (as_new F h e), s'')))
        (created-Keeps w x namespace episode_id s u)
        (λ e s' k.
          and_then_keeps Keeps (log_resolution_conflict F h w x namespace cs s')
            (λ _ s''. (ok (as_new F h e), s''))
            (log_resolution_conflict-Keeps w x namespace cs s' k) (λ _ s'' l. l))

  or_by_meaning-Keeps :
      (w : Outside) (x : ExtractedEntity) (namespace : String) (episode_id : ℕ)
      (o : Option (ResolutionResult S)) (s : Store S)
      → Keeps s
      → Keeps (or_by_meaning F h w x namespace episode_id o s).1
  unfolding resolve_by_meaning
  or_by_meaning-Keeps w x namespace episode_id (some r) s u = finish-Keeps w episode_id r s u
  or_by_meaning-Keeps w x namespace episode_id none s u =
      and_then_keeps Keeps (semantic_or_new F h w x namespace s)
        (λ outcome s'.
          and_then (settle F h w x namespace episode_id outcome s')
            (λ r s''. finish F h w episode_id r s''))
        (semantic_or_new-Keeps w x namespace s u)
        (λ outcome s' k.
          and_then_keeps Keeps (settle F h w x namespace episode_id outcome s')
            (λ r s''. finish F h w episode_id r s'')
            (settle-Keeps w x namespace episode_id outcome s' k)
            (λ r s'' l. finish-Keeps w episode_id r s'' l))

  resolve_by_alias-Keeps :
      (w : Outside) (x : ExtractedEntity) (namespace : String) (episode_id : ℕ) (s : Store S)
      → Keeps s
      → Keeps (resolve_by_alias F h w x namespace episode_id s).1
  unfolding resolve_by_alias pass2_alias_match
  resolve_by_alias-Keeps w x namespace episode_id s u =
      let found = pass2_alias_match F h x.name x.aliases x.entity_type namespace s.entities in
      and_then_keeps Keeps (lift (λ e. e) (with_entities F h s) found)
        (or_by_meaning F h w x namespace episode_id)
        (lift_keeps Keeps (λ e. e) (with_entities F h s) found
          (alias_outcome-IsUnique x.name
            (alias_candidates F h x.name x.aliases x.entity_type namespace s.entities) s.entities
            u))
        (or_by_meaning-Keeps w x namespace episode_id)

  -- Where no two live entities of a type and namespace have one name up to case, none have after a
  -- resolution, however it ends.
  pub resolve_entity-IsUnique :
      (w : Outside) (x : ExtractedEntity) (namespace : String) (episode_id : ℕ) (s : Store S)
      → IsUnique h s.entities
      → IsUnique h (resolve_entity F h w x namespace episode_id s).1.entities
  unfolding resolve_entity
  resolve_entity-IsUnique w x namespace episode_id s u =
      elim (Option-cases (pass1_exact_match F h x.name x.entity_type namespace s.entities)) [
        | inr (r, e) ↦ rw (e, resolve_entity) (finish-Keeps w episode_id r s u)
        | inl e ↦ rw (e, resolve_entity) (resolve_by_alias-Keeps w x namespace episode_id s u)
      ]
