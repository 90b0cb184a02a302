-- ===== src/Resolve/Total.antt =====
-- A resolution succeeds, and links a live entity to the episode (`resolve_entity`).
use project_loom.Common.{
  ℕ, String, Option, ◌≡◌, refl, inl, inr, true, false, none, some, List, [], ◌∷◌, ◌&&◌, arith,
  Bool-cases, Option-cases, All, any, not, ==-refl,
}
use package.text.Mathlib.TextPositions.{eq_refl}
use package.text.Mathlib.TextEquality.{eq_iff}
use text.Mathlib.Text.{◌==◌ as str_eq}
use project_loom.Common.Found.{find_where-none}
use project_loom.Common.Table.{find_where}
use project_loom.Common.Text.{Text}
use project_loom.Common.Result.{
  ok, Result-cases, lift, and_then, Ends, and_then-Ends, lift-Ends, Ends-value,
}
use project_loom.Online.Float.{Float, IsLawful}
use project_loom.Resolve.Rows.{Entity, ExtractedEntity, ResolutionResult, Host, Store, is_live}
use project_loom.Resolve.Queries.{
  has_name, is_entity_type, same_row, get_entity_by_name_type_namespace, insert_row, insert_entity,
}
use project_loom.Resolve.Passes.{
  pass1_exact_match, pass2_alias_match, alias_candidates, entity, pass3_semantic_match,
  SemanticResult, merge, new_entity, conflict,
}
use project_loom.Resolve.Run.{
  Outside, created, with_entities, as_new, create_new_entity, log_resolution_conflict, finish,
  semantic_or_new, settle, resolve_by_meaning, or_by_meaning, resolve_by_alias, resolve_entity,
  new_entity_from,
}
use project_loom.Resolve.Matches.{
  is_linked, takes_alias, Present, Linked, Resolved, Merged, finish-Ends, named-Present,
  alias_candidates-All, alias_outcome-Ends,
}
use project_loom.Common.{ap}
use project_loom.Resolve.Meaning.{Sound, pass3-Sound}

module _ {S : Type 0} (F : Float S) (h : Host S) (L : IsLawful F) (w : Outside)
    (x : ExtractedEntity) (namespace : String) (episode_id : ℕ)
    (logged : w.conflict_failure ≡ none) where
  -- After the third pass, also a failed one, the entities are as they were.
  abbrev Judged : List Entity → SemanticResult S → Store S → Type 0
  Judged t o s = (s.entities ≡ t) × Sound F h x.entity_type namespace t o

  semantic_or_new-Ends :
      (s : Store S) → Ends (Judged s.entities) (semantic_or_new F h w x namespace s)
  unfolding semantic_or_new log_resolution_conflict pass3_semantic_match
  semantic_or_new-Ends s = elim (Result-cases w.for_match) [
    | inl (v, e) ↦
        let (o, judged, sound) = pass3-Sound F h x.entity_type namespace L v s in
        rw e (rw (judged, semantic_or_new) (refl, sound))
    | inr (y, e) ↦ rw (e, semantic_or_new) (rw (logged, log_resolution_conflict) (refl, tt))
  ]

  -- No deleted row holds the name, so that the UNIQUE constraint lets a new row in.
  abbrev pub IsFree : List Entity → Type 0
  IsFree t =
      All (λ e. (same_row (new_entity_from x namespace episode_id) e && not (is_live e)) ≡ false) t

  fresh_row :
      (t : List Entity)
      → All (λ e. has_name h x.name x.entity_type namespace e ≡ false) t
      → IsFree t
      → any (same_row (new_entity_from x namespace episode_id)) t ≡ false
  fresh_row [] k free = refl
  fresh_row (e ∷ t) k free =
      let rest = fresh_row t k.1 free.1 in
      elim (Bool-cases (str_eq e.name x.name)) [
        | inr other ↦ ground (arith, rest, other)
        | inl same ↦
            let lowered : str_eq (h.lower e.name) (h.lower x.name) ≡ true =
              (eq_iff _ _).1 (ap h.lower ((eq_iff _ _).0 same)) in
            let missed = k.0 in let kept = free.0 in ground (arith, rest, lowered, missed, kept)
      ]

  module _ (valid : is_entity_type x.entity_type ≡ true) where
    create_new_entity-Ends :
        (t : List Entity)
        → IsFree t
        → Ends
            (λ e t'. Present x.entity_type namespace t' e.id)
            (create_new_entity F h w x namespace episode_id t)
    unfolding create_new_entity insert_entity insert_row get_entity_by_name_type_namespace
    create_new_entity-Ends t free =
        elim (Option-cases (find_where (has_name h x.name x.entity_type namespace) t)) [
          | inr (e, found) ↦
              rw (found, insert_entity) (named-Present x.entity_type namespace F h x.name t e found)
          | inl absent ↦
              rw (absent, insert_entity)
                (rw (valid, fresh_row t (find_where-none _ t absent) free)
                  (let e = ==-refl w.entity_id in
                    let y = eq_refl x.entity_type in
                    let n = eq_refl namespace in ground (arith, e, y, n)))
        ]

    created-Ends :
        (s : Store S)
        → IsFree s.entities
        → Ends
            (λ e s'. Present x.entity_type namespace s'.entities e.id)
            (created F h w x namespace episode_id s)
    created-Ends s free =
        lift-Ends (λ e s'. Present x.entity_type namespace s'.entities e.id) entity
          (with_entities F h s) (create_new_entity F h w x namespace episode_id s.entities)
          (create_new_entity-Ends s.entities free)

    settle-Ends :
        (o : SemanticResult S) (s : Store S)
        → Sound F h x.entity_type namespace s.entities o
        → IsFree s.entities
        → Ends (Resolved x.entity_type namespace F h) (settle F h w x namespace episode_id o s)
    unfolding settle log_resolution_conflict
    settle-Ends (merge r) s sound free = sound
    settle-Ends new_entity s sound free =
        and_then-Ends (λ e s'. Present x.entity_type namespace s'.entities e.id)
          (Resolved x.entity_type namespace F h) (created F h w x namespace episode_id s)
          (λ e s'. (ok (as_new F h e), s')) (created-Ends s free) (λ e s' k. k)
    settle-Ends (conflict cs) s sound free =
        and_then-Ends (λ e s'. Present x.entity_type namespace s'.entities e.id)
          (Resolved x.entity_type namespace F h) (created F h w x namespace episode_id s)
          (λ e s'.
            and_then (log_resolution_conflict F h w x namespace cs s')
              (λ _ s''. (ok (as_new F h e), s'')))
          (created-Ends s free) (λ e s' k. rw (logged, log_resolution_conflict) k)

    module _ (v : Text) (embedded : w.for_state ≡ ok v) where
      resolve_by_meaning-Ends :
          (s : Store S)
          → IsFree s.entities
          → Ends
              (Linked x.entity_type namespace F h episode_id)
              (resolve_by_meaning F h w x namespace episode_id s)
      unfolding resolve_by_meaning
      resolve_by_meaning-Ends s free =
          and_then-Ends (Judged s.entities) (Linked x.entity_type namespace F h episode_id)
            (semantic_or_new F h w x namespace s)
            (λ o s'. and_then (settle F h w x namespace episode_id o s') (finish F h w episode_id))
            (semantic_or_new-Ends s)
            (λ o s' k.
              and_then-Ends (Resolved x.entity_type namespace F h)
                (Linked x.entity_type namespace F h episode_id)
                (settle F h w x namespace episode_id o s') (finish F h w episode_id)
                (settle-Ends o s' (rw k.0 k.1) (rw k.0 free))
                (λ r s''. finish-Ends x.entity_type namespace F h w v episode_id r s'' embedded))

      or_by_meaning-Ends :
          (t : List Entity) (o : Option (ResolutionResult S)) (s : Store S)
          → IsFree t
          → Merged x.entity_type namespace F h t o s.entities
          → Ends
              (Linked x.entity_type namespace F h episode_id)
              (or_by_meaning F h w x namespace episode_id o s)
      or_by_meaning-Ends t (some r) s free found =
          finish-Ends x.entity_type namespace F h w v episode_id r s embedded found
      or_by_meaning-Ends t none s free same = resolve_by_meaning-Ends s (rw same free)

      resolve_by_alias-Ends :
          (s : Store S)
          → IsFree s.entities
          → All (λ e. takes_alias h x.name e ≡ true) s.entities
          → Ends
              (Linked x.entity_type namespace F h episode_id)
              (resolve_by_alias F h w x namespace episode_id s)
      unfolding resolve_by_alias pass2_alias_match
      resolve_by_alias-Ends s free fine =
          let found = pass2_alias_match F h x.name x.aliases x.entity_type namespace s.entities in
          let P : Option (ResolutionResult S) → Store S → Type 0 =
            λ o s'. Merged x.entity_type namespace F h s.entities o s'.entities in
          and_then-Ends P (Linked x.entity_type namespace F h episode_id)
            (lift (λ e. e) (with_entities F h s) found) (or_by_meaning F h w x namespace episode_id)
            (lift-Ends P (λ e. e) (with_entities F h s) found
              (alias_outcome-Ends x.entity_type namespace F h x.name
                (alias_candidates F h x.name x.aliases x.entity_type namespace s.entities)
                s.entities
                (alias_candidates-All x.entity_type namespace F h x.name x.aliases s.entities)
                fine))
            (λ o s' k. or_by_meaning-Ends s.entities o s' free k)

      resolve_entity-Ends :
          (s : Store S)
          → IsFree s.entities
          → All (λ e. takes_alias h x.name e ≡ true) s.entities
          → Ends
              (Linked x.entity_type namespace F h episode_id)
              (resolve_entity F h w x namespace episode_id s)
      unfolding resolve_entity pass1_exact_match
      resolve_entity-Ends s free fine =
          elim (Option-cases
            (get_entity_by_name_type_namespace h x.name x.entity_type namespace s.entities)) [
              | inr (e, found) ↦
                  rw (found, resolve_entity, pass1_exact_match)
                    (finish-Ends x.entity_type namespace F h w v episode_id _ s embedded
                      (named-Present x.entity_type namespace F h x.name s.entities e found))
              | inl absent ↦
                  rw (absent, resolve_entity, pass1_exact_match) (resolve_by_alias-Ends s free fine)
            ]

-- Under the laws of the score interface, where the embedding of the entity is answered, the log of
-- conflicts can be written, the type is one of the ten, no deleted row holds the name, and no
-- aliases are JSON of another kind, a resolution succeeds, and the entity that it names is a live
-- row of the type and the namespace that is linked to the episode.
pub resolve_entity_lem :
    {S : Type 0} (F : Float S) (h : Host S) (w : Outside) (x : ExtractedEntity) (namespace : String)
    (episode_id : ℕ) (s : Store S) (v : Text)
    → IsLawful F
    → w.conflict_failure ≡ none
    → is_entity_type x.entity_type ≡ true
    → w.for_state ≡ ok v
    → All
        (λ e. (same_row (new_entity_from x namespace episode_id) e && not (is_live e)) ≡ false)
        s.entities
    → All (λ e. takes_alias h x.name e ≡ true) s.entities
    → (r : ResolutionResult S) × (s' : Store S) × (resolve_entity F h w x namespace episode_id s
        ≡ (ok r, s'))
      × (any (is_linked x.entity_type namespace episode_id r.entity_id) s'.entities ≡ true)
resolve_entity_lem F h w x namespace episode_id s v L logged valid embedded free fine =
    Ends-value (Linked x.entity_type namespace F h episode_id) _
      (resolve_entity-Ends F h L w x namespace episode_id logged valid v embedded s free fine)
