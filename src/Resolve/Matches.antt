-- ===== src/Resolve/Matches.antt =====
-- What the passes by name find is a live row of the type and the namespace that are asked for, and
-- stays one under the updates that follow (`pass2_alias_match`, `update_serving_state_and_link`).
use project_loom.Common.{
  ℕ, String, Option, ◌≡◌, refl, inl, inr, Bool, true, false, none, some, List, [], ◌∷◌, ◌++◌, ◌&&◌,
  arith, Bool-cases, Option-cases, All, any, contains, ==-refl, get_or_default,
}
use text.Mathlib.Text.{◌==◌ as str_eq}
use project_loom.Common.Found.{found-any, any-found, any-update_where, find_where-All, keep-any}
use project_loom.Common.Table.{find_where_sound}
use project_loom.Common.Text.{Text}
use project_loom.Common.Result.{ok, err, Result-cases, lift, Ends, and_then-Ends, lift-Ends}
use project_loom.Online.Float.{Float}
use project_loom.Tier.{ServingState}
use project_loom.Resolve.Rows.{Entity, ResolutionResult, Host, Store, is_live, has_id}
use project_loom.Resolve.Queries.{
  has_name, get_entity_by_name_type_namespace, has_alias, query_entities_by_alias,
}
use project_loom.Resolve.Updates.{
  update_entity_aliases, append_source_episode, with_aliases, link_episode,
}
use project_loom.Resolve.Passes.{
  alias_candidates, alias_outcome, append_alias, by_alias, entity, merge_alias, already_present,
  or_insert, or_insert_all, reverse_matches,
}
use project_loom.Resolve.Run.{Outside, update_serving_state_and_link, finish, link}

-- A live row of an id, with the type and the namespace that are asked for.
abbrev pub is_match : String → String → ℕ → Entity → Bool
is_match entity_type namespace id e =
    has_id id e && (str_eq e.entity_type entity_type && (str_eq e.namespace namespace && is_live e))

abbrev pub is_linked : String → String → ℕ → ℕ → Entity → Bool
is_linked entity_type namespace episode_id id e =
    is_match entity_type namespace id e && contains (get_or_default e.source_episodes []) episode_id

-- The update of the aliases does not meet JSON of the wrong kind.
abbrev pub takes_alias : {S : Type 0} → Host S → String → Entity → Bool
takes_alias h name e = elim (with_aliases h (name ∷ []) e) [ ok _ ↦ true | err _ ↦ false ]

contains_last : (xs : List ℕ) (a : ℕ) → contains (xs ++ (a ∷ [])) a ≡ true
contains_last [] a = ground (arith, ==-refl a)
contains_last (x ∷ xs) a = ground (arith, contains_last xs a)

link_episode-contains :
    (episode_id : ℕ) (o : Option (List ℕ)) → contains (link_episode episode_id o) episode_id ≡ true
link_episode-contains a o = elim (Bool-cases (contains (get_or_default o []) a)) [
  | inl e ↦ rw e e
  | inr e ↦ rw e (contains_last (get_or_default o []) a)
]

module _ (entity_type namespace : String) where
  abbrev pub Present : List Entity → ℕ → Type 0
  Present t id = any (is_match entity_type namespace id) t ≡ true

  pub append_source_episode-Ends :
      (episode_id id : ℕ) (t : List Entity)
      → Present t id
      → Ends
          (λ _ t'. any (is_linked entity_type namespace episode_id id) t' ≡ true)
          (append_source_episode id episode_id t)
  unfolding append_source_episode
  append_source_episode-Ends episode_id id t here =
      let (e, found) =
        any-found (is_match entity_type namespace id) (has_id id) t here
          (λ r m. ground (arith, m)) in
      rw found (
        any-update_where (is_match entity_type namespace id)
          (is_linked entity_type namespace episode_id id) (has_id id)
          (λ r. record r { source_episodes = some (link_episode episode_id r.source_episodes) }) t
          here (λ r m _. rw (m, link_episode-contains episode_id r.source_episodes) refl)
          (λ r m miss. ground (arith, m, miss)))

  module _ {S : Type 0} (F : Float S) (h : Host S) where
    abbrev pub Linked : ℕ → ResolutionResult S → Store S → Type 0
    Linked episode_id r s =
        any (is_linked entity_type namespace episode_id r.entity_id) s.entities ≡ true

    abbrev pub Resolved : ResolutionResult S → Store S → Type 0
    Resolved r s = Present s.entities r.entity_id

    link-Ends :
        (id episode_id : ℕ) (states : List (ServingState S)) (s : Store S)
        → Present s.entities id
        → Ends
            (λ _ s'. any (is_linked entity_type namespace episode_id id) s'.entities ≡ true)
            (link F h id episode_id states s)
    unfolding link
    link-Ends id episode_id states s here =
        let put : List Entity → Store S = λ t. record s { entities = t; states = states } in
        let appended = append_source_episode id episode_id s.entities in
        let Done : Store S → Type 0 =
          λ s'. any (is_linked entity_type namespace episode_id id) s'.entities ≡ true in
        and_then-Ends (λ _ s'. Done s') (λ _ s'. Done s') (lift entity put appended)
          (λ _ s'. (ok tt, s'))
          (lift-Ends (λ _ s'. Done s') entity put appended
            (append_source_episode-Ends episode_id id s.entities here))
          (λ _ s' k. k)

    pub finish-Ends :
        (w : Outside) (v : Text) (episode_id : ℕ) (r : ResolutionResult S) (s : Store S)
        → w.for_state ≡ ok v
        → Resolved r s
        → Ends (Linked episode_id) (finish F h w episode_id r s)
    unfolding finish update_serving_state_and_link
    finish-Ends w v episode_id r s e here =
        rw (e, update_serving_state_and_link)
          (and_then-Ends
            (λ _ s'.
              any (is_linked entity_type namespace episode_id r.entity_id) s'.entities ≡ true)
            (Linked episode_id) _ (λ _ s'. (ok r, s')) (link-Ends r.entity_id episode_id _ s here)
            (λ _ s' k. k))

    update_entity_aliases-Ends :
        (name : String) (id : ℕ) (t : List Entity)
        → Present t id
        → All (λ r. takes_alias h name r ≡ true) t
        → Ends (λ _ t'. Present t' id) (update_entity_aliases h id (name ∷ []) t)
    unfolding update_entity_aliases
    update_entity_aliases-Ends name id t here fine =
        let (r, found) =
          any-found (is_match entity_type namespace id) (has_id id) t here
            (λ q m. ground (arith, m)) in
        let good : takes_alias h name r ≡ true =
          find_where-All (λ q. takes_alias h name q ≡ true) (has_id id) t r found fine in
        elim (Result-cases (with_aliases h (name ∷ []) r)) [
          | inr (x, bad) ↦ cc (rw (bad, takes_alias) at good)
          | inl (p, done) ↦
              rw (found, update_entity_aliases)
                (rw (done, found)
                  (any-update_where (is_match entity_type namespace id)
                    (is_match entity_type namespace id) (has_id id)
                    (λ q. record q { properties = some p }) t here (λ q m _. m) (λ q m _. m)))
        ]

    -- What the second pass leaves: the table as it was, or a match.
    abbrev pub Merged : List Entity → Option (ResolutionResult S) → List Entity → Type 0
    Merged old none t = t ≡ old
    Merged old (some r) t = Present t r.entity_id

    append_alias-Ends :
        (name : String) (e : Entity) (t : List Entity)
        → Present t e.id
        → All (λ r. takes_alias h name r ≡ true) t
        → Ends (Merged t) (append_alias F h name e t)
    append_alias-Ends name e t here fine =
        let updated = update_entity_aliases h e.id (name ∷ []) t in
        and_then-Ends (λ _ t'. Present t' e.id) (Merged t) (lift entity (λ t'. t') updated)
          (λ _ t'. (ok (some (by_alias F h e)), t'))
          (lift-Ends (λ _ t'. Present t' e.id) entity (λ t'. t') updated
            (update_entity_aliases-Ends name e.id t here fine))
          (λ _ t' k. k)

    merge_alias-Ends :
        (name : String) (e : Entity) (t : List Entity)
        → Present t e.id
        → All (λ r. takes_alias h name r ≡ true) t
        → Ends (Merged t) (merge_alias F h name e t)
    unfolding merge_alias
    merge_alias-Ends name e t here fine = elim (Bool-cases (already_present F h name e)) [
      | inl old ↦ rw old here
      | inr fresh ↦ rw fresh (append_alias-Ends name e t here fine)
    ]

    or_insert_all-All :
        (P : Entity → Type 0) (es cs : List Entity)
        → All P es
        → All P cs
        → All P (or_insert_all es cs)
    or_insert_all-All P [] cs h k = k
    or_insert_all-All P (e ∷ es) cs h k = elim (Bool-cases (any (has_id e.id) cs)) [
      | inl old ↦ rw old (or_insert_all-All P es cs h.1 k)
      | inr fresh ↦ rw fresh (or_insert_all-All P es (e ∷ cs) h.1 (h.0, k))
    ]

    pub named-Present :
        (name : String) (t : List Entity) (e : Entity)
        → get_entity_by_name_type_namespace h name entity_type namespace t ≡ some e
        → Present t e.id
    unfolding get_entity_by_name_type_namespace
    named-Present name t e found =
        let hit = find_where_sound (has_name h name entity_type namespace) t e found in
        found-any (has_name h name entity_type namespace) (is_match entity_type namespace e.id) t e
          found (ground (arith, hit, ==-refl e.id))

    reverse_matches-All :
        (aliases : List String) (t cs : List Entity)
        → All (λ e. Present t e.id) cs
        → All (λ e. Present t e.id) (reverse_matches F h entity_type namespace aliases t cs)
    reverse_matches-All [] t cs k = k
    reverse_matches-All (a ∷ aliases) t cs k =
        elim (Option-cases (get_entity_by_name_type_namespace h a entity_type namespace t)) [
          | inl e ↦ rw e (reverse_matches-All aliases t cs k)
          | inr (r, e) ↦ rw e (
              reverse_matches-All aliases t (or_insert r cs)
                (or_insert_all-All (λ q. Present t q.id) (r ∷ []) cs (named-Present a t r e, tt) k))
        ]

    pub alias_candidates-All :
        (name : String) (aliases : List String) (t : List Entity)
        → All (λ e. Present t e.id) (alias_candidates F h name aliases entity_type namespace t)
    unfolding alias_candidates query_entities_by_alias
    alias_candidates-All name aliases t = reverse_matches-All aliases t _ (
        or_insert_all-All (λ e. Present t e.id) _ []
          (keep-any (has_alias name entity_type namespace)
            (λ e. is_match entity_type namespace e.id) t t
            (λ r hit. ground (arith, hit, ==-refl r.id)) (λ f k. k))
          tt)

    pub alias_outcome-Ends :
        (name : String) (cs t : List Entity)
        → All (λ e. Present t e.id) cs
        → All (λ r. takes_alias h name r ≡ true) t
        → Ends (Merged t) (alias_outcome F h name cs t)
    alias_outcome-Ends name [] t here fine = refl
    alias_outcome-Ends name (e ∷ []) t here fine = merge_alias-Ends name e t here.0 fine
    alias_outcome-Ends name (e ∷ f ∷ cs) t here fine = refl
