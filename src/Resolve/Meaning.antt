-- ===== src/Resolve/Meaning.antt =====
-- The third pass never panics, and what it merges with is a live entity of the type and namespace
-- (`pass3_semantic_match`).
use project_loom.Common.{
  ℕ, String, Option, ◌≡◌, refl, inl, inr, Bool, true, false, none, some, List, [], ◌∷◌, ◌&&◌, arith,
  Bool-cases, All, any, ==-refl, keep,
}
use text.Mathlib.Text.{◌==◌ as str_eq}
use project_loom.Common.Table.{find_where}
use project_loom.Common.Text.{Text}
use project_loom.Common.Result.{ok}
use project_loom.Online.Float.{Float, IsLawful}
use project_loom.Tier.{ServingState}
use project_loom.Resolve.Rows.{
  Entity, EntityWithScore, ResolutionResult, semantic, Host, Store, is_live,
}
use project_loom.Resolve.Passes.{
  pass3_semantic_match, SemanticResult, merge, new_entity, conflict, judge,
}
use project_loom.Resolve.Queries.{
  scored, prepend, embedding_of, similarity_of, join, query_entities_by_embedding_similarity,
}
use project_loom.Resolve.Passes.{
  lt, second_score, near, semantic_threshold, semantic_gap, semantic_limit,
}
use project_loom.Resolve.Matches.{is_match, Present}
use project_loom.Common.{map, All-take}
use project_loom.Common.Sort.{All-sort_by}
use project_loom.Tier.{has_key}

All-of_map :
    {A B : Type 0} (f : A → B) (P : B → Type 0) (xs : List A)
    → All (λ x. P (f x)) xs
    → All P (map f xs)
All-of_map f P [] h = tt
All-of_map f P (x ∷ xs) h = (h.0, All-of_map f P xs h.1)

module _ {S : Type 0} (F : Float S) (h : Host S) (entity_type namespace : String) where
  All-prepend :
      (v : Text) (threshold : S) (e : Entity) (o : Option Text) (u : List Entity)
      (rows : List (S × EntityWithScore S))
      → ((f : Entity → Bool) → f e ≡ true → any f u ≡ true)
      → All (λ (row : S × EntityWithScore S). Present entity_type namespace u row.1.entity.id) rows
      → All
          (λ (row : S × EntityWithScore S). Present entity_type namespace u row.1.entity.id)
          (prepend (scored F h v entity_type namespace threshold e o) rows)
  All-prepend v threshold e none u rows sub k = k
  All-prepend v threshold e (some w) u rows sub k =
      let test : Bool =
        str_eq e.entity_type entity_type
        && (str_eq e.namespace namespace
            && (is_live e && F.le threshold (similarity_of F h v w))) in
      elim (Bool-cases test) [
        | inr fails ↦ rw fails k
        | inl fits ↦
            rw fits
              (sub (is_match entity_type namespace e.id) (ground (arith, fits, ==-refl e.id)), k)
      ]

  join-All :
      (v : Text) (threshold : S) (states : List (ServingState S)) (t u : List Entity)
      → ((f : Entity → Bool) → any f t ≡ true → any f u ≡ true)
      → All
          (λ (row : S × EntityWithScore S). Present entity_type namespace u row.1.entity.id)
          (join F h v entity_type namespace threshold states t)
  join-All v threshold states [] u sub = tt
  join-All v threshold states (e ∷ t) u sub =
      All-prepend v threshold e (embedding_of (find_where (has_key e.id) states)) u _
        (λ f k. sub f (ground (arith, k)))
        (join-All v threshold states t u (λ f k. sub f (ground (arith, k))))

  candidates-All :
      (v : Text) (threshold : S) (limit : ℕ) (states : List (ServingState S)) (t : List Entity)
      → All
          (λ (c : EntityWithScore S). Present entity_type namespace t c.entity.id)
          (query_entities_by_embedding_similarity F h v entity_type namespace threshold limit states
            t)
  unfolding query_entities_by_embedding_similarity
  candidates-All v threshold limit states t = All-take _ limit _ (
      All-of_map (λ (row : S × EntityWithScore S). row.1) _ _
        (All-sort_by _ _ _ (join-All v threshold states t t (λ f k. k))))

  -- What the third pass may answer of a table.
  abbrev pub Sound : List Entity → SemanticResult S → Type 0
  Sound t (merge r) = Present entity_type namespace t r.entity_id
  Sound t new_entity = Unit
  Sound t (conflict cs) = Unit

  abbrev by_meaning : EntityWithScore S → ResolutionResult S
  by_meaning top = record {
    entity_id = top.entity.id;
    method = semantic;
    confidence = top.similarity;
  }

  module _ (L : IsLawful F) where
    -- A single candidate above the threshold is far from the missing second one.
    gap_alone :
        (a : S)
        → lt F h a (semantic_threshold F) ≡ false
        → F.le (semantic_gap F) (F.sub a (F.lit 0 0)) ≡ true
    gap_alone a high = rw (L.sub-zero a) (
        L.le-trans (semantic_gap F) (semantic_threshold F) a (L.lit-le 3 2 92 2 (omega arith))
          (ground (arith, high, L.le-total a (semantic_threshold F))))

    crowded :
        (t : List Entity) (top : EntityWithScore S) (cs : List (EntityWithScore S))
        → lt F h top.similarity (semantic_threshold F) ≡ false
        → F.le (semantic_gap F) (F.sub top.similarity (second_score F h cs)) ≡ false
        → (o : SemanticResult S) × (judge F h (top ∷ cs) ≡ ok o) × Sound t o
    unfolding judge
    crowded t top [] high close = let far = gap_alone top.similarity high in cc
    crowded t top (c ∷ cs) high close =
        (conflict (keep (near F h top.similarity) (top ∷ c ∷ cs)), rw (high, close) refl, tt)

    judge-Sound :
        (t : List Entity) (cs : List (EntityWithScore S))
        → All (λ (c : EntityWithScore S). Present entity_type namespace t c.entity.id) cs
        → (o : SemanticResult S) × (judge F h cs ≡ ok o) × Sound t o
    unfolding judge
    judge-Sound t [] k = (new_entity, refl, tt)
    judge-Sound t (top ∷ cs) k = elim (Bool-cases (lt F h top.similarity (semantic_threshold F))) [
      | inl low ↦ (new_entity, rw low refl, tt)
      | inr high ↦
          elim (Bool-cases (F.le (semantic_gap F) (F.sub top.similarity (second_score F h cs)))) [
            | inl clear ↦ (merge (by_meaning top), rw (high, clear) refl, k.0)
            | inr close ↦ crowded t top cs high close
          ]
    ]

    pub pass3-Sound :
        (v : Text) (s : Store S)
        → (o : SemanticResult S) × (pass3_semantic_match F h (ok v) entity_type namespace s ≡ ok o)
          × Sound s.entities o
    unfolding pass3_semantic_match
    pass3-Sound v s =
        judge-Sound s.entities _ (candidates-All v (F.lit 0 0) semantic_limit s.states s.entities)
