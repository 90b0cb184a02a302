-- ===== src/Fact/Resolve.antt =====
-- Supersession (loom-engine/src/pipeline/offline/supersede.rs). `times` has, by the id of a superseded
-- fact, the time of the statement that invalidates its summaries, and none where that statement
-- fails, which the program only logs.
use project_loom.Common.{
  ℕ, suc, String, ◌+◌, Bool, true, false, Option, none, some, List, [], ◌∷◌, ◌==◌, ◌||◌, is_some,
  if◌then◌else◌,
}
use project_loom.Common.Result.{Result, ok, err}
use project_loom.Common.Table.{DbError}
use project_loom.Fact.Rows.{Fact, KnowledgeSummary, Store}
use project_loom.Fact.Queries.{
  get_fact_by_id, query_facts_by_subject_and_predicate, supersede_fact_at,
  invalidate_summaries_by_fact,
}

pub record NewFactDetails : Type 0 where
  pub fact_id : ℕ
  pub subject_id : ℕ
  pub predicate : String
  pub object_id : ℕ
  pub namespace : String
  pub valid_from : ℕ

unfoldable pub new_fact_details_from : Fact → NewFactDetails
new_fact_details_from f = record {
  fact_id = f.id;
  subject_id = f.subject_id;
  predicate = f.predicate;
  object_id = f.object_id;
  namespace = f.namespace;
  valid_from = f.valid_from;
}

-- The two `continue`s of the loop.
abbrev pub is_skipped : ℕ → Fact → Fact → Bool
is_skipped fact_id current old = old.id == fact_id || old.object_id == current.object_id

-- The `if let Err` around the invalidation.
abbrev pub invalidate_or_log : Option ℕ → ℕ → List KnowledgeSummary → List KnowledgeSummary
unfolding invalidate_summaries_by_fact
invalidate_or_log none old_fact_id t = t
invalidate_or_log (some now) old_fact_id t = (invalidate_summaries_by_fact now old_fact_id t).1

-- One round of the loop on a fact that is not skipped.
unfoldable pub supersede_one :
    (ℕ → Option ℕ) → Fact → Fact → Store → Result DbError (Unit {0}) × Store
unfolding supersede_fact_at invalidate_summaries_by_fact
supersede_one times current old s =
    let (result, facts) = supersede_fact_at old.id current.id current.valid_from s.facts in
    elim result [
      | ok _ ↦ (
        ok tt,
        record { facts = facts; summaries = invalidate_or_log (times old.id) old.id s.summaries },
      )
      | err e ↦ (err e, record s { facts = facts })
    ]

-- The loop over the facts that the query has returned.
unfoldable pub supersede_all :
    (ℕ → Option ℕ) → ℕ → Fact → List Fact → ℕ → Store → Result DbError ℕ × Store
unfolding supersede_one
supersede_all times fact_id current [] count s = (ok count, s)
supersede_all times fact_id current (old ∷ existing) count s =
    elim (is_skipped fact_id current old) [
      | true ↦ supersede_all times fact_id current existing count s
      | false ↦
          let (result, s') = supersede_one times current old s in
          elim result [
            | ok _ ↦ supersede_all times fact_id current existing (suc count) s'
            | err e ↦ (err e, s')
          ]
    ]

unfoldable pub resolve_supersessions :
    (ℕ → Option ℕ) → NewFactDetails → Store → Result DbError ℕ × Store
unfolding get_fact_by_id query_facts_by_subject_and_predicate supersede_all
resolve_supersessions times new_fact s = elim (get_fact_by_id new_fact.fact_id s.facts) [
  | none ↦ (ok 0, s)
  | some current ↦
      if is_some current.valid_until || is_some current.deleted_at
      then (ok 0, s)
      else supersede_all times new_fact.fact_id current
          (query_facts_by_subject_and_predicate current.subject_id current.predicate
            current.namespace s.facts)
          0 s
]

-- The loop of the batch: the first failure ends it, with the store as it is then.
unfoldable pub add_supersessions :
    (ℕ → Option ℕ) → List NewFactDetails → ℕ → Store → Result DbError ℕ × Store
unfolding resolve_supersessions
add_supersessions times [] total s = (ok total, s)
add_supersessions times (new_fact ∷ rest) total s =
    let (result, s') = resolve_supersessions times new_fact s in
    elim result [ ok count ↦ add_supersessions times rest (total + count) s' | err e ↦ (err e, s') ]

unfoldable pub resolve_supersessions_batch :
    (ℕ → Option ℕ) → List NewFactDetails → Store → Result DbError ℕ × Store
unfolding add_supersessions
resolve_supersessions_batch times new_facts s = add_supersessions times new_facts 0 s
