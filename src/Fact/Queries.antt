-- ===== src/Fact/Queries.antt =====
-- The queries on facts (loom-engine/src/db/facts.rs), and the invalidation of summaries
-- (db/entities.rs).
use project_loom.Common.{ℕ, String, Bool, Option, some, List, keep, ◌==◌, ◌&&◌, is_none, contains}
use text.Mathlib.Text.{◌==◌ as str_eq}
use project_loom.Common.Result.{Result}
use project_loom.Common.Table.{DbError, find_where, update_where, update_one, count_where}
use project_loom.Fact.Rows.{superseded, Fact, KnowledgeSummary, has_id, is_current}

unfoldable pub get_fact_by_id : ℕ → List Fact → Option Fact
get_fact_by_id id t = find_where (has_id id) t

abbrev pub has_triple : ℕ → String → String → Fact → Bool
has_triple subject_id predicate namespace f =
    f.subject_id == subject_id
    && (str_eq f.predicate predicate && (str_eq f.namespace namespace && is_current f))

unfoldable pub query_facts_by_subject_and_predicate : ℕ → String → String → List Fact → List Fact
query_facts_by_subject_and_predicate subject_id predicate namespace t =
    keep (has_triple subject_id predicate namespace) t

abbrev pub supersede : ℕ → ℕ → Fact → Fact
supersede new_fact_id valid_until f = record f {
  valid_until = some valid_until;
  superseded_by = some new_fact_id;
  evidence_status = superseded;
}

-- `supersede_fact` is this one at the time of the statement.
unfoldable pub supersede_fact_at : ℕ → ℕ → ℕ → List Fact → Result DbError Fact × List Fact
supersede_fact_at old_fact_id new_fact_id valid_until t =
    update_one (has_id old_fact_id) (supersede new_fact_id valid_until) t

unfoldable pub supersede_fact : ℕ → ℕ → ℕ → List Fact → Result DbError Fact × List Fact
unfolding supersede_fact_at
supersede_fact now old_fact_id new_fact_id t = supersede_fact_at old_fact_id new_fact_id now t

unfoldable pub soft_delete_fact : ℕ → ℕ → List Fact → Result DbError Fact × List Fact
soft_delete_fact now id t = update_one (has_id id) (λ f. record f { deleted_at = some now }) t

abbrev pub cites : ℕ → KnowledgeSummary → Bool
cites fact_id s =
    contains s.source_facts fact_id && (is_none s.deleted_at && is_none s.invalidated_at)

unfoldable pub invalidate_summaries_by_fact :
    ℕ → ℕ → List KnowledgeSummary → ℕ × List KnowledgeSummary
invalidate_summaries_by_fact now fact_id t = (
  count_where (cites fact_id) t,
  update_where (cites fact_id) (λ s. record s { invalidated_at = some now }) t,
)
