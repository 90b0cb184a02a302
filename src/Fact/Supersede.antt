-- ===== src/Fact/Supersede.antt =====
-- What supersession (pipeline/offline/supersede.rs) does to the facts and the summaries.
pub mod Loop
use project_loom.Common.{
  ℕ, suc, ◌+◌, String, ◌≡◌, refl, sym, ap, ◌∙◌, inl, inr, Bool, true, false, Option, none, some,
  subst, List, [], ◌∷◌, length, arith, ◌==◌, ==_iff, ==-refl, ◌&&◌, ◌||◌, if◌then◌else◌, not,
  Bool-cases, Option-cases, All, All-map, keep, keep-keep, keep_ext, is_some, is_none, contains,
}
use project_loom.Common.Result.{Result, ok, err}
use project_loom.Common.Table.{
  DbError, find_where, update_where, count_where, find_where_sound, All-update_where,
}
use text.Mathlib.Text.{◌==◌ as str_eq}
use project_loom.Common.Keyed.{
  by_key, IsKeyed, update_each, update_each-keep, find_where-update_present, keep-present,
  find_where_keyed, keyed_only,
}
use project_loom.Fact.Rows.{Fact, KnowledgeSummary, Store, has_id, is_current}
use project_loom.Fact.Queries.{
  get_fact_by_id, query_facts_by_subject_and_predicate, has_triple, supersede, cites,
  supersede_fact_at, invalidate_summaries_by_fact,
}
use project_loom.Fact.Supersede.Loop.{
  contradicts, id_of, invalidated, invalidate, invalidate_at, invalidate_each,
  resolve_supersessions-run,
}
use project_loom.Fact.Resolve.{
  NewFactDetails, is_skipped, supersede_one, supersede_all, resolve_supersessions,
}

-- Superseding in a keyed table of facts where the new fact is current: the facts that contradict it
-- are superseded by it in one update, the count is their number, and the call succeeds.
pub resolve_supersessions-current :
    (times : ℕ → Option ℕ) (n : NewFactDetails) (new : Fact) (s : Store)
    → IsKeyed id_of s.facts
    → get_fact_by_id n.fact_id s.facts ≡ some new
    → is_current new ≡ true
    → ((resolve_supersessions times n s).0 ≡ ok (count_where (contradicts new) s.facts))
      × ((resolve_supersessions times n s).1.facts
          ≡ update_where (contradicts new) (supersede new.id new.valid_from) s.facts)
resolve_supersessions-current times n new s k h c =
    let run = resolve_supersessions-run times n new s k h c in
    (ap (λ r. r.0) run, ap (λ r. r.1.facts) run)

and3_false : (a b c : Bool) → (a && (b && (c && false))) ≡ false
and3_false a b c = ground arith

supersede-has_triple :
    (i v subject : ℕ) (predicate namespace : String) (f : Fact)
    → has_triple subject predicate namespace (supersede i v f) ≡ false
supersede-has_triple i v subject predicate namespace f =
    and3_false (f.subject_id == subject) (str_eq f.predicate predicate)
      (str_eq f.namespace namespace)

and2_false : (a b : Bool) → (a && (b && false)) ≡ false
and2_false a b = ground arith

invalidated-cites : (now i : ℕ) (s : KnowledgeSummary) → cites i (invalidated now s) ≡ false
invalidated-cites now i s = and2_false (contains s.source_facts i) (is_none s.deleted_at)

none_contradicts :
    (new : Fact) (t : List Fact)
    → All
        (λ f. contradicts new f ≡ false)
        (update_where (contradicts new) (supersede new.id new.valid_from) t)
none_contradicts new [] = tt
none_contradicts new (f ∷ t) = elim (Bool-cases (contradicts new f)) [
  | inl e ↦
      let closed =
        supersede-has_triple new.id new.valid_from new.subject_id new.predicate new.namespace f in
      rw e (rw closed refl, none_contradicts new t)
  | inr e ↦ rw e (e, none_contradicts new t)
]

invalidate-keeps :
    (at : Option ℕ) (i j : ℕ) (t : List KnowledgeSummary)
    → All (λ s. cites i s ≡ false) t
    → All (λ s. cites i s ≡ false) (invalidate_at at j t)
invalidate-keeps none i j t h = h
invalidate-keeps (some now) i j t h =
    All-update_where (cites j) (invalidated now) t (λ s p q. invalidated-cites now i s) h

invalidate_each-cited :
    (times : ℕ → Option ℕ) (i : ℕ) (olds : List Fact) (t : List KnowledgeSummary)
    → All (λ s. cites i s ≡ false) t
    → All (λ s. cites i s ≡ false) (invalidate_each times olds t)
invalidate_each-cited times i [] t h = h
invalidate_each-cited times i (o ∷ olds) t h =
    invalidate_each-cited times i olds (invalidate times o t)
      (invalidate-keeps (times o.id) i o.id t h)

invalidate_at-cited :
    (now i : ℕ) (t : List KnowledgeSummary)
    → All (λ s. cites i s ≡ false) (invalidate_at (some now) i t)
invalidate_at-cited now i [] = tt
invalidate_at-cited now i (s ∷ t) = elim (Bool-cases (cites i s)) [
  | inl e ↦ rw e (invalidated-cites now i s, invalidate_at-cited now i t)
  | inr e ↦ rw e (e, invalidate_at-cited now i t)
]

-- No summary that cites the fact is left, if the statement for it did not fail.
abbrev pub IsUncited : (ℕ → Option ℕ) → List KnowledgeSummary → Fact → Type 0
IsUncited times t o = is_some (times o.id) ≡ true → All (λ y. cites o.id y ≡ false) t

invalidate_each-All :
    (times : ℕ → Option ℕ) (olds : List Fact) (t : List KnowledgeSummary)
    → All (IsUncited times (invalidate_each times olds t)) olds
invalidate_each-All times [] t = tt
invalidate_each-All times (o ∷ olds) t = (
  λ done. elim (Option-cases (times o.id)) [
    | inl e ↦ cc (rw e at done)
    | inr (at, e) ↦
        invalidate_each-cited times o.id olds (invalidate times o t)
          (rw e (invalidate_at-cited at o.id t))
  ],
  invalidate_each-All times olds (invalidate times o t),
)

-- Superseding in a keyed table of facts where the new fact is current leaves no current fact with
-- its subject, predicate and namespace and another object, also where invalidations fail; and for
-- each fact that it contradicted, and whose invalidation did not fail, no summary is left that
-- cites it and is neither deleted nor invalidated.
pub resolve_supersessions-consistent :
    (times : ℕ → Option ℕ) (n : NewFactDetails) (new : Fact) (s : Store)
    → IsKeyed id_of s.facts
    → get_fact_by_id n.fact_id s.facts ≡ some new
    → is_current new ≡ true
    → All (λ f. contradicts new f ≡ false) (resolve_supersessions times n s).1.facts
      × All
          (IsUncited times (resolve_supersessions times n s).1.summaries)
          (keep (contradicts new) s.facts)
resolve_supersessions-consistent times n new s k h c =
    rw (resolve_supersessions-run times n new s k h c) (
      none_contradicts new s.facts,
      invalidate_each-All times (keep (contradicts new) s.facts) s.summaries,
    )
