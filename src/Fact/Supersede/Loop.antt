-- ===== src/Fact/Supersede/Loop.antt =====
-- The loop of `resolve_supersessions` (pipeline/offline/supersede.rs) against one update of the
-- table of facts and one invalidation for each fact that it supersedes.
use project_loom.Common.{
  ℕ, suc, ◌+◌, ◌≡◌, refl, sym, ap, ◌∙◌, inl, inr, Bool, true, false, Option, none, some, subst,
  List, [], ◌∷◌, length, arith, ◌==◌, ==_iff, ==-refl, ◌&&◌, ◌||◌, if◌then◌else◌, not, Bool-cases,
  Option-cases, All, All-map, keep, keep-keep, keep_ext, is_some, is_none,
}
use project_loom.Common.Result.{Result, ok, err}
use project_loom.Common.Table.{DbError, find_where, update_where, count_where, find_where_sound}
use project_loom.Common.Keyed.{
  by_key, IsKeyed, update_each, update_each-keep, find_where-update_present, keep-present,
  find_where_keyed, keyed_only,
}
use project_loom.Fact.Rows.{Fact, KnowledgeSummary, Store, has_id, is_current}
use project_loom.Fact.Queries.{
  get_fact_by_id, query_facts_by_subject_and_predicate, has_triple, supersede, cites,
  supersede_fact_at, invalidate_summaries_by_fact,
}
use project_loom.Fact.Resolve.{
  NewFactDetails, is_skipped, supersede_one, supersede_all, resolve_supersessions,
}

-- The facts that a new fact contradicts: current ones with its subject, predicate and namespace
-- and another object.
abbrev pub contradicts : Fact → Fact → Bool
contradicts new f =
    has_triple new.subject_id new.predicate new.namespace f && not (f.object_id == new.object_id)

abbrev pub id_of : Fact → ℕ
id_of f = f.id

abbrev pub invalidated : ℕ → KnowledgeSummary → KnowledgeSummary
invalidated now s = record s { invalidated_at = some now }

abbrev pub invalidate_at : Option ℕ → ℕ → List KnowledgeSummary → List KnowledgeSummary
invalidate_at none i t = t
invalidate_at (some now) i t = update_where (cites i) (invalidated now) t

abbrev pub invalidate : (ℕ → Option ℕ) → Fact → List KnowledgeSummary → List KnowledgeSummary
invalidate times old t = invalidate_at (times old.id) old.id t

abbrev pub invalidate_each :
    (ℕ → Option ℕ) → List Fact → List KnowledgeSummary → List KnowledgeSummary
invalidate_each times [] t = t
invalidate_each times (old ∷ olds) t = invalidate_each times olds (invalidate times old t)

supersede_one-present :
    (times : ℕ → Option ℕ) (new old : Fact) (s : Store)
    → is_some (find_where (has_id old.id) s.facts) ≡ true
    → supersede_one times new old s ≡ (
      ok tt,
      record {
        facts = update_where (has_id old.id) (supersede new.id new.valid_from) s.facts;
        summaries = invalidate times old s.summaries;
      },
    )
unfolding supersede_one supersede_fact_at invalidate_summaries_by_fact
supersede_one-present times new old s h = elim (Option-cases (times old.id)) [
  | inl e ↦ rw e (ground arith)
  | inr (at, e) ↦ rw e (ground arith)
]

abbrev taken : Fact → List Fact → List Fact
taken new olds = keep (λ o. not (is_skipped new.id new o)) olds

supersede_all-skip :
    (times : ℕ → Option ℕ) (new old : Fact) (olds : List Fact) (n : ℕ) (s : Store)
    → is_skipped new.id new old ≡ true
    → supersede_all times new.id new (old ∷ olds) n s ≡ supersede_all times new.id new olds n s
unfolding supersede_all
supersede_all-skip times new old olds n s e =
    ap
      (λ b. elim b [
        | true ↦ supersede_all times new.id new olds n s
        | false ↦
            let (result, s') = supersede_one times new old s in
            elim result [
              | ok _ ↦ supersede_all times new.id new olds (suc n) s'
              | err e ↦ (err e, s')
            ]
      ])
      e

supersede_all-step :
    (times : ℕ → Option ℕ) (new old : Fact) (olds : List Fact) (n : ℕ) (s s' : Store)
    → is_skipped new.id new old ≡ false
    → supersede_one times new old s ≡ (ok tt, s')
    → supersede_all times new.id new (old ∷ olds) n s
      ≡ supersede_all times new.id new olds (suc n) s'
unfolding supersede_all
supersede_all-step times new old olds n s s' e h =
    ap
      (λ b. elim b [
        | true ↦ supersede_all times new.id new olds n s
        | false ↦
            let (result, s') = supersede_one times new old s in
            elim result [
              | ok _ ↦ supersede_all times new.id new olds (suc n) s'
              | err e ↦ (err e, s')
            ]
      ])
      e
    ∙ ap
        (λ (r : Result DbError (Unit {0}) × Store). elim r.0 [
          | ok _ ↦ supersede_all times new.id new olds (suc n) r.1
          | err e ↦ (err e, r.1)
        ])
        h

-- The loop on rows of the table takes every fact that is not skipped, and cannot fail.
supersede_all-present :
    (times : ℕ → Option ℕ) (new : Fact) (olds : List Fact) (n : ℕ) (s : Store)
    → All (λ o. is_some (find_where (by_key id_of (id_of o)) s.facts) ≡ true) olds
    → supersede_all times new.id new olds n s ≡ (
      ok (n + length (taken new olds)),
      record {
        facts =
            update_each id_of
              (supersede new.id new.valid_from)
              (λ _. refl)
              (taken new olds)
              s.facts;
        summaries = invalidate_each times (taken new olds) s.summaries;
      },
    )
unfolding supersede_all
supersede_all-present times new [] n s h =
    let none_taken : n ≡ n + 0 = omega arith in ap (λ m. (ok m, s)) none_taken
supersede_all-present times new (old ∷ olds) n s h = elim (Bool-cases (is_skipped new.id new old)) [
  | inl e ↦
      supersede_all-skip times new old olds n s e
      ∙ rw e (supersede_all-present times new olds n s h.1)
  | inr e ↦
      let s' : Store = record {
        facts = update_where (has_id old.id) (supersede new.id new.valid_from) s.facts;
        summaries = invalidate times old s.summaries;
      } in
      let one_more : suc n + length (taken new olds) ≡ n + suc (length (taken new olds)) =
        omega arith in
      let still =
        All-map _ (λ o. is_some (find_where (by_key id_of (id_of o)) s'.facts) ≡ true) olds
          (λ o p.
            find_where-update_present id_of (id_of o) (has_id old.id)
              (supersede new.id new.valid_from) s.facts (λ _. refl)
            ∙ p)
          h.1 in
      supersede_all-step times new old olds n s s' e (supersede_one-present times new old s h.0)
      ∙ supersede_all-present times new olds (suc n) s' still
      ∙ rw e (
          ap
            (λ m. (
              ok m,
              record {
                facts =
                    update_each id_of (supersede new.id new.valid_from) (λ _. refl) (taken new olds)
                      s'.facts;
                summaries = invalidate_each times (taken new olds) s'.summaries;
              },
            ))
            one_more)
]

length-keep-count : (p : Fact → Bool) (t : List Fact) → length (keep p t) ≡ count_where p t
length-keep-count p [] = refl
length-keep-count p (f ∷ t) = ground (arith, length-keep-count p t)

agree : (t a b : Bool) → (a ≡ true → b ≡ true) → (t && not (a || b)) ≡ (t && not b)
agree t a b h = ground arith

live_lem :
    {A B : Type 0} (a : Option A) (b : Option B)
    → (is_none a && is_none b) ≡ true
    → (is_some a || is_some b) ≡ false
live_lem a b h = ground arith

-- In a keyed table the only row with the id of the new fact is the new fact, so the loop takes the
-- facts that it contradicts.
taken-contradicts :
    (new : Fact) (t : List Fact)
    → IsKeyed id_of t
    → find_where (by_key id_of new.id) t ≡ some new
    → taken new (keep (has_triple new.subject_id new.predicate new.namespace) t)
      ≡ keep (contradicts new) t
taken-contradicts new t k h =
    let same_object =
      keyed_only id_of new.id (λ f. f.object_id == new.object_id) t new k
        (find_where_keyed id_of new.id (λ f. f.object_id == new.object_id) t new k h
          ∙ rw ((==-refl new.object_id)) refl) in
    keep-keep _ _ t
    ∙ keep_ext _ _ t (
        All-map _ _ t
          (λ f p.
            agree (has_triple new.subject_id new.predicate new.namespace f) (f.id == new.id)
              (f.object_id == new.object_id) (λ e. p ((==_iff f.id new.id).0 e)))
          same_object)

stale_lem :
    {A B : Type 0} (a : Option A) (b : Option B)
    → (is_none a && is_none b) ≡ false
    → (is_some a || is_some b) ≡ true
stale_lem a b h = ground arith

-- What `resolve_supersessions` does with the fact that it has looked up.
abbrev resolve_found :
    (ℕ → Option ℕ) → NewFactDetails → Store → Option Fact → Result DbError ℕ × Store
resolve_found times n s none = (ok 0, s)
resolve_found times n s (some current) =
    if is_some current.valid_until || is_some current.deleted_at
    then (ok 0, s)
    else supersede_all times n.fact_id current
        (keep (has_triple current.subject_id current.predicate current.namespace) s.facts) 0 s

resolve_supersessions-found :
    (times : ℕ → Option ℕ) (n : NewFactDetails) (s : Store) (o : Option Fact)
    → get_fact_by_id n.fact_id s.facts ≡ o
    → resolve_supersessions times n s ≡ resolve_found times n s o
unfolding resolve_supersessions get_fact_by_id query_facts_by_subject_and_predicate
resolve_supersessions-found times n s o h = ap (resolve_found times n s) h

-- A fact that is missing, and one that is not current, supersede nothing.
pub resolve_supersessions-missing :
    (times : ℕ → Option ℕ) (n : NewFactDetails) (s : Store)
    → get_fact_by_id n.fact_id s.facts ≡ none
    → resolve_supersessions times n s ≡ (ok 0, s)
resolve_supersessions-missing times n s h = resolve_supersessions-found times n s none h

pub resolve_supersessions-stale :
    (times : ℕ → Option ℕ) (n : NewFactDetails) (new : Fact) (s : Store)
    → get_fact_by_id n.fact_id s.facts ≡ some new
    → is_current new ≡ false
    → resolve_supersessions times n s ≡ (ok 0, s)
resolve_supersessions-stale times n new s h c =
    resolve_supersessions-found times n s (some new) h
    ∙ rw (stale_lem new.valid_until new.deleted_at c) refl

resolve_supersessions-loop :
    (times : ℕ → Option ℕ) (n : NewFactDetails) (new : Fact) (s : Store)
    → get_fact_by_id n.fact_id s.facts ≡ some new
    → is_current new ≡ true
    → resolve_supersessions times n s
      ≡ supersede_all times new.id new
          (keep (has_triple new.subject_id new.predicate new.namespace) s.facts)
          0
          s
unfolding get_fact_by_id
resolve_supersessions-loop times n new s h c =
    let same_id = (==_iff new.id n.fact_id).0 (find_where_sound (has_id n.fact_id) s.facts new h) in
    let loop : ℕ → Result DbError ℕ × Store = λ i.
      supersede_all times i new
        (keep (has_triple new.subject_id new.predicate new.namespace) s.facts) 0 s in
    resolve_supersessions-found times n s (some new) h
    ∙ ap (λ b. if b then (ok 0, s) else loop n.fact_id) (live_lem new.valid_until new.deleted_at c)
    ∙ ap loop (sym same_id)

pub resolve_supersessions-run :
    (times : ℕ → Option ℕ) (n : NewFactDetails) (new : Fact) (s : Store)
    → IsKeyed id_of s.facts
    → get_fact_by_id n.fact_id s.facts ≡ some new
    → is_current new ≡ true
    → resolve_supersessions times n s ≡ (
      ok (count_where (contradicts new) s.facts),
      record {
        facts = update_where (contradicts new) (supersede new.id new.valid_from) s.facts;
        summaries = invalidate_each times (keep (contradicts new) s.facts) s.summaries;
      },
    )
unfolding get_fact_by_id
resolve_supersessions-run times n new s k h c =
    let same_id = (==_iff new.id n.fact_id).0 (find_where_sound (has_id n.fact_id) s.facts new h) in
    let found : find_where (by_key id_of new.id) s.facts ≡ some new =
      subst (λ i. find_where (by_key id_of i) s.facts ≡ some new) (sym same_id) h in
    let triple = has_triple new.subject_id new.predicate new.namespace in
    let count : 0 + length (keep (contradicts new) s.facts)
        ≡ count_where (contradicts new) s.facts =
      omega (arith, length-keep-count (contradicts new) s.facts) in
    resolve_supersessions-loop times n new s h c
    ∙ supersede_all-present times new (keep triple s.facts) 0 s (keep-present id_of triple s.facts)
    ∙ rw
        (
          taken-contradicts new s.facts k found,
          count,
          update_each-keep id_of (supersede new.id new.valid_from) (λ _. refl) (contradicts new)
              s.facts k,
        )
        refl
