-- ===== src/Extract/Scoped.antt =====
-- What the insertion of an episode's facts adds (the loop of `orchestrate_fact_extraction`,
-- `validate_fact_namespace`).
use project_loom.Common.{
  ℕ, String, ◌≡◌, refl, sym, ap, subst, ◌∙◌, inl, inr, ◌+◌, Option, none, some, List, [], ◌∷◌, ◌++◌,
  All, Bool-cases, Option-cases, length, length-append, arith,
}
use project_loom.Common.Table.{find_where}
use project_loom.Common.Result.{Result, ok, err, Result-cases}
use mathlib.Core.List.{append_assoc, append-nil}
use package.text.Mathlib.Text.{◌==◌ as str_eq}
use package.text.Mathlib.TextEquality.{eq_iff}
use project_loom.Fact.{Fact}
use project_loom.Resolve.{Entity}
use project_loom.Predicate.{ExtractedFact}
use project_loom.Extract.Insert.{
  NewFact, EpisodeRun, Progress, conflicts, is_strength, new_fact_row, insert_fact, after_fact,
  new_fact_from, unless_foreign, lookup, validated, insert_valid, insert_facts,
}
use project_loom.Extract.Namespace.{
  NamespaceError, validate_fact_namespace, check_row, then_check, entity_row,
}
use project_loom.Extract.Again.{insert_facts-ok, insert_facts-err}

-- An entity of the namespace of the episode, under a name of its map.
abbrev pub IsOwn : EpisodeRun → ℕ → Type 0
IsOwn ep id =
    ((name : String) × (lookup name ep.entity_map ≡ some id))
    × ((e : Entity) → entity_row id ep.entities ≡ some e → e.namespace ≡ ep.namespace)

abbrev pub IsScoped : EpisodeRun → ℕ → ℕ → String → List ℕ → Type 0
IsScoped ep subject_id object_id namespace source_episodes =
    IsOwn ep subject_id
    × IsOwn ep object_id
    × (namespace ≡ ep.namespace)
    × (source_episodes ≡ ep.episode_id ∷ [])

abbrev pub IsScopedFact : EpisodeRun → Fact → Type 0
IsScopedFact ep f = IsScoped ep f.subject_id f.object_id f.namespace f.source_episodes

check_row_ok :
    (ns : String) (o : Option Entity) (u : Unit {0})
    → check_row ns o ≡ ok u
    → (e : Entity) → o ≡ some e
    → e.namespace ≡ ns
check_row_ok ns none u h e k = cc
check_row_ok ns (some x) u h e k = elim (Bool-cases (str_eq x.namespace ns)) [
  | inr l ↦ cc (rw l at h)
  | inl l ↦ let same : x ≡ e = cc in rw (← same) ((eq_iff x.namespace ns).0 l)
]

both_ok :
    (r s : Result NamespaceError (Unit {0})) (u : Unit {0})
    → then_check r s ≡ ok u
    → (r ≡ ok tt) × (s ≡ ok tt)
both_ok (err e) s u h = cc
both_ok (ok _) s u h = (refl, h)

own :
    (ep : EpisodeRun) (fact : ExtractedFact) (n : NewFact) (s o : ℕ)
    → lookup fact.subject ep.entity_map ≡ some s
    → lookup fact.object ep.entity_map ≡ some o
    → (r : Result NamespaceError (Unit {0}))
    → then_check
        (check_row ep.namespace (entity_row s ep.entities))
        (check_row ep.namespace (entity_row o ep.entities))
      ≡ r
    → unless_foreign ep fact s o r ≡ some n
    → IsScoped ep n.subject_id n.object_id n.namespace n.source_episodes
own ep fact n s o k l (err e) c h = cc
own ep fact n s o k l (ok u) c h =
    let (a, b) = both_ok _ _ u c in
    let same : new_fact_from ep fact s o ≡ n = cc in
    subst (λ n. IsScoped ep n.subject_id n.object_id n.namespace n.source_episodes) same
      (
        ((fact.subject, k), check_row_ok ep.namespace (entity_row s ep.entities) tt a),
        ((fact.object, l), check_row_ok ep.namespace (entity_row o ep.entities) tt b),
        refl,
        refl,
      )

referenced-IsScoped :
    (ep : EpisodeRun) (fact : ExtractedFact) (n : NewFact)
    → validated ep fact ≡ some n
    → IsScoped ep n.subject_id n.object_id n.namespace n.source_episodes
unfolding validated validate_fact_namespace
referenced-IsScoped ep fact n h = elim (Option-cases (lookup fact.subject ep.entity_map)) [
  | inl k ↦ cc (rw k at h)
  | inr (s, k) ↦ elim (Option-cases (lookup fact.object ep.entity_map)) [
    | inl l ↦ cc (rw (k, l) at h)
    | inr (o, l) ↦ own ep fact n s o k l _ refl (rw (k, l) at h)
  ]
]

-- What one fact adds: no row, or one that is scoped.
insert_valid-IsScoped :
    (ep : EpisodeRun) (fact : ExtractedFact) (t : List Fact)
    → (more : List Fact) × ((insert_valid ep (validated ep fact) t).1 ≡ t ++ more)
      × All (IsScopedFact ep) more
unfolding insert_fact
insert_valid-IsScoped ep fact t = elim (Option-cases (validated ep fact)) [
  | inl e ↦ ([], rw e (sym (append-nil t)), tt)
  | inr (n, e) ↦ elim (Bool-cases (is_strength n.evidence_strength)) [
    | inr k ↦ ([], rw e (rw k (sym (append-nil t))), tt)
    | inl k ↦ elim (Option-cases (find_where (conflicts n) t)) [
      | inl l ↦ (
        new_fact_row ep.gen_random_uuid ep.now n t ∷ [],
        rw e (rw k (rw l refl)),
        (referenced-IsScoped ep fact n e, tt),
      )
      | inr (f, l) ↦ ([], rw e (rw k (rw l (sym (append-nil t)))), tt)
    ]
  ]
]

-- How many facts the loop has met.
abbrev pub met : Progress → ℕ
met p = p.skipped_count + length p.inserted_fact_ids

met-after_fact :
    (fact : ExtractedFact) (row : Option Fact) (p : Progress)
    → met (after_fact fact row p) ≡ met p + 1
met-after_fact fact none p = omega arith
met-after_fact fact (some row) p = omega (arith, length-append p.inserted_fact_ids (row.id ∷ []))

All-append :
    (ep : EpisodeRun) (xs ys : List Fact)
    → All (IsScopedFact ep) xs
    → All (IsScopedFact ep) ys
    → All (IsScopedFact ep) (xs ++ ys)
All-append ep [] ys h k = k
All-append ep (x ∷ xs) ys h k = (h.0, All-append ep xs ys h.1 k)

-- The loop keeps the rows that are there and adds scoped ones: each names, as subject and as object,
-- an id of the map of the episode, whose entity, where there is one, is in the namespace of the
-- episode, and has this namespace and the episode as its only source. If the loop ends without an
-- error, each fact was inserted or skipped.
pub insert_facts-IsScoped :
    (ep : EpisodeRun) (facts : List ExtractedFact) (p : Progress) (t : List Fact)
    → ((more : List Fact) × ((insert_facts ep facts p t).1 ≡ t ++ more)
        × All (IsScopedFact ep) more)
      × ((p' : Progress) → (insert_facts ep facts p t).0 ≡ ok p' → met p' ≡ met p + length facts)
unfolding insert_facts
insert_facts-IsScoped ep [] p t =
    (([], sym (append-nil t), tt), λ p' e. let same : p ≡ p' = cc in rw (← same) (omega arith))
insert_facts-IsScoped ep (fact ∷ facts) p t =
    let (here, e, scoped) = insert_valid-IsScoped ep fact t in
    elim (Result-cases (insert_valid ep (validated ep fact) t).0) [
      | inr (x, k) ↦
          let run = insert_facts-err ep fact facts p t x k in
          ((here, ap (λ r. r.1) run ∙ e, scoped), λ p' q. cc (rw run at q))
      | inl (row, k) ↦
          let run = insert_facts-ok ep fact facts p t row k in
          let ((more, l, scoped_more), counts) =
            insert_facts-IsScoped ep facts (after_fact fact row p)
              (insert_valid ep (validated ep fact) t).1 in
          (
            (
              here ++ more,
              ap (λ r. r.1) run ∙ l ∙ ap (λ u. u ++ more) e ∙ append_assoc t here more,
              All-append ep here more scoped scoped_more,
            ),
            λ p' q. counts p' (rw run at q) ∙ omega (arith, met-after_fact fact row p),
          )
    ]
