-- ===== src/Fact/Batch.antt =====
-- Supersession for a batch of new facts (`resolve_supersessions_batch`).
use project_loom.Common.{
  ℕ, ◌+◌, ◌≡◌, refl, sym, ap, ◌∙◌, inl, inr, Bool, true, List, [], ◌∷◌, arith, ◌&&◌, subst,
  and_left, Option, ◌==◌, Bool-cases, Option-cases,
}
use text.Mathlib.Text.{◌==◌ as str_eq}
use project_loom.Common.Result.{Result, ok, err}
use project_loom.Common.Table.{DbError, update_where, count_where}
use project_loom.Common.Keyed.{IsKeyed, update_where-IsKeyed}
use project_loom.Fact.Rows.{Fact, Store, is_current}
use project_loom.Fact.Queries.{get_fact_by_id, supersede, has_triple}
use project_loom.Fact.Resolve.{
  NewFactDetails, resolve_supersessions, add_supersessions, resolve_supersessions_batch,
}
use project_loom.Fact.Supersede.Loop.{
  contradicts, id_of, resolve_supersessions-run, resolve_supersessions-missing,
  resolve_supersessions-stale,
}

-- A run on a keyed table that succeeds: the count is the number of facts that are no longer current.
abbrev pub Closes : ℕ → Store → Result DbError ℕ × Store → Type 0
Closes before s r =
    (m : ℕ) × (r.0 ≡ ok (before + m))
    × IsKeyed id_of r.1.facts
    × (count_where is_current r.1.facts + m ≡ count_where is_current s.facts)

last_of_4 : (a b c d : Bool) → (a && (b && (c && d))) ≡ true → d ≡ true
last_of_4 a b c d h = ground arith

contradicts-is_current : (new f : Fact) → contradicts new f ≡ true → is_current f ≡ true
contradicts-is_current new f h =
    last_of_4 (f.subject_id == new.subject_id) (str_eq f.predicate new.predicate)
      (str_eq f.namespace new.namespace) (is_current f)
      (and_left (has_triple new.subject_id new.predicate new.namespace f) _ h)

count_where-closed :
    (new : Fact) (t : List Fact)
    → count_where is_current (update_where (contradicts new) (supersede new.id new.valid_from) t)
        + count_where (contradicts new) t
      ≡ count_where is_current t
count_where-closed new [] = omega arith
count_where-closed new (f ∷ t) = elim (Bool-cases (contradicts new f)) [
  | inl e ↦ rw (e, contradicts-is_current new f e) (omega (arith, count_where-closed new t))
  | inr e ↦ rw e (omega (arith, count_where-closed new t))
]

nothing-Closes : (s : Store) → IsKeyed id_of s.facts → Closes 0 s (ok 0, s)
nothing-Closes s k = (0, refl, k, omega arith)

resolve_supersessions-Closes :
    (times : ℕ → Option ℕ) (n : NewFactDetails) (s : Store)
    → IsKeyed id_of s.facts
    → Closes 0 s (resolve_supersessions times n s)
resolve_supersessions-Closes times n s k = elim (Option-cases (get_fact_by_id n.fact_id s.facts)) [
  | inl e ↦
      subst (Closes 0 s) (sym (resolve_supersessions-missing times n s e)) (nothing-Closes s k)
  | inr (new, e) ↦ elim (Bool-cases (is_current new)) [
    | inl c ↦
        let m = count_where (contradicts new) s.facts in
        subst (Closes 0 s) (sym (resolve_supersessions-run times n new s k e c)) (
          m,
          ap ok (omega arith),
          update_where-IsKeyed id_of (contradicts new) (supersede new.id new.valid_from) s.facts
              (λ _. refl) k,
          count_where-closed new s.facts,
        )
    | inr c ↦
        subst (Closes 0 s) (sym (resolve_supersessions-stale times n new s e c))
          (nothing-Closes s k)
  ]
]

add_supersessions-step :
    (times : ℕ → Option ℕ) (n : NewFactDetails) (rest : List NewFactDetails) (total m : ℕ)
    (s : Store)
    → (resolve_supersessions times n s).0 ≡ ok m
    → add_supersessions times (n ∷ rest) total s
      ≡ add_supersessions times rest (total + m) (resolve_supersessions times n s).1
unfolding add_supersessions
add_supersessions-step times n rest total m s h =
    ap
      (λ (r : Result DbError ℕ). elim r [
        | ok count ↦
            add_supersessions times rest (total + count) (resolve_supersessions times n s).1
        | err e ↦ (err e, (resolve_supersessions times n s).1)
      ])
      h

add_supersessions-Closes :
    (times : ℕ → Option ℕ) (ns : List NewFactDetails) (total : ℕ) (s : Store)
    → IsKeyed id_of s.facts
    → Closes total s (add_supersessions times ns total s)
unfolding add_supersessions
add_supersessions-Closes times [] total s k = (0, ap ok (omega arith), k, omega arith)
add_supersessions-Closes times (n ∷ ns) total s k =
    let (m, run, k', closed) = resolve_supersessions-Closes times n s k in
    let s' = (resolve_supersessions times n s).1 in
    let (m', run', k'', closed') = add_supersessions-Closes times ns (total + m) s' k' in
    subst (Closes total s)
      (sym (add_supersessions-step times n ns total m s (run ∙ ap ok (omega arith))))
      (m + m', run' ∙ ap ok (omega arith), k'', omega (arith, closed, closed'))

-- A batch over a keyed table of facts succeeds, whatever facts it names: it returns the number of
-- facts that are no longer current, and the ids of the new table are again distinct.
pub resolve_supersessions_batch-Closes :
    (times : ℕ → Option ℕ) (ns : List NewFactDetails) (s : Store)
    → IsKeyed id_of s.facts
    → Closes 0 s (resolve_supersessions_batch times ns s)
unfolding resolve_supersessions_batch
resolve_supersessions_batch-Closes times ns s k = add_supersessions-Closes times ns 0 s k
