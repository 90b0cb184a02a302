-- ===== src/Predicate/Step.antt =====
-- What one fact does to the registry (`validate_and_track_predicates`).
use project_loom.Common.{
  ℕ, suc, ◌+◌, ◌≡◌, refl, sym, ap, is_some, keep, ◌∙◌, inl, inr, String, Bool, true, false, not,
  if◌then◌else◌, Bool-cases, Option-cases, arith,
}
use project_loom.Common.Table.{DbError, find_where}
use project_loom.Common.Found.{find_where-All}
use project_loom.Common.Result.{Result, ok}
use package.text.Mathlib.Text.{◌==◌ as str_eq}
use package.text.Mathlib.TextEquality.{eq_iff}
use project_loom.Predicate.Registry.{
  Registry, named, is_open, find_canonical_predicate, insert_or_update_candidate,
  get_candidate_occurrences,
}
use project_loom.Predicate.Track.{ExtractedFact, checked, track}
use project_loom.Predicate.Usage.{
  used, seen, resolved, is_canonical, IsRoomy, HasRoom, weight, increment-used,
  increment-candidates, increment-canonical, increment-HasRoom,
}
use project_loom.Predicate.Occurrences.{insert_or_update_run}

-- What one fact does to the tables: the counters of its predicate alone go up by one.
unfoldable pub IsTracked :
    ℕ → ExtractedFact → Registry → Bool × Result DbError (Unit {0}) × Registry → Type 0
IsTracked n f db (custom, r, after) =
    (custom ≡ not (is_canonical db f.predicate))
    × (r ≡ ok tt)
    × HasRoom n after
    × ((q : String) → is_canonical after q ≡ is_canonical db q)
    × ((q : String)
        → used q after
          ≡ used q db + (if is_canonical db q then weight (str_eq q f.predicate) else 0))
    × ((q : String)
        → seen q after
          ≡ seen q db + (if is_canonical db q then 0 else weight (str_eq q f.predicate)))
    × (resolved after ≡ resolved db)

differ :
    (db : Registry) (p q : String) (b : Bool)
    → is_canonical db p ≡ b
    → is_canonical db q ≡ not b
    → str_eq q p ≡ false
differ db p q b h k = elim (Bool-cases (str_eq q p)) [
  | inr e ↦ e
  | inl e ↦
      let k' : is_canonical db p ≡ not b = rw (← (eq_iff q p).0 e) k in
      absurd (not_self b (sym h ∙ k'))
]
  where
    not_self : (b : Bool) → b ≡ not b → ⊥
    not_self true e = cc
    not_self false e = cc

still_readable :
    (n : ℕ) (p : String) (db : Registry)
    → HasRoom n db
    → checked (ok tt) (get_candidate_occurrences p db) ≡ ok tt
unfolding get_candidate_occurrences
still_readable n p db room = elim (Option-cases (find_where (is_open p) db.candidates)) [
  | inl e ↦ rw e refl
  | inr (c, e) ↦
      let (u, k, _) =
        find_where-All (λ c. IsRoomy n c.occurrences) (is_open p) db.candidates c e room.2 in
      rw e (rw k refl)
]

pub track-IsTracked :
    (n fact_id : ℕ) (f : ExtractedFact) (db : Registry)
    → HasRoom (suc n) db
    → IsTracked n f db (track f fact_id db (find_canonical_predicate f.predicate db))
unfolding IsTracked find_canonical_predicate
track-IsTracked n fact_id f db room =
    let p = f.predicate in
    elim (Option-cases (find_where (named p) db.predicates)) [
      | inr (e, k) ↦
          let canonical : is_canonical db p ≡ true = rw k refl in
          rw k (
            refl,
            refl,
            increment-HasRoom n p db room,
            λ q. increment-canonical p q db,
            λ q. elim (Bool-cases (is_canonical db q)) [
              | inl c ↦ rw c (increment-used n p q db room canonical)
              | inr c ↦
                  rw c (
                    rw (differ db p q true canonical c) at (increment-used n p q db room canonical))
            ],
            λ q. elim (Bool-cases (is_canonical db q)) [
              | inl c ↦ rw (c, increment-candidates p db) (omega arith)
              | inr c ↦
                  rw (c, increment-candidates p db, differ db p q true canonical c) (omega arith)
            ],
            ap (λ t. keep (λ c. is_some c.resolved_at) t) (increment-candidates p db),
          )
      | inl k ↦
          let custom : is_canonical db p ≡ false = rw k refl in
          let (run, same, roomy, occurs, shut) = insert_or_update_run n fact_id p db room in
          rw k (
            refl,
            rw run (still_readable n p (insert_or_update_candidate p fact_id db).1 roomy),
            roomy,
            λ q. rw same refl,
            λ q. elim (Bool-cases (is_canonical db q)) [
              | inl c ↦ rw (c, same, differ db p q false custom c) (omega arith)
              | inr c ↦ rw (c, same) (omega arith)
            ],
            λ q. elim (Bool-cases (is_canonical db q)) [
              | inl c ↦ rw c (rw (differ db p q false custom c) at (occurs q))
              | inr c ↦ rw c (occurs q)
            ],
            shut,
          )
    ]
