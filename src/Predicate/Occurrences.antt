-- ===== src/Predicate/Occurrences.antt =====
-- What one more occurrence does to the candidates (`insert_or_update_candidate`).
use project_loom.Common.{
  ℕ, suc, ◌+◌, ◌≡◌, refl, ap, inl, inr, String, Bool, true, false, ◌&&◌, none, some, is_none,
  is_some, keep, List, [], ◌∷◌, ◌++◌, any, All, and_left, and_right, if◌then◌else◌, Bool-cases,
  Option-cases, arith,
}
use project_loom.Common.Table.{update_where, find_where, find_where_sound}
use project_loom.Common.Found.{find_where-All, any-found}
use project_loom.Common.Result.{ok}
use package.text.Mathlib.Text.{◌==◌ as str_eq}
use package.text.Mathlib.TextEquality.{eq_iff}
use project_loom.Common.Json.{eq_comm}
use project_loom.Predicate.Registry.{
  Registry, PredicateCandidate, is_open, overflows, with_example, new_candidate,
  insert_or_update_candidate,
}
use project_loom.Predicate.Usage.{
  seen, resolved, seen_of, IsRoomy, HasRoom, IsRoomy-less, IsRoomy-increment, IsRoomy-fits, weaken,
  any-none, find_where-update, find_where-append, find_where-missing, All-snoc, weight,
}

and_false : (b : Bool) → (b && false) ≡ false
and_false b = ground arith

and_true : (b : Bool) → (b && true) ≡ b
and_true b = ground arith

open_as : (p q : String) (c : PredicateCandidate) → is_open q c ≡ true → is_open p c ≡ str_eq q p
open_as p q c h =
    let k = and_left (str_eq c.predicate q) (is_none c.resolved_at) h in
    let l = and_right (str_eq c.predicate q) (is_none c.resolved_at) h in
    rw ((eq_iff c.predicate q).0 k, l) (and_true (str_eq q p))

IsRoomy-seen :
    (n fact_id : ℕ) (c : PredicateCandidate) (b : Bool)
    → IsRoomy n c.occurrences
    → seen_of (some (if b then with_example fact_id c else c)) ≡ seen_of (some c) + weight b
IsRoomy-seen n fact_id c true (u, k, h) = rw k refl
IsRoomy-seen n fact_id c false k = omega arith

raise :
    (n fact_id : ℕ) (p : PredicateCandidate → Bool) (t : List PredicateCandidate)
    → All (λ c. IsRoomy (suc n) c.occurrences) t
    → All (λ c. IsRoomy n c.occurrences) (update_where p (with_example fact_id) t)
raise n i p [] h = tt
raise n i p (c ∷ t) h = elim (Bool-cases (p c)) [
  | inl k ↦ rw k (IsRoomy-increment n c.occurrences h.0, raise n i p t h.1)
  | inr k ↦ rw k (IsRoomy-less n c.occurrences h.0, raise n i p t h.1)
]

update-seen :
    (n fact_id : ℕ) (p q : String) (t : List PredicateCandidate)
    → All (λ c. IsRoomy (suc n) c.occurrences) t
    → any (is_open p) t ≡ true
    → seen_of (find_where (is_open q) (update_where (is_open p) (with_example fact_id) t))
      ≡ seen_of (find_where (is_open q) t) + weight (str_eq q p)
update-seen n fact_id p q t room present =
    rw (find_where-update (is_open p) (is_open q) (with_example fact_id) t (λ c. refl))
      (elim (Option-cases (find_where (is_open q) t)) [
        | inl e ↦ rw e (elim (Bool-cases (str_eq q p)) [
          | inr k ↦ rw k (omega arith)
          | inl k ↦
              let (c, hit) = any-found (is_open p) (is_open p) t present (λ r k. k) in
              cc (rw ((eq_iff q p).0 k) at e)
        ])
        | inr (c, e) ↦
            let k = find_where_sound (is_open q) t c e in
            let u = find_where-All (λ c. IsRoomy (suc n) c.occurrences) (is_open q) t c e room in
            rw e (rw (open_as p q c k) (IsRoomy-seen (suc n) fact_id c (str_eq q p) u))
      ])

new_only :
    (q : String) (c : PredicateCandidate)
    → c.occurrences ≡ some 1
    → c.resolved_at ≡ none
    → seen_of (if is_open q c then some c else none) ≡ 0 + weight (str_eq q c.predicate)
new_only q c one unresolved =
    rw (unresolved, eq_comm c.predicate q, and_true (str_eq q c.predicate))
      (elim (Bool-cases (str_eq q c.predicate)) [
        | inl k ↦ rw k (rw one (omega arith))
        | inr k ↦ rw k (omega arith)
      ])

append-seen :
    (q : String) (t : List PredicateCandidate) (c : PredicateCandidate)
    → any (is_open c.predicate) t ≡ false
    → c.occurrences ≡ some 1
    → c.resolved_at ≡ none
    → seen_of (find_where (is_open q) (t ++ (c ∷ [])))
      ≡ seen_of (find_where (is_open q) t) + weight (str_eq q c.predicate)
append-seen q t c missing one unresolved =
    rw (find_where-append (is_open q) t c) (elim (Option-cases (find_where (is_open q) t)) [
      | inl e ↦ rw e (new_only q c one unresolved)
      | inr (r, e) ↦ rw e (elim (Bool-cases (str_eq q c.predicate)) [
        | inr k ↦ rw k (omega arith)
        | inl k ↦
            let gone = find_where-missing (is_open c.predicate) t missing in
            let gone' : find_where (is_open q) t ≡ none = rw ((eq_iff q c.predicate).0 k) gone in cc
      ])
    ])

update-resolved :
    (fact_id : ℕ) (p : String) (t : List PredicateCandidate)
    → keep (λ c. is_some c.resolved_at) (update_where (is_open p) (with_example fact_id) t)
      ≡ keep (λ c. is_some c.resolved_at) t
update-resolved fact_id p [] = refl
update-resolved fact_id p (c ∷ t) = elim (Option-cases c.resolved_at) [
  | inl e ↦ elim (Bool-cases (is_open p c)) [
    | inl k ↦ rw k (rw e (update-resolved fact_id p t))
    | inr k ↦ rw k (rw e (update-resolved fact_id p t))
  ]
  | inr (time, e) ↦
      let shut : is_open p c ≡ false = rw e (and_false (str_eq c.predicate p)) in
      let done : is_some c.resolved_at ≡ true = rw e refl in
      rw (shut, done) (ap (λ rest. c ∷ rest) (update-resolved fact_id p t))
]

append-resolved :
    (c : PredicateCandidate) (t : List PredicateCandidate)
    → c.resolved_at ≡ none
    → keep (λ c. is_some c.resolved_at) (t ++ (c ∷ [])) ≡ keep (λ c. is_some c.resolved_at) t
append-resolved c [] e = rw e refl
append-resolved c (x ∷ t) e = rw (append-resolved c t e) refl

-- What `insert_or_update_candidate` leaves of a registry with room for one more occurrence.
pub insert_or_update_run :
    (n fact_id : ℕ) (p : String) (db : Registry)
    → HasRoom (suc n) db
    → let (r, after) = insert_or_update_candidate p fact_id db in
      (r ≡ ok tt)
      × (after.predicates ≡ db.predicates)
      × HasRoom n after
      × ((q : String) → seen q after ≡ seen q db + weight (str_eq q p))
      × (resolved after ≡ resolved db)
unfolding insert_or_update_candidate
insert_or_update_run n fact_id p db room =
    let fits =
      any-none (λ c. is_open p c && overflows c.occurrences) db.candidates
        (weaken db.candidates (λ c k. let o = IsRoomy-fits n c.occurrences k in ground arith)
          room.2) in
    let less = weaken db.predicates (λ r k. IsRoomy-less n r.usage_count k) room.1 in
    elim (Bool-cases (any (is_open p) db.candidates)) [
      | inl present ↦
          rw (fits, present)
            (
              refl,
              refl,
              (omega (arith, room.0), less, raise n fact_id (is_open p) db.candidates room.2),
              λ q. update-seen n fact_id p q db.candidates room.2 present,
              update-resolved fact_id p db.candidates,
            )
      | inr missing ↦
          rw (fits, missing)
            (
              refl,
              refl,
              (
                omega (arith, room.0),
                less,
                All-snoc (λ c. IsRoomy n c.occurrences) db.candidates (new_candidate p fact_id db)
                    (weaken db.candidates (λ r k. IsRoomy-less n r.occurrences k) room.2)
                    (1, refl, omega (arith, room.0)),
              ),
              λ q. append-seen q db.candidates (new_candidate p fact_id db) missing refl refl,
              append-resolved (new_candidate p fact_id db) db.candidates refl,
            )
    ]
