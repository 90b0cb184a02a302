-- ===== src/Predicate/Usage.antt =====
-- What one use adds to the counters of the registry (`increment_usage_count`).
use project_loom.Common.{
  ℕ, suc, ◌+◌, ◌<◌, ◌≡◌, refl, ◌∙◌, inl, inr, String, Bool, true, false, ◌&&◌, Option, none, some,
  is_some, keep, List, [], ◌∷◌, ◌++◌, any, All, if◌then◌else◌, get_or_default, Bool-cases,
  Option-cases, arith,
}
use project_loom.Common.Table.{update_where, find_where, find_where_sound}
use project_loom.Common.Found.{find_where-All}
use package.text.Mathlib.Text.{◌==◌ as str_eq}
use package.text.Mathlib.TextEquality.{eq_iff}
use project_loom.Predicate.Registry.{
  Registry, PredicateEntry, PredicateCandidate, named, is_open, increment, overflows, i32_end,
  with_usage, increment_usage_count,
}

-- The counters of the rows, as numbers.
abbrev pub usage_of : Option PredicateEntry → ℕ
usage_of none = 0
usage_of (some e) = get_or_default e.usage_count 0

abbrev pub used : String → Registry → ℕ
used p db = usage_of (find_where (named p) db.predicates)

abbrev pub seen_of : Option PredicateCandidate → ℕ
seen_of none = 0
seen_of (some c) = get_or_default c.occurrences 0

abbrev pub seen : String → Registry → ℕ
seen p db = seen_of (find_where (is_open p) db.candidates)

abbrev pub is_canonical : Registry → String → Bool
is_canonical db p = is_some (find_where (named p) db.predicates)

-- The candidates that an operator has resolved.
abbrev pub resolved : Registry → List PredicateCandidate
resolved db = keep (λ c. is_some c.resolved_at) db.candidates

-- A counter that is no NULL and can be raised n times.
abbrev pub IsRoomy : ℕ → Option ℕ → Type 0
IsRoomy n o = (u : ℕ) × (o ≡ some u) × (u + n < i32_end)

abbrev pub HasRoom : ℕ → Registry → Type 0
HasRoom n db =
    (n + 1 < i32_end)
    × All (λ e. IsRoomy n e.usage_count) db.predicates
    × All (λ c. IsRoomy n c.occurrences) db.candidates

pub IsRoomy-less : (n : ℕ) (o : Option ℕ) → IsRoomy (suc n) o → IsRoomy n o
IsRoomy-less n o (u, e, h) = (u, e, omega (arith, h))

pub IsRoomy-increment : (n : ℕ) (o : Option ℕ) → IsRoomy (suc n) o → IsRoomy n (increment o)
IsRoomy-increment n o (u, e, h) = (u + 1, rw e refl, omega (arith, h))

pub IsRoomy-fits : (n : ℕ) (o : Option ℕ) → IsRoomy (suc n) o → overflows o ≡ false
IsRoomy-fits n o (u, e, h) = rw e (ground (arith, h))

module _ {A : Type 0} where
  pub weaken {κ μ} :
      {P : A → Type κ} {Q : A → Type μ} (t : List A) → ((r : A) → P r → Q r) → All P t → All Q t
  weaken [] f h = tt
  weaken (r ∷ t) f h = (f r h.0, weaken t f h.1)

  pub any-none : (p : A → Bool) (t : List A) → All (λ r. p r ≡ false) t → any p t ≡ false
  any-none p [] h = refl
  any-none p (r ∷ t) h = rw (h.0) (any-none p t h.1)

  abbrev pub found : (A → Bool) → (A → A) → Option A → Option A
  found p f none = none
  found p f (some r) = some (if p r then f r else r)

  pub find_where-update :
      (p q : A → Bool) (f : A → A) (t : List A)
      → ((r : A) → q (f r) ≡ q r)
      → find_where q (update_where p f t) ≡ found p f (find_where q t)
  find_where-update p q f [] same = refl
  find_where-update p q f (r ∷ t) same = elim (Bool-cases (p r)) [
    | inl e ↦ elim (Bool-cases (q r)) [
      | inl k ↦ let k' : q (f r) ≡ true = same r ∙ k in rw (e, k, k') (rw e refl)
      | inr k ↦
          let k' : q (f r) ≡ false = same r ∙ k in rw (e, k, k') (find_where-update p q f t same)
    ]
    | inr e ↦ elim (Bool-cases (q r)) [
      | inl k ↦ rw (e, k) (rw e refl)
      | inr k ↦ rw (e, k) (find_where-update p q f t same)
    ]
  ]

  pub find_where-append :
      (q : A → Bool) (t : List A) (x : A)
      → find_where q (t ++ (x ∷ []))
        ≡ elim (find_where q t) [ some r ↦ some r | none ↦ if q x then some x else none ]
  find_where-append q [] x = refl
  find_where-append q (r ∷ t) x = elim (Bool-cases (q r)) [
    | inl k ↦ rw k refl
    | inr k ↦ rw k (find_where-append q t x)
  ]

  pub find_where-missing : (q : A → Bool) (t : List A) → any q t ≡ false → find_where q t ≡ none
  find_where-missing q [] h = refl
  find_where-missing q (r ∷ t) h = elim (Bool-cases (q r)) [
    | inl k ↦ cc (rw k at h)
    | inr k ↦ rw k (find_where-missing q t (rw k at h))
  ]

  pub All-snoc {κ} : (P : A → Type κ) (t : List A) (x : A) → All P t → P x → All P (t ++ (x ∷ []))
  All-snoc P [] x h k = (k, tt)
  All-snoc P (r ∷ t) x h k = (h.0, All-snoc P t x h.1 k)

abbrev pub weight : Bool → ℕ
weight true = 1
weight false = 0

-- The test of a row by one name says whether another name is the same.
named_as : (p q : String) (e : PredicateEntry) → named q e ≡ true → named p e ≡ str_eq q p
named_as p q e h = rw ((eq_iff e.predicate q).0 h) refl

IsRoomy-usage :
    (n : ℕ) (e : PredicateEntry) (b : Bool)
    → IsRoomy n e.usage_count
    → usage_of (some (if b then with_usage e else e)) ≡ usage_of (some e) + weight b
IsRoomy-usage n e true (u, k, h) = rw k refl
IsRoomy-usage n e false k = omega arith

raise :
    (n : ℕ) (p : PredicateEntry → Bool) (t : List PredicateEntry)
    → All (λ e. IsRoomy (suc n) e.usage_count) t
    → All (λ e. IsRoomy n e.usage_count) (update_where p with_usage t)
raise n p [] h = tt
raise n p (e ∷ t) h = elim (Bool-cases (p e)) [
  | inl k ↦ rw k (IsRoomy-increment n e.usage_count h.0, raise n p t h.1)
  | inr k ↦ rw k (IsRoomy-less n e.usage_count h.0, raise n p t h.1)
]

-- One more use of a canonical predicate.
pub increment-used :
    (n : ℕ) (p q : String) (db : Registry)
    → HasRoom (suc n) db
    → is_canonical db p ≡ true
    → used q (increment_usage_count p db).1 ≡ used q db + weight (str_eq q p)
unfolding increment_usage_count
increment-used n p q db room canonical =
    let fits =
      any-none (λ e. named p e && overflows e.usage_count) db.predicates
        (weaken db.predicates (λ e k. let o = IsRoomy-fits n e.usage_count k in ground arith)
          room.1) in
    rw (fits, find_where-update (named p) (named q) with_usage db.predicates (λ e. refl))
      (elim (Option-cases (find_where (named q) db.predicates)) [
        | inl e ↦ rw e (elim (Bool-cases (str_eq q p)) [
          | inr k ↦ rw k (omega arith)
          | inl k ↦
              let same = (eq_iff q p).0 k in
              let canonical' : is_canonical db q ≡ true = rw same canonical in
              cc (rw e at canonical')
        ])
        | inr (r, e) ↦
            let k = find_where_sound (named q) db.predicates r e in
            let u =
              find_where-All (λ e. IsRoomy (suc n) e.usage_count) (named q) db.predicates r e
                room.1 in
            rw e (rw (named_as p q r k) (IsRoomy-usage (suc n) r (str_eq q p) u))
      ])

pub increment-candidates :
    (p : String) (db : Registry) → (increment_usage_count p db).1.candidates ≡ db.candidates
unfolding increment_usage_count
increment-candidates p db =
    elim (Bool-cases (any (λ e. named p e && overflows e.usage_count) db.predicates)) [
      | inl e ↦ rw e refl
      | inr e ↦ rw e refl
    ]

pub increment-canonical :
    (p q : String) (db : Registry)
    → is_canonical (increment_usage_count p db).1 q ≡ is_canonical db q
unfolding increment_usage_count
increment-canonical p q db =
    elim (Bool-cases (any (λ e. named p e && overflows e.usage_count) db.predicates)) [
      | inl e ↦ rw e refl
      | inr e ↦
          rw (e, find_where-update (named p) (named q) with_usage db.predicates (λ e. refl))
            (elim (Option-cases (find_where (named q) db.predicates)) [
              | inl k ↦ rw k refl
              | inr (r, k) ↦ rw k refl
            ])
    ]

pub increment-HasRoom :
    (n : ℕ) (p : String) (db : Registry)
    → HasRoom (suc n) db
    → HasRoom n (increment_usage_count p db).1
unfolding increment_usage_count
increment-HasRoom n p db room =
    elim (Bool-cases (any (λ e. named p e && overflows e.usage_count) db.predicates)) [
      | inl e ↦ rw e (
        omega (arith, room.0),
        weaken db.predicates (λ r k. IsRoomy-less n r.usage_count k) room.1,
        weaken db.candidates (λ r k. IsRoomy-less n r.occurrences k) room.2,
      )
      | inr e ↦ rw e (
        omega (arith, room.0),
        raise n (named p) db.predicates room.1,
        weaken db.candidates (λ r k. IsRoomy-less n r.occurrences k) room.2,
      )
    ]
