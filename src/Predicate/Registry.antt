-- ===== src/Predicate/Registry.antt =====
-- The registry of predicates, its packs and the candidates (loom-engine/src/types/predicate.rs,
-- db/predicates.rs). An INT of the tables counts from 0 and may be NULL.
use project_loom.Common.{
  ℕ, ◌+◌, String, Bool, false, ◌&&◌, Option, none, some, is_none, List, [], ◌∷◌, ◌++◌, any, ◌==◌,
  length, leb, if◌then◌else◌, get_or_default,
}
use project_loom.Common.Table.{DbError, out_of_range, null_column, update_where, find_where}
use project_loom.Common.Result.{Result, ok, err}
use package.text.Mathlib.Text.{◌==◌ as str_eq}

pub record PredicateEntry : Type 0 where
  pub predicate : String
  pub category : String
  pub pack : String
  pub inverse : Option String
  pub description : Option String
  pub usage_count : Option ℕ
  pub created_at : Option ℕ

pub record PredicateCandidate : Type 0 where
  pub id : ℕ
  pub predicate : String
  pub occurrences : Option ℕ
  pub example_facts : Option (List ℕ)
  pub mapped_to : Option String
  pub promoted_to_pack : Option String
  pub created_at : Option ℕ
  pub resolved_at : Option ℕ

abbrev pub i32_end : ℕ
i32_end = 2147483648

-- The tables, with the draws of `gen_random_uuid()` and the clock of an INSERT.
pub record Registry : Type 0 where
  pub predicates : List PredicateEntry
  pub candidates : List PredicateCandidate
  pub gen_random_uuid : ℕ → ℕ
  pub now : ℕ

-- `column + 1` of an INT: NULL stays NULL.
abbrev pub increment : Option ℕ → Option ℕ
increment none = none
increment (some n) = some (n + 1)

-- Whether `column + 1` is out of range.
abbrev pub overflows : Option ℕ → Bool
overflows none = false
overflows (some n) = leb i32_end (n + 1)

abbrev pub named : String → PredicateEntry → Bool
named p e = str_eq e.predicate p

abbrev pub is_open : String → PredicateCandidate → Bool
is_open p c = str_eq c.predicate p && is_none c.resolved_at

abbrev pub with_usage : PredicateEntry → PredicateEntry
with_usage e = record e { usage_count = increment e.usage_count }

abbrev pub with_example : ℕ → PredicateCandidate → PredicateCandidate
with_example fact_id c = record c {
  occurrences = increment c.occurrences;
  example_facts = some (get_or_default c.example_facts [] ++ (fact_id ∷ []));
}

unfoldable pub find_canonical_predicate : String → Registry → Option PredicateEntry
find_canonical_predicate p db = find_where (named p) db.predicates

unfoldable pub increment_usage_count : String → Registry → Result DbError (Unit {0}) × Registry
increment_usage_count p db =
    if any (λ e. named p e && overflows e.usage_count) db.predicates
    then (err out_of_range, db)
    else (ok tt, record db { predicates = update_where (named p) with_usage db.predicates })

abbrev pub new_candidate : String → ℕ → Registry → PredicateCandidate
new_candidate p fact_id db = record {
  id = db.gen_random_uuid (length db.candidates);
  predicate = p;
  occurrences = some 1;
  example_facts = some (fact_id ∷ []);
  mapped_to = none;
  promoted_to_pack = none;
  created_at = some db.now;
  resolved_at = none;
}

abbrev pub add_candidate : String → ℕ → Registry → Registry
add_candidate p fact_id db = record db {
  candidates = db.candidates ++ (new_candidate p fact_id db ∷ []);
}

unfoldable pub insert_or_update_candidate :
    String → ℕ → Registry → Result DbError (Unit {0}) × Registry
insert_or_update_candidate p fact_id db =
    if any (λ c. is_open p c && overflows c.occurrences) db.candidates
    then (err out_of_range, db)
    else if any (is_open p) db.candidates
    then (
      ok tt,
      record db { candidates = update_where (is_open p) (with_example fact_id) db.candidates },
    )
    else (ok tt, add_candidate p fact_id db)

-- A NULL is no `i32`.
abbrev pub occurrences_of : Option PredicateCandidate → Result DbError (Option ℕ)
occurrences_of none = ok none
occurrences_of (some c) = elim c.occurrences [ none ↦ err null_column | some n ↦ ok (some n) ]

unfoldable pub get_candidate_occurrences : String → Registry → Result DbError (Option ℕ)
get_candidate_occurrences p db = occurrences_of (find_where (is_open p) db.candidates)

abbrev pub resolve : ℕ → Option String → Option String → PredicateCandidate → PredicateCandidate
resolve now mapped_to promoted_to_pack c = record c {
  mapped_to = mapped_to;
  promoted_to_pack = promoted_to_pack;
  resolved_at = some now;
}

-- The foreign keys of `mapped_to` and `promoted_to_pack` are the caller's to respect.
unfoldable pub resolve_candidate : ℕ → ℕ → Option String → Option String → Registry → Registry
resolve_candidate now candidate_id mapped_to promoted_to_pack db = record db {
  candidates =
      update_where (λ c. c.id == candidate_id) (resolve now mapped_to promoted_to_pack)
        db.candidates;
}
