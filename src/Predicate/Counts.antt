-- ===== src/Predicate/Counts.antt =====
-- Every fact is counted once, at its predicate or at the open candidate of its name
-- (`validate_and_track_predicates`).
use project_loom.Common.{ℕ, ◌+◌, ◌≡◌, String, Bool, not, List, [], ◌∷◌, map, if◌then◌else◌}
use project_loom.Common.Table.{DbError}
use project_loom.Common.Result.{Result, ok}
use package.text.Mathlib.Text.{◌==◌ as str_eq}
use project_loom.Predicate.Registry.{Registry}
use project_loom.Predicate.Track.{ExtractedFact, PredicateValidationResult, with_custom}
use project_loom.Predicate.Usage.{used, seen, resolved, is_canonical, weight}

-- The facts with a predicate, and those that a test on the predicate accepts.
abbrev pub count_of : String → List ExtractedFact → ℕ
count_of p [] = 0
count_of p (f ∷ fs) = weight (str_eq p f.predicate) + count_of p fs

abbrev pub count_if : (String → Bool) → List ExtractedFact → ℕ
count_if t [] = 0
count_if t (f ∷ fs) = weight (t f.predicate) + count_if t fs

-- What the loop leaves: the counts, the flags, and the counters of every name.
pub IsCounted :
    PredicateValidationResult
    → List ExtractedFact
    → Registry
    → Result DbError PredicateValidationResult × List ExtractedFact × Registry
    → Type 0
IsCounted v fs db (result, flagged, after) =
    (result
      ≡ ok (record {
        canonical_count = v.canonical_count + count_if (is_canonical db) fs;
        custom_count = v.custom_count + count_if (λ q. not (is_canonical db q)) fs;
      }))
    × (flagged ≡ map (λ f. with_custom (not (is_canonical db f.predicate)) f) fs)
    × ((q : String) → used q after ≡ used q db + (if is_canonical db q then count_of q fs else 0))
    × ((q : String) → seen q after ≡ seen q db + (if is_canonical db q then 0 else count_of q fs))
    × (resolved after ≡ resolved db)

abbrev pub no_counts : PredicateValidationResult
no_counts = record { canonical_count = 0; custom_count = 0 }
