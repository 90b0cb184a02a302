-- ===== src/Predicate/Track.antt =====
-- The tracking of the predicates of extracted facts (loom-engine/src/pipeline/offline/extract.rs).
use project_loom.Common.{ℕ, ◌+◌, String, Bool, true, false, Option, none, some, List, [], ◌∷◌}
use project_loom.Common.Table.{DbError}
use project_loom.Common.Result.{Result, ok, err}
use project_loom.Predicate.Registry.{
  Registry, PredicateEntry, find_canonical_predicate, increment_usage_count,
  insert_or_update_candidate, get_candidate_occurrences,
}

pub record TemporalMarkers : Type 0 where
  pub valid_from : Option ℕ
  pub valid_until : Option ℕ

pub record ExtractedFact : Type 0 where
  pub subject : String
  pub predicate : String
  pub object : String
  pub custom : Bool
  pub evidence_strength : Option String
  pub temporal_markers : Option TemporalMarkers

pub record PredicateValidationResult : Type 0 where
  pub canonical_count : ℕ
  pub custom_count : ℕ

abbrev pub with_custom : Bool → ExtractedFact → ExtractedFact
with_custom b f = record f { custom = b }

-- Whether the loop goes on after the check of the review threshold, whose warning is logging.
abbrev pub checked :
    Result DbError (Unit {0}) → Result DbError (Option ℕ) → Result DbError (Unit {0})
checked (err e) occurrences = ok tt
checked (ok _) (err e) = err e
checked (ok _) (ok n) = ok tt

-- One fact of the loop, by whether its predicate is canonical: the flag, what ends the loop, and
-- the tables. A failed update is logged.
abbrev pub track_custom : ExtractedFact → ℕ → Registry → Result DbError (Unit {0}) × Registry
track_custom f fact_id db =
    let (r, after) = insert_or_update_candidate f.predicate fact_id db in
    (checked r (get_candidate_occurrences f.predicate after), after)

abbrev pub count_one : Bool → PredicateValidationResult → PredicateValidationResult
count_one true v = record v { custom_count = v.custom_count + 1 }
count_one false v = record v { canonical_count = v.canonical_count + 1 }

abbrev pub track :
    ExtractedFact
    → ℕ
    → Registry
    → Option PredicateEntry
    → Bool × Result DbError (Unit {0}) × Registry
track f fact_id db (some _) = (false, ok tt, (increment_usage_count f.predicate db).1)
track f fact_id db none = let (r, after) = track_custom f fact_id db in (true, r, after)

-- The rest of the loop, unless the fact ended it.
abbrev pub then_rest :
    Bool
    → ExtractedFact
    → List ExtractedFact
    → Result DbError (Unit {0})
    → Registry
    → Result DbError PredicateValidationResult × List ExtractedFact × Registry
    → Result DbError PredicateValidationResult × List ExtractedFact × Registry
then_rest custom f fs (err e) after out = (err e, with_custom custom f ∷ fs, after)
then_rest custom f fs (ok _) after (result, rest, last) =
    (result, with_custom custom f ∷ rest, last)

-- The loop over the facts and their ids: the result, the facts with their flags, and the tables.
unfoldable pub validate_from :
    PredicateValidationResult
    → List ExtractedFact
    → List ℕ
    → Registry
    → Result DbError PredicateValidationResult × List ExtractedFact × Registry
unfolding find_canonical_predicate increment_usage_count insert_or_update_candidate
    get_candidate_occurrences
validate_from v [] ids db = (ok v, [], db)
validate_from v (f ∷ fs) [] db = (ok v, f ∷ fs, db)
validate_from v (f ∷ fs) (i ∷ ids) db =
    let (custom, r, after) = track f i db (find_canonical_predicate f.predicate db) in
    then_rest custom f fs r after (validate_from (count_one custom v) fs ids after)

unfoldable pub validate_and_track_predicates :
    List ExtractedFact
    → List ℕ
    → Registry
    → Result DbError PredicateValidationResult × List ExtractedFact × Registry
unfolding validate_from
validate_and_track_predicates facts fact_ids db =
    validate_from (record { canonical_count = 0; custom_count = 0 }) facts fact_ids db
