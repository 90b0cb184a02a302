-- ===== src/Predicate/Tests.antt =====
-- Runs of the tracking of predicates.
use project_loom.Common.{
  ℕ, String, ◌+◌, ◌≡◌, refl, true, false, Option, none, some, List, [], ◌∷◌, keep,
}
use project_loom.Common.Result.{err}
use project_loom.Common.Table.{null_column}
use project_loom.Predicate.Registry.{Registry, PredicateEntry, PredicateCandidate}
use project_loom.Predicate.Track.{ExtractedFact, validate_and_track_predicates}
use project_loom.Predicate.Usage.{used, seen}
use project_loom.Common.Text.{text}
use project_loom.Predicate.Prompt.{in_pack, group_by_pack, assemble_fact_prompt}
use project_loom.Predicate.Groups.{IsGrouping, entries_of, group_by_pack_lem}

abbrev uses : PredicateEntry
uses = record {
  predicate = "uses";
  category = "structural";
  pack = "core";
  inverse = some "used_by";
  description = none;
  usage_count = some 3;
  created_at = none;
}

abbrev candidate : Option ℕ → PredicateCandidate
candidate n = record {
  id = 1;
  predicate = "likes";
  occurrences = n;
  example_facts = none;
  mapped_to = none;
  promoted_to_pack = none;
  created_at = none;
  resolved_at = none;
}

abbrev registry : Option ℕ → Registry
registry n = record {
  predicates = uses ∷ [];
  candidates = candidate n ∷ [];
  gen_random_uuid = λ k. k + 100;
  now = 50;
}

abbrev fact : String → ExtractedFact
fact p = record {
  subject = "Loom";
  predicate = p;
  object = "Rust";
  custom = false;
  evidence_strength = none;
  temporal_markers = none;
}

abbrev facts : List ExtractedFact
facts = fact "uses" ∷ fact "likes" ∷ fact "hates" ∷ fact "likes" ∷ []

abbrev fact_ids : List ℕ
fact_ids = 11 ∷ 12 ∷ 13 ∷ 14 ∷ []

counted :
    let (result, flagged, after) =
      validate_and_track_predicates facts fact_ids (registry (some 4)) in
    (used "uses" after ≡ 4) × (seen "likes" after ≡ 6) × (seen "hates" after ≡ 1)
unfolding validate_and_track_predicates
counted = (refl, refl, refl)

-- A candidate without a count ends the loop with an error.
uncounted : (validate_and_track_predicates facts fact_ids (registry none)).0 ≡ err null_column
unfolding validate_and_track_predicates
uncounted = refl

abbrev scoped_as : PredicateEntry
scoped_as = record {
  predicate = "scoped_as";
  category = "regulatory";
  pack = "grc";
  inverse = none;
  description = some "Defines audit scope.";
  usage_count = none;
  created_at = none;
}

abbrev two_packs : List PredicateEntry
two_packs = uses ∷ scoped_as ∷ uses ∷ []

group_by_pack_example :
    IsGrouping (group_by_pack two_packs)
    × ((p : String) → entries_of p (group_by_pack two_packs) ≡ keep (in_pack p) two_packs)
group_by_pack_example = group_by_pack_lem two_packs

-- The namespace names the pack `grc` only; the rows come in the order of the table.
prompt :
    assemble_fact_prompt
      (λ a b. true)
      (some (some ("grc" ∷ [])))
      (record { predicates = two_packs; candidates = []; gen_random_uuid = λ k. k; now = 0 })
    ≡ text
        "### core (structural)\n- uses (structural) [inverse: used_by]\n- uses (structural) [inverse: used_by]\n\n### grc (regulatory)\n- scoped_as (regulatory): Defines audit scope."
unfolding assemble_fact_prompt
prompt = refl
