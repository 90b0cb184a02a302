-- ===== src/Extract/Tests.antt =====
-- Runs of the insertion of facts.
use project_loom.Common.{
  ℕ, String, ◌+◌, ◌≡◌, refl, false, Option, none, some, List, [], ◌∷◌, ◌++◌, All, length,
}
use project_loom.Common.Table.{check_violation}
use project_loom.Common.Result.{ok, err}
use project_loom.Common.Text.{text}
use project_loom.Resolve.{Entity}
use project_loom.Fact.{Fact, NewFactDetails}
use project_loom.Predicate.{ExtractedFact}
use project_loom.Extract.Namespace.{cross_namespace, validate_fact_namespace, validate_namespace}
use project_loom.Extract.Insert.{EpisodeRun, Progress, no_progress, insert_facts}
use project_loom.Extract.Scoped.{IsScopedFact, met, insert_facts-IsScoped}

abbrev entity : ℕ → String → String → Entity
entity id name namespace = record {
  id = id;
  name = name;
  entity_type = "technology";
  namespace = namespace;
  properties = none;
  created_at = none;
  source_episodes = none;
  deleted_at = none;
}

abbrev episode : EpisodeRun
episode = record {
  entity_map = ("Loom", 1) ∷ ("Rust", 2) ∷ ("Other", 3) ∷ [];
  namespace = "loom";
  episode_id = 77;
  entities = entity 1 "Loom" "loom" ∷ entity 2 "Rust" "loom" ∷ entity 3 "Other" "elsewhere" ∷ [];
  gen_random_uuid = λ n. n + 500;
  now = 9;
}

abbrev fact : String → Option String → ExtractedFact
fact object strength = record {
  subject = "Loom";
  predicate = "uses";
  object = object;
  custom = false;
  evidence_strength = strength;
  temporal_markers = none;
}

-- One fact twice, one across namespaces, and one with an unknown name.
abbrev facts : List ExtractedFact
facts = fact "Rust" (some "explicit") ∷ fact "Rust" none ∷ fact "Other" none ∷ fact "Go" none ∷ []

abbrev details : NewFactDetails
details = record {
  fact_id = 500;
  subject_id = 1;
  predicate = "uses";
  object_id = 2;
  namespace = "loom";
  valid_from = 9;
}

abbrev progress : Progress
progress = record {
  inserted_fact_ids = 500 ∷ 500 ∷ [];
  new_fact_details = details ∷ details ∷ [];
  valid_facts = fact "Rust" (some "explicit") ∷ fact "Rust" none ∷ [];
  skipped_count = 2;
}

one_row : length (insert_facts episode facts no_progress []).1 ≡ 1
unfolding insert_facts
one_row = refl

-- A strength that the column does not take ends the loop.
unknown_strength :
    (insert_facts episode (fact "Rust" (some "strong") ∷ facts) no_progress []).0
    ≡ err check_violation
unfolding insert_facts
unknown_strength = refl

insert_facts-IsScoped_example :
    ((more : List Fact) × ((insert_facts episode facts no_progress []).1 ≡ [] ++ more)
      × All (IsScopedFact episode) more)
    × ((p' : Progress)
        → (insert_facts episode facts no_progress []).0 ≡ ok p'
        → met p' ≡ met no_progress + length facts)
insert_facts-IsScoped_example = insert_facts-IsScoped episode facts no_progress []

foreign : validate_fact_namespace 1 3 "loom" episode.entities ≡ err cross_namespace
unfolding validate_fact_namespace
foreign = refl

-- An id without a row passes.
absent : validate_fact_namespace 1 8 "loom" episode.entities ≡ ok tt
unfolding validate_fact_namespace
absent = refl

blank : validate_namespace (text "  ") ≡ err cross_namespace
unfolding validate_namespace
blank = refl
