-- ===== src/Extract/Insert.antt =====
-- The insertion of the extracted facts (loom-engine/src/pipeline/offline/extract.rs, the loop of
-- `orchestrate_fact_extraction`; `insert_fact` of db/facts.rs).
use project_loom.Common.{
  ℕ, ◌+◌, String, Bool, true, false, ◌&&◌, ◌||◌, Option, none, some, is_none, List, [], ◌∷◌, ◌++◌,
  ◌==◌, length, if◌then◌else◌,
}
use project_loom.Common.Table.{DbError, check_violation, find_where}
use project_loom.Common.Result.{Result, ok, err}
use project_loom.Common.Text.{Text}
use project_loom.Resolve.{Entity}
use project_loom.Fact.{Fact, EvidenceStatus, extracted}
use project_loom.Fact.{NewFactDetails, new_fact_details_from}
use project_loom.Predicate.{ExtractedFact}
use project_loom.Extract.Namespace.{NamespaceError, validate_fact_namespace}
use package.text.Mathlib.Text.{◌==◌ as str_eq}

pub record NewFact : Type 0 where
  pub subject_id : ℕ
  pub predicate : String
  pub object_id : ℕ
  pub namespace : String
  pub source_episodes : List ℕ
  pub evidence_status : EvidenceStatus
  pub evidence_strength : Option String
  pub properties : Option Text

-- What the loop is called with, the table of entities that it reads, the draws of
-- `gen_random_uuid()` by the number of rows, and the clock. The ids of the map are rows of
-- `loom_entities`, so that the foreign keys hold.
pub record EpisodeRun : Type 0 where
  pub entity_map : List (String × ℕ)
  pub namespace : String
  pub episode_id : ℕ
  pub entities : List Entity
  pub gen_random_uuid : ℕ → ℕ
  pub now : ℕ

abbrev pub same_ids : List ℕ → List ℕ → Bool
same_ids [] [] = true
same_ids (a ∷ xs) (b ∷ ys) = a == b && same_ids xs ys
same_ids _ _ = false

-- The columns of the partial unique index.
abbrev pub conflicts : NewFact → Fact → Bool
conflicts n f =
    str_eq f.namespace n.namespace
    && (f.subject_id == n.subject_id
        && (str_eq f.predicate n.predicate
            && (f.object_id == n.object_id
                && (same_ids f.source_episodes n.source_episodes && is_none f.deleted_at))))

-- `CHECK (evidence_strength IN ('explicit', 'implied'))`, which NULL passes.
abbrev pub is_strength : Option String → Bool
is_strength none = true
is_strength (some s) = str_eq s "explicit" || str_eq s "implied"

abbrev pub new_fact_row : (ℕ → ℕ) → ℕ → NewFact → List Fact → Fact
new_fact_row gen_random_uuid now n t = record {
  id = gen_random_uuid (length t);
  subject_id = n.subject_id;
  predicate = n.predicate;
  object_id = n.object_id;
  namespace = n.namespace;
  valid_from = now;
  valid_until = none;
  source_episodes = n.source_episodes;
  superseded_by = none;
  evidence_status = n.evidence_status;
  evidence_strength = n.evidence_strength;
  properties = n.properties;
  created_at = some now;
  deleted_at = none;
}

-- A row that is there is returned as it is.
abbrev pub or_existing :
    (ℕ → ℕ) → ℕ → NewFact → List Fact → Option Fact → Result DbError Fact × List Fact
or_existing gen_random_uuid now n t (some f) = (ok f, t)
or_existing gen_random_uuid now n t none =
    (ok (new_fact_row gen_random_uuid now n t), t ++ (new_fact_row gen_random_uuid now n t ∷ []))

unfoldable pub insert_fact : (ℕ → ℕ) → ℕ → NewFact → List Fact → Result DbError Fact × List Fact
insert_fact gen_random_uuid now n t =
    if is_strength n.evidence_strength
    then or_existing gen_random_uuid now n t (find_where (conflicts n) t)
    else (err check_violation, t)

abbrev pub lookup : String → List (String × ℕ) → Option ℕ
lookup k [] = none
lookup k ((name, id) ∷ rest) = if str_eq name k then some id else lookup k rest

-- What the loop has so far: the inserted facts, newest last, the extracted facts that they are
-- from, and the number of the skipped ones.
pub record Progress : Type 0 where
  pub inserted_fact_ids : List ℕ
  pub new_fact_details : List NewFactDetails
  pub valid_facts : List ExtractedFact
  pub skipped_count : ℕ

abbrev pub no_progress : Progress
no_progress = record {
  inserted_fact_ids = [];
  new_fact_details = [];
  valid_facts = [];
  skipped_count = 0;
}

abbrev pub after_fact : ExtractedFact → Option Fact → Progress → Progress
after_fact fact none p = record p { skipped_count = p.skipped_count + 1 }
after_fact fact (some row) p = record p {
  inserted_fact_ids = p.inserted_fact_ids ++ (row.id ∷ []);
  new_fact_details = p.new_fact_details ++ (new_fact_details_from row ∷ []);
  valid_facts = p.valid_facts ++ (fact ∷ []);
}

abbrev pub new_fact_from : EpisodeRun → ExtractedFact → ℕ → ℕ → NewFact
new_fact_from ep fact subj_id obj_id = record {
  subject_id = subj_id;
  predicate = fact.predicate;
  object_id = obj_id;
  namespace = ep.namespace;
  source_episodes = ep.episode_id ∷ [];
  evidence_status = extracted;
  evidence_strength = fact.evidence_strength;
  properties = none;
}

-- The fact to insert, none for one that is skipped: both names are in the map, and the entities in
-- the namespace of the episode.
abbrev pub unless_foreign :
    EpisodeRun → ExtractedFact → ℕ → ℕ → Result NamespaceError (Unit {0}) → Option NewFact
unless_foreign ep fact subj_id obj_id (err e) = none
unless_foreign ep fact subj_id obj_id (ok _) = some (new_fact_from ep fact subj_id obj_id)

abbrev pub referenced : EpisodeRun → ExtractedFact → Option ℕ → Option ℕ → Option NewFact
unfolding validate_fact_namespace
referenced ep fact (some subj_id) (some obj_id) =
    unless_foreign ep fact subj_id obj_id
      (validate_fact_namespace subj_id obj_id ep.namespace ep.entities)
referenced ep fact _ _ = none

unfoldable pub validated : EpisodeRun → ExtractedFact → Option NewFact
unfolding validate_fact_namespace
validated ep fact =
    referenced ep fact (lookup fact.subject ep.entity_map) (lookup fact.object ep.entity_map)

abbrev pub found_row : Result DbError Fact × List Fact → Result DbError (Option Fact) × List Fact
found_row (ok row, t) = (ok (some row), t)
found_row (err e, t) = (err e, t)

abbrev pub insert_valid :
    EpisodeRun → Option NewFact → List Fact → Result DbError (Option Fact) × List Fact
unfolding insert_fact
insert_valid ep none t = (ok none, t)
insert_valid ep (some n) t = found_row (insert_fact ep.gen_random_uuid ep.now n t)

unfoldable pub insert_facts :
    EpisodeRun → List ExtractedFact → Progress → List Fact → Result DbError Progress × List Fact
unfolding validated insert_fact
insert_facts ep [] p t = (ok p, t)
insert_facts ep (fact ∷ facts) p t =
    let (result, after) = insert_valid ep (validated ep fact) t in
    elim result [
      | err e ↦ (err e, after)
      | ok row ↦ insert_facts ep facts (after_fact fact row p) after
    ]
