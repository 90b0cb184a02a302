-- ===== src/Ingest/Tests.antt =====
-- Runs of the ingestion on small tables; the hash of a content is its length in bytes.
use project_loom.Common.{ℕ, ◌≡◌, refl, String, Option, none, some, [], ◌∷◌}
use project_loom.Common.Text.{Text, text, len}
use project_loom.Common.Result.{ok, err}
use project_loom.Common.Table.{check_violation}
use project_loom.Episode.{Episode}
use project_loom.Online.{user_authored_seed}
use project_loom.Ingest.Input.{validate_episode_input, validate_parser_fields}
use project_loom.Ingest.Insert.{
  database, IngestEpisodeInput, ingest_episode, new_row, new_episode_from,
}
use project_loom.Ingest.Idempotent.{alone, Finds, ingest_episode-twice}
use project_loom.Ingest.Race.{ingest_episode-lost_race}
use project_loom.Ingest.Blank.{ingest_episode-blank_version}

abbrev input : Option String → IngestEpisodeInput
input version = record {
  content = text "We chose Rust.";
  source = "manual";
  namespace = "default";
  source_event_id = some "event-1";
  occurred_at = 5;
  metadata = none;
  participants = none;
  ingestion_mode = user_authored_seed;
  parser_version = version;
  parser_source_schema = none;
}

abbrev hash : Text → ℕ
hash s = len s

queued :
    (ingest_episode hash 7 100 alone (input none) []).0
    ≡ ok (record { episode_id = 7; status = "queued" })
unfolding ingest_episode
queued = refl

ingest_episode-twice_example : Finds 7 (ingest_episode hash 7 100 alone (input none) []).1 (
    ingest_episode hash 8 200 alone
      (input none)
      (ingest_episode hash 7 100 alone (input none) []).1)
ingest_episode-twice_example =
    ingest_episode-twice hash (input none) 7 100 8 200 alone []
      (record { episode_id = 7; status = "queued" }) queued

valid : validate_episode_input (text "We chose Rust.") "manual" "default" ≡ ok tt
unfolding validate_episode_input
valid = refl

no_parser : validate_parser_fields user_authored_seed none none ≡ ok tt
unfolding validate_parser_fields
no_parser = refl

-- Another session stores the same event between the search and the INSERT.
abbrev other_row : Episode
unfolding new_episode_from
other_row = new_row 6 90 (new_episode_from hash (input none))

ingest_episode-lost_race_example :
    ingest_episode hash 7 100 (λ t. other_row ∷ t) (input none) []
    ≡ (ok (record { episode_id = 6; status = "duplicate" }), other_row ∷ [])
unfolding new_episode_from
ingest_episode-lost_race_example =
    ingest_episode-lost_race hash 7 100 (λ t. other_row ∷ t) (input none) [] other_row valid
      no_parser refl refl refl refl

ingest_episode-blank_version_example :
    ingest_episode hash 7 100 alone (input (some " ")) [] ≡ (err (database check_violation), [])
ingest_episode-blank_version_example =
    ingest_episode-blank_version hash 7 100 (input (some " ")) " " [] refl refl refl refl valid refl
      refl
