-- ===== src/Ingest/Race.antt =====
-- Two sessions that ingest the same event at once: the unique index decides (`ingest_episode`).
use project_loom.Common.{
  ℕ, ◌≡◌, refl, ◌∙◌, inl, inr, Bool, true, none, some, [], ◌∷◌, any, Bool-cases,
}
use project_loom.Common.Text.{Text}
use project_loom.Common.Result.{ok, err}
use project_loom.Common.Table.{unique_violation, find_where}
use project_loom.Episode.{Episode, Episodes}
use project_loom.Ingest.Input.{validate_episode_input, validate_parser_fields}
use project_loom.Ingest.Insert.{
  same_content, same_event, parser_fields_agree, insert_episode, IngestEpisodeInput, duplicate_of,
  new_episode_from, after_insert, insert_unless_present, ingest_episode,
}
use project_loom.Ingest.Idempotent.{passed}

some-any :
    (p : Episode → Bool) (t : Episodes) (e : Episode) → find_where p t ≡ some e → any p t ≡ true
some-any p [] e h = cc
some-any p (x ∷ t) e h = elim (Bool-cases (p x)) [
  | inl hit ↦ rw hit refl
  | inr miss ↦ rw miss (some-any p t e (rw miss at h))
]

lost_insert :
    (hash : Text → ℕ) (id now : ℕ) (meanwhile : Episodes → Episodes) (input : IngestEpisodeInput)
    (t : Episodes) (row : Episode)
    → parser_fields_agree (new_episode_from hash input) ≡ true
    → find_where (same_event input.namespace input.source input.source_event_id) t ≡ none
    → find_where (same_event input.namespace input.source input.source_event_id) (meanwhile t)
      ≡ some row
    → insert_episode id now meanwhile (new_episode_from hash input) t
      ≡ (err unique_violation, meanwhile t)
unfolding insert_episode new_episode_from
lost_insert hash id now meanwhile input t row agree before after =
    rw (before, insert_episode)
      (rw
        (
          agree,
          some-any (same_event input.namespace input.source input.source_event_id) (meanwhile t) row
              after,
        )
        refl)

-- A valid input whose content is new, and whose event another session stores between the search for
-- it and the INSERT, ends as a duplicate of the row of the other session, and adds no row.
pub ingest_episode-lost_race :
    (hash : Text → ℕ) (id now : ℕ) (meanwhile : Episodes → Episodes) (input : IngestEpisodeInput)
    (t : Episodes) (row : Episode)
    → validate_episode_input input.content input.source input.namespace ≡ ok tt
    → validate_parser_fields input.ingestion_mode input.parser_version input.parser_source_schema
      ≡ ok tt
    → parser_fields_agree (new_episode_from hash input) ≡ true
    → find_where (same_content (hash input.content) input.namespace) t ≡ none
    → find_where (same_event input.namespace input.source input.source_event_id) t ≡ none
    → find_where (same_event input.namespace input.source input.source_event_id) (meanwhile t)
      ≡ some row
    → ingest_episode hash id now meanwhile input t ≡ (ok (duplicate_of row), meanwhile t)
unfolding insert_unless_present
ingest_episode-lost_race hash id now meanwhile input t row valid fields agree new_content before
      after =
    passed hash input id now meanwhile t valid fields
    ∙ rw (new_content, insert_unless_present)
        (rw (lost_insert hash id now meanwhile input t row agree before after)
          (rw (after, after_insert) refl))
