-- ===== src/Ingest/Idempotent.antt =====
-- Ingesting the same input again (`ingest_episode`).
use project_loom.Common.{
  ℕ, String, ◌≡◌, refl, sym, ap, ◌∙◌, subst, inl, inr, Bool, true, false, none, some, List, [], ◌∷◌,
  any, ==-refl, Bool-cases, Option-cases, arith,
}
use package.text.Mathlib.TextPositions.{eq_refl}
use project_loom.Common.Text.{Text}
use project_loom.Common.Result.{Result, ok, err, Result-cases}
use project_loom.Common.Table.{check_violation, find_where}
use project_loom.Episode.{Episode, Episodes}
use project_loom.Ingest.Input.{FieldError, validate_episode_input, validate_parser_fields}
use project_loom.Ingest.Insert.{
  same_event, parser_fields_agree, insert_row, new_row, insert_episode, IngestError, invalid_data,
  IngestResult, IngestEpisodeInput, same_content, new_episode_from, after_insert, accepted,
  duplicate_of, insert_unless_present, ingest_episode,
}

-- What other sessions do where there are none.
abbrev pub alone : Episodes → Episodes
alone t = t

-- A run on a table that finds the episode `i` there and leaves the table as it is.
abbrev pub Finds : ℕ → Episodes → Result IngestError IngestResult × Episodes → Type 0
Finds i t run = (status : String) × (run ≡ (ok (record { episode_id = i; status = status }), t))

ok-injective : {a b : IngestResult} → Path (Result IngestError IngestResult) (ok a) (ok b) → a ≡ b
ok-injective e = cc

none-any : (p : Episode → Bool) (t : Episodes) → find_where p t ≡ none → any p t ≡ false
none-any p [] h = refl
none-any p (x ∷ t) h = ground (arith, none-any p t)

-- A run that is known, and whose result is `res`, is followed by one that finds what it says.
repeat :
    (second : Episodes → Result IngestError IngestResult × Episodes) (a res : IngestResult)
    (u : Episodes) (first : Result IngestError IngestResult × Episodes)
    → first ≡ (ok a, u)
    → first.0 ≡ ok res
    → Finds a.episode_id u (second u)
    → Finds res.episode_id first.1 (second first.1)
repeat second a res u first run h f =
    let same : a ≡ res = ok-injective (sym (ap (λ r. r.0) run) ∙ h) in
    subst (λ v. Finds res.episode_id v (second v)) (sym (ap (λ r. r.1) run))
      (subst (λ x. Finds x.episode_id u (second u)) same f)

module _ (hash : Text → ℕ) (input : IngestEpisodeInput) where
  abbrev content_test : Episode → Bool
  content_test = same_content (hash input.content) input.namespace

  abbrev event_test : Episode → Bool
  event_test = same_event input.namespace input.source input.source_event_id

  event_found :
      (id now : ℕ) (meanwhile : Episodes → Episodes) (t : Episodes) (row : Episode)
      → find_where event_test t ≡ some row
      → insert_episode id now meanwhile (new_episode_from hash input) t ≡ (ok row, t)
  unfolding insert_episode new_episode_from
  event_found id now meanwhile t row k = rw (k, insert_episode) refl

  event_missing :
      (id now : ℕ) (t : Episodes)
      → find_where event_test t ≡ none
      → insert_episode id now alone (new_episode_from hash input) t
        ≡ insert_row id now (new_episode_from hash input) t
  unfolding insert_episode new_episode_from
  event_missing id now t k = rw (k, insert_episode) refl

  by_content :
      (id now : ℕ) (meanwhile : Episodes → Episodes) (t : Episodes) (row : Episode)
      → find_where content_test t ≡ some row
      → insert_unless_present hash id now meanwhile input t ≡ (ok (duplicate_of row), t)
  unfolding insert_unless_present
  by_content id now meanwhile t row e = rw (e, insert_unless_present) refl

  by_event :
      (id now : ℕ) (meanwhile : Episodes → Episodes) (t : Episodes) (row : Episode)
      → find_where content_test t ≡ none
      → find_where event_test t ≡ some row
      → insert_unless_present hash id now meanwhile input t ≡ (ok (accepted row), t)
  unfolding insert_unless_present insert_episode new_episode_from
  by_event id now meanwhile t row e k =
      rw (e, insert_unless_present) (ap (after_insert input) (event_found id now meanwhile t row k))

  pub by_insertion :
      (id now : ℕ) (t : Episodes)
      → find_where content_test t ≡ none
      → find_where event_test t ≡ none
      → insert_unless_present hash id now alone input t
        ≡ after_insert input (insert_row id now (new_episode_from hash input) t)
  unfolding insert_unless_present insert_episode new_episode_from
  by_insertion id now t e k =
      rw (e, insert_unless_present) (ap (after_insert input) (event_missing id now t k))

  row_inserted :
      (id now : ℕ) (t : Episodes)
      → parser_fields_agree (new_episode_from hash input) ≡ true
      → find_where event_test t ≡ none
      → insert_row id now (new_episode_from hash input) t ≡ (
        ok (new_row id now (new_episode_from hash input)),
        new_row id now (new_episode_from hash input) ∷ t,
      )
  unfolding new_episode_from
  row_inserted id now t agree k = rw (agree, none-any event_test t k) refl

  pub row_refused :
      (id now : ℕ) (t : Episodes)
      → parser_fields_agree (new_episode_from hash input) ≡ false
      → insert_row id now (new_episode_from hash input) t ≡ (err check_violation, t)
  unfolding new_episode_from
  row_refused id now t wrong = rw wrong refl

  refused_result :
      {e : IngestError} {res : IngestResult}
      → Path (Result IngestError IngestResult) (err e) (ok res)
      → ⊥
  refused_result h = cc

  -- The new row is the first that the search by content finds.
  new_row-found :
      (id now : ℕ) (t : Episodes)
      → find_where content_test (new_row id now (new_episode_from hash input) ∷ t)
        ≡ some (new_row id now (new_episode_from hash input))
  unfolding new_episode_from
  new_row-found id now t = rw (==-refl (hash input.content), eq_refl input.namespace) refl

  again :
      (id now id' now' : ℕ) (meanwhile : Episodes → Episodes) (t : Episodes) (res : IngestResult)
      → (insert_unless_present hash id now alone input t).0 ≡ ok res
      → Finds res.episode_id (insert_unless_present hash id now alone input t).1 (
          insert_unless_present hash id' now' meanwhile input
            (insert_unless_present hash id now alone input t).1)
  again id now id' now' meanwhile t res h =
      let second = insert_unless_present hash id' now' meanwhile input in
      let first = insert_unless_present hash id now alone input t in
      elim (Option-cases (find_where content_test t)) [
        | inr (row, e) ↦
            repeat second (duplicate_of row) res t first (by_content id now alone t row e) h
              ("duplicate", by_content id' now' meanwhile t row e)
        | inl e ↦ elim (Option-cases (find_where event_test t)) [
          | inr (row, k) ↦
              repeat second (accepted row) res t first (by_event id now alone t row e k) h
                ((accepted row).status, by_event id' now' meanwhile t row e k)
          | inl k ↦
              let ep = new_episode_from hash input in
              let row = new_row id now ep in
              elim (Bool-cases (parser_fields_agree ep)) [
                | inl agree ↦
                    repeat second (accepted row) res (row ∷ t) first
                      (by_insertion id now t e k
                        ∙ ap (after_insert input) (row_inserted id now t agree k))
                      h
                      (
                        "duplicate",
                        by_content id' now' meanwhile (row ∷ t) row (new_row-found id now t),
                      )
                | inr wrong ↦ absurd (
                    refused_result (
                      sym (
                        ap (λ r. r.0)
                          (by_insertion id now t e k
                            ∙ ap (after_insert input) (row_refused id now t wrong)))
                      ∙ h))
              ]
        ]
      ]

  pub passed :
      (id now : ℕ) (meanwhile : Episodes → Episodes) (t : Episodes)
      → validate_episode_input input.content input.source input.namespace ≡ ok tt
      → validate_parser_fields input.ingestion_mode input.parser_version input.parser_source_schema
        ≡ ok tt
      → ingest_episode hash id now meanwhile input t
        ≡ insert_unless_present hash id now meanwhile input t
  unfolding ingest_episode
  passed id now meanwhile t valid agree = rw (valid, ingest_episode) (rw agree refl)

  stopped_by_fields :
      (id now : ℕ) (meanwhile : Episodes → Episodes) (t : Episodes) (errors : List FieldError)
      → validate_episode_input input.content input.source input.namespace ≡ err errors
      → ingest_episode hash id now meanwhile input t ≡ (err (invalid_data errors), t)
  unfolding ingest_episode
  stopped_by_fields id now meanwhile t errors refused = rw (refused, ingest_episode) refl

  stopped_by_parser :
      (id now : ℕ) (meanwhile : Episodes → Episodes) (t : Episodes) (errors : List FieldError)
      → validate_episode_input input.content input.source input.namespace ≡ ok tt
      → validate_parser_fields input.ingestion_mode input.parser_version input.parser_source_schema
        ≡ err errors
      → ingest_episode hash id now meanwhile input t ≡ (err (invalid_data errors), t)
  unfolding ingest_episode
  stopped_by_parser id now meanwhile t errors valid refused =
      rw (valid, ingest_episode) (rw refused refl)

  -- An ingestion that succeeds, with no other session at work, and one of the same input after it,
  -- whatever other sessions then do: the second finds the episode of the first and leaves the table
  -- as it is.
  pub ingest_episode-twice :
      (id now id' now' : ℕ) (meanwhile : Episodes → Episodes) (t : Episodes) (res : IngestResult)
      → (ingest_episode hash id now alone input t).0 ≡ ok res
      → Finds res.episode_id (ingest_episode hash id now alone input t).1 (
          ingest_episode hash id' now' meanwhile input (ingest_episode hash id now alone input t).1)
  ingest_episode-twice id now id' now' meanwhile t res h =
      elim (Result-cases (validate_episode_input input.content input.source input.namespace)) [
        | inr (errors, refused) ↦ absurd (
            refused_result
              (sym (ap (λ r. r.0) (stopped_by_fields id now alone t errors refused)) ∙ h))
        | inl (_, valid) ↦
            elim (Result-cases (
              validate_parser_fields input.ingestion_mode input.parser_version
                input.parser_source_schema)) [
                  | inr (errors, refused) ↦ absurd (
                      refused_result (
                        sym (ap (λ r. r.0) (stopped_by_parser id now alone t errors valid refused))
                        ∙ h))
                  | inl (_, agree) ↦
                      let run = passed id now alone t valid agree in
                      let h' : (insert_unless_present hash id now alone input t).0 ≡ ok res =
                        sym (ap (λ r. r.0) run) ∙ h in
                      rw run (
                        rw
                          (passed id' now' meanwhile
                            (insert_unless_present hash id now alone input t).1 valid agree)
                          (again id now id' now' meanwhile t res h'))
                ]
      ]
