-- ===== src/Episode/Turn.antt =====
-- What one turn of the worker (worker/processor.rs) makes of an episode's row, whatever the other
-- parts answer.
use project_loom.Common.{
  ℕ, ◌==◌, String, ◌+◌, ◌<◌, ◌≡◌, refl, sym, subst, ◌∙◌, Bool, true, false, Option, none, some,
  and_left, Bool-cases, inl, inr, ◌≢◌, if◌then◌else◌, lt→ltb, ==_iff, arith, ◌&&◌, is_none,
}
use project_loom.Common.Int.{ℤ}
use project_loom.Common.Result.{Result, ok, err}
use project_loom.Common.Table.{
  DbError, row_not_found, find_where, find_where_sound, update_where, update_one,
}
use project_loom.Common.Keyed.{
  IsKeyed, find_where_keyed, find_where-update_self, find_where-update_key, find_where-update_ne,
  update_where-IsKeyed,
}
use project_loom.Common.Text.{Text}
use project_loom.Episode.Rows.{Episode, Episodes, completed, is_pending, has_id}
use project_loom.Episode.Lifecycle.{
  store_episode_embedding, update_extraction_metrics, mark_episode_processed, mark_processed,
  claim_episode_for_processing, claim, with_embedding, with_extraction, is_claimable, i32_end,
  record_processing_failure, fail, truncate_error,
}
use project_loom.Episode.Worker.{
  RetryPolicy, Stages, after, run_full_extraction_pipeline, embed_and_extract, extract_and_store,
  store_metrics_and_mark_processed, bookkeeping, process_claimed, process_with_retry_bookkeeping,
}

-- The row of an episode, and the episodes keyed by their ids.
abbrev pub row : ℕ → Episodes → Option Episode
row id t = find_where (has_id id) t

-- Table `t` has `e` in the row `id`, and agrees with `start` on all other rows.
pub record Holds (start : Episodes) (id : ℕ) (e : Episode) (t : Episodes) : Type 0 where
  pub keyed : IsKeyed (λ (r : Episode). r.id) t
  pub at : row id t ≡ some e
  pub others : (j : ℕ) → id ≢ j → row j t ≡ row j start

-- The row after an attempt that began at `now`.
abbrev pub attempted : ℤ → Result Text Text → Result Text (String × Text) → Episode → Episode
attempted max_attempts (err message) _ e = fail (truncate_error message) max_attempts e
attempted max_attempts (ok v) (err message) e =
    fail (truncate_error message) max_attempts (record e { embedding = some v })
attempted max_attempts (ok v) (ok (model, metrics)) e = record e {
  embedding = some v;
  extraction_model = some model;
  extraction_metrics = some metrics;
  processed = some true;
  processing_status = completed;
  processing_last_error = none;
}

abbrev pub turn : RetryPolicy → Stages → ℕ → Episode → Episode
turn policy s now e =
    if is_pending e.processing_status && is_none e.deleted_at
    then attempted policy.max_attempts s.embedding s.extraction (claim now e)
    else e

update-Holds :
    {start : Episodes} (id : ℕ) (p : Episode → Bool) (f : Episode → Episode) (e : Episode)
    (t : Episodes)
    → ((r : Episode) → (f r).id ≡ r.id)
    → ((r : Episode) → p r ≡ true → r.id ≡ id)
    → Holds start id e t
    → row id (update_where p f t) ≡ some (f e)
    → Holds start id (f e) (update_where p f t)
update-Holds id p f e t keeps only h at = record {
  keyed = update_where-IsKeyed (λ r. r.id) p f t keeps h.keyed;
  at = at;
  others = λ j ne. find_where-update_ne (λ r. r.id) id j p f t keeps only ne ∙ h.others j ne;
}

pub update_one-Holds :
    {start : Episodes} (id : ℕ) (f : Episode → Episode) (e : Episode) (t : Episodes)
    → ((r : Episode) → (f r).id ≡ r.id)
    → Holds start id e t
    → Holds start id (f e) (update_where (has_id id) f t)
update_one-Holds id f e t keeps h =
    update-Holds id (has_id id) f e t keeps (λ r. (==_iff r.id id).0) h
      (find_where-update_key (λ r. r.id) id f t e keeps h.at)

module _ (start : Episodes) (policy : RetryPolicy) (display : DbError → Text) (id : ℕ) where
  -- What is to be shown of the pipeline's result: the row after the bookkeeping.
  abbrev Ends : Episode → Result Text (Unit {0}) × Episodes → Type 0
  Ends e r = Holds start id e (bookkeeping policy id r)

  -- An update by the id of a row that is there succeeds, and goes on with the new table.
  after_update :
      (f : Episode → Episode) (e final : Episode) (t : Episodes)
      (next : Episode → Episodes → Result Text (Unit {0}) × Episodes)
      → ((r : Episode) → (f r).id ≡ r.id)
      → Holds start id e t
      → ((t' : Episodes) → Holds start id (f e) t' → Ends final (next (f e) t'))
      → Ends final (after display (update_one (has_id id) f t) next)
  unfolding record_processing_failure
  after_update f e final t next keeps h go =
      subst
        (λ o. Ends final (
          after display
            (elim o [ none ↦ err row_not_found | some r ↦ ok (f r) ], update_where (has_id id) f t)
            next))
        (sym h.at) (go _ (update_one-Holds id f e t keeps h))

  extract_and_store_row :
      (x : Result Text (String × Text)) (v : Text) (e : Episode) (t : Episodes)
      → Holds start id (with_embedding v e) t
      → Ends (attempted policy.max_attempts (ok v) x e) (extract_and_store display id x t)
  unfolding store_metrics_and_mark_processed record_processing_failure update_extraction_metrics
      mark_episode_processed
  extract_and_store_row (err m) v e t h =
      update_one-Holds id (fail (truncate_error m) policy.max_attempts) _ t (λ r. refl) h
  extract_and_store_row (ok (model, metrics)) v e t h =
      after_update (with_extraction model none metrics) (with_embedding v e) _ t
        (λ _ t1. after display (mark_episode_processed id metrics t1) λ _ t2. (ok tt, t2))
        (λ r. refl) h
        λ t1 h1.
          after_update (mark_processed metrics) _ _ t1 (λ _ t2. (ok tt, t2)) (λ r. refl) h1
            λ t2 h2. h2

  embed_and_extract_row :
      (v : Result Text Text) (x : Result Text (String × Text)) (e : Episode) (t : Episodes)
      → Holds start id e t
      → Ends (attempted policy.max_attempts v x e) (embed_and_extract display id v x t)
  unfolding store_episode_embedding store_metrics_and_mark_processed record_processing_failure
  embed_and_extract_row (err m) x e t h =
      update_one-Holds id (fail (truncate_error m) policy.max_attempts) e t (λ r. refl) h
  embed_and_extract_row (ok v) x e t h =
      after_update (with_embedding v) e _ t (λ _ t1. extract_and_store display id x t1) (λ r. refl)
        h (extract_and_store_row x v e)

claim-Holds :
    {start : Episodes} (now id : ℕ) (e : Episode) (t : Episodes)
    → Holds start id e t
    → (is_pending e.processing_status && is_none e.deleted_at) ≡ true
    → Holds start id (claim now e) (update_where (is_claimable id) (claim now) t)
claim-Holds now id e t h free =
    update-Holds id (is_claimable id) (claim now) e t (λ r. refl)
      (λ r hit. (==_iff r.id id).0 (and_left _ _ hit)) h
      (find_where-update_self (λ r. r.id) id
        (λ r. is_pending r.processing_status && is_none r.deleted_at) (claim now) t e (λ r. refl)
        h.at free)

claimable_row :
    {start : Episodes} (id : ℕ) (e : Episode) (t : Episodes)
    → Holds start id e t
    → find_where (is_claimable id) t
      ≡ (if is_pending e.processing_status && is_none e.deleted_at then some e else none)
claimable_row id e t h =
    find_where_keyed (λ r. r.id) id (λ r. is_pending r.processing_status && is_none r.deleted_at) t
      e h.keyed h.at

pub claim_free :
    {start : Episodes} (now id : ℕ) (e : Episode) (t : Episodes)
    → Holds start id e t
    → e.processing_attempts + 1 < i32_end
    → (is_pending e.processing_status && is_none e.deleted_at) ≡ true
    → claim_episode_for_processing now id t
      ≡ (ok (some (claim now e)), update_where (is_claimable id) (claim now) t)
unfolding claim_episode_for_processing
claim_free now id e t h small free =
    let found : find_where (is_claimable id) t ≡ some e = rw free at (claimable_row id e t h) in
    rw (found, claim_episode_for_processing) (rw (lt→ltb _ _ small))

claim_taken :
    {start : Episodes} (now id : ℕ) (e : Episode) (t : Episodes)
    → Holds start id e t
    → (is_pending e.processing_status && is_none e.deleted_at) ≡ false
    → claim_episode_for_processing now id t ≡ (ok none, t)
unfolding claim_episode_for_processing
claim_taken now id e t h taken =
    let absent : find_where (is_claimable id) t ≡ none = rw taken at (claimable_row id e t h) in
    rw (absent, claim_episode_for_processing)

-- A turn of the worker takes the row of its episode to `turn` of it: a claimable one is claimed,
-- and completed or failed or sent back as the other parts answer; any other is left alone.
-- All other rows stay as they are.
pub process_row :
    (policy : RetryPolicy) (s : Stages) (now id : ℕ) (e : Episode) (t : Episodes)
    → IsKeyed (λ (r : Episode). r.id) t
    → row id t ≡ some e
    → ((is_pending e.processing_status && is_none e.deleted_at) ≡ true
        → e.processing_attempts + 1 < i32_end)
    → Holds t id (turn policy s now e) (process_with_retry_bookkeeping policy s now id t)
unfolding process_with_retry_bookkeeping run_full_extraction_pipeline
process_row policy s now id e t keyed at small =
    let h : Holds t id e t = record { keyed = keyed; at = at; others = λ j ne. refl } in
    elim (Bool-cases (is_pending e.processing_status && is_none e.deleted_at)) [
      | inl free ↦
          let named : e.id ≡ id = (==_iff e.id id).0 (find_where_sound (has_id id) t e h.at) in
          rw free (
            subst
              (λ c.
                Holds t id (attempted policy.max_attempts s.embedding s.extraction (claim now e))
                  (process_claimed policy s id c))
              (sym (claim_free now id e t h (small free) free))
              (subst
                (λ n.
                  Holds t id (attempted policy.max_attempts s.embedding s.extraction (claim now e))
                    (bookkeeping policy id (
                      embed_and_extract s.display n s.embedding s.extraction
                        (update_where (is_claimable id) (claim now) t))))
                (sym named)
                (embed_and_extract_row t policy s.display id s.embedding s.extraction (claim now e)
                  _ (claim-Holds now id e t h free))))
      | inr taken ↦ rw taken (
          subst (λ c. Holds t id e (process_claimed policy s id c))
            (sym (claim_taken now id e t h taken)) h)
    ]

-- The same for every row: where its episode is claimable, it has an attempt left below the largest
-- 32-bit integer, a turn of the worker on `id` gives that row its turn and keeps all others.
pub process_with_retry_bookkeeping_lem :
    (policy : RetryPolicy) (s : Stages) (now id : ℕ) (e : Episode) (t : Episodes) (j : ℕ)
    → IsKeyed (λ (r : Episode). r.id) t
    → row id t ≡ some e
    → ((is_pending e.processing_status && is_none e.deleted_at) ≡ true
        → e.processing_attempts + 1 < i32_end)
    → row j (process_with_retry_bookkeeping policy s now id t)
      ≡ (if j == id then some (turn policy s now e) else row j t)
process_with_retry_bookkeeping_lem policy s now id e t j keyed at small =
    let h = process_row policy s now id e t keyed at small in
    elim (Bool-cases (j == id)) [
      | inl same ↦ rw same (
          subst
            (λ i.
              row i (process_with_retry_bookkeeping policy s now id t) ≡ some (turn policy s now e))
            (sym ((==_iff j id).0 same)) h.at)
      | inr apart ↦ rw apart (h.others j (λ x. ground (arith, ==_iff j id)))
    ]
