-- ===== src/Episode/Worker.antt =====
-- One episode's turn in the background worker (loom-engine/src/worker/processor.rs,
-- `process_with_retry_bookkeeping`), with the statements that the extraction pipeline makes on
-- `loom_episodes` (pipeline/offline/extract.rs, `run_full_extraction_pipeline`).
use project_loom.Common.{ℕ, String, Option, none, some}
use project_loom.Common.Int.{ℤ}
use project_loom.Common.Result.{Result, ok, err}
use project_loom.Common.Table.{DbError}
use project_loom.Common.Text.{Text}
use project_loom.Episode.Rows.{Episode, Episodes}
use project_loom.Episode.Lifecycle.{
  store_episode_embedding, update_extraction_metrics, mark_episode_processed,
  claim_episode_for_processing, record_processing_failure,
}

pub record RetryPolicy : Type 0 where
  pub max_attempts : ℤ
  pub base_backoff_secs : ℕ

-- What the other parts answer while one episode is processed: the embedding of its content, and
-- the model with the metrics after extraction, resolution and fact storage, or an error's message.
-- `display` is the message of a database error.
pub record Stages : Type 0 where
  pub embedding : Result Text Text
  pub extraction : Result Text (String × Text)
  pub display : DbError → Text

-- An answer of the database layer, with `?` on its error.
abbrev pub after {ℓ} :
    {A : Type ℓ}
    → (DbError → Text)
    → Result DbError A × Episodes
    → (A → Episodes → Result Text (Unit {0}) × Episodes)
    → Result Text (Unit {0}) × Episodes
after display (ok a, t) next = next a t
after display (err e, t) next = (err (display e), t)

-- `store_metrics_and_mark_processed`; the classification model is the empty string, which the
-- statement reads as NULL.
unfoldable pub store_metrics_and_mark_processed :
    (DbError → Text) → ℕ → Text → String → Episodes → Result Text (Unit {0}) × Episodes
unfolding update_extraction_metrics mark_episode_processed
store_metrics_and_mark_processed display id metrics model t =
    after display (update_extraction_metrics id model none metrics t)
      λ _ t1. after display (mark_episode_processed id metrics t1) λ _ t2. (ok tt, t2)

abbrev pub extract_and_store :
    (DbError → Text)
    → ℕ
    → Result Text (String × Text)
    → Episodes
    → Result Text (Unit {0}) × Episodes
unfolding store_metrics_and_mark_processed
extract_and_store display id (err message) t = (err message, t)
extract_and_store display id (ok (model, metrics)) t =
    store_metrics_and_mark_processed display id metrics model t

abbrev pub embed_and_extract :
    (DbError → Text)
    → ℕ
    → Result Text Text
    → Result Text (String × Text)
    → Episodes
    → Result Text (Unit {0}) × Episodes
unfolding store_episode_embedding store_metrics_and_mark_processed
embed_and_extract display id (err message) extraction t = (err message, t)
embed_and_extract display id (ok v) extraction t =
    after display (store_episode_embedding id v t)
      λ _ t1. extract_and_store display id extraction t1

unfoldable pub run_full_extraction_pipeline :
    Stages → ℕ → Episodes → Result Text (Unit {0}) × Episodes
unfolding store_episode_embedding store_metrics_and_mark_processed
run_full_extraction_pipeline s id t = embed_and_extract s.display id s.embedding s.extraction t

-- The last `match`: a failure is recorded, and a failure to record it is only logged.
abbrev pub bookkeeping : RetryPolicy → ℕ → Result Text (Unit {0}) × Episodes → Episodes
unfolding record_processing_failure
bookkeeping policy id (ok _, t) = t
bookkeeping policy id (err message, t) =
    (record_processing_failure id message policy.max_attempts t).1

-- The first `match`, on the claim: without a claimed row there is nothing to do.
abbrev pub process_claimed :
    RetryPolicy → Stages → ℕ → Result DbError (Option Episode) × Episodes → Episodes
unfolding run_full_extraction_pipeline record_processing_failure
process_claimed policy s id (ok (some claimed), t) =
    bookkeeping policy id (run_full_extraction_pipeline s claimed.id t)
process_claimed policy s id (ok none, t) = t
process_claimed policy s id (err _, t) = t

unfoldable pub process_with_retry_bookkeeping : RetryPolicy → Stages → ℕ → ℕ → Episodes → Episodes
unfolding claim_episode_for_processing run_full_extraction_pipeline record_processing_failure
process_with_retry_bookkeeping policy s now id t =
    process_claimed policy s id (claim_episode_for_processing now id t)
