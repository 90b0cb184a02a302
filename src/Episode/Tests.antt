-- ===== src/Episode/Tests.antt =====
-- Runs of the episode lifecycle on small tables.
use project_loom.Common.{
  ℕ, ◌≤◌, ◌≡◌, refl, false, Option, none, some, List, [], ◌∷◌, ◌++◌, All, min, length, arith,
  if◌then◌else◌,
}
use mathlib.Core.List.{Perm}
use project_loom.Common.Int.{pos}
use project_loom.Common.Result.{ok, err}
use project_loom.Common.Keyed.{IsKeyed}
use project_loom.Common.Text.{Text, text, len}
use project_loom.Episode.Rows.{ProcessingStatus, pending, failed, Episode, Episodes, is_processing}
use project_loom.Episode.Lifecycle.{
  truncate_error, list_unprocessed_episodes, claim, requeue, requeue_episode,
  claim_episode_for_processing,
}
use project_loom.Episode.Worker.{RetryPolicy, Stages, process_with_retry_bookkeeping}
use project_loom.Episode.Turn.{row, turn, process_with_retry_bookkeeping_lem}
use project_loom.Episode.Truncate.{truncate_error_lem}
use project_loom.Episode.Retry.{turns, poison_pill-failed}
use project_loom.Episode.Backoff.{IsWaiting, IsInTurn, list_unprocessed_episodes_lem}
use project_loom.Episode.Exclusive.{
  System, start, next, here, count, one_worker_at_most, requeue-second_claim,
}

abbrev sample : ℕ → ProcessingStatus → ℕ → Option ℕ → Episode
sample id status attempts last = record {
  id = id;
  source = "manual";
  source_id = none;
  source_event_id = none;
  content = text "A decision.";
  content_hash = id;
  occurred_at = 5;
  ingested_at = 10;
  namespace = "default";
  metadata = none;
  participants = none;
  extraction_model = none;
  classification_model = none;
  extraction_metrics = none;
  ingestion_mode = "user_authored_seed";
  parser_version = none;
  parser_source_schema = none;
  embedding = none;
  tags = none;
  processed = some false;
  processing_status = status;
  processing_attempts = attempts;
  processing_last_attempt = last;
  processing_last_error = none;
  deleted_at = none;
  deletion_reason = none;
}

abbrev waiting : Episode
waiting = sample 1 pending 0 none

abbrev two_rows : Episodes
two_rows = waiting ∷ sample 2 failed 5 (some 100) ∷ []

two_rows-IsKeyed : IsKeyed (λ (r : Episode). r.id) two_rows
two_rows-IsKeyed = (((λ h. ground (arith, h)), tt), (tt, tt))

abbrev policy : RetryPolicy
policy = record { max_attempts = pos 2; base_backoff_secs = 30 }

abbrev no_model : Stages
no_model = record {
  embedding = err (text "connection refused");
  extraction = err (text "not reached");
  display = λ _. text "database error";
}

abbrev good : Stages
good = record {
  embedding = ok (text "[0.1]");
  extraction = ok ("gemma", text "{}");
  display = λ _. text "database error";
}

abbrev three_failures : List (ℕ × Stages)
three_failures = (200, no_model) ∷ (300, no_model) ∷ (400, no_model) ∷ []

truncate_error_example :
    (len (truncate_error (text "timeout")) ≤ 2000)
    × ((rest : Text) × (truncate_error (text "timeout") ++ rest ≡ text "timeout"))
    × (min (len (text "timeout")) 1997 ≤ len (truncate_error (text "timeout")))
truncate_error_example = truncate_error_lem (text "timeout")

process_with_retry_bookkeeping_example :
    row 1 (process_with_retry_bookkeeping policy good 200 1 two_rows)
    ≡ some (turn policy good 200 waiting)
process_with_retry_bookkeeping_example =
    process_with_retry_bookkeeping_lem policy good 200 1 waiting two_rows 1 two_rows-IsKeyed refl
      (λ _. omega arith)

poison_pill_example :
    (e' : Episode) × (row 1 (turns policy 1 three_failures two_rows) ≡ some e')
    × (e'.processing_attempts ≡ min 3 2)
    × (e'.processing_status ≡ failed)
poison_pill_example =
    poison_pill-failed policy 2 1 three_failures waiting two_rows refl (omega arith) (omega arith)
      two_rows-IsKeyed refl refl refl refl (refl, (refl, (refl, tt)))

list_unprocessed_episodes_example :
    (later : Episodes) × (others : Episodes) × Perm
      ((list_unprocessed_episodes 900 1 30 two_rows ++ later) ++ others)
      two_rows
    × All (IsWaiting 900 30) (list_unprocessed_episodes 900 1 30 two_rows ++ later)
    × All (λ e. IsWaiting 900 30 e → ⊥) others
    × IsInTurn (list_unprocessed_episodes 900 1 30 two_rows ++ later)
    × (length (list_unprocessed_episodes 900 1 30 two_rows)
        ≡ min 1 (length (list_unprocessed_episodes 900 1 30 two_rows ++ later)))
list_unprocessed_episodes_example = list_unprocessed_episodes_lem 900 1 30 two_rows

abbrev idle : System
idle = record { table = two_rows; running = [] }

abbrev claimed : Episodes
claimed = claim 200 waiting ∷ sample 2 failed 5 (some 100) ∷ []

claims : claim_episode_for_processing 200 1 two_rows ≡ (ok (some (claim 200 waiting)), claimed)
unfolding claim_episode_for_processing
claims = refl

abbrev one_running : System
one_running = record { table = claimed; running = 1 ∷ [] }

one_worker_at_most_example :
    All (λ r. count r.id (1 ∷ []) ≡ (if is_processing r.processing_status then 1 else 0)) claimed
one_worker_at_most_example =
    one_worker_at_most idle one_running two_rows-IsKeyed refl (refl, (refl, tt))
      (next here (start idle 200 1 (claim 200 waiting) claimed claims))

claimed-IsKeyed : IsKeyed (λ (r : Episode). r.id) claimed
claimed-IsKeyed = (((λ h. ground (arith, h)), tt), (tt, tt))

requeue-second_claim_example :
    (claim_episode_for_processing 250 1 (requeue_episode 1 claimed).1).0
    ≡ ok (some (claim 250 (requeue (claim 200 waiting))))
requeue-second_claim_example =
    requeue-second_claim 250 1 (claim 200 waiting) claimed claimed-IsKeyed refl refl refl
