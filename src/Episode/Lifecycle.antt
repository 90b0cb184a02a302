-- ===== src/Episode/Lifecycle.antt =====
-- The lifecycle queries (loom-engine/src/db/episodes.rs, "Processing lifecycle").
use project_loom.Common.{
  ℕ, zero, suc, String, ◌+◌, ◌*◌, ◌^◌, min, Bool, true, false, Option, none, some, take, keep, ltb,
  leb, is_none, ◌&&◌, ◌||◌, if◌then◌else◌,
}
use project_loom.Common.Int.{ℤ, pos, leb_ℤ}
use project_loom.Common.Result.{Result, ok, err}
use project_loom.Common.Table.{
  DbError, out_of_range, update_where, update_one, update_optional, count_where, find_where,
}
use project_loom.Common.Text.{Text, len, is_char_boundary, slice_to}
use project_loom.Common.Sort.{sort_by}
use project_loom.Episode.Rows.{
  ProcessingStatus, pending, processing, completed, failed, Episode, Episodes, is_pending,
  is_failed, has_id,
}

-- The largest value of an INTEGER column, plus one. A statement that passes it fails.
abbrev pub i32_end : ℕ
i32_end = 2147483648

abbrev pub with_embedding : Text → Episode → Episode
with_embedding v e = record e { embedding = some v }

unfoldable pub store_episode_embedding : ℕ → Text → Episodes → Result DbError Episode × Episodes
store_episode_embedding id embedding t = update_one (has_id id) (with_embedding embedding) t

abbrev pub mark_processed : Text → Episode → Episode
mark_processed metrics e = record e {
  processed = some true;
  processing_status = completed;
  processing_last_error = none;
  extraction_metrics = some metrics;
}

unfoldable pub mark_episode_processed : ℕ → Text → Episodes → Result DbError Episode × Episodes
mark_episode_processed id metrics t = update_one (has_id id) (mark_processed metrics) t

abbrev pub processing_error_max_len : ℕ
processing_error_max_len = 2000

abbrev pub is_claimable : ℕ → Episode → Bool
is_claimable id e = has_id id e && (is_pending e.processing_status && is_none e.deleted_at)

abbrev pub claim : ℕ → Episode → Episode
claim now e = record e {
  processing_status = processing;
  processing_attempts = e.processing_attempts + 1;
  processing_last_attempt = some now;
}

unfoldable pub claim_episode_for_processing :
    ℕ → ℕ → Episodes → Result DbError (Option Episode) × Episodes
claim_episode_for_processing now id t = elim (find_where (is_claimable id) t) [
  | none ↦ (ok none, t)
  | some e ↦
      if ltb (e.processing_attempts + 1) i32_end
      then (ok (some (claim now e)), update_where (is_claimable id) (claim now) t)
      else (err out_of_range, t)
]

-- `while !error.is_char_boundary(cut) && cut > 0 { cut -= 1; }`
unfoldable pub floor_char_boundary : Text → ℕ → ℕ
floor_char_boundary error zero = zero
floor_char_boundary error (suc cut) =
    let rest = floor_char_boundary error cut in
    if is_char_boundary error (suc cut) then suc cut else rest

unfoldable pub truncate_error : Text → Text
unfolding floor_char_boundary
truncate_error error =
    if ltb processing_error_max_len (len error)
    then slice_to error (floor_char_boundary error processing_error_max_len)
    else error

-- The CASE expression of the UPDATE, over the attempts of the row.
abbrev pub status_after_failure : ℕ → ℤ → ProcessingStatus
status_after_failure attempts max_attempts =
    if leb_ℤ max_attempts (pos attempts) then failed else pending

abbrev pub fail : Text → ℤ → Episode → Episode
fail truncated max_attempts e = record e {
  processing_status = status_after_failure e.processing_attempts max_attempts;
  processing_last_error = some truncated;
}

unfoldable pub record_processing_failure :
    ℕ → Text → ℤ → Episodes → Result DbError Episode × Episodes
record_processing_failure id error max_attempts t =
    update_one (has_id id) (fail (truncate_error error) max_attempts) t

abbrev pub requeue : Episode → Episode
requeue e = record e {
  processing_status = pending;
  processing_attempts = 0;
  processing_last_attempt = none;
  processing_last_error = none;
  processed = some false;
}

unfoldable pub requeue_episode : ℕ → Episodes → Result DbError (Option Episode) × Episodes
requeue_episode id t = let (row, t') = update_optional (has_id id) requeue t in (ok row, t')

abbrev pub is_live_failed : Episode → Bool
is_live_failed e = is_failed e.processing_status && is_none e.deleted_at

unfoldable pub requeue_all_failed_episodes : Episodes → Result DbError ℕ × Episodes
requeue_all_failed_episodes t =
    (ok (count_where is_live_failed t), update_where is_live_failed requeue t)

unfoldable pub count_failed_episodes : Episodes → ℕ
count_failed_episodes t = count_where is_live_failed t

-- `DESC NULLS LAST`
abbrev pub desc_nulls_last : Option ℕ → Option ℕ → Bool
desc_nulls_last (some s) (some t) = leb t s
desc_nulls_last (some _) none = true
desc_nulls_last none (some _) = false
desc_nulls_last none none = true

unfoldable pub list_failed_episodes : ℕ → Episodes → Episodes
list_failed_episodes limit t = take limit (
    sort_by (λ a b. desc_nulls_last a.processing_last_attempt b.processing_last_attempt)
      (keep is_live_failed t))

-- `COALESCE(NULLIF($3, ''), classification_model)`: `none` stands for the empty string.
abbrev pub with_extraction : String → Option String → Text → Episode → Episode
with_extraction extraction_model classification_model metrics e = record e {
  extraction_model = some extraction_model;
  classification_model = elim classification_model [
    | some m ↦ some m
    | none ↦ e.classification_model
  ];
  extraction_metrics = some metrics;
}

unfoldable pub update_extraction_metrics :
    ℕ → String → Option String → Text → Episodes → Result DbError Episode × Episodes
update_extraction_metrics id extraction_model classification_model metrics t =
    update_one (has_id id) (with_extraction extraction_model classification_model metrics) t

abbrev pub soft_delete : ℕ → Text → Episode → Episode
soft_delete now reason e = record e { deleted_at = some now; deletion_reason = some reason }

unfoldable pub soft_delete_episode : ℕ → ℕ → Text → Episodes → Result DbError Episode × Episodes
soft_delete_episode now id reason t = update_one (has_id id) (soft_delete now reason) t

-- `base * (1::bigint << LEAST(attempts, 20))` seconds, in microseconds.
unfoldable pub backoff : ℕ → ℕ → ℕ
backoff base attempts = base * 2 ^ min attempts 20 * 1000000

abbrev pub backoff_elapsed : ℕ → ℕ → ℕ → Option ℕ → Bool
backoff_elapsed now base attempts none = true
backoff_elapsed now base attempts (some last) = ltb (last + backoff base attempts) now

unfoldable pub is_due : ℕ → ℕ → Episode → Bool
unfolding backoff
is_due now base e =
    is_pending e.processing_status
    && (is_none e.deleted_at
        && backoff_elapsed now base e.processing_attempts e.processing_last_attempt)

-- `ORDER BY processing_last_attempt NULLS FIRST, ingested_at ASC`
abbrev pub due_before : Option ℕ → ℕ → Option ℕ → ℕ → Bool
due_before none i none j = leb i j
due_before none i (some _) j = true
due_before (some _) i none j = false
due_before (some s) i (some t) j = ltb s t || (leb s t && leb i j)

abbrev pub due_first : Episode → Episode → Bool
due_first a b =
    due_before a.processing_last_attempt a.ingested_at b.processing_last_attempt b.ingested_at

unfoldable pub list_unprocessed_episodes : ℕ → ℕ → ℕ → Episodes → Episodes
unfolding is_due
list_unprocessed_episodes now limit base t =
    take limit (sort_by due_first (keep (is_due now base) t))
