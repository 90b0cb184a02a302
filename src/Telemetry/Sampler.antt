-- ===== src/Telemetry/Sampler.antt =====
-- The sampler (loom-engine/src/telemetry/sampler.rs): the queries for its snapshot of the database,
-- and one tick. What the host and Ollama report, and the percentiles of the database, are arguments.
use project_loom.Common.{
  ℕ, suc, ◌+◌, ◌/◌, ◌%◌, String, Bool, true, false, Option, none, some, List, [], ◌∷◌, ◌&&◌, map,
  keep, take, is_none, is_some, ltb, leb, ◌==◌, get_or_default, if◌then◌else◌,
}
use project_loom.Common.Int.{ℤ}
use project_loom.Common.Result.{Result, ok, err}
use project_loom.Common.Sort.{sort_by}
use project_loom.Common.Table.{DbError, count_where}
use project_loom.Common.Text.{Text, text}
use project_loom.Episode.{
  Episode, Episodes, ProcessingStatus, completed, is_pending, is_processing, is_failed,
  desc_nulls_last,
}
use project_loom.Telemetry.State.{
  TelemetryState, DataPoint, ExtractionError, push_sparkline, push_error,
}

-- The columns of `loom_audit_log` that the queries read.
pub record AuditRow : Type 0 where
  pub created_at : Option ℕ
  pub latency_classify_ms : Option ℤ
  pub latency_retrieve_ms : Option ℤ
  pub latency_rank_ms : Option ℤ
  pub latency_compile_ms : Option ℤ
  pub latency_total_ms : Option ℤ

pub record OllamaModel : Type 0 where
  pub name : String
  pub size_vram : ℕ

pub record OllamaSnapshot : Type 0 where
  pub model : Option String
  pub on_gpu : Bool
  pub vram_mib : Option ℕ

-- The answer of `/api/ps`: none for an error status, else the models that are loaded.
unfoldable pub poll_ollama : Result Text (Option (List OllamaModel)) → Result Text OllamaSnapshot
poll_ollama (err e) = err e
poll_ollama (ok none) = ok (record { model = none; on_gpu = false; vram_mib = none })
poll_ollama (ok (some [])) = ok (record { model = none; on_gpu = false; vram_mib = none })
poll_ollama (ok (some (m ∷ ms))) = ok (record {
  model = some m.name;
  on_gpu = ltb 0 m.size_vram;
  vram_mib = if ltb 0 m.size_vram then some (m.size_vram / 1024 / 1024) else none;
})

pub record DbSnapshot (S : Type 0) : Type 0 where
  pub active_ingestions : ℕ
  pub queue_depth : ℕ
  pub failed_episodes : ℕ
  pub ingestion_completions_last_min : ℕ
  pub compilation_requests_last_min : ℕ
  pub latency_classify_p50_ms : Option S
  pub latency_retrieve_p50_ms : Option S
  pub latency_rank_p50_ms : Option S
  pub latency_compile_p50_ms : Option S
  pub latency_total_p50_ms : Option S
  pub recent_errors : List ExtractionError

abbrev pub is_completed : ProcessingStatus → Bool
is_completed completed = true
is_completed _ = false

-- `t > NOW() - INTERVAL '60 seconds'`
abbrev pub within_minute : ℕ → Option ℕ → Bool
within_minute now (some t) = ltb now (t + 60000000)
within_minute now none = false

-- `ORDER BY created_at DESC`, where NULL comes first
abbrev pub desc_nulls_first : Option ℕ → Option ℕ → Bool
desc_nulls_first none _ = true
desc_nulls_first (some s) none = false
desc_nulls_first (some s) (some t) = leb t s

abbrev pub with_status : (ProcessingStatus → Bool) → Episode → Bool
with_status p e = p e.processing_status && is_none e.deleted_at

-- `timestamp_millis`
abbrev pub error_of : Episode → ExtractionError
error_of e = record {
  episode_id = e.id;
  source = e.source;
  error = get_or_default e.processing_last_error (text "unknown");
  occurred_at = elim e.processing_last_attempt [ some t ↦ t / 1000 | none ↦ 0 ];
}

-- The last compilations that the percentiles are taken of.
abbrev pub recent_compilations : List AuditRow → List AuditRow
recent_compilations audit = take 60 (
    sort_by (λ (a b : AuditRow). desc_nulls_first a.created_at b.created_at)
      (keep (λ (a : AuditRow). is_some a.latency_total_ms) audit))

module _ {S : Type 0} (p50 : List (Option ℤ) → Option S) where
  abbrev pub p50_of : (AuditRow → Option ℤ) → List AuditRow → Option S
  p50_of column audit = p50 (map column (recent_compilations audit))

  unfoldable pub query_db_snapshot : ℕ → Episodes → List AuditRow → DbSnapshot S
  query_db_snapshot now t audit = record {
    active_ingestions = count_where (with_status is_processing) t;
    queue_depth = count_where (with_status is_pending) t;
    failed_episodes = count_where (with_status is_failed) t;
    ingestion_completions_last_min =
        count_where
          (λ (e : Episode).
            with_status is_completed e && within_minute now e.processing_last_attempt)
          t;
    compilation_requests_last_min =
        count_where (λ (a : AuditRow). within_minute now a.created_at) audit;
    latency_classify_p50_ms = p50_of (λ a. a.latency_classify_ms) audit;
    latency_retrieve_p50_ms = p50_of (λ a. a.latency_retrieve_ms) audit;
    latency_rank_p50_ms = p50_of (λ a. a.latency_rank_ms) audit;
    latency_compile_p50_ms = p50_of (λ a. a.latency_compile_ms) audit;
    latency_total_p50_ms = p50_of (λ a. a.latency_total_ms) audit;
    recent_errors = map error_of (
        take 10 (
          sort_by
            (λ (a b : Episode). desc_nulls_last a.processing_last_attempt b.processing_last_attempt)
            (keep (with_status is_failed) t)));
  }

abbrev pub slow_path_every : ℕ
slow_path_every = 5

-- What one tick finds: the host, and on the slow path the two snapshots, unless they fail.
pub record Sample (S : Type 0) : Type 0 where
  pub now_ms : ℕ
  pub cpu_pct : S
  pub used_memory : ℕ
  pub total_memory : ℕ
  pub ollama : Result Text OllamaSnapshot
  pub db : Result DbError (DbSnapshot S)

abbrev pub on_slow_path : {E A : Type 0} → ℕ → Result E A → Option A
on_slow_path tick_count (ok a) = if tick_count % slow_path_every == 0 then some a else none
on_slow_path tick_count (err e) = none

abbrev pub push_errors : List ExtractionError → List ExtractionError → List ExtractionError
push_errors ring [] = ring
push_errors ring (e ∷ es) = push_errors (push_error ring e) es

module _ {S : Type 0} (of_nat : ℕ → S) where
  abbrev pub push_latency : List (DataPoint S) → ℕ → Option S → List (DataPoint S)
  push_latency ring ts (some lat) = push_sparkline ring ts lat
  push_latency ring ts none = ring

  abbrev pub with_host : Sample S → TelemetryState S → TelemetryState S
  with_host s st = record st {
    cpu_pct = s.cpu_pct;
    mem_used_mib = s.used_memory / 1024 / 1024;
    mem_total_mib = s.total_memory / 1024 / 1024;
  }

  abbrev pub with_ollama : Option OllamaSnapshot → TelemetryState S → TelemetryState S
  with_ollama none st = st
  with_ollama (some o) st = record st {
    ollama_model = o.model;
    ollama_on_gpu = o.on_gpu;
    ollama_vram_mib = o.vram_mib;
  }

  abbrev pub with_db : ℕ → Option (DbSnapshot S) → TelemetryState S → TelemetryState S
  with_db now_ms none st = st
  with_db now_ms (some db) st = record st {
    active_ingestions = db.active_ingestions;
    queue_depth = db.queue_depth;
    failed_episodes = db.failed_episodes;
    latency_classify_p50_ms = db.latency_classify_p50_ms;
    latency_retrieve_p50_ms = db.latency_retrieve_p50_ms;
    latency_rank_p50_ms = db.latency_rank_p50_ms;
    latency_compile_p50_ms = db.latency_compile_p50_ms;
    latency_total_p50_ms = db.latency_total_p50_ms;
    sparkline_latency = push_latency st.sparkline_latency now_ms db.latency_total_p50_ms;
    sparkline_ingestion_rate =
        push_sparkline st.sparkline_ingestion_rate now_ms
          (of_nat db.ingestion_completions_last_min);
    sparkline_compilation_rate =
        push_sparkline st.sparkline_compilation_rate now_ms
          (of_nat db.compilation_requests_last_min);
    recent_errors = push_errors st.recent_errors db.recent_errors;
  }

  -- The body of the loop; the count starts with 1.
  unfoldable pub tick : ℕ → Sample S → TelemetryState S → TelemetryState S
  unfolding push_sparkline push_error
  tick tick_count s st =
      with_db s.now_ms (on_slow_path tick_count s.db)
        (with_ollama (on_slow_path tick_count s.ollama) (with_host s st))

  -- The loop over the samples, until it is cancelled.
  unfoldable pub run_sampler : ℕ → List (Sample S) → TelemetryState S → TelemetryState S
  unfolding tick
  run_sampler tick_count [] st = st
  run_sampler tick_count (s ∷ ss) st = run_sampler (suc tick_count) ss (tick (suc tick_count) s st)
