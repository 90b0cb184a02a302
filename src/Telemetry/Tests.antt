-- ===== src/Telemetry/Tests.antt =====
-- Runs of the sampler.
use project_loom.Common.{ℕ, ◌≡◌, refl, none, some, List, [], ◌∷◌, map}
use project_loom.Common.Result.{ok, err}
use project_loom.Common.Text.{text}
use project_loom.Telemetry.State.{ExtractionError, new_shared}
use project_loom.Telemetry.Sampler.{Sample, DbSnapshot, run_sampler}
use project_loom.Telemetry.Rings.{
  last_n, history, latency_points, ingestion_points, compilation_points, IsErrorRing,
  run_sampler_lem,
}

abbrev failure_of : ℕ → ExtractionError
failure_of id = record {
  episode_id = id;
  source = "manual";
  error = text "timeout";
  occurred_at = 3;
}

abbrev snapshot : ℕ → DbSnapshot ℕ
snapshot n = record {
  active_ingestions = 1;
  queue_depth = 2;
  failed_episodes = 1;
  ingestion_completions_last_min = n;
  compilation_requests_last_min = 7;
  latency_classify_p50_ms = none;
  latency_retrieve_p50_ms = none;
  latency_rank_p50_ms = none;
  latency_compile_p50_ms = none;
  latency_total_p50_ms = some 120;
  recent_errors = failure_of 4 ∷ failure_of 3 ∷ [];
}

abbrev sample : ℕ → Sample ℕ
sample n = record {
  now_ms = n;
  cpu_pct = 5;
  used_memory = 2097152;
  total_memory = 4194304;
  ollama = err (text "request");
  db = ok (snapshot n);
}

abbrev samples : List (Sample ℕ)
samples = map sample (1 ∷ 2 ∷ 3 ∷ 4 ∷ 5 ∷ 6 ∷ [])

-- The fifth tick is on the slow path.
sampled :
    (run_sampler (λ n. n) 0 samples (new_shared 0)).sparkline_ingestion_rate
    ≡ record { ts = 5; v = 5 } ∷ []
unfolding run_sampler
sampled = refl

run_sampler_example :
    ((run_sampler (λ n. n) 0 samples (new_shared 0)).sparkline_latency
      ≡ last_n 60 (history (λ n. n) (latency_points (λ n. n)) 0 samples))
    × ((run_sampler (λ n. n) 0 samples (new_shared 0)).sparkline_ingestion_rate
        ≡ last_n 60 (history (λ n. n) (ingestion_points (λ n. n)) 0 samples))
    × ((run_sampler (λ n. n) 0 samples (new_shared 0)).sparkline_compilation_rate
        ≡ last_n 60 (history (λ n. n) (compilation_points (λ n. n)) 0 samples))
    × IsErrorRing (run_sampler (λ n. n) 0 samples (new_shared 0)).recent_errors
run_sampler_example = run_sampler_lem (λ n. n) 0 samples
