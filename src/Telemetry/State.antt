-- ===== src/Telemetry/State.antt =====
-- The shared state (loom-engine/src/telemetry/state.rs), over the type of its f64 values. A
-- `VecDeque` is a list with its front at the head.
use project_loom.Common.{
  ℕ, String, Bool, false, Option, none, List, [], ◌∷◌, ◌++◌, length, any, ltb, ◌==◌, if◌then◌else◌,
}
use project_loom.Common.Text.{Text}

abbrev pub ring_depth : ℕ
ring_depth = 60

abbrev pub max_recent_errors : ℕ
max_recent_errors = 10

pub record DataPoint (S : Type 0) : Type 0 where
  pub ts : ℕ
  pub v : S

-- Ids are numbers here, and a text of digits in the program.
pub record ExtractionError : Type 0 where
  pub episode_id : ℕ
  pub source : String
  pub error : Text
  pub occurred_at : ℕ

pub record TelemetryState (S : Type 0) : Type 0 where
  pub cpu_pct : S
  pub mem_used_mib : ℕ
  pub mem_total_mib : ℕ
  pub ollama_model : Option String
  pub ollama_on_gpu : Bool
  pub ollama_vram_mib : Option ℕ
  pub latency_classify_p50_ms : Option S
  pub latency_retrieve_p50_ms : Option S
  pub latency_rank_p50_ms : Option S
  pub latency_compile_p50_ms : Option S
  pub latency_total_p50_ms : Option S
  pub active_ingestions : ℕ
  pub queue_depth : ℕ
  pub failed_episodes : ℕ
  pub sparkline_latency : List (DataPoint S)
  pub sparkline_ingestion_rate : List (DataPoint S)
  pub sparkline_compilation_rate : List (DataPoint S)
  pub recent_errors : List ExtractionError

-- `TelemetryState::default()`, with the zero of f32
abbrev pub new_shared : {S : Type 0} → S → TelemetryState S
new_shared zero_f = record {
  cpu_pct = zero_f;
  mem_used_mib = 0;
  mem_total_mib = 0;
  ollama_model = none;
  ollama_on_gpu = false;
  ollama_vram_mib = none;
  latency_classify_p50_ms = none;
  latency_retrieve_p50_ms = none;
  latency_rank_p50_ms = none;
  latency_compile_p50_ms = none;
  latency_total_p50_ms = none;
  active_ingestions = 0;
  queue_depth = 0;
  failed_episodes = 0;
  sparkline_latency = [];
  sparkline_ingestion_rate = [];
  sparkline_compilation_rate = [];
  recent_errors = [];
}

-- `pop_front`
abbrev pub pop_front : {A : Type 0} → List A → List A
pop_front [] = []
pop_front (x ∷ xs) = xs

unfoldable pub push_sparkline : {S : Type 0} → List (DataPoint S) → ℕ → S → List (DataPoint S)
push_sparkline ring ts v =
    let pushed = ring ++ (record { ts = ts; v = v } ∷ []) in
    if ltb ring_depth (length pushed) then pop_front pushed else pushed

unfoldable pub push_error : List ExtractionError → ExtractionError → List ExtractionError
push_error errors err =
    let pushed = errors ++ (err ∷ []) in
    if any (λ (e : ExtractionError). e.episode_id == err.episode_id) errors
    then errors
    else if ltb max_recent_errors (length pushed)
    then pop_front pushed
    else pushed
