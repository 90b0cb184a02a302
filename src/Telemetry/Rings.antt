-- ===== src/Telemetry/Rings.antt =====
-- The rings of the telemetry hold the latest points, and the errors are few and distinct
-- (`run_sampler`).
use project_loom.Common.{
  ℕ, suc, ◌≤◌, ◌≡◌, ◌≢◌, refl, sym, inl, inr, true, false, Option, none, some, List, [], ◌∷◌, ◌++◌,
  length, length-append, any, All, ltb, ltb→lt, not_ltb→le, lt→ltb, ◌==◌, ==_iff, arith, Bool-cases,
  Option-cases, if◌then◌else◌,
}
use mathlib.Core.List.{append-nil, append_assoc}
use project_loom.Common.Keyed.{IsKeyed}
use project_loom.Telemetry.State.{
  TelemetryState, DataPoint, ExtractionError, new_shared, push_sparkline, push_error, pop_front,
}
use project_loom.Telemetry.Sampler.{
  DbSnapshot, Sample, OllamaSnapshot, on_slow_path, push_errors, push_latency, with_db, with_ollama,
  with_host, tick, run_sampler,
}

module _ {A : Type 0} where
  -- The latest of a list of points, as many as a number says.
  abbrev pub last_n : ℕ → List A → List A
  last_n n [] = []
  last_n n (x ∷ xs) = if ltb n (length (x ∷ xs)) then last_n n xs else x ∷ xs

  last_n_all : (n : ℕ) (xs : List A) → length xs ≤ n → last_n n xs ≡ xs
  last_n_all n [] h = refl
  last_n_all n (x ∷ xs) h = elim (Bool-cases (ltb n (length (x ∷ xs)))) [
    | inl e ↦ absurd (omega (arith, ltb→lt _ _ e))
    | inr e ↦ rw e refl
  ]

  abbrev push : ℕ → List A → A → List A
  push n ring x =
      let pushed = ring ++ (x ∷ []) in if ltb n (length pushed) then pop_front pushed else pushed

  -- Pushing onto the latest points gives the latest points.
  push-last_n : (n : ℕ) (xs : List A) (x : A) → push n (last_n n xs) x ≡ last_n n (xs ++ (x ∷ []))
  push-last_n n [] x = refl
  push-last_n n (y ∷ ys) x =
      let longer : length ((y ∷ ys) ++ (x ∷ [])) ≡ suc (length (y ∷ ys)) =
        omega (arith, length-append (y ∷ ys) (x ∷ [])) in
      elim (Bool-cases (ltb n (length (y ∷ ys)))) [
        | inl full ↦
            let over : ltb n (length ((y ∷ ys) ++ (x ∷ []))) ≡ true =
              lt→ltb _ _ (omega (arith, ltb→lt _ _ full, longer)) in
            rw (full, over) (push-last_n n ys x)
        | inr room ↦ elim (Bool-cases (ltb n (length ((y ∷ ys) ++ (x ∷ []))))) [
          | inl over ↦
              let fits : length (ys ++ (x ∷ [])) ≤ n =
                omega (arith, not_ltb→le _ _ room, length-append ys (x ∷ [])) in
              rw (room, over) (sym (last_n_all n (ys ++ (x ∷ [])) fits))
          | inr fits ↦ rw (room, fits) refl
        ]
      ]

abbrev id_of : ExtractionError → ℕ
id_of e = e.episode_id

-- The errors that the dashboard shows.
abbrev pub IsErrorRing : List ExtractionError → Type 0
IsErrorRing es = (length es ≤ 10) × IsKeyed (λ (e : ExtractionError). e.episode_id) es

All-last :
    {A : Type 0} (P : A → Type 0) (xs : List A) (x : A) → All P xs → P x → All P (xs ++ (x ∷ []))
All-last P [] x h k = (k, tt)
All-last P (y ∷ ys) x h k = (h.0, All-last P ys x h.1 k)

pop_front-IsKeyed : (es : List ExtractionError) → IsKeyed id_of es → IsKeyed id_of (pop_front es)
pop_front-IsKeyed [] k = tt
pop_front-IsKeyed (e ∷ es) k = k.1

length-pop_front :
    (es : List ExtractionError) (n : ℕ) → length es ≤ suc n → length (pop_front es) ≤ n
length-pop_front [] n h = omega arith
length-pop_front (e ∷ es) n h = omega (arith, h)

append-IsKeyed :
    (es : List ExtractionError) (x : ExtractionError)
    → any (λ (e : ExtractionError). e.episode_id == x.episode_id) es ≡ false
    → IsKeyed id_of es
    → IsKeyed id_of (es ++ (x ∷ []))
append-IsKeyed [] x h k = (tt, tt)
append-IsKeyed (e ∷ es) x h k =
    let differs : id_of x ≢ id_of e = λ same. ground (arith, h, ==_iff (id_of e) (id_of x), same) in
    let rest : any (λ (r : ExtractionError). r.episode_id == x.episode_id) es ≡ false =
      ground (arith, h) in
    (All-last (λ r. id_of r ≢ id_of e) es x k.0 differs, append-IsKeyed es x rest k.1)

push_error-IsErrorRing :
    (es : List ExtractionError) (x : ExtractionError)
    → IsErrorRing es
    → IsErrorRing (push_error es x)
unfolding push_error
push_error-IsErrorRing es x (few, keyed) =
    elim (Bool-cases (any (λ (e : ExtractionError). e.episode_id == x.episode_id) es)) [
      | inl known ↦ rw known (few, keyed)
      | inr fresh ↦
          let pushed = es ++ (x ∷ []) in
          let keyed' = append-IsKeyed es x fresh keyed in
          let longer : length pushed ≡ suc (length es) = omega (arith, length-append es (x ∷ [])) in
          elim (Bool-cases (ltb 10 (length pushed))) [
            | inl over ↦
                rw (fresh, over)
                  (
                    length-pop_front pushed 10 (omega (arith, longer, few)),
                    pop_front-IsKeyed pushed keyed',
                  )
            | inr room ↦ rw (fresh, room) (not_ltb→le _ _ room, keyed')
          ]
    ]

push_errors-IsErrorRing :
    (ring es : List ExtractionError) → IsErrorRing ring → IsErrorRing (push_errors ring es)
push_errors-IsErrorRing ring [] h = h
push_errors-IsErrorRing ring (e ∷ es) h =
    push_errors-IsErrorRing (push_error ring e) es (push_error-IsErrorRing ring e h)

module _ {S : Type 0} (of_nat : ℕ → S) where
  -- The points that a snapshot adds to each ring.
  abbrev pub latency_points : ℕ → DbSnapshot S → List (DataPoint S)
  latency_points ts db = elim db.latency_total_p50_ms [
    | some lat ↦ record { ts = ts; v = lat } ∷ []
    | none ↦ []
  ]

  abbrev pub ingestion_points : ℕ → DbSnapshot S → List (DataPoint S)
  ingestion_points ts db = record { ts = ts; v = of_nat db.ingestion_completions_last_min } ∷ []

  abbrev pub compilation_points : ℕ → DbSnapshot S → List (DataPoint S)
  compilation_points ts db = record { ts = ts; v = of_nat db.compilation_requests_last_min } ∷ []

  abbrev pub points_of :
      (ℕ → DbSnapshot S → List (DataPoint S)) → ℕ → Option (DbSnapshot S) → List (DataPoint S)
  points_of points ts none = []
  points_of points ts (some db) = points ts db

  -- The points of the snapshots on the slow path, from a count of ticks on.
  abbrev pub history :
      (ℕ → DbSnapshot S → List (DataPoint S)) → ℕ → List (Sample S) → List (DataPoint S)
  history points tick_count [] = []
  history points tick_count (s ∷ ss) =
      points_of points s.now_ms (on_slow_path (suc tick_count) s.db)
      ++ history points (suc tick_count) ss

  -- The state after points are known for each ring.
  record IsRecent (l i c : List (DataPoint S)) (st : TelemetryState S) : Type 0 where
    pub latency : st.sparkline_latency ≡ last_n 60 l
    pub ingestion : st.sparkline_ingestion_rate ≡ last_n 60 i
    pub compilation : st.sparkline_compilation_rate ≡ last_n 60 c
    pub errors : IsErrorRing st.recent_errors

  latency_lem :
      (l : List (DataPoint S)) (ts : ℕ) (db : DbSnapshot S) (ring : List (DataPoint S))
      → ring ≡ last_n 60 l
      → push_latency of_nat ring ts db.latency_total_p50_ms ≡ last_n 60 (l ++ latency_points ts db)
  unfolding push_sparkline
  latency_lem l ts db ring h = elim (Option-cases db.latency_total_p50_ms) [
    | inl e ↦ rw (e, push_latency, append-nil l) h
    | inr (lat, e) ↦ rw (e, push_latency, h) (push-last_n 60 l (record { ts = ts; v = lat }))
  ]

  with_db-IsRecent :
      (l i c : List (DataPoint S)) (ts : ℕ) (o : Option (DbSnapshot S)) (st : TelemetryState S)
      → IsRecent l i c st
      → IsRecent
          (l ++ points_of latency_points ts o)
          (i ++ points_of ingestion_points ts o)
          (c ++ points_of compilation_points ts o)
          (with_db of_nat ts o st)
  unfolding push_sparkline
  with_db-IsRecent l i c ts none st h = rw (append-nil l, append-nil i, append-nil c) h
  with_db-IsRecent l i c ts (some db) st h = record {
    latency = latency_lem l ts db st.sparkline_latency h.latency;
    ingestion = rw h.ingestion (push-last_n 60 i _);
    compilation = rw h.compilation (push-last_n 60 c _);
    errors = push_errors-IsErrorRing st.recent_errors db.recent_errors h.errors;
  }

  with_host-IsRecent :
      (l i c : List (DataPoint S)) (s : Sample S) (st : TelemetryState S)
      → IsRecent l i c st
      → IsRecent l i c (with_host of_nat s st)
  with_host-IsRecent l i c s st h = record {
    latency = h.latency;
    ingestion = h.ingestion;
    compilation = h.compilation;
    errors = h.errors;
  }

  with_ollama-IsRecent :
      (l i c : List (DataPoint S)) (o : Option OllamaSnapshot) (st : TelemetryState S)
      → IsRecent l i c st
      → IsRecent l i c (with_ollama of_nat o st)
  with_ollama-IsRecent l i c none st h = h
  with_ollama-IsRecent l i c (some o) st h = record {
    latency = h.latency;
    ingestion = h.ingestion;
    compilation = h.compilation;
    errors = h.errors;
  }

  run_sampler-IsRecent :
      (n : ℕ) (ss : List (Sample S)) (l i c : List (DataPoint S)) (st : TelemetryState S)
      → IsRecent l i c st
      → IsRecent
          (l ++ history latency_points n ss)
          (i ++ history ingestion_points n ss)
          (c ++ history compilation_points n ss)
          (run_sampler of_nat n ss st)
  unfolding run_sampler tick
  run_sampler-IsRecent n [] l i c st h = rw (append-nil l, append-nil i, append-nil c) h
  run_sampler-IsRecent n (s ∷ ss) l i c st h =
      let o = on_slow_path (suc n) s.db in
      let st' = with_ollama of_nat (on_slow_path (suc n) s.ollama) (with_host of_nat s st) in
      let h' =
        with_ollama-IsRecent l i c (on_slow_path (suc n) s.ollama) _
          (with_host-IsRecent l i c s st h) in
      rw
        (
          ← append_assoc l (points_of latency_points s.now_ms o)
              (history latency_points (suc n) ss),
          ← append_assoc i (points_of ingestion_points s.now_ms o)
              (history ingestion_points (suc n) ss),
          ← append_assoc c (points_of compilation_points s.now_ms o)
              (history compilation_points (suc n) ss),
        )
        (run_sampler-IsRecent (suc n) ss _ _ _ (tick of_nat (suc n) s st)
          (with_db-IsRecent l i c s.now_ms o st' h'))

  -- After any samples since the start, each sparkline holds the latest sixty of the points that the
  -- snapshots on the slow path gave, in their order, and the recent errors are at most ten, of
  -- different episodes.
  pub run_sampler_lem :
      (zero_f : S) (ss : List (Sample S))
      → ((run_sampler of_nat 0 ss (new_shared zero_f)).sparkline_latency
          ≡ last_n 60 (history latency_points 0 ss))
        × ((run_sampler of_nat 0 ss (new_shared zero_f)).sparkline_ingestion_rate
            ≡ last_n 60 (history ingestion_points 0 ss))
        × ((run_sampler of_nat 0 ss (new_shared zero_f)).sparkline_compilation_rate
            ≡ last_n 60 (history compilation_points 0 ss))
        × IsErrorRing (run_sampler of_nat 0 ss (new_shared zero_f)).recent_errors
  run_sampler_lem zero_f ss =
      let start : IsRecent [] [] [] (new_shared zero_f) = record {
        latency = refl;
        ingestion = refl;
        compilation = refl;
        errors = (omega arith, tt);
      } in
      let r = run_sampler-IsRecent 0 ss [] [] [] (new_shared zero_f) start in
      (r.latency, r.ingestion, r.compilation, r.errors)
