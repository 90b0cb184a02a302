-- ===== src/Online/Scores.antt =====
-- The four scores of a candidate (pipeline/online/rank.rs). `now` is the time of the ranking, in
-- microseconds as the times of the episodes are.
use project_loom.Common.{ℕ, ◌-◌, ◌/◌, String, none, some, ◌&&◌, not, ◌==◌, length, if◌then◌else◌}
use project_loom.Common.Int.{ℤ, pos, negsuc, leb_ℤ}
use text.Mathlib.Text.{◌==◌ as str_eq}
use project_loom.Online.Types.{
  IngestionMode, user_authored_seed, vendor_import, live_mcp_capture, fact, episode, graph_result,
  procedure, summary, RetrievalCandidate, WeightedCandidate, RankingScore,
}
use project_loom.Online.Float.{Float}
use project_loom.Online.Weight.{apply_compression_bonus}

module _ {S : Type 0} (F : Float S) where
  unfoldable pub evidence_authority : String → S
  evidence_authority status =
      if str_eq status "user_asserted"
      then F.lit 1 0
      else if str_eq status "observed"
      then F.lit 8 1
      else if str_eq status "promoted"
      then F.lit 7 1
      else if str_eq status "extracted"
      then F.lit 6 1
      else if str_eq status "inferred"
      then F.lit 4 1
      else if str_eq status "deprecated"
      then F.lit 2 1
      else if str_eq status "superseded"
      then F.lit 1 1
      else F.lit 5 1

  unfoldable pub provenance_coefficient : IngestionMode → S
  provenance_coefficient live_mcp_capture = F.lit 1 0
  provenance_coefficient user_authored_seed = F.lit 8 1
  provenance_coefficient vendor_import = F.lit 6 1

  unfoldable pub score_relevance : WeightedCandidate S → S
  unfolding apply_compression_bonus
  score_relevance w =
      let base_score = F.clamp w.weighted_score in
      elim w.candidate.payload [
        | summary s ↦ F.clamp (apply_compression_bonus F base_score s.fact_count)
        | _ ↦ base_score
      ]

  unfoldable pub compute_recency_decay : S → S
  compute_recency_decay age_days =
      F.clamp (F.exp (F.div (F.mul (F.neg age_days) (F.ln (F.lit 2 0))) (F.lit 30 0)))

  -- The tests `0 | 1` and `2` of a hop depth.
  abbrev pub by_hops : ℤ → S → S → S → S
  by_hops (pos n) near middle far =
      if leb_ℤ (pos n) (pos 1) then near else if n == 2 then middle else far
  by_hops (negsuc n) near middle far = far

  unfoldable pub score_recency : ℕ → RetrievalCandidate S → S
  unfolding compute_recency_decay
  score_recency now candidate = elim candidate.payload [
    | episode ep ↦
        compute_recency_decay (F.div (F.of_nat ((now - ep.occurred_at) / 3600000000)) (F.lit 24 0))
    | fact _ ↦ F.lit 6 1
    | graph_result g ↦ by_hops g.hop_depth (F.lit 8 1) (F.lit 6 1) (F.lit 4 1)
    | procedure _ ↦ F.lit 5 1
    | summary _ ↦ F.lit 6 1
  ]

  -- `(count as f64 / 10.0).min(1.0)`
  abbrev pub tenths : ℤ → S
  tenths count = F.min_f (F.div (F.of_int count) (F.lit 10 0)) (F.lit 1 0)

  unfoldable pub score_stability : RetrievalCandidate S → S
  unfolding evidence_authority
  score_stability candidate = elim candidate.payload [
    | fact f ↦
        let is_current =
          not (str_eq f.evidence_status "superseded")
          && not (str_eq f.evidence_status "deprecated") in
        let base = if is_current then F.lit 5 1 else F.lit 1 1 in
        let authority = F.mul (evidence_authority f.evidence_status) (F.lit 3 1) in
        let salience = F.mul (F.lit 5 1) (F.lit 2 1) in
        F.clamp (F.add (F.add base authority) salience)
    | episode _ ↦ F.lit 8 1
    | graph_result g ↦ by_hops g.hop_depth (F.lit 7 1) (F.lit 5 1) (F.lit 3 1)
    | procedure p ↦
        F.clamp
          (F.add (F.mul p.confidence (F.lit 5 1)) (F.mul (tenths p.observation_count) (F.lit 5 1)))
    | summary s ↦ F.clamp (
        F.add (F.mul (evidence_authority s.evidence_status) (F.lit 6 1))
          (F.mul (tenths s.fact_count) (F.lit 4 1)))
  ]

  unfoldable pub score_provenance_base : RetrievalCandidate S → S
  unfolding evidence_authority
  score_provenance_base candidate = elim candidate.payload [
    | fact f ↦
        let episode_score =
          F.mul (F.min_f (F.div (F.of_nat (length f.source_episodes)) (F.lit 5 0)) (F.lit 1 0))
            (F.lit 5 1) in
        F.clamp (F.add episode_score (F.mul (evidence_authority f.evidence_status) (F.lit 5 1)))
    | episode _ ↦ F.lit 8 1
    | graph_result _ ↦ F.lit 5 1
    | procedure p ↦
        F.clamp
          (F.add (F.mul (tenths p.observation_count) (F.lit 6 1)) (F.mul p.confidence (F.lit 4 1)))
    | summary s ↦ F.clamp (
        F.add (F.mul (tenths s.fact_count) (F.lit 6 1))
          (F.mul (evidence_authority s.evidence_status) (F.lit 4 1)))
  ]

  unfoldable pub score_provenance : RetrievalCandidate S → S
  unfolding score_provenance_base provenance_coefficient
  score_provenance candidate =
      let coefficient : S = elim candidate.provenance_mode [
        | some m ↦ provenance_coefficient m
        | none ↦ F.lit 1 0
      ] in
      F.clamp (F.mul (score_provenance_base candidate) coefficient)

  unfoldable pub compute_final_score : RankingScore S → S
  compute_final_score scores =
      F.add
        (F.add (F.add (F.mul scores.relevance (F.lit 40 2)) (F.mul scores.recency (F.lit 25 2)))
          (F.mul scores.stability (F.lit 20 2)))
        (F.mul scores.provenance (F.lit 15 2))
