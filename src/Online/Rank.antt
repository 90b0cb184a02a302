-- ===== src/Online/Rank.antt =====
-- Ranking and the trim to a token budget (pipeline/online/rank.rs).
use project_loom.Common.{
  ℕ, ◌+◌, ◌/◌, ◌≤◌, min, max, ◌≡◌, refl, ap, subst, inl, inr, Bool, true, false, List, [], ◌∷◌, map,
  All, Bool-cases, leb, leb→le, ◌==◌, sum, if◌then◌else◌, arith,
}
use mathlib.Core.List.{Perm}
use mathlib.Core.List.Perm
use project_loom.Common.Int.{ℤ, pos, negsuc, leb_ℤ}
use project_loom.Common.Text.{len}
use project_loom.Common.Sort.{sort_by, IsSorted, sort_by-IsSorted, sort_by-perm, All-sort_by}
use project_loom.Online.Types.{
  CandidatePayload, fact, episode, graph_result, procedure, summary, RetrievalCandidate,
  WeightedCandidate, RankingScore, RankedCandidate,
}
use project_loom.Online.Float.{Float, IsLawful}
use project_loom.Online.Weight.{apply_compression_bonus}
use project_loom.Online.Scores.{
  score_relevance, score_recency, score_stability, score_provenance, compute_final_score, by_hops,
  compute_recency_decay,
}

-- `clamp(low, high)`
abbrev pub clamp_between : ℕ → ℕ → ℕ → ℕ
clamp_between low high n = max low (min n high)

module _ {S : Type 0} where
  unfoldable pub estimate_tokens : RetrievalCandidate S → ℕ
  unfolding len
  estimate_tokens candidate = elim candidate.payload [
    | fact _ ↦ 50
    | episode ep ↦ clamp_between 20 200 (len ep.content / 4)
    | graph_result _ ↦ 30
    | procedure _ ↦ 40
    | summary s ↦ clamp_between 50 300 (len s.summary_text / 4)
  ]

  -- The loop, from the tokens that are taken so far.
  unfoldable pub trim_from : ℕ → ℕ → List (RankedCandidate S) → List (RankedCandidate S)
  unfolding estimate_tokens
  trim_from token_budget total_tokens [] = []
  trim_from token_budget total_tokens (c ∷ cs) =
      let estimated_tokens = estimate_tokens c.candidate in
      elim (leb (total_tokens + estimated_tokens) token_budget) [
        | true ↦ c ∷ trim_from token_budget (total_tokens + estimated_tokens) cs
        | false ↦ trim_from token_budget total_tokens cs
      ]

  unfoldable pub trim_to_budget : List (RankedCandidate S) → ℕ → List (RankedCandidate S)
  unfolding trim_from
  trim_to_budget ranked token_budget = trim_from token_budget 0 ranked

  abbrev pub tokens_of : List (RankedCandidate S) → ℕ
  tokens_of cs = sum (map (λ c. estimate_tokens c.candidate) cs)

module _ {S : Type 0} (F : Float S) where
  unfoldable pub rank_one : ℕ → WeightedCandidate S → RankedCandidate S
  unfolding score_relevance score_recency score_stability score_provenance compute_final_score
  rank_one now wc =
      let scores : RankingScore S = record {
        relevance = score_relevance F wc;
        recency = score_recency F now wc.candidate;
        stability = score_stability F wc.candidate;
        provenance = score_provenance F wc.candidate;
      } in
      record {
        candidate = wc.candidate;
        scores = scores;
        final_score = compute_final_score F scores;
      }

  abbrev pub by_final_score : RankedCandidate S → RankedCandidate S → Bool
  by_final_score a b = F.le b.final_score a.final_score

  unfoldable pub rank_candidates : ℕ → List (WeightedCandidate S) → List (RankedCandidate S)
  unfolding sort_by rank_one
  rank_candidates now weighted = sort_by by_final_score (map (rank_one now) weighted)

  abbrev pub IsUnit : S → Type 0
  IsUnit a = (F.le (F.lit 0 0) a ≡ true) × (F.le a (F.lit 1 0) ≡ true)

module _ {S : Type 0} (F : Float S) (law : IsLawful F) where
  clamp-IsUnit : (a : S) → IsUnit F (F.clamp a)
  clamp-IsUnit a = (law.clamp-ge a, law.clamp-le a)

  tenth-IsUnit : (n : ℕ) → n ≤ 10 → IsUnit F (F.lit n 1)
  tenth-IsUnit n h = (law.lit-le 0 0 n 1 (omega arith), law.lit-le n 1 1 0 (omega (arith, h)))

  if-IsUnit : (b : Bool) (x y : S) → IsUnit F x → IsUnit F y → IsUnit F (if b then x else y)
  if-IsUnit true x y h k = h
  if-IsUnit false x y h k = k

  by_hops-IsUnit :
      (k : ℤ) (a b c : S) → IsUnit F a → IsUnit F b → IsUnit F c → IsUnit F (by_hops F k a b c)
  by_hops-IsUnit (pos n) a b c ha hb hc =
      if-IsUnit (leb_ℤ (pos n) (pos 1)) a _ ha (if-IsUnit (n == 2) b c hb hc)
  by_hops-IsUnit (negsuc n) a b c ha hb hc = hc

  score_relevance-IsUnit : (w : WeightedCandidate S) → IsUnit F (score_relevance F w)
  unfolding score_relevance
  score_relevance-IsUnit w =
      elim w.candidate.payload
        as (λ p. IsUnit F (elim p [
          | summary s ↦ F.clamp (apply_compression_bonus F (F.clamp w.weighted_score) s.fact_count)
          | _ ↦ F.clamp w.weighted_score
        ])) [ summary s ↦ clamp-IsUnit _ | _ ↦ clamp-IsUnit _ ]

  score_recency-IsUnit : (now : ℕ) (c : RetrievalCandidate S) → IsUnit F (score_recency F now c)
  unfolding score_recency compute_recency_decay
  score_recency-IsUnit now c = go c.payload
    where
      go : (p : CandidatePayload S) → IsUnit F (score_recency F now (record c { payload = p }))
      go (episode ep) = clamp-IsUnit _
      go (fact _) = tenth-IsUnit 6 (omega arith)
      go (graph_result g) =
          by_hops-IsUnit g.hop_depth _ _ _ (tenth-IsUnit 8 (omega arith))
            (tenth-IsUnit 6 (omega arith)) (tenth-IsUnit 4 (omega arith))
      go (procedure _) = tenth-IsUnit 5 (omega arith)
      go (summary _) = tenth-IsUnit 6 (omega arith)

  score_stability-IsUnit : (c : RetrievalCandidate S) → IsUnit F (score_stability F c)
  unfolding score_stability
  score_stability-IsUnit c = go c.payload
    where
      go : (p : CandidatePayload S) → IsUnit F (score_stability F (record c { payload = p }))
      go (episode ep) = tenth-IsUnit 8 (omega arith)
      go (fact _) = clamp-IsUnit _
      go (graph_result g) =
          by_hops-IsUnit g.hop_depth _ _ _ (tenth-IsUnit 7 (omega arith))
            (tenth-IsUnit 5 (omega arith)) (tenth-IsUnit 3 (omega arith))
      go (procedure _) = clamp-IsUnit _
      go (summary _) = clamp-IsUnit _

  score_provenance-IsUnit : (c : RetrievalCandidate S) → IsUnit F (score_provenance F c)
  unfolding score_provenance
  score_provenance-IsUnit c = clamp-IsUnit _

  -- The scores of one candidate all lie between 0 and 1.
  abbrev pub IsScored : RankedCandidate S → Type 0
  IsScored r =
      IsUnit F r.scores.relevance
      × IsUnit F r.scores.recency
      × IsUnit F r.scores.stability
      × IsUnit F r.scores.provenance

  rank-All-IsScored :
      (now : ℕ) (ws : List (WeightedCandidate S)) → All IsScored (map (rank_one F now) ws)
  unfolding rank_one
  rank-All-IsScored now [] = tt
  rank-All-IsScored now (w ∷ ws) = (
    (
      score_relevance-IsUnit w,
      score_recency-IsUnit now w.candidate,
      score_stability-IsUnit w.candidate,
      score_provenance-IsUnit w.candidate,
    ),
    rank-All-IsScored now ws,
  )

  -- The weights of the composite score, in hundredths, with the scores that they are for.
  abbrev pub weighted_scores : RankingScore S → List (ℕ × S)
  weighted_scores s =
      (40, s.relevance) ∷ (25, s.recency) ∷ (20, s.stability) ∷ (15, s.provenance) ∷ []

  -- The sum of the products, from the left.
  abbrev pub weighted_sum : List (ℕ × S) → S → S
  weighted_sum [] total = total
  weighted_sum ((hundredths, score) ∷ rest) total =
      weighted_sum rest (F.add total (F.mul score (F.lit hundredths 2)))

  abbrev pub composite : RankingScore S → S
  composite s = elim (weighted_scores s) [
    | [] ↦ F.lit 0 0
    | ◌∷◌ first rest ↦ weighted_sum rest (F.mul first.1 (F.lit first.0 2))
  ]

  -- `a` may stand in front of `b`: its composite score is not below that of `b`.
  abbrev pub not_below : RankedCandidate S → RankedCandidate S → Bool
  not_below a b = F.le (composite b.scores) (composite a.scores)

  rank-All-composite :
      (now : ℕ) (ws : List (WeightedCandidate S))
      → All (λ r. r.final_score ≡ composite r.scores) (map (rank_one F now) ws)
  unfolding rank_one compute_final_score
  rank-All-composite now [] = tt
  rank-All-composite now (w ∷ ws) = (refl, rank-All-composite now ws)

  rank-candidates :
      (now : ℕ) (ws : List (WeightedCandidate S))
      → map (λ r. r.candidate) (map (rank_one F now) ws) ≡ map (λ w. w.candidate) ws
  unfolding rank_one
  rank-candidates now [] = refl
  rank-candidates now (w ∷ ws) = ap (λ rs. w.candidate ∷ rs) (rank-candidates now ws)

  by_composite :
      (rs : List (RankedCandidate S))
      → All (λ r. r.final_score ≡ composite r.scores) rs
      → IsSorted (by_final_score F) rs
      → IsSorted not_below rs
  by_composite [] h k = tt
  by_composite (r ∷ rs) h k = (behind rs h.1 k.0, by_composite rs h.1 k.1)
    where
      behind :
          (ys : List (RankedCandidate S))
          → All (λ r. r.final_score ≡ composite r.scores) ys
          → All (λ y. by_final_score F r y ≡ true) ys
          → All (λ y. not_below r y ≡ true) ys
      behind [] g l = tt
      behind (y ∷ ys) g l = (rw (h.0, g.0) at l.0, behind ys g.1 l.1)

  -- Ranking gives each weighted candidate one entry, and no other; the entries are in descending
  -- order of 40% relevance, 25% recency, 20% stability and 15% provenance, which sum, taken from the
  -- left, is the final score of each; and these four scores of an entry lie between 0 and 1.
  pub rank_candidates_lem :
      (now : ℕ) (ws : List (WeightedCandidate S))
      → Perm (map (λ r. r.candidate) (rank_candidates F now ws)) (map (λ w. w.candidate) ws)
        × IsSorted not_below (rank_candidates F now ws)
        × All (λ r. r.final_score ≡ composite r.scores) (rank_candidates F now ws)
        × All IsScored (rank_candidates F now ws)
  unfolding rank_candidates
  rank_candidates_lem now ws =
      let before = by_final_score F in
      let entries = map (rank_one F now) ws in
      let total : (a b : RankedCandidate S) → before a b ≡ false → before b a ≡ true =
        λ a b. law.le-total b.final_score a.final_score in
      let trans : (a b c : RankedCandidate S)
          → before a b ≡ true
          → before b c ≡ true
          → before a c ≡ true =
        λ a b c h k. law.le-trans c.final_score b.final_score a.final_score k h in
      let finals =
        All-sort_by before (λ r. r.final_score ≡ composite r.scores) entries
          (rank-All-composite now ws) in
      (
        subst (Perm (map (λ r. r.candidate) (sort_by before entries))) (rank-candidates now ws)
            (Perm.map (λ r. r.candidate) (sort_by-perm before entries)),
        by_composite _ finals (sort_by-IsSorted before total trans entries),
        finals,
        All-sort_by before IsScored entries (rank-All-IsScored now ws),
      )

module _ {S : Type 0} where
  trim_from-tokens :
      (budget total : ℕ) (cs : List (RankedCandidate S))
      → total ≤ budget
      → total + tokens_of (trim_from budget total cs) ≤ budget
  unfolding trim_from
  trim_from-tokens budget total [] h = omega (arith, h)
  trim_from-tokens budget total (c ∷ cs) h =
      let n = estimate_tokens c.candidate in
      elim (Bool-cases (leb (total + n) budget)) [
        | inl e ↦
            let fits = leb→le (total + n) budget e in
            let rest = trim_from-tokens budget (total + n) cs fits in
            rw (e, trim_from) (omega (arith, rest))
        | inr e ↦ rw (e, trim_from) (trim_from-tokens budget total cs h)
      ]

  -- The estimated tokens of what the trim leaves are within the budget.
  pub trim_to_budget_lem :
      (cs : List (RankedCandidate S)) (budget : ℕ) → tokens_of (trim_to_budget cs budget) ≤ budget
  unfolding trim_to_budget
  trim_to_budget_lem cs budget = omega (arith, trim_from-tokens budget 0 cs (omega arith))
