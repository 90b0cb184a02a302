-- ===== src/Online/Best.antt =====
-- What the collection of the profiles' candidates keeps (`execute_profiles`).
use project_loom.Common.{
  ℕ, ◌≡◌, inl, inr, true, false, Option, none, some, List, [], All, any, Bool-cases, All-append,
  ◌==◌, ◌&&◌,
}
use project_loom.Common.Result.{ok, err}
use project_loom.Common.Keyed.{IsKeyed}
use project_loom.Common.Sort.{sort_by, IsSorted, sort_by-IsSorted, All-sort_by_inv}
use project_loom.Common.Dedup.{dedup-IsKeyed, dedup-IsSorted, dedup-first}
use project_loom.Online.Types.{
  RetrievalCandidate, RetrievalProfile, fact_lookup, episode_recall, graph_neighborhood,
  procedure_assist,
}
use project_loom.Online.Float.{Float, IsLawful}
use project_loom.Online.Retrieve.{
  Outcome, Collected, collect_profile, outcome_of, collect_all, by_score, execute_profiles,
}

module _ {S : Type 0} where
  abbrev pub id_of : RetrievalCandidate S → ℕ
  id_of c = c.id

  abbrev pub returned : Option (Outcome S) → List (RetrievalCandidate S)
  returned (some (ok candidates, _)) = candidates
  returned _ = []

  collect_profile-keeps :
      (P : RetrievalCandidate S → Type 0) (o : Option (Outcome S)) (p : RetrievalProfile)
      (c : Collected S)
      → All P (collect_profile o p c).0
      → All P c.0 × All P (returned o)
  unfolding collect_profile
  collect_profile-keeps P none p c h = (h, tt)
  collect_profile-keeps P (some (ok candidates, d)) p c h = All-append P c.0 candidates h
  collect_profile-keeps P (some (err _, d)) p c h = (h, tt)

  -- What holds of all that was collected holds of what each active profile returned.
  collect_all-keeps :
      (P : RetrievalCandidate S → Type 0) (profiles : List RetrievalProfile)
      (run : RetrievalProfile → Outcome S)
      → All P (collect_all profiles run).0
      → (p : RetrievalProfile) → All P (returned (outcome_of profiles run p))
  unfolding collect_all
  collect_all-keeps P profiles run h =
      let o = outcome_of profiles run in
      let c1 = collect_profile (o fact_lookup) fact_lookup ([], []) in
      let c2 = collect_profile (o episode_recall) episode_recall c1 in
      let c3 = collect_profile (o graph_neighborhood) graph_neighborhood c2 in
      let (h3, procedures) = collect_profile-keeps P (o procedure_assist) procedure_assist c3 h in
      let (h2, graphs) = collect_profile-keeps P (o graph_neighborhood) graph_neighborhood c2 h3 in
      let (h1, episodes) = collect_profile-keeps P (o episode_recall) episode_recall c1 h2 in
      let (_, facts) = collect_profile-keeps P (o fact_lookup) fact_lookup ([], []) h1 in
      λ p. elim p as (λ q. All P (returned (outcome_of profiles run q))) [
        | fact_lookup ↦ facts
        | episode_recall ↦ episodes
        | graph_neighborhood ↦ graphs
        | procedure_assist ↦ procedures
      ]

  -- The candidates that the retrieval returns have distinct ids and stand in descending order of
  -- their scores; and whatever the other profiles do, for each candidate that an active profile
  -- returns, one with its id and at least its score is among them.
  pub execute_profiles_lem :
      (F : Float S) (law : IsLawful F) (profiles : List RetrievalProfile)
      (run : RetrievalProfile → Outcome S) (p : RetrievalProfile)
      → let kept = (execute_profiles F profiles run).candidates in
        IsKeyed id_of kept
        × IsSorted (by_score F) kept
        × All
            (λ c. any (λ y. y.id == c.id && F.le c.score y.score) kept ≡ true)
            (returned (outcome_of profiles run p))
  unfolding execute_profiles
  execute_profiles_lem F law profiles run p =
      let all = (collect_all profiles run).0 in
      let before = by_score F in
      let total : (a b : RetrievalCandidate S) → before a b ≡ false → before b a ≡ true =
        λ a b. law.le-total b.score a.score in
      let sorted =
        sort_by-IsSorted before total (λ a b c h k. law.le-trans c.score b.score a.score k h) all in
      let same : (a : RetrievalCandidate S) → before a a ≡ true =
        λ a. elim (Bool-cases (before a a)) [ inl e ↦ e | inr e ↦ total a a e ] in
      (
        dedup-IsKeyed id_of [] (sort_by before all),
        dedup-IsSorted id_of before [] (sort_by before all) sorted,
        collect_all-keeps _ profiles run
            (All-sort_by_inv before _ all
              (dedup-first id_of before same [] (sort_by before all) sorted))
            p,
      )
