-- ===== src/Online/Retrieve.antt =====
-- The end of `execute_profiles` (pipeline/online/retrieve.rs): the results of the active profiles
-- are collected, sorted by score and deduplicated. What a profile's query returns within its
-- timeout, with its duration in milliseconds, is an argument.
use project_loom.Common.{
  ℕ, String, Bool, Option, none, some, List, [], ◌∷◌, ◌++◌, map, length, if◌then◌else◌,
}
use project_loom.Common.Result.{Result, ok, err}
use project_loom.Common.Sort.{sort_by}
use project_loom.Common.Dedup.{dedup}
use project_loom.Online.Types.{
  RetrievalCandidate, RetrievalProfile, fact_lookup, episode_recall, graph_neighborhood,
  procedure_assist,
}
use project_loom.Online.Float.{Float}
use project_loom.Online.Profiles.{has_profile}

pub data RetrievalError : Type 0 where
  sqlx traverse timeout : RetrievalError

pub record ProfileExecution : Type 0 where
  pub profile : RetrievalProfile
  pub candidate_count : ℕ
  pub duration_ms : ℕ

pub record RetrievalResult (S : Type 0) : Type 0 where
  pub candidates : List (RetrievalCandidate S)
  pub executions : List ProfileExecution
  pub executed_profile_names : List String

abbrev pub profile_name : RetrievalProfile → String
profile_name fact_lookup = "fact_lookup"
profile_name episode_recall = "episode_recall"
profile_name graph_neighborhood = "graph_neighborhood"
profile_name procedure_assist = "procedure_assist"

abbrev pub Outcome : Type 0 → Type 0
Outcome S = Result RetrievalError (List (RetrievalCandidate S)) × ℕ

abbrev pub Collected : Type 0 → Type 0
Collected S = List (RetrievalCandidate S) × List ProfileExecution

module _ {S : Type 0} where
  -- The macro `collect_profile!`
  unfoldable pub collect_profile : Option (Outcome S) → RetrievalProfile → Collected S → Collected S
  collect_profile none profile c = c
  collect_profile (some (ok candidates, duration)) profile (all, executions) = (
    all ++ candidates,
    executions
        ++ record { profile = profile; candidate_count = length candidates; duration_ms = duration }
          ∷ [],
  )
  collect_profile (some (err _, duration)) profile (all, executions) = (
    all,
    executions ++ record { profile = profile; candidate_count = 0; duration_ms = duration } ∷ [],
  )

  abbrev pub outcome_of :
      List RetrievalProfile → (RetrievalProfile → Outcome S) → RetrievalProfile → Option (Outcome S)
  outcome_of profiles run p = if has_profile profiles p then some (run p) else none

  abbrev collect_in_turn :
      List RetrievalProfile
      → (RetrievalProfile → Outcome S)
      → List RetrievalProfile
      → Collected S
      → Collected S
  collect_in_turn profiles run [] c = c
  collect_in_turn profiles run (p ∷ ps) c =
      collect_in_turn profiles run ps (collect_profile (outcome_of profiles run p) p c)

  -- The four profiles, in the order in which the program collects them.
  unfoldable pub collect_all : List RetrievalProfile → (RetrievalProfile → Outcome S) → Collected S
  unfolding collect_profile
  collect_all profiles run =
      collect_in_turn profiles run
        (fact_lookup ∷ episode_recall ∷ graph_neighborhood ∷ procedure_assist ∷ []) ([], [])

module _ {S : Type 0} (F : Float S) where
  abbrev pub by_score : RetrievalCandidate S → RetrievalCandidate S → Bool
  by_score a b = F.le b.score a.score

  unfoldable pub execute_profiles :
      List RetrievalProfile → (RetrievalProfile → Outcome S) → RetrievalResult S
  unfolding sort_by dedup collect_all
  execute_profiles profiles run =
      let (all_candidates, executions) = collect_all profiles run in
      record {
        candidates = (dedup (λ c. c.id) [] (sort_by by_score all_candidates)).0;
        executions = executions;
        executed_profile_names = map (λ e. profile_name e.profile) executions;
      }
