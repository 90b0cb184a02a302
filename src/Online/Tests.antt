-- ===== src/Online/Tests.antt =====
-- Runs of the online pipeline on small inputs.
use project_loom.Common.{
  ℕ, ◌+◌, ◌≡◌, refl, true, none, some, List, [], ◌∷◌, map, keep, not, All, any, length, arith, ◌==◌,
  ◌&&◌,
}
use mathlib.Core.List.{Perm}
use project_loom.Common.Int.{pos}
use project_loom.Common.Result.{ok, err}
use project_loom.Common.Table.{count_where}
use project_loom.Common.Keyed.{IsKeyed}
use project_loom.Common.Sort.{IsSorted}
use project_loom.Common.Text.{text}
use project_loom.Online.Types.{
  compliance, RetrievalProfile, episode_recall, graph_neighborhood, semantic, graph, procedural,
  live_mcp_capture, procedure, graph_result, RetrievalCandidate, WeightedCandidate, RankedCandidate,
}
use project_loom.Online.Fixed.{millionths, millionths-IsLawful}
use project_loom.Online.Retrieve.{Outcome, timeout, by_score, outcome_of, execute_profiles}
use project_loom.Online.Best.{id_of, returned, execute_profiles_lem}
use project_loom.Online.Weight.{
  apply_weights, weighted_by, weight_for_memory_type, is_excluded, apply_weights_lem,
}
use project_loom.Online.Rank.{rank_candidates, not_below, composite, IsScored, rank_candidates_lem}
use project_loom.Online.Compile.{hot_entity, CompilationInput, compile_package, id_of as ranked_id}
use project_loom.Online.Package.{is_hot, compile_package_lem}

abbrev a_graph_result : ℕ → ℕ → RetrievalCandidate ℕ
a_graph_result id score = record {
  id = id;
  score = score;
  source_profile = graph_neighborhood;
  memory_type = graph;
  payload = graph_result (record {
    entity_id = id;
    entity_name = "loom";
    entity_type = "project";
    fact_id = none;
    predicate = none;
    hop_depth = pos 1;
  });
  provenance_mode = some live_mcp_capture;
}

abbrev a_procedure : ℕ → ℕ → RetrievalCandidate ℕ
a_procedure id score = record {
  id = id;
  score = score;
  source_profile = graph_neighborhood;
  memory_type = procedural;
  payload = procedure (record {
    pattern = text "run the tests";
    confidence = 900000;
    observation_count = pos 4;
    namespace = "default";
  });
  provenance_mode = none;
}

-- The graph profile returns the candidate 1 twice, and the profile of episodes times out.
abbrev run : RetrievalProfile → Outcome ℕ
run graph_neighborhood =
    (ok (a_graph_result 1 400000 ∷ a_graph_result 1 700000 ∷ a_graph_result 2 500000 ∷ []), 12)
run _ = (err timeout, 5000)

abbrev two_profiles : List RetrievalProfile
two_profiles = graph_neighborhood ∷ episode_recall ∷ []

best_ids : map (λ c. c.id) (execute_profiles millionths two_profiles run).candidates ≡ 1 ∷ 2 ∷ []
unfolding execute_profiles
best_ids = refl

execute_profiles_example :
    IsKeyed id_of (execute_profiles millionths two_profiles run).candidates
    × IsSorted (by_score millionths) (execute_profiles millionths two_profiles run).candidates
    × All
        (λ c.
          any
            (λ y. y.id == c.id && millionths.le c.score y.score)
            (execute_profiles millionths two_profiles run).candidates
          ≡ true)
        (returned (outcome_of two_profiles run graph_neighborhood))
execute_profiles_example =
    execute_profiles_lem millionths millionths-IsLawful two_profiles run graph_neighborhood

abbrev found : List (RetrievalCandidate ℕ)
found = a_graph_result 1 700000 ∷ a_procedure 3 600000 ∷ a_graph_result 2 500000 ∷ []

apply_weights_example :
    apply_weights millionths found compliance
    ≡ map
        (λ c. weighted_by millionths (weight_for_memory_type millionths compliance c.memory_type) c)
        (keep (λ c. not (is_excluded compliance c.memory_type)) found)
apply_weights_example = apply_weights_lem millionths millionths-IsLawful compliance found

abbrev weighted : List (WeightedCandidate ℕ)
weighted = map (weighted_by millionths 800000) found

rank_candidates_example :
    Perm
      (map (λ r. r.candidate) (rank_candidates millionths 9 weighted))
      (map (λ w. w.candidate) weighted)
    × IsSorted (not_below millionths millionths-IsLawful) (rank_candidates millionths 9 weighted)
    × All
        (λ r. r.final_score ≡ composite millionths millionths-IsLawful r.scores)
        (rank_candidates millionths 9 weighted)
    × All (IsScored millionths millionths-IsLawful) (rank_candidates millionths 9 weighted)
rank_candidates_example = rank_candidates_lem millionths millionths-IsLawful 9 weighted

abbrev ranked : ℕ → ℕ → RankedCandidate ℕ
ranked id score = record {
  candidate = a_graph_result id score;
  scores = record { relevance = score; recency = score; stability = score; provenance = score };
  final_score = score;
}

-- The candidate 9 is a hot item, 1 comes twice, and of the others one fits.
abbrev input : CompilationInput ℕ
input = record {
  warm_tier_budget = 70;
  hot_tier_items =
      record {
        id = 9;
        memory_type = semantic;
        payload = hot_entity (record { name = "loom"; entity_type = "project"; summary = none });
      }
      ∷ [];
  ranked_candidates = ranked 9 900000 ∷ ranked 1 800000 ∷ ranked 1 700000 ∷ ranked 2 600000 ∷ [];
}

chosen : map (λ i. i.id) (compile_package input).selected_items ≡ 1 ∷ []
unfolding compile_package
chosen = refl

refused :
    map (λ i. i.reason) (compile_package input).rejected_items
    ≡ "duplicate" ∷ "token_budget_exceeded" ∷ []
unfolding compile_package
refused = refl

compile_package_example :
    ((compile_package input).candidates_selected
      ≡ pos (length (compile_package input).selected_items))
    × ((compile_package input).candidates_rejected
        ≡ pos (length (compile_package input).rejected_items))
    × ((compile_package input).candidates_found
        ≡ pos (
            length (compile_package input).selected_items
            + length (compile_package input).rejected_items
            + count_where (is_hot input) input.ranked_candidates))
compile_package_example = compile_package_lem input (omega arith)
