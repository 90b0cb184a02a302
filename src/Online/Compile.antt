-- ===== src/Online/Compile.antt =====
-- The selection of the items of a context package (pipeline/online/compile.rs): hot items are kept
-- whatever they cost, warm candidates are deduplicated and trimmed to what is left of the budget.
-- The text of the package, and its tokens, are not modelled.
use project_loom.Common.{
  ℕ, ◌+◌, ◌-◌, ◌/◌, max, String, Bool, true, false, Option, none, some, List, [], ◌∷◌, ◌++◌, map,
  leb, length, sum, keep, not, contains,
}
use project_loom.Common.Int.{ℤ, as_i32}
use project_loom.Common.Text.{Text, len}
use project_loom.Common.Dedup.{dedup}
use project_loom.Online.Types.{
  IngestionMode, user_authored_seed, MemoryType, semantic, episodic, graph, procedural, fact,
  episode, graph_result, procedure, summary, RetrievalCandidate, RankedCandidate,
}
use project_loom.Online.Rank.{clamp_between}

pub record HotFact : Type 0 where
  pub subject : String
  pub predicate : String
  pub object : String
  pub evidence : String
  pub observed : Option String
  pub source : String

pub record HotEntity : Type 0 where
  pub name : String
  pub entity_type : String
  pub summary : Option String

pub record HotProcedure (S : Type 0) : Type 0 where
  pub pattern : String
  pub confidence : S
  pub observation_count : ℤ

pub data HotTierPayload (S : Type 0) : Type 0 where
  hot_fact : HotFact → HotTierPayload S
  hot_entity : HotEntity → HotTierPayload S
  hot_procedure : HotProcedure S → HotTierPayload S

pub record HotTierItem (S : Type 0) : Type 0 where
  pub id : ℕ
  pub memory_type : MemoryType
  pub payload : HotTierPayload S

-- The input of the compiler, less what only the text of the package reads.
pub record CompilationInput (S : Type 0) : Type 0 where
  pub warm_tier_budget : ℕ
  pub hot_tier_items : List (HotTierItem S)
  pub ranked_candidates : List (RankedCandidate S)

pub record SelectedItem (S : Type 0) : Type 0 where
  pub id : ℕ
  pub memory_type : String
  pub relevance : S
  pub recency : S
  pub stability : S
  pub provenance : S
  pub final_score : S
  pub ingestion_mode : Option IngestionMode
  pub sole_source : Option Bool

pub record RejectedItem : Type 0 where
  pub id : ℕ
  pub memory_type : String
  pub reason : String

-- The result, less the package.
pub record CompilationResult (S : Type 0) : Type 0 where
  pub selected_items : List (SelectedItem S)
  pub rejected_items : List RejectedItem
  pub candidates_found : ℤ
  pub candidates_selected : ℤ
  pub candidates_rejected : ℤ

abbrev pub memory_type_name : MemoryType → String
memory_type_name semantic = "semantic"
memory_type_name episodic = "episodic"
memory_type_name graph = "graph"
memory_type_name procedural = "procedural"

-- `estimate_string_tokens`
unfoldable pub estimate_string_tokens : Text → ℕ
unfolding len
estimate_string_tokens s = max (len s / 4) 1

abbrev pub is_seed : IngestionMode → Bool
is_seed user_authored_seed = true
is_seed _ = false

module _ {S : Type 0} where
  unfoldable pub compute_sole_source : RetrievalCandidate S → Option Bool
  compute_sole_source candidate = elim candidate.provenance_mode [
    | none ↦ none
    | some m ↦ some (is_seed m)
  ]

  unfoldable pub estimate_candidate_tokens : RetrievalCandidate S → ℕ
  unfolding len
  estimate_candidate_tokens candidate = elim candidate.payload [
    | fact _ ↦ 50
    | episode ep ↦ clamp_between 20 200 (len ep.content / 4)
    | graph_result _ ↦ 30
    | procedure _ ↦ 40
    | summary s ↦ clamp_between 50 300 (len s.summary_text / 4)
  ]

  unfoldable pub estimate_hot_item_tokens : HotTierItem S → ℕ
  estimate_hot_item_tokens item = elim item.payload [
    | hot_fact _ ↦ 50
    | hot_entity _ ↦ 20
    | hot_procedure _ ↦ 40
  ]

  abbrev pub rejected_for : String → RankedCandidate S → RejectedItem
  rejected_for reason rc = record {
    id = rc.candidate.id;
    memory_type = memory_type_name rc.candidate.memory_type;
    reason = reason;
  }

  abbrev pub id_of : RankedCandidate S → ℕ
  id_of rc = rc.candidate.id

  unfoldable pub deduplicate_candidates :
      List (RankedCandidate S) → List (RankedCandidate S) × List RejectedItem
  unfolding dedup
  deduplicate_candidates candidates =
      let (kept, rejected) = dedup id_of [] candidates in
      (kept, map (rejected_for "duplicate") rejected)

  -- The loop of `trim_to_warm_budget`, from the tokens that are taken so far.
  unfoldable pub trim_warm_from :
      ℕ → ℕ → List (RankedCandidate S) → List (RankedCandidate S) × List (RankedCandidate S)
  unfolding estimate_candidate_tokens
  trim_warm_from remaining_budget total_tokens [] = ([], [])
  trim_warm_from remaining_budget total_tokens (rc ∷ rcs) =
      let tokens = estimate_candidate_tokens rc.candidate in
      elim (leb (total_tokens + tokens) remaining_budget) [
        | true ↦
            let (kept, rejected) = trim_warm_from remaining_budget (total_tokens + tokens) rcs in
            (rc ∷ kept, rejected)
        | false ↦
            let (kept, rejected) = trim_warm_from remaining_budget total_tokens rcs in
            (kept, rc ∷ rejected)
      ]

  unfoldable pub trim_to_warm_budget :
      List (RankedCandidate S) → ℕ → ℕ → List (RankedCandidate S) × List RejectedItem
  unfolding trim_warm_from
  trim_to_warm_budget candidates budget hot_tier_tokens =
      let (kept, rejected) = trim_warm_from (budget - hot_tier_tokens) 0 candidates in
      (kept, map (rejected_for "token_budget_exceeded") rejected)

  unfoldable pub selected_from : RankedCandidate S → SelectedItem S
  unfolding compute_sole_source
  selected_from rc = record {
    id = rc.candidate.id;
    memory_type = memory_type_name rc.candidate.memory_type;
    relevance = rc.scores.relevance;
    recency = rc.scores.recency;
    stability = rc.scores.stability;
    provenance = rc.scores.provenance;
    final_score = rc.final_score;
    ingestion_mode = rc.candidate.provenance_mode;
    sole_source = compute_sole_source rc.candidate;
  }

  -- Steps 1 to 3: the warm candidates that are selected, and all that are rejected.
  unfoldable pub warm_candidates : CompilationInput S → List (RankedCandidate S)
  warm_candidates input =
      keep (λ rc. not (contains (map (λ h. h.id) input.hot_tier_items) rc.candidate.id))
        input.ranked_candidates

  unfoldable pub select_warm : CompilationInput S → List (RankedCandidate S) × List RejectedItem
  unfolding warm_candidates deduplicate_candidates trim_to_warm_budget estimate_hot_item_tokens
  select_warm input =
      let (deduped, all_rejected) = deduplicate_candidates (warm_candidates input) in
      let hot_tier_tokens = sum (map estimate_hot_item_tokens input.hot_tier_items) in
      let (selected_warm, budget_rejected) =
        trim_to_warm_budget deduped input.warm_tier_budget hot_tier_tokens in
      (selected_warm, all_rejected ++ budget_rejected)

  unfoldable pub compile_package : CompilationInput S → CompilationResult S
  unfolding select_warm selected_from
  compile_package input =
      let (selected_warm, all_rejected) = select_warm input in
      record {
        selected_items = map selected_from selected_warm;
        rejected_items = all_rejected;
        candidates_found = as_i32 (length input.ranked_candidates);
        candidates_selected = as_i32 (length (map selected_from selected_warm));
        candidates_rejected = as_i32 (length all_rejected);
      }
