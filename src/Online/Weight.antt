-- ===== src/Online/Weight.antt =====
-- The weights of the memory types for a task class (pipeline/online/weight.rs).
use project_loom.Common.{
  ◌≡◌, refl, ap, inl, inr, Bool, true, false, List, [], ◌∷◌, map, keep, Bool-cases, not,
  if◌then◌else◌, arith,
}
use project_loom.Common.Int.{ℤ, leb_ℤ, pos}
use project_loom.Online.Types.{
  TaskClass, debug, architecture, compliance, writing, chat, MemoryType, semantic, episodic, graph,
  procedural, RetrievalCandidate, WeightedCandidate,
}
use project_loom.Online.Float.{Float, IsLawful}

pub record MemoryWeights (S : Type 0) : Type 0 where
  pub episodic : S
  pub semantic : S
  pub procedural : S
  pub summary : S

-- The one pair of a class and a memory type that is excluded.
abbrev pub is_excluded : TaskClass → MemoryType → Bool
is_excluded compliance procedural = true
is_excluded _ _ = false

module _ {S : Type 0} (F : Float S) where
  unfoldable pub memory_weights : TaskClass → MemoryWeights S
  memory_weights debug = record {
    episodic = F.lit 1 0;
    semantic = F.lit 7 1;
    procedural = F.lit 8 1;
    summary = F.lit 5 1;
  }
  memory_weights architecture = record {
    episodic = F.lit 5 1;
    semantic = F.lit 1 0;
    procedural = F.lit 3 1;
    summary = F.lit 8 1;
  }
  memory_weights compliance = record {
    episodic = F.lit 1 0;
    semantic = F.lit 8 1;
    procedural = F.lit 0 0;
    summary = F.lit 3 1;
  }
  memory_weights writing = record {
    episodic = F.lit 3 1;
    semantic = F.lit 1 0;
    procedural = F.lit 6 1;
    summary = F.lit 9 1;
  }
  memory_weights chat = record {
    episodic = F.lit 4 1;
    semantic = F.lit 1 0;
    procedural = F.lit 3 1;
    summary = F.lit 7 1;
  }

  unfoldable pub weight_for_memory_type : TaskClass → MemoryType → S
  unfolding memory_weights
  weight_for_memory_type class episodic = (memory_weights class).episodic
  weight_for_memory_type class semantic = (memory_weights class).semantic
  weight_for_memory_type class graph = (memory_weights class).semantic
  weight_for_memory_type class procedural = (memory_weights class).procedural

  abbrev pub weighted_by : S → RetrievalCandidate S → WeightedCandidate S
  weighted_by w c = record { candidate = c; weight = w; weighted_score = F.mul c.score w }

  -- `apply_weights` has the same `match` as `weight_for_memory_type` in its body.
  unfoldable pub apply_weights :
      List (RetrievalCandidate S) → TaskClass → List (WeightedCandidate S)
  unfolding weight_for_memory_type
  apply_weights [] class = []
  apply_weights (c ∷ cs) class =
      let rest = apply_weights cs class in
      let w = weight_for_memory_type class c.memory_type in
      if F.is_zero w then rest else weighted_by w c ∷ rest

  unfoldable pub apply_compression_bonus : S → ℤ → S
  apply_compression_bonus relevance_score fact_count =
      if leb_ℤ fact_count (pos 1)
      then relevance_score
      else F.add relevance_score
          (F.mul (F.log2 (F.max_f (F.of_int fact_count) (F.lit 1 0))) (F.lit 1 1))

  weight-is_zero :
      (law : IsLawful F) (class : TaskClass) (m : MemoryType)
      → F.is_zero (weight_for_memory_type class m) ≡ is_excluded class m
  unfolding weight_for_memory_type memory_weights
  weight-is_zero law debug episodic = law.lit-is_zero 1 0 (omega arith)
  weight-is_zero law debug semantic = law.lit-is_zero 7 1 (omega arith)
  weight-is_zero law debug graph = law.lit-is_zero 7 1 (omega arith)
  weight-is_zero law debug procedural = law.lit-is_zero 8 1 (omega arith)
  weight-is_zero law architecture episodic = law.lit-is_zero 5 1 (omega arith)
  weight-is_zero law architecture semantic = law.lit-is_zero 1 0 (omega arith)
  weight-is_zero law architecture graph = law.lit-is_zero 1 0 (omega arith)
  weight-is_zero law architecture procedural = law.lit-is_zero 3 1 (omega arith)
  weight-is_zero law compliance episodic = law.lit-is_zero 1 0 (omega arith)
  weight-is_zero law compliance semantic = law.lit-is_zero 8 1 (omega arith)
  weight-is_zero law compliance graph = law.lit-is_zero 8 1 (omega arith)
  weight-is_zero law compliance procedural = law.lit-is_zero 0 0 (omega arith)
  weight-is_zero law writing episodic = law.lit-is_zero 3 1 (omega arith)
  weight-is_zero law writing semantic = law.lit-is_zero 1 0 (omega arith)
  weight-is_zero law writing graph = law.lit-is_zero 1 0 (omega arith)
  weight-is_zero law writing procedural = law.lit-is_zero 6 1 (omega arith)
  weight-is_zero law chat episodic = law.lit-is_zero 4 1 (omega arith)
  weight-is_zero law chat semantic = law.lit-is_zero 1 0 (omega arith)
  weight-is_zero law chat graph = law.lit-is_zero 1 0 (omega arith)
  weight-is_zero law chat procedural = law.lit-is_zero 3 1 (omega arith)

  -- Weighting drops the procedures of a compliance query and nothing else, keeps the order, and
  -- multiplies each other score by the weight of its memory type.
  pub apply_weights_lem :
      (law : IsLawful F) (class : TaskClass) (cs : List (RetrievalCandidate S))
      → apply_weights cs class
        ≡ map
            (λ c. weighted_by (weight_for_memory_type class c.memory_type) c)
            (keep (λ c. not (is_excluded class c.memory_type)) cs)
  unfolding apply_weights
  apply_weights_lem law class [] = refl
  apply_weights_lem law class (c ∷ cs) =
      let zero_weight = weight-is_zero law class c.memory_type in
      elim (Bool-cases (is_excluded class c.memory_type)) [
        | inl e ↦ rw (zero_weight, e) (apply_weights_lem law class cs)
        | inr e ↦
            rw (zero_weight, e)
              (ap (λ r. weighted_by (weight_for_memory_type class c.memory_type) c ∷ r)
                (apply_weights_lem law class cs))
      ]
