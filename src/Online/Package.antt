-- ===== src/Online/Package.antt =====
-- What the compiler selects (pipeline/online/compile.rs): the budget, the ids, and the counts.
pub mod Trim
use project_loom.Common.{
  ℕ, ◌+◌, ◌-◌, ◌<◌, ◌≡◌, sym, ap, ◌∙◌, subst, inl, inr, Bool, List, [], ◌∷◌, map, ◌⊎◌, ==-refl,
  Bool-cases, leb, leb→le, not_leb→lt, length, length-map, length-append, sum, keep, not, contains,
  arith,
}
use project_loom.Common.Int.{pos, as_i32_small}
use project_loom.Common.Table.{count_where}
use project_loom.Common.Dedup.{dedup, length-dedup}
use project_loom.Online.Types.{RankedCandidate}
use project_loom.Online.Compile.{
  CompilationInput, estimate_candidate_tokens, estimate_hot_item_tokens, deduplicate_candidates,
  trim_warm_from, trim_to_warm_budget, warm_candidates, select_warm, compile_package, selected_from,
  rejected_for, id_of,
}
use project_loom.Online.Package.Trim.{trim-IsTrimmed}

module _ {S : Type 0} where
  abbrev pub hot_tokens : CompilationInput S → ℕ
  hot_tokens input = sum (map estimate_hot_item_tokens input.hot_tier_items)

  abbrev pub is_hot : CompilationInput S → RankedCandidate S → Bool
  is_hot input rc = contains (map (λ h. h.id) input.hot_tier_items) rc.candidate.id

  select_warm-length :
      (input : CompilationInput S)
      → length (select_warm input).0 + length (select_warm input).1 ≡ length (warm_candidates input)
  unfolding select_warm deduplicate_candidates trim_to_warm_budget
  select_warm-length input =
      let warm = warm_candidates input in
      let left = input.warm_tier_budget - hot_tokens input in
      let unique = dedup id_of [] warm in
      let trimmed = trim_warm_from left 0 unique.0 in
      let (_, _, split) = trim-IsTrimmed left 0 unique.0 (omega arith) in
      let duplicates = map (rejected_for "duplicate") unique.1 in
      let over_budget = map (rejected_for "token_budget_exceeded") trimmed.1 in
      omega (
        arith,
        split,
        length-dedup id_of [] warm,
        length-append duplicates over_budget,
        length-map (rejected_for "duplicate") unique.1,
        length-map (rejected_for "token_budget_exceeded") trimmed.1,
      )

  keep-count :
      (p : RankedCandidate S → Bool) (rcs : List (RankedCandidate S))
      → length (keep (λ rc. not (p rc)) rcs) + count_where p rcs ≡ length rcs
  keep-count p [] = omega arith
  keep-count p (rc ∷ rcs) = elim (Bool-cases (p rc)) [
    | inl e ↦ rw e (omega (arith, keep-count p rcs))
    | inr e ↦ rw e (omega (arith, keep-count p rcs))
  ]

  -- For fewer than 2^31 ranked candidates the counts of the result are the numbers of its items, and
  -- the candidates found are those selected, those rejected, and those that are hot items too,
  -- which are in neither list.
  pub compile_package_lem :
      (input : CompilationInput S)
      → length input.ranked_candidates < 2147483648
      → let result = compile_package input in
        let selected = length result.selected_items in
        let rejected = length result.rejected_items in
        (result.candidates_selected ≡ pos selected)
        × (result.candidates_rejected ≡ pos rejected)
        × (result.candidates_found
            ≡ pos (selected + rejected + count_where (is_hot input) input.ranked_candidates))
  unfolding compile_package warm_candidates
  compile_package_lem input h =
      let split = select_warm-length input in
      let hot = keep-count (is_hot input) input.ranked_candidates in
      let selected = length-map selected_from (select_warm input).0 in
      (
        as_i32_small _ (omega (arith, h, split, hot, selected)),
        as_i32_small _ (omega (arith, h, split, hot)),
        as_i32_small _ h ∙ ap pos (omega (arith, split, hot, selected)),
      )
