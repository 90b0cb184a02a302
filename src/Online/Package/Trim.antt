-- ===== src/Online/Package/Trim.antt =====
-- The trim to the warm budget (`trim_to_warm_budget` of pipeline/online/compile.rs).
use project_loom.Common.{
  ℕ, ◌+◌, ◌≤◌, ◌<◌, ◌≡◌, refl, sym, subst, inl, inr, true, false, List, [], ◌∷◌, map, All, All-map,
  ◌⊎◌, ==-refl, Bool-cases, leb, leb→le, not_leb→lt, length, sum, contains, arith,
}
use project_loom.Common.Keyed.{IsKeyed}
use project_loom.Online.Types.{RankedCandidate}
use project_loom.Online.Compile.{estimate_candidate_tokens, trim_warm_from, id_of}

module _ {S : Type 0} where
  abbrev pub warm_tokens : List (RankedCandidate S) → ℕ
  warm_tokens rcs = sum (map (λ rc. estimate_candidate_tokens rc.candidate) rcs)

  trim-kept :
      (budget total : ℕ) (rc : RankedCandidate S) (rcs : List (RankedCandidate S))
      → leb (total + estimate_candidate_tokens rc.candidate) budget ≡ true
      → let rest = trim_warm_from budget (total + estimate_candidate_tokens rc.candidate) rcs in
        trim_warm_from budget total (rc ∷ rcs) ≡ (rc ∷ rest.0, rest.1)
  unfolding trim_warm_from
  trim-kept budget total rc rcs h = rw (h, trim_warm_from) refl

  trim-rejected :
      (budget total : ℕ) (rc : RankedCandidate S) (rcs : List (RankedCandidate S))
      → leb (total + estimate_candidate_tokens rc.candidate) budget ≡ false
      → let rest = trim_warm_from budget total rcs in
        trim_warm_from budget total (rc ∷ rcs) ≡ (rest.0, rc ∷ rest.1)
  unfolding trim_warm_from
  trim-rejected budget total rc rcs h = rw (h, trim_warm_from) refl

  -- What a trim from `total` does: the kept fit, no rejected one fits beside them, and each
  -- candidate is one of the two.
  abbrev pub IsTrimmed : ℕ → ℕ → ℕ → List (RankedCandidate S) × List (RankedCandidate S) → Type 0
  IsTrimmed budget total n r =
      (total + warm_tokens r.0 ≤ budget)
      × All (λ rc. budget < total + warm_tokens r.0 + estimate_candidate_tokens rc.candidate) r.1
      × (length r.0 + length r.1 ≡ n)

  pub trim-IsTrimmed :
      (budget total : ℕ) (rcs : List (RankedCandidate S))
      → total ≤ budget
      → IsTrimmed budget total (length rcs) (trim_warm_from budget total rcs)
  unfolding trim_warm_from
  trim-IsTrimmed budget total [] h = (omega (arith, h), tt, omega arith)
  trim-IsTrimmed budget total (rc ∷ rcs) h =
      let n = estimate_candidate_tokens rc.candidate in
      let goal = IsTrimmed budget total (length (rc ∷ rcs)) in
      elim (Bool-cases (leb (total + n) budget)) [
        | inl e ↦
            let (fit, over, count) =
              trim-IsTrimmed budget (total + n) rcs (leb→le (total + n) budget e) in
            subst goal (sym (trim-kept budget total rc rcs e)) (
              omega (arith, fit),
              All-map _ _ _ (λ y k. omega (arith, k)) over,
              omega (arith, count),
            )
        | inr e ↦
            let (fit, over, count) = trim-IsTrimmed budget total rcs h in
            let too_much = not_leb→lt (total + n) budget e in
            subst goal (sym (trim-rejected budget total rc rcs e))
              (fit, (omega (arith, too_much), over), omega (arith, count))
      ]

  pub trim-All {κ} :
      (P : RankedCandidate S → Type κ) (budget total : ℕ) (rcs : List (RankedCandidate S))
      → All P rcs
      → All P (trim_warm_from budget total rcs).0
  unfolding trim_warm_from
  trim-All P budget total [] h = tt
  trim-All P budget total (rc ∷ rcs) h =
      elim (Bool-cases (leb (total + estimate_candidate_tokens rc.candidate) budget)) [
        | inl e ↦
            rw (trim-kept budget total rc rcs e)
              (h.0, trim-All P budget (total + estimate_candidate_tokens rc.candidate) rcs h.1)
        | inr e ↦ rw (trim-rejected budget total rc rcs e) (trim-All P budget total rcs h.1)
      ]

  pub trim-IsKeyed :
      (budget total : ℕ) (rcs : List (RankedCandidate S))
      → IsKeyed id_of rcs
      → IsKeyed id_of (trim_warm_from budget total rcs).0
  unfolding trim_warm_from
  trim-IsKeyed budget total [] h = tt
  trim-IsKeyed budget total (rc ∷ rcs) h =
      elim (Bool-cases (leb (total + estimate_candidate_tokens rc.candidate) budget)) [
        | inl e ↦ rw (trim-kept budget total rc rcs e) (
          trim-All _ budget (total + estimate_candidate_tokens rc.candidate) rcs h.0,
          trim-IsKeyed budget (total + estimate_candidate_tokens rc.candidate) rcs h.1,
        )
        | inr e ↦ rw (trim-rejected budget total rc rcs e) (trim-IsKeyed budget total rcs h.1)
      ]

  -- A candidate whose id is among those of the selected, or that does not fit beside them.
  abbrev pub IsTaken : ℕ → ℕ → List (RankedCandidate S) → RankedCandidate S → Type 0
  IsTaken budget total selected rc =
      (contains (map id_of selected) rc.candidate.id ≡ true)
      ⊎ (budget < total + estimate_candidate_tokens rc.candidate)

  also :
      (budget : ℕ) {a b : ℕ} (rc : RankedCandidate S) (kept : List (RankedCandidate S))
      (y : RankedCandidate S)
      → a ≡ b
      → IsTaken budget a kept y
      → IsTaken budget b (rc ∷ kept) y
  also budget rc kept y e (inl k) = inl (ground (arith, k))
  also budget rc kept y e (inr k) = inr (omega (arith, k, e))

  -- Every candidate of a trim is kept, or does not fit beside the kept ones.
  pub trim-maximal :
      (budget total : ℕ) (rcs : List (RankedCandidate S))
      → total ≤ budget
      → All
          (IsTaken budget
            (total + warm_tokens (trim_warm_from budget total rcs).0)
            (trim_warm_from budget total rcs).0)
          rcs
  unfolding trim_warm_from
  trim-maximal budget total [] h = tt
  trim-maximal budget total (rc ∷ rcs) h =
      let n = estimate_candidate_tokens rc.candidate in
      let goal : List (RankedCandidate S) × List (RankedCandidate S) → Type 0 =
        λ r. All (IsTaken budget (total + warm_tokens r.0) r.0) (rc ∷ rcs) in
      elim (Bool-cases (leb (total + n) budget)) [
        | inl e ↦
            let kept = (trim_warm_from budget (total + n) rcs).0 in
            let sum_up : total + n + warm_tokens kept ≡ total + (n + warm_tokens kept) =
              omega arith in
            subst goal (sym (trim-kept budget total rc rcs e)) (
              inl (rw (==-refl rc.candidate.id) refl),
              All-map _ _ rcs (λ y k. also budget rc kept y sum_up k)
                  (trim-maximal budget (total + n) rcs (leb→le (total + n) budget e)),
            )
        | inr e ↦
            let too_much = not_leb→lt (total + n) budget e in
            subst goal (sym (trim-rejected budget total rc rcs e))
              (inr (omega (arith, too_much)), trim-maximal budget total rcs h)
      ]

  pub IsTaken-from :
      (left a : ℕ) (selected : List (RankedCandidate S)) (y : RankedCandidate S)
      → IsTaken left (0 + a) selected y
      → IsTaken left a selected y
  IsTaken-from left a selected y (inl k) = inl k
  IsTaken-from left a selected y (inr k) = inr (omega (arith, k))
