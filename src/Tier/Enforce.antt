-- ===== src/Tier/Enforce.antt =====
-- The enforcement of the budget ends, and where it ends the budget is kept or nothing is left to
-- demote (`enforce_hot_tier_budget`).
use project_loom.Common.{
  ℕ, zero, suc, ◌+◌, ◌<◌, ◌≡◌, refl, ap, ◌∙◌, String, inl, inr, ◌⊎◌, true, false, Option, none,
  some, Bool-cases, Option-cases, is_some, arith,
}
use project_loom.Common.Int.{ℤ, leb_ℤ}
use project_loom.Common.Result.{Result, ok, err}
use project_loom.Common.Table.{DbError, null_column}
use project_loom.Online.Float.{Float, IsLawful}
use project_loom.Tier.Rows.{Tables}
use project_loom.Tier.Lowest.{IsLowest, lowest_unpinned-IsLowest}
use project_loom.Tier.Budget.{
  LowestSalienceItem, compute_namespace_hot_tier_tokens, get_namespace_hot_tier_budget,
  may_go_count, demote, lowest_unpinned, enforce_from, enforce_hot_tier_budget,
}
use project_loom.Tier.Hits.{
  HasSalience, hits, demote-count, demote-HasSalience, lowest-IsReal, lowest-none,
}

module _ {S : Type 0} (F : Float S) where
  pub enforce_from-stop :
      (fuel now : ℕ) (namespace : String) (budget : ℤ) (before : ℕ) (db : Tables S)
      → leb_ℤ (compute_namespace_hot_tier_tokens namespace db) budget ≡ true
      → enforce_from F (suc fuel) now namespace budget before db ≡ some (ok before, db)
  unfolding enforce_from
  enforce_from-stop fuel now namespace budget before db fits = rw (fits, enforce_from) refl

  pub enforce_from-empty :
      (fuel now : ℕ) (namespace : String) (budget : ℤ) (before : ℕ) (db : Tables S)
      → leb_ℤ (compute_namespace_hot_tier_tokens namespace db) budget ≡ false
      → lowest_unpinned F namespace db ≡ none
      → enforce_from F (suc fuel) now namespace budget before db ≡ some (ok before, db)
  unfolding enforce_from
  enforce_from-empty fuel now namespace budget before db over e =
      rw (over, enforce_from) (rw e refl)

  pub enforce_from-step :
      (fuel now : ℕ) (namespace : String) (budget : ℤ) (before : ℕ) (db : Tables S)
      (item : LowestSalienceItem S) (x : S)
      → leb_ℤ (compute_namespace_hot_tier_tokens namespace db) budget ≡ false
      → lowest_unpinned F namespace db ≡ some item
      → item.salience_score ≡ some x
      → enforce_from F (suc fuel) now namespace budget before db
        ≡ enforce_from F fuel now namespace budget (suc before) (demote now item db)
  unfolding enforce_from
  enforce_from-step fuel now namespace budget before db item x over e k =
      rw (over, enforce_from)
        (rw e (
          ap
            (λ o. elim o [
              | none ↦ some (err null_column, db)
              | some _ ↦ enforce_from F fuel now namespace budget (suc before) (demote now item db)
            ])
            k))

  pub known : (o : Option S) → is_some o ≡ true → (x : S) × (o ≡ some x)
  known (some x) h = (x, refl)
  known none h = cc

  -- The demotions of a run, in their order: each is made while the tokens are above the budget, of
  -- the lowest row, and takes from those that may go just the rows with its key, at least one.
  pub data Demotions (now : ℕ) (namespace : String) (budget : ℤ)
      : ℕ → Tables S → Tables S → Type 0 where
    kept : {db : Tables S} → Demotions now namespace budget 0 db db
    demotion :
        {n : ℕ} {db db' : Tables S} (item : LowestSalienceItem S)
        → leb_ℤ (compute_namespace_hot_tier_tokens namespace db) budget ≡ false
        → IsLowest F namespace db item
        → 0 < hits namespace db item
        → may_go_count namespace (demote now item db) + hits namespace db item
          ≡ may_go_count namespace db
        → Demotions now namespace budget n (demote now item db) db'
        → Demotions now namespace budget (suc n) db db'

  -- An end of the loop: `n` such demotions, until the budget is kept or nothing is left to demote.
  abbrev pub IsEnforced :
      ℕ → String → ℤ → ℕ → Tables S → Option (Result DbError ℕ × Tables S) → Type 0
  IsEnforced now namespace budget before db run =
      (n : ℕ) × (db' : Tables S) × (run ≡ some (ok (before + n), db'))
      × Demotions now namespace budget n db db'
      × ((leb_ℤ (compute_namespace_hot_tier_tokens namespace db') budget ≡ true)
          ⊎ (may_go_count namespace db' ≡ 0))

  same_count :
      (n : ℕ) (db : Tables S)
      → Path (Option (Result DbError ℕ × Tables S)) (some (ok n, db)) (some (ok (n + 0), db))
  same_count n db = let e : n ≡ n + 0 = omega arith in ap (λ m. some (ok m, db)) e

module _ {S : Type 0} (F : Float S) (law : IsLawful F) where
  enforce_from-IsEnforced :
      (fuel now : ℕ) (namespace : String) (budget : ℤ) (before : ℕ) (db : Tables S)
      → may_go_count namespace db < fuel
      → HasSalience db
      → IsEnforced F now namespace budget before db
          (enforce_from F fuel now namespace budget before db)
  enforce_from-IsEnforced zero now namespace budget before db enough h =
      absurd (omega (arith, enough))
  enforce_from-IsEnforced (suc fuel) now namespace budget before db enough h =
      elim (Bool-cases (leb_ℤ (compute_namespace_hot_tier_tokens namespace db) budget)) [
        | inl fits ↦ (
          0,
          db,
          enforce_from-stop F fuel now namespace budget before db fits ∙ same_count F before db,
          kept,
          inl fits,
        )
        | inr over ↦ elim (Option-cases (lowest_unpinned F namespace db)) [
          | inl nothing ↦ (
            0,
            db,
            enforce_from-empty F fuel now namespace budget before db over nothing
                ∙ same_count F before db,
            kept,
            inr (lowest-none F namespace db nothing),
          )
          | inr (item, e) ↦
              let real = lowest-IsReal F namespace db item h e in
              let less = demote-count now namespace db item in
              let (n, db', run, demotions, end) =
                enforce_from-IsEnforced fuel now namespace budget (suc before) (demote now item db)
                  (omega (arith, real.0, less, enough)) (demote-HasSalience now db item h) in
              let (x, k) = known F item.salience_score real.1 in
              let more : suc before + n ≡ before + suc n = omega arith in
              (
                suc n,
                db',
                enforce_from-step F fuel now namespace budget before db item x over e k
                    ∙ run
                    ∙ ap (λ m. some (ok m, db')) more,
                demotion item over (lowest_unpinned-IsLowest F law namespace db item e) real.0 less
                    demotions,
                end,
              )
        ]
      ]

  -- Where no row lacks a salience score, and under the laws of the score interface, the enforcement
  -- ends with success. The demotions that it counts are made one after the other, each while the
  -- tokens of the namespace are above the budget, and of one of the hot rows that are not pinned
  -- below whose score none of them has one; and at the end the tokens are within the budget, or no
  -- such row is left.
  pub enforce_hot_tier_budget_lem :
      (now : ℕ) (namespace : String) (db : Tables S)
      → HasSalience db
      → IsEnforced F now namespace
          (get_namespace_hot_tier_budget namespace db.configs)
          0
          db
          (enforce_hot_tier_budget F now namespace db)
  unfolding enforce_hot_tier_budget
  enforce_hot_tier_budget_lem now namespace db h =
      enforce_from-IsEnforced (suc (may_go_count namespace db)) now namespace
        (get_namespace_hot_tier_budget namespace db.configs) 0 db (omega arith) h
