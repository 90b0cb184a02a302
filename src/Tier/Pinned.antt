-- ===== src/Tier/Pinned.antt =====
-- Pinned rows under the enforcement of the budget (`enforce_hot_tier_budget`).
use project_loom.Common.{
  ℕ, zero, suc, ◌<◌, ◌≡◌, refl, ap, ◌∙◌, subst, String, inl, inr, Bool, true, Option, some, List,
  [], ◌∷◌, keep, not, All, All-map, ◌&&◌, ==_iff, Bool-cases, Option-cases, arith, if◌then◌else◌,
}
use project_loom.Common.Int.{ℤ, leb_ℤ}
use project_loom.Common.Result.{Result, ok}
use project_loom.Common.Table.{DbError, update_where, count_where}
use project_loom.Common.Keyed.{IsKeyed, Lacks, update_where-IsKeyed}
use project_loom.Online.Float.{Float}
use project_loom.Tier.Rows.{
  warm, ServingState, Tables, has_key, key_of, is_unpinned, is_hot, set_tier,
}
use project_loom.Tier.Budget.{
  ItemKind, entity_item, fact_item, LowestSalienceItem, compute_namespace_hot_tier_tokens,
  get_namespace_hot_tier_budget, entity_may_go, fact_may_go, may_go_count, demote, lowest_unpinned,
  enforce_from, enforce_hot_tier_budget,
}
use project_loom.Tier.Hits.{HasSalience, hits, demote-count, lowest-IsReal, demote-HasSalience}
use project_loom.Tier.Enforce.{enforce_from-stop, enforce_from-empty, enforce_from-step, known}

unpinned_of : (a b c : Bool) → (a && (b && c)) ≡ true → b ≡ true
unpinned_of a b c h = ground arith

module _ {S : Type 0} where
  abbrev pub is_kept : ServingState S → Bool
  is_kept r = not (is_unpinned r)

  count-Lacks :
      (p : ServingState S → Bool) (i : ℕ) (t : List (ServingState S))
      → Lacks key_of i t
      → count_where (λ r. p r && has_key i r) t ≡ 0
  count-Lacks p i [] h = refl
  count-Lacks p i (r ∷ t) h = ground (arith, count-Lacks p i t h.1, ==_iff r.item_id i, h.0)

  -- The rows of a key, if one of them passes a test, all pass it.
  only-hit :
      (p : ServingState S → Bool) (i : ℕ) (t : List (ServingState S))
      → IsKeyed key_of t
      → 0 < count_where (λ r. p r && has_key i r) t
      → All (λ r. has_key i r ≡ true → p r ≡ true) t
  only-hit p i [] k h = tt
  only-hit p i (r ∷ t) k h = elim (Bool-cases (has_key i r)) [
    | inl here ↦
        let same : r.item_id ≡ i = (==_iff r.item_id i).0 here in
        let away = subst (λ j. Lacks key_of j t) same k.0 in
        (
          (λ _. ground (arith, count-Lacks p i t away, here, h)),
          All-map _ _ t (λ x ne e. absurd (ne ((==_iff x.item_id i).0 e))) away,
        )
    | inr there ↦ ((λ e. cc), only-hit p i t k.1 (ground (arith, there, h)))
  ]

  keep-update :
      (now i : ℕ) (t : List (ServingState S))
      → All (λ r. has_key i r ≡ true → is_unpinned r ≡ true) t
      → keep is_kept (update_where (has_key i) (set_tier now warm) t) ≡ keep is_kept t
  keep-update now i [] h = refl
  keep-update now i (r ∷ t) h = elim (Bool-cases (has_key i r)) [
    | inl e ↦ rw (e, h.0 e) (keep-update now i t h.1)
    | inr e ↦ rw e (ap (λ x. if is_kept r then r ∷ x else x) (keep-update now i t h.1))
  ]

  -- Both tables have a primary key.
  abbrev pub BothKeyed : Tables S → Type 0
  BothKeyed db = IsKeyed key_of db.entity_states × IsKeyed key_of db.fact_states

  -- The rows that are not marked as unpinned are the same in both.
  abbrev pub SamePinned : Tables S → Tables S → Type 0
  SamePinned db db' =
      (keep is_kept db'.entity_states ≡ keep is_kept db.entity_states)
      × (keep is_kept db'.fact_states ≡ keep is_kept db.fact_states)

  demote-SamePinned :
      (now : ℕ) (namespace : String) (db : Tables S) (item : LowestSalienceItem S)
      → BothKeyed db
      → 0 < hits namespace db item
      → SamePinned db (demote now item db) × BothKeyed (demote now item db)
  demote-SamePinned now namespace db item k h = go item.item_kind h
    where
      go :
          (kind : ItemKind)
          → 0 < hits namespace db (record item { item_kind = kind })
          → SamePinned db (demote now (record item { item_kind = kind }) db)
            × BothKeyed (demote now (record item { item_kind = kind }) db)
      go entity_item h' =
          let only = only-hit (entity_may_go namespace db) item.item_id db.entity_states k.0 h' in
          (
            (
              keep-update now item.item_id db.entity_states (
                  All-map _ _ db.entity_states
                    (λ r f e. unpinned_of (is_hot r) (is_unpinned r) _ (f e)) only),
              refl,
            ),
            (
              update_where-IsKeyed key_of (has_key item.item_id) (set_tier now warm)
                  db.entity_states (λ r. refl) k.0,
              k.1,
            ),
          )
      go fact_item h' =
          let only = only-hit (fact_may_go namespace db) item.item_id db.fact_states k.1 h' in
          (
            (
              refl,
              keep-update now item.item_id db.fact_states (
                  All-map _ _ db.fact_states
                    (λ r f e. unpinned_of (is_hot r) (is_unpinned r) _ (f e)) only),
            ),
            (
              k.0,
              update_where-IsKeyed key_of (has_key item.item_id) (set_tier now warm) db.fact_states
                  (λ r. refl) k.1,
            ),
          )

module _ {S : Type 0} (F : Float S) where
  -- An end of the loop whose tables have the pinned rows of the first.
  abbrev EndsPinned : Tables S → Option (Result DbError ℕ × Tables S) → Type 0
  EndsPinned db run = (r : Result DbError ℕ × Tables S) × (run ≡ some r) × SamePinned db r.1

  enforce_from-EndsPinned :
      (fuel now : ℕ) (namespace : String) (budget : ℤ) (before : ℕ) (start db : Tables S)
      → may_go_count namespace db < fuel
      → HasSalience db
      → BothKeyed db
      → SamePinned start db
      → EndsPinned start (enforce_from F fuel now namespace budget before db)
  enforce_from-EndsPinned zero now namespace budget before start db enough h k same =
      absurd (omega (arith, enough))
  enforce_from-EndsPinned (suc fuel) now namespace budget before start db enough h k same =
      elim (Bool-cases (leb_ℤ (compute_namespace_hot_tier_tokens namespace db) budget)) [
        | inl fits ↦
            ((ok before, db), enforce_from-stop F fuel now namespace budget before db fits, same)
        | inr over ↦ elim (Option-cases (lowest_unpinned F namespace db)) [
          | inl nothing ↦ (
            (ok before, db),
            enforce_from-empty F fuel now namespace budget before db over nothing,
            same,
          )
          | inr (item, e) ↦
              let real = lowest-IsReal F namespace db item h e in
              let (x, known_score) = known F item.salience_score real.1 in
              let (kept, keyed) = demote-SamePinned now namespace db item k real.0 in
              let less = demote-count now namespace db item in
              let (r, run, end) =
                enforce_from-EndsPinned fuel now namespace budget (suc before) start
                  (demote now item db) (omega (arith, real.0, less, enough))
                  (demote-HasSalience now db item h) keyed (kept.0 ∙ same.0, kept.1 ∙ same.1) in
              (
                r,
                enforce_from-step F fuel now namespace budget before db item x over e known_score
                    ∙ run,
                end,
              )
        ]
      ]

  -- In keyed tables without a missing salience score, the enforcement ends and leaves each row that
  -- is not marked as unpinned as it was, in both tables.
  pub enforce_hot_tier_budget-SamePinned :
      (now : ℕ) (namespace : String) (db : Tables S)
      → HasSalience db
      → BothKeyed db
      → (r : Result DbError ℕ × Tables S) × (enforce_hot_tier_budget F now namespace db ≡ some r)
        × SamePinned db r.1
  unfolding enforce_hot_tier_budget
  enforce_hot_tier_budget-SamePinned now namespace db h k =
      enforce_from-EndsPinned (suc (may_go_count namespace db)) now namespace
        (get_namespace_hot_tier_budget namespace db.configs) 0 db db (omega arith) h k (refl, refl)
