-- ===== src/Tier/Tests.antt =====
-- Runs of tier management on small tables.
use project_loom.Common.{ℕ, ◌+◌, ◌*◌, ◌≡◌, refl, Bool, true, false, none, some, [], ◌∷◌, arith}
use project_loom.Common.Int.{pos}
use project_loom.Common.Result.{Result, ok}
use project_loom.Common.Table.{DbError}
use project_loom.Online.Fixed.{millionths, millionths-IsLawful}
use project_loom.Tier.Rows.{Tier, hot, warm, ServingState, Entity, Tables}
use project_loom.Tier.Moves.{day, qualifies_for_promotion, is_eligible}
use project_loom.Tier.Budget.{get_namespace_hot_tier_budget, enforce_hot_tier_budget}
use project_loom.Tier.Eligible.{row_qualifies, eligible-qualifies}
use project_loom.Tier.Settled.{IsSettled, promote-demote_stale}
use project_loom.Tier.Hits.{HasSalience}
use project_loom.Tier.Enforce.{IsEnforced, enforce_hot_tier_budget_lem}
use project_loom.Tier.Pinned.{SamePinned, enforce_hot_tier_budget-SamePinned}

abbrev state : ℕ → ℕ → Tier → Bool → ℕ → ServingState ℕ
state id salience tier pinned last = record {
  item_id = id;
  embedding = none;
  salience_score = some salience;
  access_count = some (pos 6);
  last_accessed = some last;
  tier = some tier;
  pinned = some pinned;
  updated_at = none;
}

abbrev entity : ℕ → Entity
entity id = record { id = id; namespace = "default"; deleted_at = none }

-- Three hot entities of ten tokens each, of which one is pinned, with a budget of 15.
abbrev tables : Tables ℕ
tables = record {
  entity_states =
      state 1 700000 hot false 5 ∷ state 2 100000 hot true 5 ∷ state 3 300000 hot false 5 ∷ [];
  fact_states = [];
  entities = entity 1 ∷ entity 2 ∷ entity 3 ∷ [];
  facts = [];
  procedures = [];
  configs = record { namespace = "default"; hot_tier_budget = some (pos 15) } ∷ [];
}

tables-HasSalience : HasSalience tables
tables-HasSalience = ((refl, (refl, (refl, tt))), tt)

demoted :
    enforce_hot_tier_budget millionths 9 "default" tables
    ≡ some (
      ok 2,
      record tables {
        entity_states =
            record (state 1 700000 warm false 5) { updated_at = some 9 }
            ∷ state 2 100000 hot true 5
            ∷ record (state 3 300000 warm false 5) { updated_at = some 9 }
            ∷ [];
      },
    )
unfolding enforce_hot_tier_budget
demoted = refl

-- The predicate counts whole days, the statement compares times: fourteen and a half days ago is
-- within the window of the one, and not of the other.
abbrev half_past : ServingState ℕ
half_past = state 1 500000 warm false 0

qualifies_later : row_qualifies (14 * day + 43200000000) half_past ≡ true
unfolding qualifies_for_promotion
qualifies_later = refl

not_promoted : is_eligible (14 * day + 43200000000) half_past ≡ false
not_promoted = refl

enforce_hot_tier_budget_example :
    IsEnforced millionths 9 "default"
      (get_namespace_hot_tier_budget "default" tables.configs)
      0
      tables
      (enforce_hot_tier_budget millionths 9 "default" tables)
enforce_hot_tier_budget_example =
    enforce_hot_tier_budget_lem millionths millionths-IsLawful 9 "default" tables tables-HasSalience

enforce_hot_tier_budget-SamePinned_example :
    (r : Result DbError ℕ × Tables ℕ) × (enforce_hot_tier_budget millionths 9 "default" tables
      ≡ some r)
    × SamePinned tables r.1
enforce_hot_tier_budget-SamePinned_example =
    enforce_hot_tier_budget-SamePinned millionths 9 "default" tables tables-HasSalience (
      (
        ((λ h. ground (arith, h)), ((λ h. ground (arith, h)), tt)),
        (((λ h. ground (arith, h)), tt), (tt, tt)),
      ),
      tt,
    )

eligible-qualifies_example : row_qualifies (3 * day) (state 1 500000 warm false day) ≡ true
eligible-qualifies_example = eligible-qualifies (3 * day) (state 1 500000 warm false day) refl

promote-demote_stale_example : IsSettled (40 * day) tables.entity_states
promote-demote_stale_example = promote-demote_stale (40 * day) tables.entity_states
