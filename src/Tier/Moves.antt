-- ===== src/Tier/Moves.antt =====
-- The statements that move rows between the tiers. Times are in microseconds; `now` is the time of
-- the statement.
use project_loom.Common.{
  ℕ, ◌+◌, ◌-◌, ◌*◌, ◌/◌, Bool, true, false, Option, none, some, List, [], ◌∷◌, ◌&&◌, ◌||◌, not, any,
  leb, ltb, ◌==◌, is_some, if◌then◌else◌,
}
use project_loom.Common.Int.{ℤ, pos, leb_ℤ}
use project_loom.Common.Text.{Text}
use project_loom.Common.Table.{update_where, count_where}
use project_loom.Fact.{Fact, is_superseded}
use project_loom.Online.Float.{Float}
use project_loom.Tier.Rows.{
  Tier, hot, warm, ServingState, has_key, is_hot, is_warm, is_unpinned, set_tier,
}

abbrev pub day : ℕ
day = 86400000000

abbrev pub promotion_access_threshold : ℤ
promotion_access_threshold = pos 5

abbrev pub promotion_window_days : ℕ
promotion_window_days = 14

abbrev pub demotion_stale_days : ℕ
demotion_stale_days = 30

abbrev pub archival_stale_days : ℕ
archival_stale_days = 90

-- `access_count >= $1`
abbrev pub accessed_often : Option ℤ → Bool
accessed_often (some n) = leb_ℤ promotion_access_threshold n
accessed_often none = false

-- `last_accessed >= now() - make_interval(days => $2)`
abbrev pub accessed_within : ℕ → ℕ → Option ℕ → Bool
accessed_within now days (some last) = leb now (last + days * day)
accessed_within now days none = false

-- `last_accessed IS NULL OR last_accessed < now() - make_interval(days => $1)`
abbrev pub is_stale : ℕ → ℕ → Option ℕ → Bool
is_stale now days (some last) = ltb (last + days * day) now
is_stale now days none = true

-- `id IN (SELECT id FROM loom_facts WHERE ...)`
abbrev pub in_facts : (Fact → Bool) → List Fact → ℕ → Bool
in_facts p facts i = any (λ (f : Fact). f.id == i && p f) facts

unfoldable pub qualifies_for_promotion : ℕ → ℤ → Option ℕ → Bool
qualifies_for_promotion now access_count last_accessed =
    leb_ℤ promotion_access_threshold access_count && elim last_accessed [
      | some accessed ↦ leb ((now - accessed) / day) promotion_window_days
      | none ↦ false
    ]

unfoldable pub is_fact_archived : ℕ → Option ℕ → Option ℕ → Bool
is_fact_archived now superseded_by last_accessed = is_some superseded_by || elim last_accessed [
  | some accessed ↦ leb archival_stale_days ((now - accessed) / day)
  | none ↦ true
]

module _ {S : Type 0} where
  abbrev pub pin : ℕ → ServingState S → ServingState S
  pin now r = record r { pinned = some true; tier = some hot; updated_at = some now }

  abbrev pub unpin : ℕ → ServingState S → ServingState S
  unpin now r = record r { pinned = some false; tier = some warm; updated_at = some now }

  -- The same statement for entities and facts.
  unfoldable pub promote_pin : ℕ → ℕ → List (ServingState S) → List (ServingState S)
  promote_pin now id t = update_where (has_key id) (pin now) t

  unfoldable pub demote_unpin : ℕ → ℕ → List (ServingState S) → List (ServingState S)
  demote_unpin now id t = update_where (has_key id) (unpin now) t

  abbrev pub is_eligible : ℕ → ServingState S → Bool
  is_eligible now r =
      is_warm r
      && (accessed_often r.access_count
          && (accessed_within now promotion_window_days r.last_accessed && is_unpinned r))

  unfoldable pub promote_eligible_entities : ℕ → List (ServingState S) → ℕ × List (ServingState S)
  promote_eligible_entities now t =
      (count_where (is_eligible now) t, update_where (is_eligible now) (set_tier now hot) t)

  abbrev pub is_eligible_fact : ℕ → List Fact → ServingState S → Bool
  is_eligible_fact now facts r =
      is_eligible now r && not (in_facts (λ f. is_superseded f.evidence_status) facts r.item_id)

  unfoldable pub promote_eligible_facts :
      ℕ → List Fact → List (ServingState S) → ℕ × List (ServingState S)
  promote_eligible_facts now facts t = (
    count_where (is_eligible_fact now facts) t,
    update_where (is_eligible_fact now facts) (set_tier now hot) t,
  )

  abbrev pub is_stale_hot : ℕ → ℕ → ServingState S → Bool
  is_stale_hot now days r = is_hot r && (is_unpinned r && is_stale now days r.last_accessed)

  -- `demote_stale_entities`, `demote_stale_facts`
  unfoldable pub demote_stale : ℕ → List (ServingState S) → ℕ × List (ServingState S)
  demote_stale now t = (
    count_where (is_stale_hot now demotion_stale_days) t,
    update_where (is_stale_hot now demotion_stale_days) (set_tier now warm) t,
  )

  unfoldable pub archive_stale_facts : ℕ → List (ServingState S) → ℕ × List (ServingState S)
  archive_stale_facts now t = (
    count_where (is_stale_hot now archival_stale_days) t,
    update_where (is_stale_hot now archival_stale_days) (set_tier now warm) t,
  )

  abbrev pub is_superseded_hot : List Fact → ServingState S → Bool
  is_superseded_hot facts r = is_hot r && in_facts (λ f. is_some f.superseded_by) facts r.item_id

  -- `archive_superseded_facts` is the same statement.
  unfoldable pub demote_superseded_facts :
      ℕ → List Fact → List (ServingState S) → ℕ × List (ServingState S)
  demote_superseded_facts now facts t = (
    count_where (is_superseded_hot facts) t,
    update_where (is_superseded_hot facts) (set_tier now warm) t,
  )

  -- `INSERT ... ON CONFLICT (fact_id) DO UPDATE`
  unfoldable pub update_fact_state :
      ℕ
      → ℕ
      → Option Text
      → S
      → Tier
      → ℤ
      → Option ℕ
      → Bool
      → List (ServingState S)
      → List (ServingState S)
  update_fact_state now id embedding salience tier access_count last_accessed pinned t =
      if any (has_key id) t
      then update_where (has_key id)
          (λ r. record r {
            embedding = elim embedding [ some v ↦ some v | none ↦ r.embedding ];
            salience_score = some salience;
            tier = some tier;
            access_count = some access_count;
            last_accessed = last_accessed;
            pinned = some pinned;
            updated_at = some now;
          })
          t
      else record {
        item_id = id;
        embedding = embedding;
        salience_score = some salience;
        access_count = some access_count;
        last_accessed = last_accessed;
        tier = some tier;
        pinned = some pinned;
        updated_at = some now;
      }
        ∷ t

  unfoldable pub initialize_fact_serving_state :
      Float S → ℕ → List ℕ → List (ServingState S) → List (ServingState S)
  unfolding update_fact_state
  initialize_fact_serving_state F now [] t = t
  initialize_fact_serving_state F now (id ∷ ids) t =
      initialize_fact_serving_state F now ids
        (update_fact_state now id none (F.lit 5 1) warm (pos 0) none false t)
