-- ===== src/Tier/Budget.antt =====
-- The enforcement of the hot tier's token budget (`enforce_hot_tier_budget`). Each round demotes one
-- row that is hot and not pinned, so one round more than there are such rows is enough.
use project_loom.Common.{
  ℕ, zero, suc, ◌+◌, ◌*◌, String, Bool, true, false, Option, none, some, List, [], ◌∷◌, ◌++◌, map,
  keep, ◌&&◌, ◌==◌, is_none, get_or_default,
}
use text.Mathlib.Text.{◌==◌ as str_eq}
use project_loom.Common.Int.{ℤ, pos, as_i32, leb_ℤ}
use project_loom.Common.Result.{Result, ok, err}
use project_loom.Common.Table.{DbError, null_column, update_where, count_where, find_where}
use project_loom.Common.Sort.{sort_by}
use project_loom.Fact.{Fact, is_current}
use project_loom.Online.Float.{Float}
use project_loom.Tier.Rows.{
  warm, ServingState, NamespaceConfig, Tables, has_key, is_hot, is_unpinned, set_tier, tier_is_hot,
  lives_in, fact_lives_in,
}

-- Wrap-around of 32 bits at the end is that of each step.
unfoldable pub estimate_hot_tier_tokens : ℕ → ℕ → ℕ → ℤ
estimate_hot_tier_tokens entity_count fact_count procedure_count =
    as_i32 (entity_count * 10 + fact_count * 15 + procedure_count * 30)

unfoldable pub get_namespace_hot_tier_budget : String → List NamespaceConfig → ℤ
get_namespace_hot_tier_budget namespace configs =
    elim (find_where (λ c. str_eq c.namespace namespace) configs) [
      | some c ↦ get_or_default c.hot_tier_budget (pos 500)
      | none ↦ pos 500
    ]

abbrev pub current_in : String → List Fact → ℕ → Bool
current_in namespace facts i = elim (find_where (λ (f : Fact). f.id == i) facts) [
  | some f ↦ str_eq f.namespace namespace && is_current f
  | none ↦ false
]

pub data ItemKind : Type 0 where
  entity_item fact_item : ItemKind

pub record LowestSalienceItem (S : Type 0) : Type 0 where
  pub item_id : ℕ
  pub salience_score : Option S
  pub item_kind : ItemKind

module _ {S : Type 0} where
  unfoldable pub compute_namespace_hot_tier_tokens : String → Tables S → ℤ
  unfolding estimate_hot_tier_tokens
  compute_namespace_hot_tier_tokens namespace db =
      estimate_hot_tier_tokens
        (count_where (λ r. is_hot r && lives_in namespace db.entities r.item_id) db.entity_states)
        (count_where (λ r. is_hot r && current_in namespace db.facts r.item_id) db.fact_states)
        (count_where
          (λ p. tier_is_hot p.tier && (str_eq p.namespace namespace && is_none p.deleted_at))
          db.procedures)

  -- The rows that may be demoted.
  abbrev pub entity_may_go : String → Tables S → ServingState S → Bool
  entity_may_go namespace db r =
      is_hot r && (is_unpinned r && lives_in namespace db.entities r.item_id)

  abbrev pub fact_may_go : String → Tables S → ServingState S → Bool
  fact_may_go namespace db r =
      is_hot r && (is_unpinned r && fact_lives_in namespace db.facts r.item_id)

  abbrev pub may_go_count : String → Tables S → ℕ
  may_go_count namespace db =
      count_where (entity_may_go namespace db) db.entity_states
      + count_where (fact_may_go namespace db) db.fact_states

  abbrev pub as_item : ItemKind → ServingState S → LowestSalienceItem S
  as_item kind r = record {
    item_id = r.item_id;
    salience_score = r.salience_score;
    item_kind = kind;
  }

  abbrev pub unpinned_hot : String → Tables S → List (LowestSalienceItem S)
  unpinned_hot namespace db =
      map (as_item entity_item) (keep (entity_may_go namespace db) db.entity_states)
      ++ map (as_item fact_item) (keep (fact_may_go namespace db) db.fact_states)

  abbrev pub first : List (LowestSalienceItem S) → Option (LowestSalienceItem S)
  first [] = none
  first (item ∷ _) = some item

  abbrev pub demote : ℕ → LowestSalienceItem S → Tables S → Tables S
  demote now item db = elim item.item_kind [
    | entity_item ↦ record db {
      entity_states = update_where (has_key item.item_id) (set_tier now warm) db.entity_states;
    }
    | fact_item ↦ record db {
      fact_states = update_where (has_key item.item_id) (set_tier now warm) db.fact_states;
    }
  ]

module _ {S : Type 0} (F : Float S) where
  -- `ORDER BY salience_score ASC`, which puts NULL last
  abbrev pub le_salience : Option S → Option S → Bool
  le_salience none none = true
  le_salience none (some _) = false
  le_salience (some _) none = true
  le_salience (some x) (some y) = F.le x y

  abbrev pub by_salience : LowestSalienceItem S → LowestSalienceItem S → Bool
  by_salience a b = le_salience a.salience_score b.salience_score

  unfoldable pub lowest_unpinned : String → Tables S → Option (LowestSalienceItem S)
  unfolding sort_by
  lowest_unpinned namespace db = first (sort_by by_salience (unpinned_hot namespace db))

  -- The loop, for so many rounds; `none` where they do not suffice. A lowest item without a
  -- salience cannot be read.
  unfoldable pub enforce_from :
      ℕ → ℕ → String → ℤ → ℕ → Tables S → Option (Result DbError ℕ × Tables S)
  unfolding compute_namespace_hot_tier_tokens lowest_unpinned
  enforce_from zero now namespace budget total_demoted db = none
  enforce_from (suc fuel) now namespace budget total_demoted db =
      elim (leb_ℤ (compute_namespace_hot_tier_tokens namespace db) budget) [
        | true ↦ some (ok total_demoted, db)
        | false ↦ elim (lowest_unpinned namespace db) [
          | none ↦ some (ok total_demoted, db)
          | some item ↦ elim item.salience_score [
            | none ↦ some (err null_column, db)
            | some _ ↦
                enforce_from fuel now namespace budget (suc total_demoted) (demote now item db)
          ]
        ]
      ]

  unfoldable pub enforce_hot_tier_budget :
      ℕ → String → Tables S → Option (Result DbError ℕ × Tables S)
  unfolding enforce_from get_namespace_hot_tier_budget
  enforce_hot_tier_budget now namespace db =
      enforce_from (suc (may_go_count namespace db)) now namespace
        (get_namespace_hot_tier_budget namespace db.configs) 0 db
