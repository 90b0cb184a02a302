-- ===== src/Tier/Hits.antt =====
-- The rows that a demotion hits, and the counts of those that may go (`enforce_hot_tier_budget`).
use project_loom.Common.{
  ℕ, ◌+◌, ◌<◌, ◌≡◌, refl, sym, subst, String, inl, inr, Bool, true, none, some, List, [], ◌∷◌, ◌++◌,
  map, length, length-append, length-map, keep, All, All-map, ◌&&◌, ==-refl, Bool-cases, is_some,
  arith, if◌then◌else◌,
}
use project_loom.Common.Table.{count_where, count_where-update, length-keep, All-update_where}
use project_loom.Common.Sort.{sort_by, All-sort_by, length-sort_by}
use project_loom.Online.Float.{Float}
use project_loom.Tier.Rows.{warm, ServingState, Tables, has_key, set_tier}
use project_loom.Tier.Budget.{
  ItemKind, entity_item, fact_item, LowestSalienceItem, entity_may_go, fact_may_go, may_go_count,
  as_item, unpinned_hot, first, demote, by_salience, lowest_unpinned,
}

some-injective {ℓ} : {A : Type ℓ} {x y : A} → some x ≡ some y → x ≡ y
some-injective e = cc

module _ {ℓ} {A : Type ℓ} where
  All-join : (P : A → Type 0) (xs ys : List A) → All P xs → All P ys → All P (xs ++ ys)
  All-join P [] ys h k = k
  All-join P (x ∷ xs) ys h k = (h.0, All-join P xs ys h.1 k)

module _ {ℓ κ} {A : Type ℓ} {B : Type κ} where
  All-mapped : (P : B → Type 0) (f : A → B) (xs : List A) → All (λ x. P (f x)) xs → All P (map f xs)
  All-mapped P f [] h = tt
  All-mapped P f (x ∷ xs) h = (h.0, All-mapped P f xs h.1)

module _ {S : Type 0} where
  -- No row lacks a salience score.
  abbrev pub HasSalience : Tables S → Type 0
  HasSalience db =
      All (λ r. is_some r.salience_score ≡ true) db.entity_states
      × All (λ r. is_some r.salience_score ≡ true) db.fact_states

  -- How many rows a demotion of the item hits that may go.
  abbrev pub hits : String → Tables S → LowestSalienceItem S → ℕ
  hits namespace db item = elim item.item_kind [
    | entity_item ↦
        count_where (λ r. entity_may_go namespace db r && has_key item.item_id r) db.entity_states
    | fact_item ↦
        count_where (λ r. fact_may_go namespace db r && has_key item.item_id r) db.fact_states
  ]

  abbrev pub IsReal : String → Tables S → LowestSalienceItem S → Type 0
  IsReal namespace db item = (0 < hits namespace db item) × (is_some item.salience_score ≡ true)

  abbrev IsHit : (ServingState S → Bool) → List (ServingState S) → ServingState S → Type 0
  IsHit p t r =
      (0 < count_where (λ x. p x && has_key r.item_id x) t) × (is_some r.salience_score ≡ true)

  rows-IsHit :
      (p : ServingState S → Bool) (t : List (ServingState S))
      → All (λ r. is_some r.salience_score ≡ true) t
      → All (IsHit p t) (keep p t)
  rows-IsHit p [] h = tt
  rows-IsHit p (r ∷ t) h =
      let rest : All (IsHit p (r ∷ t)) (keep p t) =
        All-map _ _ (keep p t) (λ x k. (omega (arith, k.0), k.1)) (rows-IsHit p t h.1) in
      elim (Bool-cases (p r)) [
        | inl e ↦
            let here : (p r && has_key r.item_id r) ≡ true = rw (e, ==-refl r.item_id) refl in
            let counted : 0 < count_where (λ x. p x && has_key r.item_id x) (r ∷ t) =
              rw here (omega arith) in
            subst (λ b. All (IsHit p (r ∷ t)) (if b then r ∷ keep p t else keep p t)) (sym e)
              ((counted, h.0), rest)
        | inr e ↦
            subst (λ b. All (IsHit p (r ∷ t)) (if b then r ∷ keep p t else keep p t)) (sym e) rest
      ]

  items-IsReal :
      (namespace : String) (db : Tables S)
      → HasSalience db
      → All (IsReal namespace db) (unpinned_hot namespace db)
  items-IsReal namespace db h =
      let entities = keep (entity_may_go namespace db) db.entity_states in
      let facts = keep (fact_may_go namespace db) db.fact_states in
      let P = IsReal namespace db in
      All-join P (map (as_item entity_item) entities) (map (as_item fact_item) facts)
        (All-mapped P (as_item entity_item) entities
          (rows-IsHit (entity_may_go namespace db) db.entity_states h.0))
        (All-mapped P (as_item fact_item) facts
          (rows-IsHit (fact_may_go namespace db) db.fact_states h.1))

  first-All :
      (P : LowestSalienceItem S → Type 0) (items : List (LowestSalienceItem S))
      (item : LowestSalienceItem S)
      → All P items
      → first items ≡ some item
      → P item
  first-All P [] item h e = cc
  first-All P (x ∷ xs) item h e = subst P (some-injective e) h.0

  pub demote-count :
      (now : ℕ) (namespace : String) (db : Tables S) (item : LowestSalienceItem S)
      → may_go_count namespace (demote now item db) + hits namespace db item
        ≡ may_go_count namespace db
  demote-count now namespace db item = go item.item_kind
    where
      go :
          (kind : ItemKind)
          → may_go_count namespace (demote now (record item { item_kind = kind }) db)
              + hits namespace db (record item { item_kind = kind })
            ≡ may_go_count namespace db
      go entity_item = omega (
        arith,
        count_where-update (entity_may_go namespace db) (has_key item.item_id) (set_tier now warm)
            db.entity_states (λ r. refl),
      )
      go fact_item = omega (
        arith,
        count_where-update (fact_may_go namespace db) (has_key item.item_id) (set_tier now warm)
            db.fact_states (λ r. refl),
      )

  pub demote-HasSalience :
      (now : ℕ) (db : Tables S) (item : LowestSalienceItem S)
      → HasSalience db
      → HasSalience (demote now item db)
  demote-HasSalience now db item h = go item.item_kind
    where
      go : (kind : ItemKind) → HasSalience (demote now (record item { item_kind = kind }) db)
      go entity_item = (
        All-update_where (has_key item.item_id) (set_tier now warm) db.entity_states (λ r k _. k)
            h.0,
        h.1,
      )
      go fact_item = (
        h.0,
        All-update_where (has_key item.item_id) (set_tier now warm) db.fact_states (λ r k _. k) h.1,
      )

  empty-length : (items : List (LowestSalienceItem S)) → first items ≡ none → length items ≡ 0
  empty-length [] e = refl
  empty-length (x ∷ xs) e = cc

module _ {S : Type 0} (F : Float S) where
  pub lowest-IsReal :
      (namespace : String) (db : Tables S) (item : LowestSalienceItem S)
      → HasSalience db
      → lowest_unpinned F namespace db ≡ some item
      → IsReal namespace db item
  unfolding lowest_unpinned
  lowest-IsReal namespace db item h e =
      first-All (IsReal namespace db) (sort_by (by_salience F) (unpinned_hot namespace db)) item
        (All-sort_by (by_salience F) (IsReal namespace db) (unpinned_hot namespace db)
          (items-IsReal namespace db h))
        e

  -- Where no lowest item is found, no row may go.
  pub lowest-none :
      (namespace : String) (db : Tables S)
      → lowest_unpinned F namespace db ≡ none
      → may_go_count namespace db ≡ 0
  unfolding lowest_unpinned
  lowest-none namespace db e =
      let items = unpinned_hot namespace db in
      let entities = keep (entity_may_go namespace db) db.entity_states in
      let facts = keep (fact_may_go namespace db) db.fact_states in
      omega (
        arith,
        empty-length (sort_by (by_salience F) items) e,
        length-sort_by (by_salience F) items,
        length-append (map (as_item entity_item) entities) (map (as_item fact_item) facts),
        length-map (as_item entity_item) entities,
        length-map (as_item fact_item) facts,
        length-keep (entity_may_go namespace db) db.entity_states,
        length-keep (fact_may_go namespace db) db.fact_states,
      )
