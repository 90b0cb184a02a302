-- ===== src/Resolve/Updates.antt =====
-- The statements that change entities and their serving state (loom-engine/src/db/entities.rs).
use project_loom.Common.{
  ℕ, String, Bool, true, false, Option, none, some, List, [], ◌∷◌, ◌++◌, any, map, contains,
  get_or_default, if◌then◌else◌,
}
use text.Mathlib.Text.{◌==◌ as str_eq}
use project_loom.Common.Int.{ℤ}
use project_loom.Common.Json.{Json, Items, null, string, array, object, nil, cons, end, set_field}
use project_loom.Common.Result.{Result, ok, err, ◌>>=◌}
use project_loom.Common.Sort.{sort_by}
use project_loom.Common.Table.{
  DbError, row_not_found, invalid_json, find_where, update_where, update_one,
}
use project_loom.Common.Text.{Text}
use project_loom.Tier.{Tier, ServingState, has_key}
use project_loom.Resolve.Rows.{Entity, Host, has_id}
use project_loom.Resolve.Queries.{aliases_of}

-- `jsonb_array_elements_text`, where a JSON null is NULL.
abbrev pub item_text : (Json → String) → Json → Option String
item_text text_of null = none
item_text text_of (string s) = some s
item_text text_of j = some (text_of j)

abbrev pub item_texts : (Json → String) → Items → List (Option String)
item_texts text_of nil = []
item_texts text_of (cons j xs) = item_text text_of j ∷ item_texts text_of xs

abbrev pub array_elements_text : (Json → String) → Json → Result DbError (List (Option String))
array_elements_text text_of (array xs) = ok (item_texts text_of xs)
array_elements_text text_of _ = err invalid_json

abbrev pub same_text : Option String → Option String → Bool
same_text none none = true
same_text (some a) (some b) = str_eq a b
same_text _ _ = false

-- `UNION` and `DISTINCT` keep one of each value.
abbrev pub distinct : List (Option String) → List (Option String)
distinct [] = []
distinct (x ∷ xs) = let rest = distinct xs in if any (same_text x) xs then rest else x ∷ rest

abbrev pub to_item : Option String → Json
to_item none = null
to_item (some s) = string s

abbrev pub to_items : List (Option String) → Items
to_items [] = nil
to_items (x ∷ xs) = cons (to_item x) (to_items xs)

-- `jsonb_set(target, '{key}', value)`
abbrev pub jsonb_set : String → Json → Json → Result DbError Json
jsonb_set key v (object fs) = ok (object (set_field key v fs))
jsonb_set key v _ = err invalid_json

abbrev pub somes : List String → List (Option String)
somes ss = map some ss

module _ {S : Type 0} (h : Host S) where
  abbrev pub merged : List (Option String) → List String → Json
  merged old new_aliases =
      array (to_items (sort_by h.collate (distinct (old ++ somes new_aliases))))

  -- The new properties of the row.
  unfoldable pub with_aliases : List String → Entity → Result DbError Json
  with_aliases new_aliases e =
      array_elements_text h.text_of (get_or_default (aliases_of e) (array nil)) >>= λ old.
      jsonb_set "aliases" (merged old new_aliases) (get_or_default e.properties (object end))

  unfoldable pub update_entity_aliases :
      ℕ → List String → List Entity → Result DbError Entity × List Entity
  unfolding with_aliases
  update_entity_aliases entity_id new_aliases t = elim (find_where (has_id entity_id) t) [
    | none ↦ (err row_not_found, t)
    | some e ↦ elim (with_aliases new_aliases e) [
      | err x ↦ (err x, t)
      | ok p ↦ update_one (has_id entity_id) (λ r. record r { properties = some p }) t
    ]
  ]

abbrev pub coalesce : {A : Type 0} → Option A → Option A → Option A
coalesce (some a) _ = some a
coalesce none b = b

module _ {S : Type 0} where
  -- The row of an INSERT, with the defaults of the table.
  abbrev pub new_state : ℕ → ℕ → Option Text → S → Tier → ℤ → Option ℕ → ServingState S
  new_state now id embedding salience_score tier access_count last_accessed = record {
    item_id = id;
    embedding = embedding;
    salience_score = some salience_score;
    access_count = some access_count;
    last_accessed = last_accessed;
    tier = some tier;
    pinned = some false;
    updated_at = some now;
  }

  abbrev pub renewed : ℕ → Option Text → S → Tier → ℤ → Option ℕ → ServingState S → ServingState S
  renewed now embedding salience_score tier access_count last_accessed r = record r {
    embedding = coalesce embedding r.embedding;
    salience_score = some salience_score;
    tier = some tier;
    access_count = some access_count;
    last_accessed = last_accessed;
    updated_at = some now;
  }

  -- `INSERT ... ON CONFLICT (entity_id) DO UPDATE`; with the foreign key kept by the caller, who
  -- has read or inserted the entity.
  unfoldable pub update_entity_state :
      ℕ → ℕ → Option Text → S → Tier → ℤ → Option ℕ → List (ServingState S) → List (ServingState S)
  update_entity_state now id embedding salience_score tier access_count last_accessed t =
      if any (has_key id) t
      then update_where (has_key id)
          (renewed now embedding salience_score tier access_count last_accessed) t
      else new_state now id embedding salience_score tier access_count last_accessed ∷ t

-- `CASE WHEN $2 = ANY(...)`: an episode is linked once.
abbrev pub link_episode : ℕ → Option (List ℕ) → List ℕ
link_episode episode_id episodes =
    let old = get_or_default episodes [] in
    if contains old episode_id then old else old ++ (episode_id ∷ [])

unfoldable pub append_source_episode : ℕ → ℕ → List Entity → Result DbError Entity × List Entity
append_source_episode entity_id episode_id t =
    update_one (has_id entity_id)
      (λ r. record r { source_episodes = some (link_episode episode_id r.source_episodes) }) t

abbrev pub with_reason : String → Entity → Result DbError Json
with_reason reason e =
    jsonb_set "deletion_reason" (string reason) (get_or_default e.properties (object end))

unfoldable pub soft_delete_entity :
    ℕ → ℕ → Option String → List Entity → Result DbError Entity × List Entity
soft_delete_entity now id none t =
    update_one (has_id id) (λ r. record r { deleted_at = some now }) t
soft_delete_entity now id (some reason) t = elim (find_where (has_id id) t) [
  | none ↦ (err row_not_found, t)
  | some e ↦ elim (with_reason reason e) [
    | err x ↦ (err x, t)
    | ok p ↦ update_one (has_id id) (λ r. record r { deleted_at = some now; properties = some p }) t
  ]
]
