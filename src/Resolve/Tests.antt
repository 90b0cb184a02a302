-- ===== src/Resolve/Tests.antt =====
-- Runs of the resolution on small tables.
use project_loom.Common.{
  ℕ, ◌≡◌, refl, true, Option, none, some, [], ◌∷◌, String, any, if◌then◌else◌,
}
use text.Mathlib.Text.{◌==◌ as str_eq}
use project_loom.Common.Int.{pos}
use project_loom.Common.Json.{object, end, null, field, strings}
use project_loom.Common.Sort.{sort_by}
use project_loom.Common.Result.{ok, err}
use project_loom.Common.Table.{find_where, unique_violation, check_violation}
use project_loom.Online.Fixed.{millionths, millionths-IsLawful}
use project_loom.Tier.{ServingState, hot, warm, has_key}
use project_loom.Resolve.Rows.{Entity, ExtractedEntity, Host, Store, ResolutionResult, new, alias}
use project_loom.Resolve.Queries.{is_entity_type, get_entity_by_name_type_namespace}
use project_loom.Resolve.Updates.{with_aliases}
use project_loom.Resolve.Passes.{
  alias_candidates, pass3_semantic_match, entity, validate_entity_type,
}
use project_loom.Resolve.Run.{Outside, resolve_entity}
use project_loom.Resolve.Unique.{IsUnique, resolve_entity-IsUnique}
use project_loom.Resolve.Matches.{is_linked}
use project_loom.Resolve.Total.{resolve_entity_lem}
use project_loom.Resolve.Refused.{
  resolve_entity-deleted_name, resolve_entity-other_case, resolve_entity-pinned,
}

-- A host that lowers two words, and holds no two vectors for similar.
abbrev lower : String → String
lower s = if str_eq s "Rust" then "rust" else if str_eq s "Technology" then "technology" else s

abbrev host : Host ℕ
host = record {
  lower = lower;
  to_lowercase = lower;
  text_of = λ j. "";
  collate = λ a b. true;
  distance = λ v w. 1000000;
}

abbrev outside : Outside
outside = record {
  for_match = ok (1 ∷ []);
  for_state = ok (2 ∷ []);
  entity_id = 7;
  conflict_id = 8;
  conflict_failure = none;
  now = 50;
}

abbrev row : ℕ → String → Option ℕ → Entity
row id name deleted_at = record {
  id = id;
  name = name;
  entity_type = "technology";
  namespace = "default";
  properties = some (object (field "aliases" (strings ("rust-lang" ∷ [])) end));
  created_at = none;
  source_episodes = none;
  deleted_at = deleted_at;
}

abbrev pinned_state : ServingState ℕ
pinned_state = record {
  item_id = 1;
  embedding = some (3 ∷ []);
  salience_score = some 900000;
  access_count = some (pos 12);
  last_accessed = some 40;
  tier = some hot;
  pinned = some true;
  updated_at = none;
}

abbrev store : Store ℕ
store = record {
  entities = row 1 "rust" none ∷ row 2 "ferris" (some 9) ∷ [];
  states = pinned_state ∷ [];
  conflicts = [];
}

abbrev mention : String → String → ExtractedEntity
mention name entity_type = record {
  name = name;
  entity_type = entity_type;
  aliases = [];
  properties = null;
}

-- The alias finds the entity, and the episode is linked to it.
by_alias_run :
    (resolve_entity millionths host outside (mention "rust-lang" "technology") "default" 5 store).0
    ≡ ok (record { entity_id = 1; method = alias; confidence = 950000 })
unfolding resolve_entity sort_by
by_alias_run = refl

new_run :
    (resolve_entity millionths host outside (mention "cargo" "technology") "default" 5 store).0
    ≡ ok (record { entity_id = 7; method = new; confidence = 1000000 })
unfolding resolve_entity sort_by
new_run = refl

resolve_entity-IsUnique_example :
    IsUnique host
      (resolve_entity millionths host outside
        (mention "cargo" "technology")
        "default"
        5
        store).1.entities
resolve_entity-IsUnique_example =
    resolve_entity-IsUnique millionths host outside (mention "cargo" "technology") "default" 5 store
      ((refl, tt), (tt, tt))

resolve_entity_example :
    (r : ResolutionResult ℕ) × (s' : Store ℕ) × (resolve_entity millionths host outside
        (mention "rust-lang" "technology")
        "default"
        5
        store
      ≡ (ok r, s'))
    × (any (is_linked "technology" "default" 5 r.entity_id) s'.entities ≡ true)
unfolding is_entity_type with_aliases
resolve_entity_example =
    resolve_entity_lem millionths host outside (mention "rust-lang" "technology") "default" 5 store
      (2 ∷ []) millionths-IsLawful refl refl refl (refl, (refl, tt)) (refl, (refl, tt))

resolve_entity-deleted_name_example :
    resolve_entity millionths host outside (mention "ferris" "technology") "default" 5 store
    ≡ (err (entity unique_violation), store)
unfolding get_entity_by_name_type_namespace alias_candidates pass3_semantic_match is_entity_type
    sort_by
resolve_entity-deleted_name_example =
    resolve_entity-deleted_name millionths host outside (mention "ferris" "technology") "default" 5
      store (refl, refl, refl) refl refl

resolve_entity-other_case_example :
    (validate_entity_type host "Technology" ≡ ok tt)
    × (resolve_entity millionths host outside (mention "cargo" "Technology") "default" 5 store
        ≡ (err (entity check_violation), store))
unfolding get_entity_by_name_type_namespace alias_candidates pass3_semantic_match is_entity_type
    sort_by
resolve_entity-other_case_example =
    resolve_entity-other_case millionths host outside (mention "cargo" "Technology") "default" 5
      store (refl, refl, refl) refl refl

resolve_entity-pinned_example :
    (r : ResolutionResult ℕ) × (s' : Store ℕ) × (st' : ServingState ℕ) × (resolve_entity millionths
        host outside
        (mention "Rust" "technology")
        "default"
        5
        store
      ≡ (ok r, s'))
    × (r.entity_id ≡ 1)
    × (find_where (has_key 1) s'.states ≡ some st')
    × (st'.tier ≡ some warm)
    × (st'.pinned ≡ some true)
    × (st'.access_count ≡ some (pos 0))
    × (st'.last_accessed ≡ none)
unfolding get_entity_by_name_type_namespace
resolve_entity-pinned_example =
    resolve_entity-pinned millionths host outside (mention "Rust" "technology") "default" 5 store
      (row 1 "rust" none) (2 ∷ []) pinned_state refl refl refl refl refl
