-- ===== src/Extract/Namespace.antt =====
-- Namespaces (loom-engine/src/pipeline/online/namespace.rs).
use project_loom.Common.{
  ℕ, String, Option, none, some, List, [], ◌∷◌, ◌==◌, any, get_or_default, if◌then◌else◌,
}
use project_loom.Common.Int.{ℤ, pos}
use project_loom.Common.Table.{find_where}
use project_loom.Common.Result.{Result, ok, err}
use project_loom.Common.Text.{Text, trim}
use project_loom.Resolve.{Entity}
use package.text.Mathlib.Text.{◌==◌ as str_eq}

-- The messages are left out.
pub data NamespaceError : Type 0 where
  cross_namespace : NamespaceError

pub record NamespaceConfig : Type 0 where
  pub namespace : String
  pub hot_tier_budget : ℤ
  pub warm_tier_budget : ℤ
  pub predicate_packs : List String
  pub description : Option String

pub record NamespaceConfigRow : Type 0 where
  pub namespace : String
  pub hot_tier_budget : Option ℤ
  pub warm_tier_budget : Option ℤ
  pub predicate_packs : Option (List String)
  pub description : Option String

abbrev pub with_core : List String → List String
with_core packs = if any (λ p. str_eq p "core") packs then packs else "core" ∷ packs

-- For the name of a namespace and its row, if any.
unfoldable pub resolve_namespace : String → Option NamespaceConfigRow → NamespaceConfig
resolve_namespace namespace none = record {
  namespace = namespace;
  hot_tier_budget = pos 500;
  warm_tier_budget = pos 3000;
  predicate_packs = "core" ∷ [];
  description = none;
}
resolve_namespace namespace (some r) = record {
  namespace = r.namespace;
  hot_tier_budget = get_or_default r.hot_tier_budget (pos 500);
  warm_tier_budget = get_or_default r.warm_tier_budget (pos 3000);
  predicate_packs = with_core (get_or_default r.predicate_packs []);
  description = r.description;
}

-- `SELECT namespace FROM loom_entities WHERE id = $1`
abbrev pub entity_row : ℕ → List Entity → Option Entity
entity_row id entities = find_where (λ e. e.id == id) entities

abbrev pub check_row : String → Option Entity → Result NamespaceError (Unit {0})
check_row fact_namespace none = ok tt
check_row fact_namespace (some e) =
    if str_eq e.namespace fact_namespace then ok tt else err cross_namespace

abbrev pub then_check :
    Result NamespaceError (Unit {0})
    → Result NamespaceError (Unit {0})
    → Result NamespaceError (Unit {0})
then_check (err e) r = err e
then_check (ok _) r = r

unfoldable pub validate_fact_namespace :
    ℕ → ℕ → String → List Entity → Result NamespaceError (Unit {0})
validate_fact_namespace subject_id object_id fact_namespace entities =
    then_check (check_row fact_namespace (entity_row subject_id entities))
      (check_row fact_namespace (entity_row object_id entities))

unfoldable pub validate_namespace : Text → Result NamespaceError Text
validate_namespace namespace = elim (trim namespace) [
  | [] ↦ err cross_namespace
  | c ∷ s ↦ ok (c ∷ s)
]
