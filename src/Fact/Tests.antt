-- ===== src/Fact/Tests.antt =====
-- Runs of supersession on a small store.
use project_loom.Common.{ℕ, ◌≡◌, refl, false, Option, none, some, [], ◌∷◌, All, arith}
use project_loom.Common.Result.{ok}
use project_loom.Common.Keyed.{IsKeyed}
use project_loom.Common.Text.{text}
use project_loom.Fact.Rows.{extracted, Fact, Store}
use project_loom.Fact.Queries.{get_fact_by_id, supersede}
use project_loom.Fact.Resolve.{
  NewFactDetails, new_fact_details_from, resolve_supersessions, resolve_supersessions_batch,
}
use project_loom.Fact.Supersede.Loop.{contradicts, id_of}
use project_loom.Fact.Supersede.{
  IsUncited, resolve_supersessions-current, resolve_supersessions-consistent,
}
use project_loom.Fact.Batch.{Closes, resolve_supersessions_batch-Closes}

abbrev sample : ℕ → ℕ → ℕ → Fact
sample id object_id valid_from = record {
  id = id;
  subject_id = 10;
  predicate = "uses";
  object_id = object_id;
  namespace = "default";
  valid_from = valid_from;
  valid_until = none;
  source_episodes = 1 ∷ [];
  superseded_by = none;
  evidence_status = extracted;
  evidence_strength = none;
  properties = none;
  created_at = none;
  deleted_at = none;
}

abbrev old : Fact
old = sample 1 20 100

abbrev new : Fact
new = sample 2 21 200

abbrev store : Store
store = record {
  facts = old ∷ new ∷ [];
  summaries =
      record {
        id = 7;
        namespace = "default";
        subject_entity_id = 10;
        summary_text = text "It uses 20.";
        source_facts = 1 ∷ [];
        invalidated_at = none;
        deleted_at = none;
      }
      ∷ [];
}

abbrev details : NewFactDetails
details = record {
  fact_id = 2;
  subject_id = 10;
  predicate = "uses";
  object_id = 21;
  namespace = "default";
  valid_from = 200;
}

abbrev at_300 : ℕ → Option ℕ
at_300 _ = some 300

store-IsKeyed : IsKeyed id_of store.facts
store-IsKeyed = (((λ h. ground (arith, h)), tt), (tt, tt))

found : get_fact_by_id 2 store.facts ≡ some new
unfolding get_fact_by_id
found = refl

details_from : new_fact_details_from new ≡ details
unfolding new_fact_details_from
details_from = refl

resolve_supersessions-current_example :
    ((resolve_supersessions at_300 details store).0 ≡ ok 1)
    × ((resolve_supersessions at_300 details store).1.facts ≡ supersede 2 200 old ∷ new ∷ [])
resolve_supersessions-current_example =
    resolve_supersessions-current at_300 details new store store-IsKeyed found refl

resolve_supersessions-consistent_example :
    All (λ f. contradicts new f ≡ false) (resolve_supersessions at_300 details store).1.facts
    × All (IsUncited at_300 (resolve_supersessions at_300 details store).1.summaries) (old ∷ [])
resolve_supersessions-consistent_example =
    resolve_supersessions-consistent at_300 details new store store-IsKeyed found refl

resolve_supersessions_batch_example :
    Closes 0 store (resolve_supersessions_batch at_300 (details ∷ details ∷ []) store)
resolve_supersessions_batch_example =
    resolve_supersessions_batch-Closes at_300 (details ∷ details ∷ []) store store-IsKeyed

-- Where the invalidation fails, the fact is superseded and counted, and its summary stays.
not_invalidated :
    ((resolve_supersessions (λ _. none) details store).0 ≡ ok 1)
    × ((resolve_supersessions (λ _. none) details store).1.summaries ≡ store.summaries)
unfolding resolve_supersessions
not_invalidated = (refl, refl)
