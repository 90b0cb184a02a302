-- ===== src/Extract/Again.antt =====
-- A retry of the insertion (`insert_fact`, the loop of `orchestrate_fact_extraction`).
use project_loom.Common.{ℕ, ◌≡◌, refl, Option, List, ◌∷◌}
use project_loom.Common.Table.{DbError}
use project_loom.Common.Result.{Result, ok, err}
use project_loom.Fact.{Fact}
use project_loom.Predicate.{ExtractedFact}
use project_loom.Extract.Insert.{
  EpisodeRun, Progress, after_fact, validated, insert_valid, insert_facts,
}

-- The same episode, in a run with other draws at another time.
abbrev pub rerun : EpisodeRun → (ℕ → ℕ) → ℕ → EpisodeRun
rerun ep gen_random_uuid now = record ep { gen_random_uuid = gen_random_uuid; now = now }

pub insert_facts-ok :
    (ep : EpisodeRun) (fact : ExtractedFact) (facts : List ExtractedFact) (p : Progress)
    (t : List Fact) (row : Option Fact)
    → (insert_valid ep (validated ep fact) t).0 ≡ ok row
    → insert_facts ep (fact ∷ facts) p t
      ≡ insert_facts ep facts (after_fact fact row p) (insert_valid ep (validated ep fact) t).1
unfolding insert_facts
insert_facts-ok ep fact facts p t row k = rw (k, insert_facts) refl

pub insert_facts-err :
    (ep : EpisodeRun) (fact : ExtractedFact) (facts : List ExtractedFact) (p : Progress)
    (t : List Fact) (x : DbError)
    → (insert_valid ep (validated ep fact) t).0 ≡ err x
    → insert_facts ep (fact ∷ facts) p t ≡ (err x, (insert_valid ep (validated ep fact) t).1)
unfolding insert_facts
insert_facts-err ep fact facts p t x k = rw (k, insert_facts) refl
