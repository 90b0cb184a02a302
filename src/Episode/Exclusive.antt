-- ===== src/Episode/Exclusive.antt =====
-- Concurrent workers on one table (worker/processor.rs with db/episodes.rs): every statement is one
-- atomic step, and the claim decides who runs the pipeline on an episode.
use project_loom.Common.{
  ℕ, String, ◌+◌, ◌≤◌, ◌<◌, ◌≡◌, refl, sym, ap, ◌∙◌, subst, Bool, true, false, none, some, List, [],
  ◌∷◌, All, All-map, if◌then◌else◌, ◌==◌, ==_iff, Bool-cases, Option-cases, inl, inr, ◌≢◌, arith,
  ◌&&◌, is_none,
}
use mathlib.Core.Bool.{false≢true}
use project_loom.Common.Int.{ℤ}
use project_loom.Common.Result.{ok}
use project_loom.Common.Table.{find_where, update_where}
use project_loom.Common.Keyed.{IsKeyed, Lacks, keyed_only, update_where-IsKeyed}
use project_loom.Common.Text.{Text}
use project_loom.Episode.Rows.{Episode, Episodes, pending, is_pending, is_processing, has_id}
use project_loom.Episode.Lifecycle.{
  store_episode_embedding, with_embedding, update_extraction_metrics, with_extraction,
  mark_episode_processed, mark_processed, claim_episode_for_processing, claim, is_claimable,
  record_processing_failure, fail, truncate_error, requeue_all_failed_episodes, is_live_failed,
  requeue, requeue_episode, soft_delete_episode, soft_delete,
}
use project_loom.Episode.Turn.{row, Holds, update_one-Holds, claim_free}

-- The episodes, and the ids that workers are processing at the moment, one entry for each worker.
pub record System : Type 0 where
  pub table : Episodes
  pub running : List ℕ

abbrev pub count : ℕ → List ℕ → ℕ
count i [] = 0
count i (j ∷ js) = (if j == i then 1 else 0) + count i js

-- One worker on `i` ends.
abbrev pub remove : ℕ → List ℕ → List ℕ
remove i [] = []
remove i (j ∷ js) = let rest = remove i js in if j == i then js else j ∷ rest

-- A statement of a worker or an operator. Only the operator's `requeue_episode`, which does not
-- look at the state of the row, is left out.
pub data Step : System → System → Type 0 where
  start :
      (s : System) (now id : ℕ) (e : Episode) (t : Episodes)
      → claim_episode_for_processing now id s.table ≡ (ok (some e), t)
      → Step s (record { table = t; running = id ∷ s.running })
  embed :
      (s : System) (id : ℕ) (v : Text)
      → Step s (record s { table = (store_episode_embedding id v s.table).1 })
  measure :
      (s : System) (id : ℕ) (model : String) (metrics : Text)
      → Step s (record s { table = (update_extraction_metrics id model none metrics s.table).1 })
  finish :
      (s : System) (id : ℕ) (metrics : Text)
      → 0 < count id s.running
      → Step s (record {
        table = (mark_episode_processed id metrics s.table).1;
        running = remove id s.running;
      })
  give_up :
      (s : System) (id : ℕ) (message : Text) (max_attempts : ℤ)
      → 0 < count id s.running
      → Step s (record {
        table = (record_processing_failure id message max_attempts s.table).1;
        running = remove id s.running;
      })
  requeue_failed :
      (s : System) → Step s (record s { table = (requeue_all_failed_episodes s.table).1 })
  delete :
      (s : System) (now id : ℕ) (reason : Text)
      → Step s (record s { table = (soft_delete_episode now id reason s.table).1 })
  insert :
      (s : System) (e : Episode)
      → Lacks (λ (r : Episode). r.id) e.id s.table
      → count e.id s.running ≡ 0
      → e.processing_status ≡ pending
      → Step s (record s { table = e ∷ s.table })

pub data Reach (s : System) : System → Type 0 where
  here : Reach s s
  next : {t u : System} → Reach s t → Step t u → Reach s u

-- How many workers the status of a row stands for.
abbrev pub workers : Episode → ℕ
workers e = if is_processing e.processing_status then 1 else 0

pub record IsExclusive (s : System) : Type 0 where
  pub keyed : IsKeyed (λ (r : Episode). r.id) s.table
  pub owned : All (λ r. count r.id s.running ≡ workers r) s.table

All-zip {ℓ} :
    {A : Type ℓ} (P Q : A → Type 0) (t : List A) → All P t → All Q t → All (λ r. P r × Q r) t
All-zip P Q [] h k = tt
All-zip P Q (r ∷ t) h k = ((h.0, k.0), All-zip P Q t h.1 k.1)

-- An update keeps a relation between rows and workers, if it does so on each row.
All-update {ℓ} :
    {A : Type ℓ} (P Q : A → Type 0) (p : A → Bool) (f : A → A) (t : List A)
    → ((r : A) → P r → p r ≡ true → Q (f r))
    → ((r : A) → P r → p r ≡ false → Q r)
    → All P t
    → All Q (update_where p f t)
All-update P Q p f [] hit miss h = tt
All-update P Q p f (r ∷ t) hit miss h = elim (Bool-cases (p r)) [
  | inl e ↦ rw e (hit r h.0 e, All-update P Q p f t hit miss h.1)
  | inr e ↦ rw e (miss r h.0 e, All-update P Q p f t hit miss h.1)
]

count-remove_self : (i : ℕ) (js : List ℕ) → 0 < count i js → count i (remove i js) + 1 ≡ count i js
count-remove_self i [] h = absurd (omega arith)
count-remove_self i (j ∷ js) h = ground (arith, count-remove_self i js)

count-remove_ne : (i k : ℕ) (js : List ℕ) → i ≢ k → count k (remove i js) ≡ count k js
count-remove_ne i k [] ne = refl
count-remove_ne i k (j ∷ js) ne = ground (arith, count-remove_ne i k js)

workers-le : (e : Episode) → workers e ≤ 1
workers-le e = ground arith

-- A claim that succeeds found a claimable row, and updated the claimable rows of its id.
claim_inversion :
    (now id : ℕ) (t t' : Episodes) (e : Episode)
    → claim_episode_for_processing now id t ≡ (ok (some e), t')
    → (e0 : Episode) × (find_where (is_claimable id) t ≡ some e0)
      × (update_where (is_claimable id) (claim now) t ≡ t')
unfolding claim_episode_for_processing
claim_inversion now id t t' e h = elim (Option-cases (find_where (is_claimable id) t)) [
  | inl absent ↦ absurd (cc (rw (absent, claim_episode_for_processing) at h))
  | inr (e0, found) ↦ (e0, found, ground arith)
]

module _ (s : System) (h : IsExclusive s) where
  -- A worker ends on `id`, and leaves its row in a state that stands for no worker.
  end-IsExclusive :
      (id : ℕ) (f : Episode → Episode)
      → ((r : Episode) → (f r).id ≡ r.id)
      → ((r : Episode) → workers (f r) ≡ 0)
      → 0 < count id s.running
      → IsExclusive
          (record { table = update_where (has_id id) f s.table; running = remove id s.running })
  end-IsExclusive id f keeps idle busy = record {
    keyed = update_where-IsKeyed (λ r. r.id) (has_id id) f s.table keeps h.keyed;
    owned =
        All-update _ (λ r. count r.id (remove id s.running) ≡ workers r) (has_id id) f s.table
          (λ r own hit.
            let same = (==_iff r.id id).0 hit in
            let one : count id s.running ≡ workers r = rw same at own in
            let gone : count id (remove id s.running) ≡ 0 =
              omega (arith, count-remove_self id s.running busy, one, workers-le r) in
            ap (λ k. count k (remove id s.running)) (keeps r ∙ same) ∙ gone ∙ sym (idle r))
          (λ r own miss.
            let other : id ≢ r.id = λ eq. false≢true (sym miss ∙ (==_iff r.id id).1 (sym eq)) in
            count-remove_ne id r.id s.running other ∙ own)
          h.owned;
  }

  -- A statement that leaves all statuses as they are, as to workers.
  quiet-IsExclusive :
      (p : Episode → Bool) (f : Episode → Episode)
      → ((r : Episode) → (f r).id ≡ r.id)
      → ((r : Episode) → p r ≡ true → workers (f r) ≡ workers r)
      → IsExclusive (record s { table = update_where p f s.table })
  quiet-IsExclusive p f keeps same = record {
    keyed = update_where-IsKeyed (λ r. r.id) p f s.table keeps h.keyed;
    owned =
        All-update _ (λ r. count r.id s.running ≡ workers r) p f s.table
          (λ r own hit. rw (keeps r) (own ∙ sym (same r hit))) (λ r own miss. own) h.owned;
  }

  start-IsExclusive :
      (now id : ℕ) (e : Episode) (t : Episodes)
      → claim_episode_for_processing now id s.table ≡ (ok (some e), t)
      → IsExclusive (record { table = t; running = id ∷ s.running })
  start-IsExclusive now id e t claimed =
      let (e0, found, after) = claim_inversion now id s.table t e claimed in
      let only =
        keyed_only (λ (r : Episode). r.id) id
          (λ r. is_pending r.processing_status && is_none r.deleted_at) s.table e0 h.keyed found in
      subst (λ t'. IsExclusive (record { table = t'; running = id ∷ s.running })) after
        (record {
          keyed =
              update_where-IsKeyed (λ r. r.id) (is_claimable id) (claim now) s.table (λ r. refl)
                h.keyed;
          owned =
              All-update
                (λ r.
                  (count r.id s.running ≡ workers r)
                  × (r.id ≡ id → (is_pending r.processing_status && is_none r.deleted_at) ≡ true))
                (λ r. count r.id (id ∷ s.running) ≡ workers r) (is_claimable id) (claim now) s.table
                (λ r (own, free) hit. ground (arith, ==_iff r.id id))
                (λ r (own, free) miss. ground (arith, ==_iff r.id id, ==_iff id r.id))
                (All-zip _ _ s.table h.owned only);
        })

-- Each statement keeps what the rows say of the workers.
Step-IsExclusive : {s t : System} → Step s t → IsExclusive s → IsExclusive t
unfolding store_episode_embedding update_extraction_metrics mark_episode_processed
    record_processing_failure requeue_all_failed_episodes soft_delete_episode
Step-IsExclusive (start s now id e t claimed) h = start-IsExclusive s h now id e t claimed
Step-IsExclusive (embed s id v) h =
    quiet-IsExclusive s h (has_id id) (with_embedding v) (λ r. refl) (λ r hit. refl)
Step-IsExclusive (measure s id model metrics) h =
    quiet-IsExclusive s h (has_id id) (with_extraction model none metrics) (λ r. refl)
      (λ r hit. refl)
Step-IsExclusive (finish s id metrics busy) h =
    end-IsExclusive s h id (mark_processed metrics) (λ r. refl) (λ r. refl) busy
Step-IsExclusive (give_up s id message max_attempts busy) h =
    end-IsExclusive s h id (fail (truncate_error message) max_attempts) (λ r. refl)
      (λ r. ground arith) busy
Step-IsExclusive (requeue_failed s) h =
    quiet-IsExclusive s h is_live_failed requeue (λ r. refl) (λ r hit. ground arith)
Step-IsExclusive (delete s now id reason) h =
    quiet-IsExclusive s h (has_id id) (soft_delete now reason) (λ r. refl) (λ r hit. refl)
Step-IsExclusive (insert s e fresh none_runs waits) h = record {
  keyed = (fresh, h.keyed);
  owned = (ground arith, h.owned);
}

Reach-IsExclusive : {s t : System} → Reach s t → IsExclusive s → IsExclusive t
Reach-IsExclusive here h = h
Reach-IsExclusive (next r step) h = Step-IsExclusive step (Reach-IsExclusive r h)

-- From a table in which no row is being processed, and as long as no operator requeues a single
-- episode, the workers on an episode are one exactly while its row says `processing`, and else
-- none: two workers never run the pipeline on the same episode.
pub one_worker_at_most :
    (s t : System)
    → IsKeyed (λ (r : Episode). r.id) s.table
    → s.running ≡ []
    → All (λ r. is_processing r.processing_status ≡ false) s.table
    → Reach s t
    → All (λ r. count r.id t.running ≡ (if is_processing r.processing_status then 1 else 0)) t.table
one_worker_at_most s t keyed idle quiet reached =
    (Reach-IsExclusive reached (record {
      keyed = keyed;
      owned =
          All-map _ (λ r. count r.id s.running ≡ workers r) s.table
            (λ r q. ap (count r.id) idle ∙ rw q) quiet;
    })).owned

-- `requeue_episode` is no such statement: of an episode that a worker is processing it makes one
-- that the next worker may claim, so that two workers run on it.
pub requeue-second_claim :
    (now id : ℕ) (e : Episode) (t : Episodes)
    → IsKeyed (λ (r : Episode). r.id) t
    → row id t ≡ some e
    → is_processing e.processing_status ≡ true
    → e.deleted_at ≡ none
    → (claim_episode_for_processing now id (requeue_episode id t).1).0
      ≡ ok (some (claim now (requeue e)))
unfolding requeue_episode
requeue-second_claim now id e t keyed at busy kept =
    let h : Holds t id e t = record { keyed = keyed; at = at; others = λ j ne. refl } in
    let again = update_one-Holds id requeue e t (λ r. refl) h in
    ap (λ r. r.0) (claim_free now id (requeue e) _ again (omega arith) (ground arith))
