-- ===== src/Episode/Retry.antt =====
-- The retry policy of the worker (worker/processor.rs): a poison-pill episode is given up.
use project_loom.Common.{
  ℕ, suc, String, ◌+◌, ◌≤◌, ◌<◌, ◌≡◌, subst, Bool, true, false, none, some, List, [], ◌∷◌, min,
  length, All, leb, if◌then◌else◌, arith, ◌&&◌, is_none,
}
use project_loom.Common.Int.{pos}
use project_loom.Common.Result.{Result, ok, err}
use project_loom.Common.Keyed.{IsKeyed}
use native.Mathlib.Decide.{dec_lt}
use project_loom.Common.Text.{Text}
use project_loom.Episode.Rows.{ProcessingStatus, pending, failed, Episode, Episodes, is_pending}
use project_loom.Episode.Lifecycle.{i32_end, claim}
use project_loom.Episode.Worker.{RetryPolicy, Stages, process_with_retry_bookkeeping}
use project_loom.Episode.Turn.{row, attempted, turn, process_row}

-- Turns of the worker on one episode, each with its time and the answers that it gets.
pub turns : RetryPolicy → ℕ → List (ℕ × Stages) → Episodes → Episodes
unfolding process_with_retry_bookkeeping
turns policy id [] t = t
turns policy id ((now, s) ∷ rest) t =
    turns policy id rest (process_with_retry_bookkeeping policy s now id t)

-- One of the answers is an error.
abbrev pub has_error : Result Text Text → Result Text (String × Text) → Bool
has_error (err _) _ = true
has_error (ok _) (err _) = true
has_error (ok _) (ok _) = false

abbrev pub AllFail : List (ℕ × Stages) → Type 0
AllFail runs = All (λ r. has_error r.1.embedding r.1.extraction ≡ true) runs

-- The row of an episode that has failed `n` times under a limit of `m` attempts.
pub record HasFailed (m n : ℕ) (e : Episode) : Type 0 where
  pub attempts : e.processing_attempts ≡ min n m
  pub status : e.processing_status ≡ (if leb m n then failed else pending)
  pub kept : e.deleted_at ≡ none

attempted-HasFailed :
    (m n now : ℕ) (v : Result Text Text) (x : Result Text (String × Text)) (e : Episode)
    → has_error v x ≡ true
    → n < m
    → HasFailed m n e
    → HasFailed m (suc n) (attempted (pos m) v x (claim now e))
attempted-HasFailed m n now (err a) x e bad below h = ground arith
attempted-HasFailed m n now (ok v) (err a) e bad below h = ground arith
attempted-HasFailed m n now (ok v) (ok a) e bad below h = cc

is_free :
    (m n : ℕ) (e : Episode)
    → HasFailed m n e
    → n < m
    → (is_pending e.processing_status && is_none e.deleted_at) ≡ true
is_free m n e h below = ground arith

-- An attempt counts no further than the limit, which fits its column.
room :
    (m n : ℕ) (e : Episode)
    → HasFailed m n e
    → m < i32_end
    → (is_pending e.processing_status && is_none e.deleted_at) ≡ true
    → e.processing_attempts + 1 < i32_end
room m n e h small free = ground arith

is_taken :
    (m n : ℕ) (e : Episode)
    → HasFailed m n e
    → m ≤ n
    → (is_pending e.processing_status && is_none e.deleted_at) ≡ false
is_taken m n e h done = ground arith

stays_failed :
    (m n : ℕ) (x : ProcessingStatus)
    → m ≤ n
    → x ≡ (if leb m n then failed else pending)
    → x ≡ (if leb m (suc n) then failed else pending)
stays_failed m n x done e = ground arith

turn-HasFailed :
    (policy : RetryPolicy) (m n now : ℕ) (s : Stages) (e : Episode)
    → policy.max_attempts ≡ pos m
    → has_error s.embedding s.extraction ≡ true
    → HasFailed m n e
    → HasFailed m (suc n) (turn policy s now e)
turn-HasFailed policy m n now s e limit bad h = elim (dec_lt n m) [
  | yes below ↦
      rw (is_free m n e h below)
        (rw limit (attempted-HasFailed m n now s.embedding s.extraction e bad below h))
  | no done ↦ rw (is_taken m n e h (omega arith)) (record {
    attempts = omega (arith, h.attempts);
    status = stays_failed m n _ (omega arith) h.status;
    kept = h.kept;
  })
]

turns-HasFailed :
    (policy : RetryPolicy) (m n id : ℕ) (runs : List (ℕ × Stages)) (e : Episode) (t : Episodes)
    → policy.max_attempts ≡ pos m
    → m < i32_end
    → IsKeyed (λ (r : Episode). r.id) t
    → row id t ≡ some e
    → HasFailed m n e
    → AllFail runs
    → (e' : Episode) × (row id (turns policy id runs t) ≡ some e')
      × HasFailed m (n + length runs) e'
unfolding turns
turns-HasFailed policy m n id [] e t limit small keyed at h bad =
    (e, at, subst (λ k. HasFailed m k e) (omega arith) h)
turns-HasFailed policy m n id ((now, s) ∷ runs) e t limit small keyed at h bad =
    let after = process_row policy s now id e t keyed at (room m n e h small) in
    let (e', at', h') =
      turns-HasFailed policy m (suc n) id runs (turn policy s now e)
        (process_with_retry_bookkeeping policy s now id t) limit small after.keyed after.at
        (turn-HasFailed policy m n now s e limit bad.0 h) bad.1 in
    (e', at', subst (λ k. HasFailed m k e') (omega arith) h')

-- Under a limit of `m` attempts, an episode that waits unattempted, and on which every turn meets
-- an error, waits with one more attempt after each turn, and from the `m`-th turn on it is failed
-- with exactly `m` attempts, however many turns follow.
pub poison_pill-failed :
    (policy : RetryPolicy) (m id : ℕ) (runs : List (ℕ × Stages)) (e : Episode) (t : Episodes)
    → policy.max_attempts ≡ pos m
    → 0 < m
    → m < i32_end
    → IsKeyed (λ (r : Episode). r.id) t
    → row id t ≡ some e
    → e.processing_status ≡ pending
    → e.processing_attempts ≡ 0
    → e.deleted_at ≡ none
    → AllFail runs
    → (e' : Episode) × (row id (turns policy id runs t) ≡ some e')
      × (e'.processing_attempts ≡ min (length runs) m)
      × (e'.processing_status ≡ (if leb m (length runs) then failed else pending))
poison_pill-failed policy m id runs e t limit positive small keyed at waits none_yet kept bad =
    let start : HasFailed m 0 e = record {
      attempts = omega arith;
      status = ground arith;
      kept = kept;
    } in
    let (e', at', h) = turns-HasFailed policy m 0 id runs e t limit small keyed at start bad in
    let count : 0 + length runs ≡ length runs = omega arith in
    let h' = subst (λ k. HasFailed m k e') count h in (e', at', h'.attempts, h'.status)
