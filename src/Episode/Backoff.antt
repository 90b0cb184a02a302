-- ===== src/Episode/Backoff.antt =====
-- Which episodes a poll hands to the workers (db/episodes.rs, `list_unprocessed_episodes`).
use project_loom.Common.{
  ℕ, zero, suc, [], ◌∷◌, ◌++◌, ap, inl, inr, ltb, ltb→lt, Bool-cases, ◌+◌, ◌*◌, ◌≡◌, refl, min,
  true, false, Option, none, some, keep, take, Bool, Option-cases, All, All-map, All-keep, ◌<◌, ◌≤◌,
  ◌^◌, ◌⊎◌, ◌≢◌, ◌&&◌, ◌||◌, not, is_none, and_left, and_right, leb, leb→le, lt→ltb, length, arith,
}
use mathlib.Core.List.{Perm, perm_middle}
use mathlib.Core.List.Perm
use project_loom.Common.Sort.{sort_by, All-sort_by, sort_by-perm, sort_by-IsSorted, IsSorted}
use project_loom.Episode.Rows.{
  Episode, Episodes, ProcessingStatus, pending, processing, completed, failed, is_pending,
}
use project_loom.Episode.Lifecycle.{
  is_due, due_first, due_before, backoff, list_unprocessed_episodes,
}

due_before_total :
    (s : Option ℕ) (i : ℕ) (t : Option ℕ) (j : ℕ)
    → due_before s i t j ≡ false
    → due_before t j s i ≡ true
due_before_total none i none j h = ground arith
due_before_total none i (some t) j h = ground arith
due_before_total (some s) i none j h = refl
due_before_total (some s) i (some t) j h = ground arith

due_before_trans :
    (s : Option ℕ) (i : ℕ) (t : Option ℕ) (j : ℕ) (u : Option ℕ) (k : ℕ)
    → due_before s i t j ≡ true
    → due_before t j u k ≡ true
    → due_before s i u k ≡ true
due_before_trans none i none j none k g h = ground arith
due_before_trans none i t j (some u) k g h = refl
due_before_trans none i (some t) j none k g h = cc
due_before_trans (some s) i none j u k g h = cc
due_before_trans (some s) i (some t) j none k g h = cc
due_before_trans (some s) i (some t) j (some u) k g h = ground arith

status_of : (s : ProcessingStatus) → is_pending s ≡ true → s ≡ pending
status_of pending h = refl
status_of processing h = cc
status_of completed h = cc
status_of failed h = cc

none_of : (o : Option ℕ) → is_none o ≡ true → o ≡ none
none_of none h = refl
none_of (some a) h = cc

not_both : (b : Bool) → not b ≡ true → b ≡ true → ⊥
not_both true h k = cc
not_both false h k = cc

take_rest : (n : ℕ) (xs : Episodes) → (rest : Episodes) × (take n xs ++ rest ≡ xs)
take_rest zero xs = (xs, refl)
take_rest (suc n) [] = ([], refl)
take_rest (suc n) (x ∷ xs) = let (rest, e) = take_rest n xs in (rest, ap (λ r. x ∷ r) e)

length-take : (n : ℕ) (xs : Episodes) → length (take n xs) ≡ min n (length xs)
length-take zero xs = omega arith
length-take (suc n) [] = omega arith
length-take (suc n) (x ∷ xs) = omega (arith, length-take n xs)

-- An episode that a poll may return: pending, not deleted, and never attempted or attempted so long
-- ago that the wait, doubled for each attempt up to the twentieth, is over.
abbrev pub IsWaiting : ℕ → ℕ → Episode → Type 0
IsWaiting now base e =
    (e.processing_status ≡ pending)
    × (e.deleted_at ≡ none)
    × ((e.processing_last_attempt ≡ none)
        ⊎ ((last : ℕ) × (e.processing_last_attempt ≡ some last)
            × (last + base * 2 ^ min e.processing_attempts 20 * 1000000 < now)))

-- The turn of `a` is not after that of `b`: one without an attempt comes first, then the older last
-- attempt, and where these tie the one that was ingested first.
abbrev pub IsNotAfter : Episode → Episode → Type 0
IsNotAfter a b =
    ((a.processing_last_attempt ≡ none)
      × ((b.processing_last_attempt ≢ none) ⊎ (a.ingested_at ≤ b.ingested_at)))
    ⊎ ((s : ℕ) × (t : ℕ) × (a.processing_last_attempt ≡ some s)
        × (b.processing_last_attempt ≡ some t)
        × ((s < t) ⊎ ((s ≡ t) × (a.ingested_at ≤ b.ingested_at))))

-- Each one's turn is not after that of any that follows.
abbrev pub IsInTurn : Episodes → Type 0
IsInTurn [] = Unit
IsInTurn (e ∷ es) = All (IsNotAfter e) es × IsInTurn es

is_due-IsWaiting : (now base : ℕ) (e : Episode) → is_due now base e ≡ true → IsWaiting now base e
unfolding is_due backoff
is_due-IsWaiting now base e h =
    let p = and_left (is_pending e.processing_status) _ h in
    let rest = and_right (is_pending e.processing_status) _ h in
    let d = and_left (is_none e.deleted_at) _ rest in
    let b = and_right (is_none e.deleted_at) _ rest in
    (
      status_of e.processing_status p,
      none_of e.deleted_at d,
      elim (Option-cases e.processing_last_attempt) [
        | inl k ↦ inl k
        | inr (last, k) ↦ inr (last, k, ltb→lt _ _ (rw k at b))
      ],
    )

IsWaiting-is_due : (now base : ℕ) (e : Episode) → IsWaiting now base e → is_due now base e ≡ true
unfolding is_due backoff
IsWaiting-is_due now base e (p, d, inl k) = rw (p, d, k) refl
IsWaiting-is_due now base e (p, d, inr (last, k, h)) =
    rw (p, d, k) (lt→ltb (last + base * 2 ^ min e.processing_attempts 20 * 1000000) now h)

due_first-IsNotAfter : (a b : Episode) → due_first a b ≡ true → IsNotAfter a b
due_first-IsNotAfter a b h = elim (Option-cases a.processing_last_attempt) [
  | inl k ↦ elim (Option-cases b.processing_last_attempt) [
    | inl l ↦ inl (k, inr (leb→le _ _ (rw (k, l) at h)))
    | inr (t, l) ↦ inl (k, inl (λ e. cc))
  ]
  | inr (s, k) ↦ elim (Option-cases b.processing_last_attempt) [
    | inl l ↦ cc (rw (k, l) at h)
    | inr (t, l) ↦ inr (s, t, k, l, later s t a.ingested_at b.ingested_at (rw (k, l) at h))
  ]
]
  where
    later : (s t i j : ℕ) → (ltb s t || (leb s t && leb i j)) ≡ true → (s < t) ⊎ ((s ≡ t) × (i ≤ j))
    later s t i j h = ground arith

in_turn : (es : Episodes) → IsSorted due_first es → IsInTurn es
in_turn [] h = tt
in_turn (e ∷ es) h = (All-map _ _ es (λ x k. due_first-IsNotAfter e x k) h.0, in_turn es h.1)

-- What a test keeps and what it leaves.
keep_split : (p : Episode → Bool) (t : Episodes) → Perm (keep p t ++ keep (λ e. not (p e)) t) t
keep_split p [] = Perm.refl _
keep_split p (e ∷ t) = elim (Bool-cases (p e)) [
  | inl k ↦ rw k (Perm.cons e (keep_split p t))
  | inr k ↦
      rw k (
        Perm.trans (perm_middle (keep p t) (keep (λ e. not (p e)) t))
          (Perm.cons e (keep_split p t)))
]

-- A poll returns the first of the episodes that wait, as many as its limit or all where there are
-- fewer. An episode waits if it is pending, not deleted, and never attempted, or attempted so long
-- ago that the wait, doubled for each attempt up to the twentieth, is over. Those never attempted
-- come first, the others by their last attempt, older ones first where these tie.
pub list_unprocessed_episodes_lem :
    (now limit base : ℕ) (t : Episodes)
    → let polled = list_unprocessed_episodes now limit base t in
      (later : Episodes) × (others : Episodes) × Perm ((polled ++ later) ++ others) t
      × All (IsWaiting now base) (polled ++ later)
      × All (λ e. IsWaiting now base e → ⊥) others
      × IsInTurn (polled ++ later)
      × (length polled ≡ min limit (length (polled ++ later)))
unfolding list_unprocessed_episodes
list_unprocessed_episodes_lem now limit base t =
    let due = keep (is_due now base) t in
    let sorted = sort_by due_first due in
    let (later, whole) = take_rest limit sorted in
    let others = keep (λ e. not (is_due now base e)) t in
    let in_order =
      sort_by-IsSorted due_first
        (λ a b.
          due_before_total a.processing_last_attempt a.ingested_at b.processing_last_attempt
            b.ingested_at)
        (λ a b c.
          due_before_trans a.processing_last_attempt a.ingested_at b.processing_last_attempt
            b.ingested_at c.processing_last_attempt c.ingested_at)
        due in
    let waiting =
      All-map _ (IsWaiting now base) due (λ e k. is_due-IsWaiting now base e k)
        (All-keep (is_due now base) t) in
    (
      later,
      others,
      rw whole (
          Perm.trans (Perm.append_right others (sort_by-perm due_first due))
            (keep_split (is_due now base) t)),
      rw whole (All-sort_by due_first (IsWaiting now base) due waiting),
      All-map _ (λ e. IsWaiting now base e → ⊥) others
          (λ e k w. not_both (is_due now base e) k (IsWaiting-is_due now base e w))
          (All-keep (λ e. not (is_due now base e)) t),
      rw whole (in_turn sorted in_order),
      rw whole (length-take limit sorted),
    )
