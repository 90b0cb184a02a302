-- ===== src/Tier/Settled.antt =====
-- The promotion of entities and the demotion of stale ones (pipeline/offline/state.rs), one after the
-- other at the same time.
use project_loom.Common.{
  ℕ, ◌+◌, ◌*◌, ◌≡◌, refl, sym, ap, ◌∙◌, inl, inr, Bool, true, false, Option, none, some, List, [],
  ◌∷◌, ◌&&◌, map, Bool-cases, leb, ltb, if◌then◌else◌, arith,
}
use project_loom.Common.Int.{ℤ, pos, negsuc}
use project_loom.Tier.Rows.{
  Tier, hot, warm, ServingState, tier_is_hot, tier_is_warm, is_false, set_tier,
}
use project_loom.Tier.Moves.{
  day, accessed_often, accessed_within, is_stale, is_eligible, promote_eligible_entities,
  is_stale_hot, demote_stale,
}
use project_loom.Tier.Eligible.{eligible-recent, fresh-stays, demoted-stays}

-- Where a row moves, by its tier, its pin, its number of accesses and its last access.
abbrev pub moved : ℕ → Option Tier → Option Bool → Option ℤ → Option ℕ → Option Tier
moved now (some warm) (some false) (some (pos n)) (some last) =
    if leb 5 n && leb now (last + 14 * day) then some hot else none
moved now (some hot) (some false) _ (some last) =
    if ltb (last + 30 * day) now then some warm else none
moved now (some hot) (some false) _ none = some warm
moved now _ _ _ _ = none

moved-tests :
    (now : ℕ) (tier : Option Tier) (pinned : Option Bool) (count : Option ℤ) (last : Option ℕ)
    → moved now tier pinned count last ≡ (
        if tier_is_warm tier
          && (accessed_often count && (accessed_within now 14 last && is_false pinned))
        then some hot
        else if tier_is_hot tier && (is_false pinned && is_stale now 30 last)
        then some warm
        else none)
moved-tests now none pinned count last = refl
moved-tests now (some hot) none count last = refl
moved-tests now (some hot) (some true) count last = refl
moved-tests now (some hot) (some false) count none = refl
moved-tests now (some hot) (some false) count (some l) = refl
moved-tests now (some warm) none count last = ground arith
moved-tests now (some warm) (some true) count last = ground arith
moved-tests now (some warm) (some false) none last = refl
moved-tests now (some warm) (some false) (some (negsuc n)) last = ground arith
moved-tests now (some warm) (some false) (some (pos n)) none = ground arith
moved-tests now (some warm) (some false) (some (pos n)) (some l) = ground arith

module _ {S : Type 0} where
  abbrev pub move_to : ℕ → ServingState S → Option Tier → ServingState S
  move_to now r (some tier) = set_tier now tier r
  move_to now r none = r

  abbrev pub moved_row : ℕ → ServingState S → ServingState S
  moved_row now r = move_to now r (moved now r.tier r.pinned r.access_count r.last_accessed)

  moved_row-tests :
      (now : ℕ) (r : ServingState S)
      → moved_row now r
        ≡ move_to now r (
            if is_eligible now r
            then some hot
            else if is_stale_hot now 30 r
            then some warm
            else none)
  moved_row-tests now r =
      ap (move_to now r) (moved-tests now r.tier r.pinned r.access_count r.last_accessed)

  moved_row-eligible :
      (now : ℕ) (r : ServingState S)
      → is_eligible now r ≡ true
      → moved_row now r ≡ set_tier now hot r
  moved_row-eligible now r h = rw h at (moved_row-tests now r)

  moved_row-stale :
      (now : ℕ) (r : ServingState S)
      → is_eligible now r ≡ false
      → is_stale_hot now 30 r ≡ true
      → moved_row now r ≡ set_tier now warm r
  moved_row-stale now r h k = rw (h, k) at (moved_row-tests now r)

  moved_row-other :
      (now : ℕ) (r : ServingState S)
      → is_eligible now r ≡ false
      → is_stale_hot now 30 r ≡ false
      → moved_row now r ≡ r
  moved_row-other now r h k = rw (h, k) at (moved_row-tests now r)

  abbrev promote_row : ℕ → ServingState S → ServingState S
  promote_row now r = if is_eligible now r then set_tier now hot r else r

  abbrev demote_row : ℕ → ServingState S → ServingState S
  demote_row now r = if is_stale_hot now 30 r then set_tier now warm r else r

  -- What the two statements, in either order, and a second update make of one row.
  moved_row-row :
      (now : ℕ) (r : ServingState S)
      → (demote_row now (promote_row now r) ≡ moved_row now r)
        × (promote_row now (demote_row now r) ≡ moved_row now r)
        × (moved_row now (moved_row now r) ≡ moved_row now r)
  moved_row-row now r = elim (Bool-cases (is_eligible now r)) [
    | inl e ↦
        let top = set_tier now hot r in
        let same = moved_row-eligible now r e in
        let fresh : is_stale_hot now 30 r ≡ false = fresh-stays now r (eligible-recent now r e) in
        let stays : is_stale_hot now 30 top ≡ false =
          fresh-stays now top (eligible-recent now r e) in
        (
          rw e (rw stays (sym same)),
          rw fresh (rw e (sym same)),
          ap (moved_row now) same ∙ moved_row-other now top refl stays ∙ sym same,
        )
    | inr e ↦ elim (Bool-cases (is_stale_hot now 30 r)) [
      | inl s ↦
          let low = set_tier now warm r in
          let same = moved_row-stale now r e s in
          let stays : is_eligible now low ≡ false = demoted-stays now r s in
          (
            rw e (rw s (sym same)),
            rw s (rw stays (sym same)),
            ap (moved_row now) same ∙ moved_row-other now low stays refl ∙ sym same,
          )
      | inr s ↦
          let same = moved_row-other now r e s in
          (rw e (rw s (sym same)), rw s (rw e (sym same)), ap (moved_row now) same)
    ]
  ]

  cons_both :
      (x y : ServingState S) (xs ys : List (ServingState S))
      → x ≡ y
      → xs ≡ ys
      → ◌≡◌ {A = List (ServingState S)} (x ∷ xs) (y ∷ ys)
  cons_both x y xs ys h k = cc

  abbrev pub IsSettled : ℕ → List (ServingState S) → Type 0
  IsSettled now t =
      let settled = map (moved_row now) t in
      ((demote_stale now (promote_eligible_entities now t).1).1 ≡ settled)
      × ((promote_eligible_entities now (demote_stale now t).1).1 ≡ settled)
      × (map (moved_row now) settled ≡ settled)

  -- At one time, promotion and the demotion of stale entities come to one update of the table,
  -- whichever is first, and another such update at that time changes nothing. A row that is marked
  -- as not pinned becomes hot if it is warm, was accessed at least 5 times, and last within 14 days;
  -- it becomes warm if it is hot and was not accessed within 30 days. All other rows stay.
  pub promote-demote_stale : (now : ℕ) (t : List (ServingState S)) → IsSettled now t
  unfolding promote_eligible_entities demote_stale
  promote-demote_stale now [] = (refl, refl, refl)
  promote-demote_stale now (r ∷ t) =
      let (first, second, again) = promote-demote_stale now t in
      let (first_row, second_row, again_row) = moved_row-row now r in
      (
        cons_both _ _ _ _ first_row first,
        cons_both _ _ _ _ second_row second,
        cons_both _ _ _ _ again_row again,
      )
