-- ===== src/Tier/Eligible.antt =====
-- The rows that the promotion takes (pipeline/offline/state.rs), against the predicate
-- `qualifies_for_promotion` and against those that the demotion takes.
use project_loom.Common.{
  ℕ, ◌+◌, ◌-◌, ◌*◌, ◌/◌, ◌≤◌, ◌≡◌, refl, sym, ◌∙◌, inl, inr, Bool, true, false, Option, none, some,
  ◌&&◌, Bool-cases, leb, leb→le, arith,
}
use mathlib.Core.Bool.{false≢true}
use native.Mathlib.Nat.{div-le_of_le-mul}
use project_loom.Common.Int.{ℤ}
use project_loom.Tier.Rows.{warm, ServingState, is_hot, is_warm, is_unpinned, set_tier}
use project_loom.Tier.Moves.{
  day, qualifies_for_promotion, accessed_often, accessed_within, is_stale, is_eligible,
  is_stale_hot, demotion_stale_days, promotion_window_days,
}

recent-stale :
    (now : ℕ) (last : Option ℕ)
    → accessed_within now promotion_window_days last ≡ true
    → is_stale now demotion_stale_days last ≡ false
recent-stale now (some last) h = ground arith
recent-stale now none h = cc

-- The whole days since the access are no more than the window.
window :
    (now last : ℕ)
    → leb now (last + promotion_window_days * day) ≡ true
    → leb ((now - last) / day) promotion_window_days ≡ true
window now last h =
    let near = leb→le now (last + promotion_window_days * day) h in
    let days : (now - last) / day ≤ promotion_window_days =
      div-le_of_le-mul day (omega (arith, near)) in
    ground (arith, days)

last_false : (a b : Bool) → b ≡ false → (a && b) ≡ false
last_false a b h = ground arith

second : (a b c : Bool) → (a && (b && c)) ≡ true → b ≡ true
second a b c h = ground arith

third : (a b c d : Bool) → (a && (b && (c && d))) ≡ true → c ≡ true
third a b c d h = ground arith

qualifies :
    (now : ℕ) (count : Option ℤ) (last : Option ℕ)
    → accessed_often count ≡ true
    → accessed_within now promotion_window_days last ≡ true
    → elim count [ some n ↦ qualifies_for_promotion now n last | none ↦ false ] ≡ true
unfolding qualifies_for_promotion
qualifies now (some n) (some last) often within = rw (often, window now last within) refl
qualifies now (some n) none often within = cc
qualifies now none last often within = cc

module _ {S : Type 0} where
  -- The predicate on a row, with the columns that are NULL refused.
  abbrev pub row_qualifies : ℕ → ServingState S → Bool
  row_qualifies now r = elim r.access_count [
    | some n ↦ qualifies_for_promotion now n r.last_accessed
    | none ↦ false
  ]

  -- A row that the statement promotes qualifies for promotion.
  pub eligible-qualifies :
      (now : ℕ) (r : ServingState S) → is_eligible now r ≡ true → row_qualifies now r ≡ true
  unfolding qualifies_for_promotion
  eligible-qualifies now r h =
      qualifies now r.access_count r.last_accessed
        (second (is_warm r) (accessed_often r.access_count) _ h)
        (third (is_warm r) (accessed_often r.access_count)
          (accessed_within now promotion_window_days r.last_accessed) (is_unpinned r) h)

  pub eligible-recent :
      (now : ℕ) (r : ServingState S)
      → is_eligible now r ≡ true
      → is_stale now demotion_stale_days r.last_accessed ≡ false
  eligible-recent now r h = recent-stale now r.last_accessed (
      third (is_warm r) (accessed_often r.access_count)
        (accessed_within now promotion_window_days r.last_accessed) (is_unpinned r) h)

  -- A row without a stale access is not demoted, whatever its tier.
  pub fresh-stays :
      (now : ℕ) (r : ServingState S)
      → is_stale now demotion_stale_days r.last_accessed ≡ false
      → is_stale_hot now demotion_stale_days r ≡ false
  fresh-stays now r h =
      last_false (is_hot r) (is_unpinned r && is_stale now demotion_stale_days r.last_accessed)
        (last_false (is_unpinned r) (is_stale now demotion_stale_days r.last_accessed) h)

  pub demoted-stays :
      (now : ℕ) (r : ServingState S)
      → is_stale_hot now demotion_stale_days r ≡ true
      → is_eligible now (set_tier now warm r) ≡ false
  demoted-stays now r h = elim (Bool-cases (is_eligible now (set_tier now warm r))) [
    | inl e ↦
        absurd
          (false≢true (sym (fresh-stays now r (eligible-recent now (set_tier now warm r) e)) ∙ h))
    | inr e ↦ e
  ]
