-- ===== src/Common/Found.antt =====
-- Rows that a test finds, and rows that an update leaves.
use mathlib.Core.Path.{◌≡◌, refl}
use mathlib.Core.Logic.{inl, inr}
use mathlib.Core.Bool.{Bool, true, false}
use mathlib.Core.Option.{none, some}
use mathlib.Core.List.{List, [], ◌∷◌}
use native.Mathlib.Omega.{arith}
use project_loom.Common.Tests.{Bool-cases}
use project_loom.Common.Lists.{All, any, keep}
use project_loom.Common.Table.{update_where, find_where}

module _ {A : Type 0} where
  pub find_where-none :
      (p : A → Bool) (t : List A) → find_where p t ≡ none → All (λ r. p r ≡ false) t
  find_where-none p [] h = tt
  find_where-none p (r ∷ t) h = elim (Bool-cases (p r)) [
    | inl e ↦ cc (rw e at h)
    | inr e ↦ (e, find_where-none p t (rw e at h))
  ]

  -- What a query returns is in the table.
  pub found-any :
      (p q : A → Bool) (t : List A) (e : A) → find_where p t ≡ some e → q e ≡ true → any q t ≡ true
  found-any p q [] e h k = cc
  found-any p q (r ∷ t) e h k = elim (Bool-cases (p r)) [
    | inl hit ↦ let same : r ≡ e = ground arith in let head : q r ≡ true = rw same k in rw head refl
    | inr miss ↦ let rest = found-any p q t e (rw miss at h) k in ground (arith, rest)
  ]

  pub any-found :
      (p q : A → Bool) (t : List A)
      → any p t ≡ true
      → ((r : A) → p r ≡ true → q r ≡ true)
      → (e : A) × (find_where q t ≡ some e)
  any-found p q [] h sub = cc
  any-found p q (r ∷ t) h sub = elim (Bool-cases (q r)) [
    | inl hit ↦ (r, rw hit refl)
    | inr miss ↦ elim (Bool-cases (p r)) [
      | inl yes_p ↦ let hit = sub r yes_p in cc
      | inr no_p ↦ let (e, found) = any-found p q t (rw no_p at h) sub in (e, rw miss found)
    ]
  ]

  pub any-update_where :
      (p q hits : A → Bool) (f : A → A) (t : List A)
      → any p t ≡ true
      → ((r : A) → p r ≡ true → hits r ≡ true → q (f r) ≡ true)
      → ((r : A) → p r ≡ true → hits r ≡ false → q r ≡ true)
      → any q (update_where hits f t) ≡ true
  any-update_where p q hits f [] h hit miss = cc
  any-update_where p q hits f (r ∷ t) h hit miss = elim (Bool-cases (p r)) [
    | inl yes_p ↦ elim (Bool-cases (hits r)) [
      | inl e ↦ rw (e, hit r yes_p e) refl
      | inr e ↦ rw (e, miss r yes_p e) refl
    ]
    | inr no_p ↦
        let rest = any-update_where p q hits f t (rw no_p at h) hit miss in ground (arith, rest)
  ]

  pub find_where-All {κ} :
      (P : A → Type κ) (p : A → Bool) (t : List A) (e : A) → find_where p t ≡ some e → All P t → P e
  find_where-All P p [] e h all = cc
  find_where-All P p (r ∷ t) e h all = elim (Bool-cases (p r)) [
    | inl hit ↦ let same : r ≡ e = ground arith in rw (← same) all.0
    | inr miss ↦ find_where-All P p t e (rw miss at h) all.1
  ]

  -- Each row that a query keeps is a row of the table.
  pub keep-any :
      (p : A → Bool) (q : A → A → Bool) (t u : List A)
      → ((r : A) → p r ≡ true → q r r ≡ true)
      → ((f : A → Bool) → any f t ≡ true → any f u ≡ true)
      → All (λ e. any (q e) u ≡ true) (keep p t)
  keep-any p q [] u self sub = tt
  keep-any p q (r ∷ t) u self sub =
      let rest = keep-any p q t u self (λ f h. sub f (ground (arith, h))) in
      elim (Bool-cases (p r)) [
        | inl hit ↦ rw hit (sub (q r) (let s = self r hit in ground (arith, s)), rest)
        | inr miss ↦ rw miss rest
      ]
