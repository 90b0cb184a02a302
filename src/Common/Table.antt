-- ===== src/Common/Table.antt =====
-- The SQL forms that the queries use, over a table as a list of rows: `UPDATE ... SET ... WHERE`,
-- its count of affected rows, and a lookup by primary key.
use Prim.Native.Nat.{ℕ, suc, ◌+◌}
use mathlib.Core.Path.{◌≡◌, refl, ap}
use mathlib.Core.Bool.{Bool, true, false, ◌&&◌}
use mathlib.Core.Logic.{inl, inr}
use native.Mathlib.Omega.{arith}
use mathlib.Core.Option.{Option, none, some}
use mathlib.Core.List.{List, [], ◌∷◌}
use project_loom.Common.Tests.{if◌then◌else◌, Bool-cases}
use project_loom.Common.Lists.{length, All, keep}
use project_loom.Common.Result.{Result, ok, err}

-- What the database layer reports: no row where one was expected, an integer out of range, a
-- violated unique index or check, a NULL in a column that the program reads as a value, a JSON
-- value of the wrong kind.
pub data DbError : Type 0 where
  row_not_found out_of_range unique_violation check_violation null_column : DbError
  invalid_json : DbError

module _ {ℓ} {A : Type ℓ} where
  abbrev pub update_where : (A → Bool) → (A → A) → List A → List A
  update_where p f [] = []
  update_where p f (r ∷ rs) = (if p r then f r else r) ∷ update_where p f rs

  -- `rows_affected()`, and `SELECT COUNT(*) ... WHERE`
  abbrev pub count_where : (A → Bool) → List A → ℕ
  count_where p [] = 0
  count_where p (r ∷ rs) = (if p r then 1 else 0) + count_where p rs

  abbrev pub find_where : (A → Bool) → List A → Option A
  find_where p [] = none
  find_where p (r ∷ rs) = let rest = find_where p rs in if p r then some r else rest

  pub length-update_where :
      (p : A → Bool) (f : A → A) (rs : List A) → length (update_where p f rs) ≡ length rs
  length-update_where p f [] = refl
  length-update_where p f (r ∷ rs) = ap suc (length-update_where p f rs)

  -- A row that a query returns passes its test.
  pub find_where_sound :
      (p : A → Bool) (rs : List A) (e : A) → find_where p rs ≡ some e → p e ≡ true
  find_where_sound p [] e h = cc
  find_where_sound p (r ∷ rs) e h = elim (Bool-cases (p r)) [
    | inl hit ↦ let same : r ≡ e = ground arith in rw (← same) hit
    | inr miss ↦ find_where_sound p rs e (rw miss at h)
  ]

  pub All-update_where {κ} :
      {P : A → Type κ} (p : A → Bool) (f : A → A) (rs : List A)
      → ((r : A) → P r → p r ≡ true → P (f r))
      → All P rs
      → All P (update_where p f rs)
  All-update_where p f [] step h = tt
  All-update_where {P} p f (r ∷ rs) step h = elim (Bool-cases (p r)) [
    | inl e ↦ rw e (step r h.0 e, All-update_where p f rs step h.1)
    | inr e ↦ rw e (h.0, All-update_where p f rs step h.1)
  ]

module _ {ℓ} {A : Type ℓ} where
  -- `UPDATE ... RETURNING *` with `fetch_optional`, for a test that selects by primary key.
  abbrev pub update_optional : (A → Bool) → (A → A) → List A → Option A × List A
  update_optional p f t =
      (elim (find_where p t) [ none ↦ none | some r ↦ some (f r) ], update_where p f t)

  -- The same with `fetch_one`: no row is an error.
  abbrev pub update_one : (A → Bool) → (A → A) → List A → Result DbError A × List A
  update_one p f t =
      (elim (find_where p t) [ none ↦ err row_not_found | some r ↦ ok (f r) ], update_where p f t)

  -- `fetch_one` on a `SELECT`.
  abbrev pub fetch_one : (A → Bool) → List A → Result DbError A
  fetch_one p t = elim (find_where p t) [ none ↦ err row_not_found | some r ↦ ok r ]

module _ {ℓ} {A : Type ℓ} where
  pub length-keep : (p : A → Bool) (t : List A) → length (keep p t) ≡ count_where p t
  length-keep p [] = refl
  length-keep p (r ∷ t) = ground (arith, length-keep p t)

  -- An update that takes away what a test asks for lowers the test's count by the rows that it hits.
  pub count_where-update :
      (p q : A → Bool) (f : A → A) (t : List A)
      → ((r : A) → p (f r) ≡ false)
      → count_where p (update_where q f t) + count_where (λ r. p r && q r) t ≡ count_where p t
  count_where-update p q f [] gone = omega arith
  count_where-update p q f (r ∷ t) gone = ground (arith, count_where-update p q f t gone, gone r)
