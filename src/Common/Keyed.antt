-- ===== src/Common/Keyed.antt =====
-- Tables with a primary key: a key names at most one row, and an update by key changes that row
-- alone.
use Prim.Native.Nat.{ℕ}
use mathlib.Core.Path.{◌≡◌, refl, sym, ap, subst, ◌∙◌}
use mathlib.Core.Logic.{◌≢◌, inl, inr}
use mathlib.Core.Bool.{Bool, true, false, ◌&&◌}
use mathlib.Core.Option.{none, some}
use mathlib.Core.List.{List, [], ◌∷◌}
use native.Mathlib.Omega.{arith}
use project_loom.Common.Tests.{◌==◌, ==_iff, ==-refl, is_some, if◌then◌else◌, Bool-cases}
use project_loom.Common.Lists.{All, All-map, keep}
use project_loom.Common.Table.{update_where, find_where}

module _ {ℓ} {A : Type ℓ} (key : A → ℕ) where
  abbrev pub by_key : ℕ → A → Bool
  by_key i r = key r == i

  abbrev pub Lacks : ℕ → List A → Type 0
  Lacks i t = All (λ r. key r ≢ i) t

  abbrev pub IsKeyed : List A → Type 0
  IsKeyed [] = Unit
  IsKeyed (r ∷ t) = Lacks (key r) t × IsKeyed t

  pub find_where-Lacks :
      (i : ℕ) (q : A → Bool) (t : List A) → Lacks i t → find_where (λ r. by_key i r && q r) t ≡ none
  find_where-Lacks i q [] h = refl
  find_where-Lacks i q (r ∷ t) h = ground (arith, find_where-Lacks i q t h.1, ==_iff (key r) i, h.0)

  pub find_where_keyed :
      (i : ℕ) (q : A → Bool) (t : List A) (e : A)
      → IsKeyed t
      → find_where (by_key i) t ≡ some e
      → find_where (λ r. by_key i r && q r) t ≡ (if q e then some e else none)
  find_where_keyed i q [] e k h = cc
  find_where_keyed i q (r ∷ t) e k h = elim (Bool-cases (by_key i r)) [
    | inl here ↦
        let same : r ≡ e = ground arith in
        let away = find_where-Lacks i q t (rw ((==_iff (key r) i).0 here) at k.0) in
        rw (← same) (rw (here, away))
    | inr there ↦ rw there (find_where_keyed i q t e k.1 (rw there at h))
  ]

  -- Where a test finds a row of a key, it holds of every row of that key.
  pub keyed_only :
      (i : ℕ) (q : A → Bool) (t : List A) (e : A)
      → IsKeyed t
      → find_where (λ r. by_key i r && q r) t ≡ some e
      → All (λ r. key r ≡ i → q r ≡ true) t
  keyed_only i q [] e k h = tt
  keyed_only i q (r ∷ t) e k h = elim (Bool-cases (by_key i r)) [
    | inl here ↦
        let away = rw ((==_iff (key r) i).0 here) at k.0 in
        let absent = find_where-Lacks i q t away in
        ((λ _. ground arith), All-map _ _ t (λ x ne eq. absurd (ne eq)) away)
    | inr there ↦ ((λ same. ground arith), keyed_only i q t e k.1 (rw there at h))
  ]

  -- A row of another key is out of reach of an update.
  pub find_where-update_ne :
      (i j : ℕ) (p : A → Bool) (f : A → A) (t : List A)
      → ((r : A) → key (f r) ≡ key r)
      → ((r : A) → p r ≡ true → key r ≡ i)
      → i ≢ j
      → find_where (by_key j) (update_where p f t) ≡ find_where (by_key j) t
  find_where-update_ne i j p f [] keeps only ne = refl
  find_where-update_ne i j p f (r ∷ t) keeps only ne = elim (Bool-cases (p r)) [
    | inl hit ↦
        ground (arith, find_where-update_ne i j p f t keeps only ne, only r hit, keeps r, ne)
    | inr miss ↦ rw miss (ground (arith, find_where-update_ne i j p f t keeps only ne))
  ]

  pub find_where-update_self :
      (i : ℕ) (q : A → Bool) (f : A → A) (t : List A) (e : A)
      → ((r : A) → key (f r) ≡ key r)
      → find_where (by_key i) t ≡ some e
      → q e ≡ true
      → find_where (by_key i) (update_where (λ r. by_key i r && q r) f t) ≡ some (f e)
  find_where-update_self i q f [] e keeps h hit = cc
  find_where-update_self i q f (r ∷ t) e keeps h hit = elim (Bool-cases (by_key i r)) [
    | inl here ↦
        let same : r ≡ e = ground arith in
        let hit' : q r ≡ true = rw same hit in
        let here' : by_key i (f r) ≡ true = rw (keeps r) here in
        rw (here, hit') (rw here' (ap (λ x. some (f x)) same))
    | inr there ↦ rw there (rw there (find_where-update_self i q f t e keeps (rw there at h) hit))
  ]

  -- An update neither adds nor removes a key.
  pub find_where-update_present :
      (j : ℕ) (p : A → Bool) (f : A → A) (t : List A)
      → ((r : A) → key (f r) ≡ key r)
      → is_some (find_where (by_key j) (update_where p f t)) ≡ is_some (find_where (by_key j) t)
  find_where-update_present j p f [] keeps = refl
  find_where-update_present j p f (r ∷ t) keeps =
      ground (arith, find_where-update_present j p f t keeps, keeps r)

  -- The rows that a query returns are rows of the table.
  pub keep-present :
      (q : A → Bool) (t : List A)
      → All (λ o. is_some (find_where (by_key (key o)) t) ≡ true) (keep q t)
  keep-present q [] = tt
  keep-present q (r ∷ t) =
      let rest : All (λ o. is_some (find_where (by_key (key o)) (r ∷ t)) ≡ true) (keep q t) =
        All-map _ _ (keep q t) (λ o h. ground arith) (keep-present q t) in
      elim (Bool-cases (q r)) [ inl e ↦ rw e (rw (==-refl (key r)) refl, rest) | inr e ↦ rw e rest ]

  -- The same for an update by key alone.
  pub find_where-update_key :
      (i : ℕ) (f : A → A) (t : List A) (e : A)
      → ((r : A) → key (f r) ≡ key r)
      → find_where (by_key i) t ≡ some e
      → find_where (by_key i) (update_where (by_key i) f t) ≡ some (f e)
  find_where-update_key i f [] e keeps h = cc
  find_where-update_key i f (r ∷ t) e keeps h = elim (Bool-cases (by_key i r)) [
    | inl here ↦
        let same : r ≡ e = ground arith in
        let here' : by_key i (f r) ≡ true = rw (keeps r) here in
        rw here (rw here' (ap (λ x. some (f x)) same))
    | inr there ↦ rw there (rw there (find_where-update_key i f t e keeps (rw there at h)))
  ]

  update_where-Lacks :
      (i : ℕ) (p : A → Bool) (f : A → A) (t : List A)
      → ((r : A) → key (f r) ≡ key r)
      → Lacks i t
      → Lacks i (update_where p f t)
  update_where-Lacks i p f [] keeps h = tt
  update_where-Lacks i p f (r ∷ t) keeps h = elim (Bool-cases (p r)) [
    | inl e ↦ rw e ((λ x. h.0 (sym (keeps r) ∙ x)), update_where-Lacks i p f t keeps h.1)
    | inr e ↦ rw e (h.0, update_where-Lacks i p f t keeps h.1)
  ]

  pub update_where-IsKeyed :
      (p : A → Bool) (f : A → A) (t : List A)
      → ((r : A) → key (f r) ≡ key r)
      → IsKeyed t
      → IsKeyed (update_where p f t)
  update_where-IsKeyed p f [] keeps h = tt
  update_where-IsKeyed p f (r ∷ t) keeps h =
      let rest = update_where-IsKeyed p f t keeps h.1 in
      let away = update_where-Lacks (key r) p f t keeps h.0 in
      elim (Bool-cases (p r)) [
        | inl e ↦ rw e (rw (keeps r) (away, rest))
        | inr e ↦ rw e (away, rest)
      ]

module _ {ℓ} {A : Type ℓ} (key : A → ℕ) (f : A → A) (keeps : (r : A) → key (f r) ≡ key r) where
  -- One update by key for each row of a list, in turn.
  abbrev pub update_each : List A → List A → List A
  update_each [] t = t
  update_each (o ∷ os) t = update_each os (update_where (by_key key (key o)) f t)

  update_where-absent : (i : ℕ) (t : List A) → Lacks key i t → update_where (by_key key i) f t ≡ t
  update_where-absent i [] h = refl
  update_where-absent i (r ∷ t) h =
      let there : by_key key i r ≡ false = ground (arith, ==_iff (key r) i, h.0) in
      rw there (ap (λ x. r ∷ x) (update_where-absent i t h.1))

  update_each-cons :
      (os : List A) (r : A) (t : List A)
      → All (λ o. key r ≢ key o) os
      → update_each os (r ∷ t) ≡ r ∷ update_each os t
  update_each-cons [] r t h = refl
  update_each-cons (o ∷ os) r t h =
      let there : by_key key (key o) r ≡ false = ground (arith, ==_iff (key r) (key o), h.0) in
      rw there (update_each-cons os r (update_where (by_key key (key o)) f t) h.1)

  keep-Lacks : (q : A → Bool) (i : ℕ) (t : List A) → Lacks key i t → All (λ o. i ≢ key o) (keep q t)
  keep-Lacks q i [] h = tt
  keep-Lacks q i (r ∷ t) h = elim (Bool-cases (q r)) [
    | inl e ↦ rw e ((λ x. h.0 (sym x)), keep-Lacks q i t h.1)
    | inr e ↦ rw e (keep-Lacks q i t h.1)
  ]

  -- Updating the rows that a query has returned, one by one, is one update with its test.
  pub update_each-keep :
      (q : A → Bool) (t : List A) → IsKeyed key t → update_each (keep q t) t ≡ update_where q f t
  update_each-keep q [] k = refl
  update_each-keep q (r ∷ t) k = elim (Bool-cases (q r)) [
    | inl e ↦
        let away = keep-Lacks q (key r) t k.0 in
        let away' = subst (λ n. All (λ o. n ≢ key o) (keep q t)) (sym (keeps r)) away in
        let head : update_where (by_key key (key r)) f (r ∷ t) ≡ f r ∷ t =
          rw (==-refl (key r)) (ap (λ x. f r ∷ x) (update_where-absent (key r) t k.0)) in
        rw e (
          ap (update_each (keep q t)) head
          ∙ update_each-cons (keep q t) (f r) t away'
          ∙ ap (λ x. f r ∷ x) (update_each-keep q t k.1))
    | inr e ↦ rw e (
        update_each-cons (keep q t) r t (keep-Lacks q (key r) t k.0)
        ∙ ap (λ x. r ∷ x) (update_each-keep q t k.1))
  ]
