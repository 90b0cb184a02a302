-- ===== src/Common/Dedup.antt =====
-- The loop `if seen.insert(key) { kept.push(x) } else { rejected.push(x) }` over a `HashSet` that
-- is empty at the start.
use Prim.Native.Nat.{ℕ, ◌+◌}
use mathlib.Core.Path.{◌≡◌, refl, sym, subst}
use mathlib.Core.Logic.{◌≢◌, inl, inr}
use mathlib.Core.Bool.{Bool, true, false, ◌&&◌, ◌||◌}
use mathlib.Core.List.{List, [], ◌∷◌}
use native.Mathlib.Omega.{arith}
use project_loom.Common.Tests.{◌==◌, ==_iff, ==-refl, Bool-cases}
use project_loom.Common.Lists.{All, All-map, All-both, any, contains, length}
use project_loom.Common.Keyed.{IsKeyed}
use project_loom.Common.Sort.{IsSorted}

not_left : (a b : Bool) → (a || b) ≡ false → b ≡ false
not_left a b h = ground arith

apart : (s : Bool) (i j : ℕ) → ((i == j) || s) ≡ false → i ≢ j
apart s i j h e = ground (arith, ==_iff i j)

first_of : (c s a b : Bool) → ((c || s) || a) ≡ true → b ≡ true → (s || ((c && b) || a)) ≡ true
first_of c s a b h k = ground arith

module _ {ℓ} {A : Type ℓ} (key : A → ℕ) where
  unfoldable pub dedup : List ℕ → List A → List A × List A
  dedup seen [] = ([], [])
  dedup seen (x ∷ xs) = elim (contains seen (key x)) [
    | true ↦ let (kept, rejected) = dedup seen xs in (kept, x ∷ rejected)
    | false ↦ let (kept, rejected) = dedup (key x ∷ seen) xs in (x ∷ kept, rejected)
  ]

  pub dedup-seen :
      (seen : List ℕ) (x : A) (xs : List A)
      → contains seen (key x) ≡ true
      → dedup seen (x ∷ xs) ≡ ((dedup seen xs).0, x ∷ (dedup seen xs).1)
  unfolding dedup
  dedup-seen seen x xs h = rw (h, dedup) refl

  pub dedup-new :
      (seen : List ℕ) (x : A) (xs : List A)
      → contains seen (key x) ≡ false
      → dedup seen (x ∷ xs) ≡ (x ∷ (dedup (key x ∷ seen) xs).0, (dedup (key x ∷ seen) xs).1)
  unfolding dedup
  dedup-new seen x xs h = rw (h, dedup) refl

  -- Each item is kept or rejected.
  pub length-dedup :
      (seen : List ℕ) (xs : List A)
      → length (dedup seen xs).0 + length (dedup seen xs).1 ≡ length xs
  unfolding dedup
  length-dedup seen [] = omega arith
  length-dedup seen (x ∷ xs) = elim (Bool-cases (contains seen (key x))) [
    | inl e ↦ rw (dedup-seen seen x xs e) (omega (arith, length-dedup seen xs))
    | inr e ↦ rw (dedup-new seen x xs e) (omega (arith, length-dedup (key x ∷ seen) xs))
  ]

  pub All-dedup {κ} :
      (P : A → Type κ) (seen : List ℕ) (xs : List A)
      → All P xs
      → All P (dedup seen xs).0 × All P (dedup seen xs).1
  unfolding dedup
  All-dedup P seen [] h = (tt, tt)
  All-dedup P seen (x ∷ xs) h = elim (Bool-cases (contains seen (key x))) [
    | inl e ↦
        let (kept, rejected) = All-dedup P seen xs h.1 in
        rw (dedup-seen seen x xs e) (kept, (h.0, rejected))
    | inr e ↦
        let (kept, rejected) = All-dedup P (key x ∷ seen) xs h.1 in
        rw (dedup-new seen x xs e) ((h.0, kept), rejected)
  ]

  dedup-unseen :
      (seen : List ℕ) (xs : List A) → All (λ x. contains seen (key x) ≡ false) (dedup seen xs).0
  unfolding dedup
  dedup-unseen seen [] = tt
  dedup-unseen seen (x ∷ xs) = elim (Bool-cases (contains seen (key x))) [
    | inl e ↦ rw (dedup-seen seen x xs e) (dedup-unseen seen xs)
    | inr e ↦
        let rest = dedup-unseen (key x ∷ seen) xs in
        rw (dedup-new seen x xs e)
          (e, All-map _ (λ y. contains seen (key y) ≡ false) _ (λ y h. not_left _ _ h) rest)
  ]

  -- No two kept items have the same key.
  pub dedup-IsKeyed : (seen : List ℕ) (xs : List A) → IsKeyed key (dedup seen xs).0
  unfolding dedup
  dedup-IsKeyed seen [] = tt
  dedup-IsKeyed seen (x ∷ xs) = elim (Bool-cases (contains seen (key x))) [
    | inl e ↦ rw (dedup-seen seen x xs e) (dedup-IsKeyed seen xs)
    | inr e ↦
        let others = dedup-unseen (key x ∷ seen) xs in
        rw (dedup-new seen x xs e) (
          All-map _ (λ y. key y ≢ key x) _
              (λ y h same. apart (contains seen (key y)) (key x) (key y) h (sym same)) others,
          dedup-IsKeyed (key x ∷ seen) xs,
        )
  ]

  -- An item whose key was seen before, or that has a kept one of its key in front of it.
  abbrev pub covered : (A → A → Bool) → List ℕ → List A → A → Bool
  covered before seen kept x = contains seen (key x) || any (λ y. key y == key x && before y x) kept

  abbrev AllCovered : (A → A → Bool) → List ℕ → List A → List A × List A → Type 0
  AllCovered before seen xs d = All (λ x. covered before seen d.0 x ≡ true) xs

  -- In a sorted list the first item of each key is kept, so each item has a kept one of its key
  -- that may stand in front of it.
  pub dedup-first :
      (before : A → A → Bool) (refl_before : (x : A) → before x x ≡ true) (seen : List ℕ)
      (xs : List A)
      → IsSorted before xs
      → All (λ x. covered before seen (dedup seen xs).0 x ≡ true) xs
  unfolding dedup
  dedup-first before r seen [] h = tt
  dedup-first before r seen (x ∷ xs) h = elim (Bool-cases (contains seen (key x))) [
    | inl e ↦
        subst (AllCovered before seen (x ∷ xs)) (sym (dedup-seen seen x xs e))
          (rw e refl, dedup-first before r seen xs h.1)
    | inr e ↦
        let kept = (dedup (key x ∷ seen) xs).0 in
        let rest = All-both _ _ xs (dedup-first before r (key x ∷ seen) xs h.1) h.0 in
        subst (AllCovered before seen (x ∷ xs)) (sym (dedup-new seen x xs e)) (
          rw (e, ==-refl (key x), r x) refl,
          All-map _ _ xs
              (λ y p.
                first_of (key x == key y) (contains seen (key y))
                  (any (λ z. key z == key y && before z y) kept) (before x y) p.0 p.1)
              rest,
        )
  ]

  -- A sorted list stays sorted.
  pub dedup-IsSorted :
      (before : A → A → Bool) (seen : List ℕ) (xs : List A)
      → IsSorted before xs
      → IsSorted before (dedup seen xs).0
  unfolding dedup
  dedup-IsSorted before seen [] h = tt
  dedup-IsSorted before seen (x ∷ xs) h = elim (Bool-cases (contains seen (key x))) [
    | inl e ↦ rw (dedup-seen seen x xs e) (dedup-IsSorted before seen xs h.1)
    | inr e ↦ rw (dedup-new seen x xs e) (
      (All-dedup (λ y. before x y ≡ true) (key x ∷ seen) xs h.0).0,
      dedup-IsSorted before (key x ∷ seen) xs h.1,
    )
  ]
