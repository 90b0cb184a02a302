-- ===== src/Tier/Lowest.antt =====
-- The row that a round of the enforcement demotes (`enforce_hot_tier_budget`).
use project_loom.Common.{
  ◌≡◌, refl, subst, inl, inr, Bool-cases, String, true, false, Option, none, some, List, [], ◌∷◌,
  All, All-map,
}
use mathlib.Core.List.{Mem, mem-cons_self}
use mathlib.Core.List.Perm
use project_loom.Common.Sort.{sort_by, sort_by-perm, sort_by-IsSorted, IsSorted, All-sort_by_inv}
use project_loom.Online.Float.{Float, IsLawful}
use project_loom.Tier.Rows.{Tables}
use project_loom.Tier.Budget.{
  LowestSalienceItem, unpinned_hot, first, le_salience, by_salience, lowest_unpinned,
}

module _ {S : Type 0} (F : Float S) where
  -- No score of the one is above one of the other.
  abbrev pub IsNotAbove : LowestSalienceItem S → LowestSalienceItem S → Type 0
  IsNotAbove a b =
      (x y : S) → a.salience_score ≡ some x → b.salience_score ≡ some y → F.le x y ≡ true

  -- The item is one of the unpinned hot rows of the namespace, and none of them has a lower score.
  abbrev pub IsLowest : String → Tables S → LowestSalienceItem S → Type 0
  IsLowest namespace db item =
      Mem item (unpinned_hot namespace db) × All (IsNotAbove item) (unpinned_hot namespace db)

module _ {S : Type 0} (F : Float S) (law : IsLawful F) where
  le_salience_total : (o p : Option S) → le_salience F o p ≡ false → le_salience F p o ≡ true
  le_salience_total none none h = cc
  le_salience_total none (some y) h = refl
  le_salience_total (some x) none h = cc
  le_salience_total (some x) (some y) h = law.le-total x y h

  le_salience_trans :
      (o p q : Option S)
      → le_salience F o p ≡ true
      → le_salience F p q ≡ true
      → le_salience F o q ≡ true
  le_salience_trans none none none h k = refl
  le_salience_trans none none (some z) h k = cc
  le_salience_trans none (some y) q h k = cc
  le_salience_trans (some x) p none h k = refl
  le_salience_trans (some x) none (some z) h k = cc
  le_salience_trans (some x) (some y) (some z) h k = law.le-trans x y z h k

  le_salience_refl : (o : Option S) → le_salience F o o ≡ true
  le_salience_refl none = refl
  le_salience_refl (some x) = elim (Bool-cases (F.le x x)) [
    | inl e ↦ e
    | inr e ↦ law.le-total x x e
  ]

  not_above : (a b : LowestSalienceItem S) → by_salience F a b ≡ true → IsNotAbove F a b
  not_above a b h x y e k = rw (e, k) at h

  first_lowest :
      (sorted : List (LowestSalienceItem S)) (item : LowestSalienceItem S)
      → IsSorted (by_salience F) sorted
      → first sorted ≡ some item
      → Mem item sorted × All (λ x. by_salience F item x ≡ true) sorted
  first_lowest [] item h e = cc
  first_lowest (x ∷ xs) item h e =
      let same : x ≡ item = cc in
      subst (λ i. Mem i (x ∷ xs) × All (λ y. by_salience F i y ≡ true) (x ∷ xs)) same
        (mem-cons_self, (le_salience_refl x.salience_score, h.0))

  pub lowest_unpinned-IsLowest :
      (namespace : String) (db : Tables S) (item : LowestSalienceItem S)
      → lowest_unpinned F namespace db ≡ some item
      → IsLowest F namespace db item
  unfolding lowest_unpinned
  lowest_unpinned-IsLowest namespace db item e =
      let items = unpinned_hot namespace db in
      let sorted = sort_by (by_salience F) items in
      let in_order =
        sort_by-IsSorted (by_salience F)
          (λ a b. le_salience_total a.salience_score b.salience_score)
          (λ a b c. le_salience_trans a.salience_score b.salience_score c.salience_score) items in
      let (among, low) = first_lowest sorted item in_order e in
      (
        (Perm.mem_iff (sort_by-perm (by_salience F) items)).0 among,
        All-map _ _ items (λ x k. not_above item x k) (All-sort_by_inv (by_salience F) _ items low),
      )
