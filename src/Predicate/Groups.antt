-- ===== src/Predicate/Groups.antt =====
-- The groups of the prompt are the packs (`format_predicate_block`).
use project_loom.Common.{
  String, ◌≡◌, ◌≢◌, refl, sym, inl, inr, Bool, true, false, ◌||◌, List, [], ◌∷◌, ◌++◌, keep,
  if◌then◌else◌, Bool-cases, arith,
}
use mathlib.Core.List.{append_assoc, append-nil}
use package.text.Mathlib.Text.{◌==◌ as str_eq}
use package.text.Mathlib.TextEquality.{eq_iff}
use project_loom.Common.Json.{eq_comm}
use project_loom.Predicate.Registry.{PredicateEntry}
use project_loom.Predicate.Prompt.{in_pack, Groups, push_entry, group_from, group_by_pack}

-- The entries under a name, none where no group has it.
abbrev pub entries_of : String → Groups → List PredicateEntry
entries_of p [] = []
entries_of p ((q, es) ∷ gs) = if str_eq q p then es else entries_of p gs

abbrev pub has_group : String → Groups → Bool
has_group p [] = false
has_group p ((q, es) ∷ gs) = str_eq q p || has_group p gs

-- No two groups have one name, and none is empty.
abbrev pub IsGrouping : Groups → Type 0
IsGrouping [] = Unit
IsGrouping ((p, es) ∷ gs) = (has_group p gs ≡ false) × (es ≢ []) × IsGrouping gs

has_group-push :
    (p : String) (e : PredicateEntry) (gs : Groups)
    → has_group p (push_entry e gs) ≡ (has_group p gs || str_eq e.pack p)
has_group-push p e [] = ground arith
has_group-push p e ((q, es) ∷ gs) = elim (Bool-cases (str_eq q e.pack)) [
  | inr k ↦ rw (k, has_group-push p e gs) ground arith
  | inl k ↦ rw k (rw ((eq_iff q e.pack).0 k) (ground arith))
]

not_nil : (es : List PredicateEntry) (e : PredicateEntry) → es ++ (e ∷ []) ≢ []
not_nil [] e h = cc
not_nil (x ∷ es) e h = cc

push-IsGrouping : (e : PredicateEntry) (gs : Groups) → IsGrouping gs → IsGrouping (push_entry e gs)
push-IsGrouping e [] h = (refl, (λ k. cc), tt)
push-IsGrouping e ((q, es) ∷ gs) h = elim (Bool-cases (str_eq q e.pack)) [
  | inl k ↦ rw k (h.0, not_nil es e, h.2)
  | inr k ↦
      rw k
        (rw (has_group-push q e gs, h.0) (rw (eq_comm e.pack q) k), h.1, push-IsGrouping e gs h.2)
]

entries_of-push :
    (p : String) (e : PredicateEntry) (gs : Groups)
    → entries_of p (push_entry e gs) ≡ entries_of p gs ++ (if in_pack p e then e ∷ [] else [])
entries_of-push p e [] = ground arith
entries_of-push p e ((q, es) ∷ gs) = elim (Bool-cases (str_eq q e.pack)) [
  | inl k ↦ rw k (elim (Bool-cases (str_eq q p)) [
    | inl l ↦ let t : in_pack p e ≡ true = rw (← (eq_iff q e.pack).0 k) l in rw (l, t) refl
    | inr l ↦
        let t : in_pack p e ≡ false = rw (← (eq_iff q e.pack).0 k) l in
        rw (l, t) (sym (append-nil _))
  ])
  | inr k ↦ rw k (elim (Bool-cases (str_eq q p)) [
    | inl l ↦
        let t : in_pack p e ≡ false = rw (← (eq_iff q p).0 l) (rw (eq_comm e.pack q) k) in
        rw (l, t) (sym (append-nil _))
    | inr l ↦ rw l (entries_of-push p e gs)
  ])
]

group_from-IsGrouping :
    (gs : Groups) (es : List PredicateEntry) → IsGrouping gs → IsGrouping (group_from gs es)
group_from-IsGrouping gs [] h = h
group_from-IsGrouping gs (e ∷ es) h =
    group_from-IsGrouping (push_entry e gs) es (push-IsGrouping e gs h)

entries_of-group_from :
    (p : String) (gs : Groups) (es : List PredicateEntry)
    → entries_of p (group_from gs es) ≡ entries_of p gs ++ keep (in_pack p) es
entries_of-group_from p gs [] = sym (append-nil _)
entries_of-group_from p gs (e ∷ es) =
    rw (entries_of-group_from p (push_entry e gs) es, entries_of-push p e gs)
      (elim (Bool-cases (in_pack p e)) [
        | inl k ↦ rw k (append_assoc (entries_of p gs) (e ∷ []) (keep (in_pack p) es))
        | inr k ↦ rw k (append_assoc (entries_of p gs) [] (keep (in_pack p) es))
      ])

-- The predicates of the prompt stand in groups of different names, none of them empty, and the
-- group of a pack has exactly the predicates of this pack, in their order; a pack without a
-- predicate has no group.
pub group_by_pack_lem :
    (predicates : List PredicateEntry)
    → IsGrouping (group_by_pack predicates)
      × ((p : String) → entries_of p (group_by_pack predicates) ≡ keep (in_pack p) predicates)
unfolding group_by_pack
group_by_pack_lem predicates =
    (group_from-IsGrouping [] predicates tt, λ p. entries_of-group_from p [] predicates)
