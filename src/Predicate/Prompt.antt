-- ===== src/Predicate/Prompt.antt =====
-- The block of predicates in the prompt of the extraction (loom-engine/src/pipeline/offline/extract.rs,
-- db/predicates.rs). The order of the texts in the database is a parameter.
use project_loom.Common.{
  String, Bool, true, false, Option, none, some, List, [], ◌∷◌, ◌++◌, any, keep, map,
  get_or_default, if◌then◌else◌,
}
use project_loom.Common.Text.{Text, text, trim_end}
use project_loom.Common.Sort.{sort_by}
use Prim.Native.String.{compare}
use Prim.Native.Nat.{Ordering}
use package.text.Mathlib.Text.{◌==◌ as str_eq}
use project_loom.Predicate.Registry.{PredicateEntry, Registry}

abbrev pub in_pack : String → PredicateEntry → Bool
in_pack p e = str_eq e.pack p

-- `pack = ANY($1)`
abbrev pub in_any : List String → PredicateEntry → Bool
in_any packs e = any (λ p. in_pack p e) packs

unfoldable pub query_predicates_by_pack :
    (PredicateEntry → PredicateEntry → Bool) → List String → Registry → List PredicateEntry
query_predicates_by_pack by_pack_category_predicate packs db =
    sort_by by_pack_category_predicate (keep (in_any packs) db.predicates)

-- The packs of a namespace: those of its row, if any, and `core` in front where it is missing.
unfoldable pub active_packs : Option (Option (List String)) → List String
active_packs packs_row =
    let packs = get_or_default (get_or_default packs_row none) [] in
    if any (λ p. str_eq p "core") packs then packs else "core" ∷ packs

abbrev pub Groups : Type 0
Groups = List (String × List PredicateEntry)

-- An entry goes to the group of its pack, or to a new group at the end.
abbrev pub push_entry : PredicateEntry → Groups → Groups
push_entry e [] = (e.pack, e ∷ []) ∷ []
push_entry e ((p, es) ∷ gs) =
    let rest = push_entry e gs in
    if str_eq p e.pack then (p, es ++ (e ∷ [])) ∷ gs else (p, es) ∷ rest

abbrev pub group_from : Groups → List PredicateEntry → Groups
group_from gs [] = gs
group_from gs (e ∷ es) = group_from (push_entry e gs) es

unfoldable pub group_by_pack : List PredicateEntry → Groups
group_by_pack es = group_from [] es

abbrev pub not_after : String → String → Bool
not_after a b = elim (compare a b) [ Ordering.gt ↦ false | _ ↦ true ]

-- `dedup`: of equal neighbours the first stays.
abbrev pub dedup_after : String → List String → List String
dedup_after a [] = []
dedup_after a (b ∷ bs) = let rest = dedup_after b bs in if str_eq a b then rest else b ∷ rest

abbrev pub dedup : List String → List String
dedup [] = []
dedup (a ∷ rest) = a ∷ dedup_after a rest

-- `join(", ")`
abbrev pub join : List String → Text
join [] = []
join (a ∷ []) = text a
join (a ∷ b ∷ bs) = text a ++ (text ", " ++ join (b ∷ bs))

abbrev pub part : Text → Option String → Text → Text
part front none back = []
part front (some s) back = if str_eq s "" then [] else front ++ (text s ++ back)

abbrev pub entry_line : PredicateEntry → Text
entry_line e =
    text "- "
    ++ (text e.predicate
        ++ (text " ("
            ++ (text e.category
                ++ (text ")"
                    ++ (part (text ": ") e.description []
                        ++ (part (text " [inverse: ") e.inverse (text "]") ++ text "\n"))))))

abbrev pub entry_lines : List PredicateEntry → Text
entry_lines [] = []
entry_lines (e ∷ es) = entry_line e ++ entry_lines es

abbrev pub group_header : String → List PredicateEntry → Text
group_header p es =
    text "### "
    ++ (text p
        ++ (text " ("
            ++ (join (dedup (sort_by not_after (map (λ e. e.category) es))) ++ text ")\n")))

abbrev pub group_texts : Groups → Text
group_texts [] = []
group_texts ((p, es) ∷ gs) = group_header p es ++ (entry_lines es ++ (text "\n" ++ group_texts gs))

unfoldable pub format_predicate_block : List PredicateEntry → Text
unfolding group_by_pack sort_by
format_predicate_block [] = text "(no canonical predicates available)"
format_predicate_block (e ∷ es) = trim_end (group_texts (group_by_pack (e ∷ es)))

-- The queries answer here, so that neither fallback to the core pack is taken.
unfoldable pub assemble_fact_prompt :
    (PredicateEntry → PredicateEntry → Bool) → Option (Option (List String)) → Registry → Text
unfolding active_packs query_predicates_by_pack format_predicate_block
assemble_fact_prompt by_pack_category_predicate packs_row db =
    format_predicate_block
      (query_predicates_by_pack by_pack_category_predicate (active_packs packs_row) db)
