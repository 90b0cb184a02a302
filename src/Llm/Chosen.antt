-- ===== src/Llm/Chosen.antt =====
-- What a classification reports (`parse_classification_response`, `classify_intent`).
use project_loom.Common.{
  String, ◌≡◌, refl, ◌⊎◌, inl, inr, true, false, none, some, List, [], ◌∷◌, arith, All, All-map,
  Bool-cases, get_or_default,
}
use mathlib.Core.List.{Perm}
use mathlib.Core.List.Perm
use project_loom.Common.Json.{Json}
use project_loom.Common.Result.{ok}
use project_loom.Common.Sort.{sort_by, sort_by-perm, sort_by-IsSorted, All-sort_by_inv, IsSorted}
use project_loom.Online.{chat}
use project_loom.Online.Float.{Float, IsLawful}
use project_loom.Llm.Classify.{
  ClassEntry, ClassificationResult, ClassificationOutput, Reader, parse_task_class, lt,
  confidence_gap_threshold, default_chat_output, by_confidence, secondary_of, choose,
  parse_classification_response, deserialize_response,
}

module _ {S : Type 0} (F : Float S) (L : IsLawful F) where
  -- The second class is that of the next entry, where it is near, and else there is none.
  abbrev pub IsSecond : S → List (ClassEntry S) → ClassificationResult S → Type 0
  IsSecond top [] r = (r.secondary_class ≡ none) × (r.secondary_confidence ≡ none)
  IsSecond top (e ∷ es) r =
      ((lt F (F.sub top e.confidence) (F.lit 3 1) ≡ true)
        × (r.secondary_class ≡ parse_task_class e.class)
        × (r.secondary_confidence ≡ some e.confidence))
      ⊎ ((lt F (F.sub top e.confidence) (F.lit 3 1) ≡ false)
          × (r.secondary_class ≡ none)
          × (r.secondary_confidence ≡ none))

  -- The first class is that of an entry with the greatest confidence; an unknown name is chat.
  abbrev pub IsChosen : List (ClassEntry S) → ClassificationResult S → Type 0
  IsChosen entries r =
      (top : ClassEntry S) × (rest : List (ClassEntry S)) × Perm (top ∷ rest) entries
      × IsSorted (by_confidence F) (top ∷ rest)
      × (lt F top.confidence (F.lit 1 1) ≡ false)
      × (r.primary_class ≡ get_or_default (parse_task_class top.class) chat)
      × (r.primary_confidence ≡ top.confidence)
      × IsSecond top.confidence rest r

  second :
      (top : S) (rest : List (ClassEntry S)) (r : ClassificationResult S)
      → r.secondary_class ≡ (secondary_of F top rest).0
      → r.secondary_confidence ≡ (secondary_of F top rest).1
      → IsSecond top rest r
  second top [] r c k = (c, k)
  second top (e ∷ es) r c k =
      elim (Bool-cases (lt F (F.sub top e.confidence) (confidence_gap_threshold F))) [
        | inl near ↦ inl (near, rw near at c, rw near at k)
        | inr far ↦ inr (far, rw far at c, rw far at k)
      ]

  below : (a b c : S) → F.le a b ≡ true → lt F b c ≡ true → lt F a c ≡ true
  below a b c h k = ground (arith, h, k, L.le-trans a b c, L.le-trans c a b, L.le-total a c)

  choose_lem :
      (model : String) (sorted : List (ClassEntry S))
      → IsSorted (by_confidence F) sorted
      → ((choose F model sorted ≡ default_chat_output F model)
          × All (λ e. lt F e.confidence (F.lit 1 1) ≡ true) sorted)
        ⊎ IsChosen sorted (choose F model sorted).result
  unfolding choose
  choose_lem model [] h = inl (refl, tt)
  choose_lem model (top ∷ rest) h = elim (Bool-cases (lt F top.confidence (F.lit 1 1))) [
    | inl low ↦ inl (rw low refl, (low, All-map _ _ rest (λ e b. below _ _ _ b low) h.0))
    | inr high ↦ inr (
      top,
      rest,
      Perm.refl _,
      h,
      high,
      rw high refl,
      rw high refl,
      second top.confidence rest (choose F model (top ∷ rest)).result (rw high refl) (rw high refl),
    )
  ]

  resorted :
      (entries sorted : List (ClassEntry S)) (r : ClassificationResult S)
      → Perm sorted entries
      → IsChosen sorted r
      → IsChosen entries r
  resorted entries sorted r p (top, rest, q, ordered, high, c, k, next) =
      (top, rest, Perm.trans q p, ordered, high, c, k, next)

  -- Under the laws of the score interface, a response that can be read gives an output. Either it is
  -- the default, and every entry has a confidence below 0.1; or the class is that of an entry with
  -- the greatest confidence, with chat for an unknown name, and the second class is that of the next
  -- entry, if it is less than 0.3 behind, and else there is none.
  pub parse_classification_response_lem :
      (rd : Reader S) (j : Json) (model : String) (entries : List (ClassEntry S))
      → deserialize_response F rd j ≡ ok entries
      → (out : ClassificationOutput S) × (parse_classification_response F rd j model ≡ ok out)
        × (((out ≡ default_chat_output F model)
              × All (λ e. lt F e.confidence (F.lit 1 1) ≡ true) entries)
            ⊎ IsChosen entries out.result)
  unfolding parse_classification_response
  parse_classification_response_lem rd j model entries read =
      let sorted = sort_by (by_confidence F) entries in
      let in_order : IsSorted (by_confidence F) sorted =
        sort_by-IsSorted (by_confidence F) (λ a b. L.le-total b.confidence a.confidence)
          (λ a b c h k. L.le-trans c.confidence b.confidence a.confidence k h) entries in
      (
        choose F model sorted,
        rw read refl,
        elim (choose_lem model sorted in_order) [
          | inl (e, low) ↦ inl (e, All-sort_by_inv (by_confidence F) _ entries low)
          | inr chosen ↦
              inr (resorted entries sorted _ (sort_by-perm (by_confidence F) entries) chosen)
        ],
      )
