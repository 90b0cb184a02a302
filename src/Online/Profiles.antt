-- ===== src/Online/Profiles.antt =====
-- The retrieval profiles of a task class and their merge (pipeline/online/retrieve.rs).
use project_loom.Common.{
  ℕ, ◌≤◌, ◌≡◌, Bool, true, false, Option, none, some, List, [], ◌∷◌, ◌++◌, ◌||◌, any, length, take,
  arith, not, ◌&&◌, if◌then◌else◌,
}
use project_loom.Online.Types.{
  TaskClass, debug, architecture, compliance, writing, chat, RetrievalProfile, fact_lookup,
  episode_recall, graph_neighborhood, procedure_assist,
}

abbrev pub max_profiles : ℕ
max_profiles = 3

abbrev pub same_profile : RetrievalProfile → RetrievalProfile → Bool
same_profile fact_lookup fact_lookup = true
same_profile episode_recall episode_recall = true
same_profile graph_neighborhood graph_neighborhood = true
same_profile procedure_assist procedure_assist = true
same_profile _ _ = false

abbrev pub has_profile : List RetrievalProfile → RetrievalProfile → Bool
has_profile ps p = any (same_profile p) ps

unfoldable pub profiles_for_class : TaskClass → List RetrievalProfile
profiles_for_class debug = graph_neighborhood ∷ episode_recall ∷ []
profiles_for_class architecture = fact_lookup ∷ graph_neighborhood ∷ []
profiles_for_class compliance = episode_recall ∷ fact_lookup ∷ []
profiles_for_class writing = fact_lookup ∷ []
profiles_for_class chat = fact_lookup ∷ []

-- The loop that pushes the profiles of the secondary class.
unfoldable pub push_new : List RetrievalProfile → List RetrievalProfile → List RetrievalProfile
push_new profiles [] = profiles
push_new profiles (p ∷ ps) =
    push_new (if has_profile profiles p then profiles else profiles ++ p ∷ []) ps

unfoldable pub merge_profiles : TaskClass → Option TaskClass → List RetrievalProfile
unfolding profiles_for_class push_new
merge_profiles primary none = take max_profiles (profiles_for_class primary)
merge_profiles primary (some secondary) =
    take max_profiles (push_new (profiles_for_class primary) (profiles_for_class secondary))

abbrev pub requested : TaskClass → Option TaskClass → RetrievalProfile → Bool
requested primary none p = has_profile (profiles_for_class primary) p
requested primary (some secondary) p =
    has_profile (profiles_for_class primary) p || has_profile (profiles_for_class secondary) p

abbrev pub distinct : List RetrievalProfile → Bool
distinct [] = true
distinct (p ∷ ps) = not (has_profile ps p) && distinct ps

-- The merge has each profile of the two classes, no other, and none twice: the cap drops nothing.
pub merge_profiles_lem :
    (primary : TaskClass) (secondary : Option TaskClass) (p : RetrievalProfile)
    → (has_profile (merge_profiles primary secondary) p ≡ requested primary secondary p)
      × (distinct (merge_profiles primary secondary) ≡ true)
      × (length (merge_profiles primary secondary) ≤ max_profiles)
unfolding merge_profiles profiles_for_class push_new
merge_profiles_lem primary secondary p = ground arith
