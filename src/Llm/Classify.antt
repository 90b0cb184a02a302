-- ===== src/Llm/Classify.antt =====
-- The classification of a query (loom-engine/src/llm/classification.rs, types/classification.rs,
-- pipeline/online/classify.rs). The reading of the response by serde and the case of letters are
-- functions of the host.
use project_loom.Common.{
  String, Bool, Option, none, some, List, [], ◌∷◌, ◌&&◌, any, not, get_or_default, if◌then◌else◌,
}
use package.text.Mathlib.Text.{◌==◌ as str_eq}
use project_loom.Common.Json.{Json, string}
use project_loom.Common.Result.{Result, ok, err, ◌>>=◌}
use project_loom.Common.Sort.{sort_by}
use project_loom.Common.Text.{Text, text, contains_text, trim, strip_prefix, strip_suffix}
use project_loom.Online.{TaskClass, debug, architecture, compliance, writing, chat}
use project_loom.Online.Float.{Float}
use project_loom.Llm.Types.{LlmError}

pub record ClassEntry (S : Type 0) : Type 0 where
  pub class : String
  pub confidence : S

pub record ClassificationResult (S : Type 0) : Type 0 where
  pub primary_class : TaskClass
  pub secondary_class : Option TaskClass
  pub primary_confidence : S
  pub secondary_confidence : Option S

pub record ClassificationOutput (S : Type 0) : Type 0 where
  pub result : ClassificationResult S
  pub model : String

pub data ClassificationError : Type 0 where
  llm : LlmError → ClassificationError
  deserialization : ClassificationError

-- `ClassificationResponse` read from a value and from a text, and `str::to_lowercase`.
pub record Reader (S : Type 0) : Type 0 where
  pub from_value : Json → Option (List (ClassEntry S))
  pub from_str : Text → Option (List (ClassEntry S))
  pub to_lowercase : Text → Text

abbrev pub debug_keywords : List Text
debug_keywords =
    text "error"
    ∷ text "bug"
    ∷ text "crash"
    ∷ text "fail"
    ∷ text "exception"
    ∷ text "stack trace"
    ∷ text "debug"
    ∷ text "troubleshoot"
    ∷ text "broken"
    ∷ text "fix"
    ∷ []

abbrev pub architecture_keywords : List Text
architecture_keywords =
    text "architecture"
    ∷ text "design"
    ∷ text "component"
    ∷ text "system"
    ∷ text "diagram"
    ∷ text "module"
    ∷ text "structure"
    ∷ text "pattern"
    ∷ text "microservice"
    ∷ []

abbrev pub compliance_keywords : List Text
compliance_keywords =
    text "compliance"
    ∷ text "audit"
    ∷ text "regulation"
    ∷ text "policy"
    ∷ text "governance"
    ∷ text "control"
    ∷ text "evidence"
    ∷ text "finding"
    ∷ text "risk"
    ∷ []

abbrev pub writing_keywords : List Text
writing_keywords =
    text "write"
    ∷ text "document"
    ∷ text "draft"
    ∷ text "generate"
    ∷ text "create doc"
    ∷ text "readme"
    ∷ text "specification"
    ∷ []

abbrev pub has_keyword : List Text → Text → Bool
has_keyword keywords lower = any (λ kw. contains_text kw lower) keywords

-- `keyword_precheck`, on the query in lower case
unfoldable pub keyword_precheck : Text → Option TaskClass
keyword_precheck lower =
    if has_keyword debug_keywords lower
    then some debug
    else if has_keyword architecture_keywords lower
    then some architecture
    else if has_keyword compliance_keywords lower
    then some compliance
    else if has_keyword writing_keywords lower
    then some writing
    else none

unfoldable pub parse_task_class : String → Option TaskClass
parse_task_class s =
    if str_eq s "debug"
    then some debug
    else if str_eq s "architecture"
    then some architecture
    else if str_eq s "compliance"
    then some compliance
    else if str_eq s "writing"
    then some writing
    else if str_eq s "chat"
    then some chat
    else none

unfoldable pub strip_code_fences : Text → Text
strip_code_fences s =
    let t = trim s in
    elim (strip_prefix (text "```json") t) [
      | some rest ↦ trim (get_or_default (strip_suffix (text "```") rest) rest)
      | none ↦ elim (strip_prefix (text "```") t) [
        | some rest ↦ trim (get_or_default (strip_suffix (text "```") rest) rest)
        | none ↦ t
      ]
    ]

module _ {S : Type 0} (F : Float S) where
  abbrev pub confidence_gap_threshold : S
  confidence_gap_threshold = F.lit 3 1

  -- `a < b`
  abbrev pub lt : S → S → Bool
  lt a b = F.le a b && not (F.le b a)

  abbrev pub default_chat_output : String → ClassificationOutput S
  default_chat_output model = record {
    result = record {
      primary_class = chat;
      secondary_class = none;
      primary_confidence = F.lit 0 0;
      secondary_confidence = none;
    };
    model = model;
  }

  -- The order of the entries: a greater confidence stands in front.
  abbrev pub by_confidence : ClassEntry S → ClassEntry S → Bool
  by_confidence a b = F.le b.confidence a.confidence

  abbrev pub secondary_of : S → List (ClassEntry S) → Option TaskClass × Option S
  secondary_of primary_confidence [] = (none, none)
  secondary_of primary_confidence (e ∷ es) =
      if lt (F.sub primary_confidence e.confidence) confidence_gap_threshold
      then (parse_task_class e.class, some e.confidence)
      else (none, none)

  -- What follows from the sorted entries.
  unfoldable pub choose : String → List (ClassEntry S) → ClassificationOutput S
  unfolding parse_task_class
  choose model [] = default_chat_output model
  choose model (top ∷ rest) =
      if lt top.confidence (F.lit 1 1) then default_chat_output model else record {
        result = record {
          primary_class = get_or_default (parse_task_class top.class) chat;
          secondary_class = (secondary_of top.confidence rest).0;
          primary_confidence = top.confidence;
          secondary_confidence = (secondary_of top.confidence rest).1;
        };
        model = model;
      }

  module _ (r : Reader S) where
    abbrev pub of_text :
        Option (List (ClassEntry S)) → Result ClassificationError (List (ClassEntry S))
    of_text (some es) = ok es
    of_text none = err deserialization

    -- The second try, for a string that wraps the JSON.
    abbrev pub from_wrapped : Json → Result ClassificationError (List (ClassEntry S))
    from_wrapped (string s) = of_text (r.from_str (strip_code_fences (trim (text s))))
    from_wrapped j = err deserialization

    unfoldable pub deserialize_response : Json → Result ClassificationError (List (ClassEntry S))
    unfolding strip_code_fences
    deserialize_response j = elim (r.from_value j) [ some es ↦ ok es | none ↦ from_wrapped j ]

    unfoldable pub parse_classification_response :
        Json → String → Result ClassificationError (ClassificationOutput S)
    unfolding deserialize_response choose sort_by
    parse_classification_response j model =
        deserialize_response j >>= λ es. ok (choose model (sort_by by_confidence es))

    abbrev pub certain : TaskClass → String → ClassificationOutput S
    certain c model = record {
      result = record {
        primary_class = c;
        secondary_class = none;
        primary_confidence = F.lit 1 0;
        secondary_confidence = none;
      };
      model = model;
    }

    abbrev pub read_answer :
        String → Result LlmError Json → Result ClassificationError (ClassificationOutput S)
    read_answer model (err e) = err (llm e)
    read_answer model (ok j) = parse_classification_response j model

    -- The answer of the model to the query is an argument.
    unfoldable pub classify_intent :
        String → Text → Result LlmError Json → Result ClassificationError (ClassificationOutput S)
    unfolding keyword_precheck parse_classification_response
    classify_intent model query answer = elim (keyword_precheck (r.to_lowercase query)) [
      | some c ↦ ok (certain c "keyword_precheck")
      | none ↦ read_answer model answer
    ]

    -- A class that the caller gives (`apply_override`).
    unfoldable pub apply_override : TaskClass → ClassificationOutput S
    apply_override c = certain c "override"
