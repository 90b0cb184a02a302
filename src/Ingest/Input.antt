-- ===== src/Ingest/Input.antt =====
-- The checks of the input of an ingestion (`validate_episode_input`, `validate_parser_fields`). The
-- messages, which the program joins to one text, are values.
use project_loom.Common.{
  String, Bool, true, false, Option, none, some, List, [], ◌∷◌, ◌++◌, ◌&&◌, ◌||◌, not,
  if◌then◌else◌,
}
use package.text.Mathlib.Text.{◌==◌ as str_eq}
use project_loom.Common.Text.{Text, text, is_whitespace}
use project_loom.Common.Result.{Result, ok, err}
use project_loom.Online.{IngestionMode, user_authored_seed, vendor_import, live_mcp_capture}

-- `s.trim().is_empty()`
abbrev pub is_blank : Text → Bool
is_blank [] = true
is_blank (c ∷ s) = is_whitespace c && is_blank s

pub data FieldError : Type 0 where
  empty_content empty_source empty_namespace : FieldError
  unknown_source : String → FieldError
  missing_parser_fields : FieldError
  unexpected_parser_fields : IngestionMode → FieldError

abbrev pub push_if : Bool → FieldError → List FieldError → List FieldError
push_if true e errors = errors ++ e ∷ []
push_if false e errors = errors

abbrev pub is_valid_source : String → Bool
is_valid_source source =
    str_eq source "manual" || (str_eq source "claude-code" || str_eq source "github")

abbrev pub when_empty : List FieldError → Result (List FieldError) (Unit {0})
when_empty [] = ok tt
when_empty (e ∷ errors) = err (e ∷ errors)

unfoldable pub validate_episode_input : Text → String → String → Result (List FieldError) (Unit {0})
validate_episode_input content source namespace =
    let blank_source = is_blank (text source) in
    when_empty (
      push_if (not blank_source && not (is_valid_source source)) (unknown_source source) (
        push_if (is_blank (text namespace)) empty_namespace
          (push_if blank_source empty_source (push_if (is_blank content) empty_content []))))

abbrev pub has_text : Option String → Bool
has_text (some s) = not (is_blank (text s))
has_text none = false

unfoldable pub validate_parser_fields :
    IngestionMode → Option String → Option String → Result (List FieldError) (Unit {0})
validate_parser_fields vendor_import version schema =
    if not (has_text version) || not (has_text schema)
    then err (missing_parser_fields ∷ [])
    else ok tt
validate_parser_fields user_authored_seed version schema =
    if has_text version || has_text schema
    then err (unexpected_parser_fields user_authored_seed ∷ [])
    else ok tt
validate_parser_fields live_mcp_capture version schema =
    if has_text version || has_text schema
    then err (unexpected_parser_fields live_mcp_capture ∷ [])
    else ok tt
