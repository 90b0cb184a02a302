-- ===== src/Common/Json.antt =====
-- `serde_json::Value`, the JSONB of the tables, with the operators of the queries on it. Numbers
-- are kept as their text.
use Prim.Native.String.{String}
use mathlib.Core.Path.{◌≡◌, refl}
use mathlib.Core.Bool.{Bool, true, false, ◌||◌}
use mathlib.Core.Logic.{inl, inr}
use mathlib.Core.Option.{Option, none, some}
use mathlib.Core.List.{List, [], ◌∷◌}
use text.Mathlib.Text.{◌==◌ as str_eq}
use package.text.Mathlib.TextPositions.{eq_refl}
use package.text.Mathlib.TextEquality.{eq_iff}
use native.Mathlib.Omega.{arith}
use project_loom.Common.Tests.{if◌then◌else◌, Bool-cases}

mutual
  pub data Json : Type 0 where
    null : Json
    bool : Bool → Json
    number : String → Json
    string : String → Json
    array : Items → Json
    object : Fields → Json

  pub data Items : Type 0 where
    nil : Items
    cons : Json → Items → Items

  pub data Fields : Type 0 where
    end : Fields
    field : String → Json → Fields → Fields

abbrev pub get_field : String → Fields → Option Json
get_field k end = none
get_field k (field j v fs) = if str_eq j k then some v else get_field k fs

-- A key stands once: a write replaces it, or adds it at the end.
abbrev pub set_field : String → Json → Fields → Fields
set_field k v end = field k v end
set_field k v (field j w fs) = if str_eq j k then field j v fs else field j w (set_field k v fs)

-- `->` of JSONB, and `Value::get` by a key.
abbrev pub get : String → Json → Option Json
get k (object fs) = get_field k fs
get k _ = none

abbrev pub is_object : Json → Bool
is_object (object _) = true
is_object _ = false

abbrev pub items : List String → Items
items [] = nil
items (s ∷ ss) = cons (string s) (items ss)

-- `json!(["...", ...])`
abbrev pub strings : List String → Json
strings ss = array (items ss)

abbrev pub has_item : String → Items → Bool
has_item s nil = false
has_item s (cons (string a) xs) = str_eq a s || has_item s xs
has_item s (cons _ xs) = has_item s xs

-- `value @> '["s"]'::jsonb`
abbrev pub contains_string : String → Option Json → Bool
contains_string s (some (array xs)) = has_item s xs
contains_string s _ = false

abbrev pub add_string : String → Option (List String) → Option (List String)
add_string s (some ss) = some (s ∷ ss)
add_string s none = none

abbrev pub item_strings : Items → Option (List String)
item_strings nil = some []
item_strings (cons (string s) xs) = add_string s (item_strings xs)
item_strings (cons _ xs) = none

-- `serde_json::from_value::<Vec<String>>(...).ok()`
abbrev pub as_strings : Json → Option (List String)
as_strings (array xs) = item_strings xs
as_strings _ = none

pub get_field-set_field :
    (k : String) (v : Json) (fs : Fields) → get_field k (set_field k v fs) ≡ some v
get_field-set_field k v end = ground (arith, eq_refl k)
get_field-set_field k v (field j w fs) = ground (arith, get_field-set_field k v fs, eq_iff j k)

pub eq_comm : (p q : String) → str_eq p q ≡ str_eq q p
eq_comm p q = elim (Bool-cases (str_eq p q)) [
  | inl k ↦ let e = (eq_iff p q).0 k in rw e refl
  | inr k ↦ elim (Bool-cases (str_eq q p)) [
    | inr l ↦ rw (k, l) refl
    | inl l ↦ let e = (eq_iff q p).0 l in let t : str_eq p q ≡ true = rw e (eq_refl p) in cc
  ]
]
