-- ===== src/Common/Text.antt =====
-- `&str` as its code points, with the byte lengths of their UTF-8 encoding.
use Prim.Native.Nat.{ℕ, zero, suc, ◌+◌, ◌-◌, ◌/◌, ◌%◌, ◌≤◌}
use Prim.Native.Char.{code}
use Prim.Native.String.{String}
use mathlib.Core.Path.{◌≡◌, refl}
use mathlib.Core.Bool.{Bool, true, false, ◌&&◌, ◌||◌}
use mathlib.Core.List.{List, [], ◌∷◌, ◌++◌, reverse}
use mathlib.Core.Option.{Option, none, some}
use native.Mathlib.Omega.{arith}
use project_loom.Common.Tests.{ltb, leb, ◌==◌, if◌then◌else◌}

abbrev pub Text : Type 0
Text = List ℕ

abbrev pub text : String → Text
text String.[] = []
text (String.◌∷◌ c s) = code c ∷ text s

-- `char::len_utf8`
unfoldable pub len_utf8 : ℕ → ℕ
len_utf8 c = if ltb c 128 then 1 else if ltb c 2048 then 2 else if ltb c 65536 then 3 else 4

-- `str::len`, in bytes
unfoldable pub len : Text → ℕ
len [] = 0
len (c ∷ s) = len_utf8 c + len s

unfoldable pub is_char_boundary : Text → ℕ → Bool
is_char_boundary [] i = i == 0
is_char_boundary (c ∷ s) i =
    let rest = is_char_boundary s (i - len_utf8 c) in i == 0 || (leb (len_utf8 c) i && rest)

-- `&s[..i]`; the program indexes at a boundary only, where this is the slice.
unfoldable pub slice_to : Text → ℕ → Text
slice_to [] i = []
slice_to (c ∷ s) i =
    let rest = slice_to s (i - len_utf8 c) in if leb (len_utf8 c) i then c ∷ rest else []

pub len_utf8_bounds : (c : ℕ) → (1 ≤ len_utf8 c) × (len_utf8 c ≤ 4)
unfolding len_utf8
len_utf8_bounds c = ground arith

pub len-slice_to : (s : Text) (i : ℕ) → is_char_boundary s i ≡ true → len (slice_to s i) ≡ i
unfolding len slice_to is_char_boundary
len-slice_to [] i h = ground arith
len-slice_to (c ∷ s) i h = ground (arith, len_utf8_bounds c, len-slice_to s (i - len_utf8 c))

pub is_char_boundary-zero : (s : Text) → is_char_boundary s 0 ≡ true
unfolding is_char_boundary
is_char_boundary-zero [] = refl
is_char_boundary-zero (c ∷ s) = refl

pub is_char_boundary-cons :
    (c : ℕ) (s : Text) (j : ℕ)
    → is_char_boundary s j ≡ true
    → is_char_boundary (c ∷ s) (len_utf8 c + j) ≡ true
unfolding is_char_boundary
is_char_boundary-cons c s j h =
    let e : len_utf8 c + j - len_utf8 c ≡ j = omega arith in
    rw e (ground (arith, len_utf8_bounds c))

-- `str::starts_with`, and `str::contains` for a text.
abbrev pub starts_with : Text → Text → Bool
starts_with [] s = true
starts_with (p ∷ ps) [] = false
starts_with (p ∷ ps) (c ∷ s) = p == c && starts_with ps s

abbrev pub contains_text : Text → Text → Bool
contains_text p [] = starts_with p []
contains_text p (c ∷ s) = starts_with p (c ∷ s) || contains_text p s

-- `to_string` of a number below 10 to the power of the fuel.
abbrev pub digits : ℕ → ℕ → Text
digits zero n = []
digits (suc f) n =
    let rest = digits f (n / 10) in if ltb n 10 then (48 + n) ∷ [] else rest ++ ((48 + n % 10) ∷ [])

-- `char::is_whitespace`
abbrev pub is_whitespace : ℕ → Bool
is_whitespace c =
    (leb 9 c && leb c 13)
    || (c == 32
        || (c == 133
            || (c == 160
                || (c == 5760
                    || ((leb 8192 c && leb c 8202)
                        || (c == 8232
                            || (c == 8233 || (c == 8239 || (c == 8287 || c == 12288)))))))))

-- `str::trim`
abbrev pub trim_start : Text → Text
trim_start [] = []
trim_start (c ∷ s) = if is_whitespace c then trim_start s else c ∷ s

abbrev pub trim_end : Text → Text
trim_end s = reverse (trim_start (reverse s))

abbrev pub trim : Text → Text
trim s = trim_end (trim_start s)

-- `strip_prefix`
abbrev pub strip_prefix : Text → Text → Option Text
strip_prefix [] s = some s
strip_prefix (p ∷ ps) [] = none
strip_prefix (p ∷ ps) (c ∷ s) = if p == c then strip_prefix ps s else none

-- `strip_suffix`
abbrev pub strip_suffix : Text → Text → Option Text
strip_suffix p s = elim (strip_prefix (reverse p) (reverse s)) [
  | none ↦ none
  | some r ↦ some (reverse r)
]
