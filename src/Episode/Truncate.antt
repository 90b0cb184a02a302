-- ===== src/Episode/Truncate.antt =====
-- `processing_last_error` is cut at a character boundary (db/episodes.rs, `record_processing_failure`).
use project_loom.Common.{
  ℕ, zero, suc, min, ltb→lt, ◌+◌, ◌-◌, ◌≤◌, ◌<◌, ◌≡◌, refl, ap, true, [], ◌∷◌, ◌++◌, arith, leb,
  ltb, Bool-cases, tests, inl, inr,
}
use native.Mathlib.Decide.{dec_le}
use mathlib.Core.List.{append-nil}
use project_loom.Common.Text.{
  Text, len_utf8, len_utf8_bounds, len, is_char_boundary, slice_to, len-slice_to,
  is_char_boundary-zero, is_char_boundary-cons,
}
use project_loom.Episode.Lifecycle.{floor_char_boundary, truncate_error}

-- What `slice_to` leaves off.
slice_rest : Text → ℕ → Text
slice_rest [] i = []
slice_rest (c ∷ s) i = elim (leb (len_utf8 c) i) [
  | true ↦ slice_rest s (i - len_utf8 c)
  | _ ↦ c ∷ s
]

slice_to-append-rest : (s : Text) (i : ℕ) → slice_to s i ++ slice_rest s i ≡ s
unfolding slice_to slice_rest
slice_to-append-rest [] i = refl
slice_to-append-rest (c ∷ s) i = elim (Bool-cases (leb (len_utf8 c) i)) [
  | inl e ↦ rw (e, slice_rest) (ap (λ r. c ∷ r) (slice_to-append-rest s (i - len_utf8 c)))
  | inr e ↦ rw (e, slice_rest) refl
]

floor_char_boundary-is_char_boundary :
    (s : Text) (cut : ℕ) → is_char_boundary s (floor_char_boundary s cut) ≡ true
unfolding floor_char_boundary
floor_char_boundary-is_char_boundary s zero = is_char_boundary-zero s
floor_char_boundary-is_char_boundary s (suc cut) =
    elim (Bool-cases (is_char_boundary s (suc cut))) [
      | inl e ↦ rw e e
      | inr e ↦ rw e (floor_char_boundary-is_char_boundary s cut)
    ]

floor_char_boundary-le : (s : Text) (cut : ℕ) → floor_char_boundary s cut ≤ cut
unfolding floor_char_boundary
floor_char_boundary-le s zero = omega arith
floor_char_boundary-le s (suc cut) = ground (arith, floor_char_boundary-le s cut)

floor_char_boundary_max :
    (s : Text) (cut j : ℕ) → j ≤ cut → is_char_boundary s j ≡ true → j ≤ floor_char_boundary s cut
unfolding floor_char_boundary
floor_char_boundary_max s zero j h b = omega arith
floor_char_boundary_max s (suc cut) j h b = elim (Bool-cases (is_char_boundary s (suc cut))) [
  | inl e ↦ rw e h
  | inr e ↦ rw e (ground (arith, floor_char_boundary_max s cut j))
]

-- A character takes at most four bytes, so a boundary is never far below.
boundary_near :
    (s : Text) (i : ℕ) → i ≤ len s → (j : ℕ) × (j ≤ i) × (i < j + 4) × (is_char_boundary s j ≡ true)
unfolding len
boundary_near [] i h = (0, omega arith, omega arith, is_char_boundary-zero [])
boundary_near (c ∷ s) i h = elim (dec_le (len_utf8 c) i) [
  | yes fits ↦
      let (j, below, near, at) = boundary_near s (i - len_utf8 c) (omega arith) in
      (len_utf8 c + j, omega arith, omega arith, is_char_boundary-cons c s j at)
  | no past ↦ (0, omega arith, omega (arith, len_utf8_bounds c), is_char_boundary-zero (c ∷ s))
]

-- The stored message is a prefix of the error and at most 2000 bytes long, and it is cut, if at
-- all, at 1997 bytes or later.
pub truncate_error_lem :
    (error : Text)
    → (len (truncate_error error) ≤ 2000)
      × ((rest : Text) × (truncate_error error ++ rest ≡ error))
      × (min (len error) 1997 ≤ len (truncate_error error))
unfolding truncate_error
truncate_error_lem error = elim (Bool-cases (ltb 2000 (len error))) [
  | inl long ↦
      let cut : ℕ = floor_char_boundary error 2000 in
      let size = len-slice_to error cut (floor_char_boundary-is_char_boundary error 2000) in
      let (j, below, near, at) = boundary_near error 2000 (omega (tests, long)) in
      rw long (
        omega (arith, size, floor_char_boundary-le error 2000),
        (slice_rest error cut, slice_to-append-rest error cut),
        omega (arith, size, floor_char_boundary_max error 2000 j below at),
      )
  | inr short ↦ rw short (omega (tests, short), ([], append-nil error), omega arith)
]

-- An error that fits is stored whole.
pub truncate_error_short : (error : Text) → len error ≤ 2000 → truncate_error error ≡ error
unfolding truncate_error
truncate_error_short error h = elim (Bool-cases (ltb 2000 (len error))) [
  | inl long ↦ absurd (omega (arith, h, ltb→lt 2000 (len error) long))
  | inr short ↦ rw short refl
]
