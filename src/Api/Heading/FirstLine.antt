-- ===== src/Api/Heading/FirstLine.antt =====
-- The title that `firstHeading` gives a text is found in its first line.
use ragline.Base.{
  ℕ, ◌≡◌, refl, Bool, true, false, not, List, [], ◌∷◌, Bytes, codes, ◌==◌, arith, has_prefix,
  is_space, trim_space, trim_left_func, trim_right_func, if◌then◌else◌, Bool-cases, ◌⊎◌, inl, inr,
}
use ragline.Api.Heading.{
  split, cons_first, first_of, heading_text, line_text, is_blank, heading_loop, first_heading,
}

-- A text that begins with a byte that is no space.
abbrev begins_with_text : Bytes → Bool
begins_with_text [] = false
begins_with_text (c ∷ s) = not (is_space c)

trim_left_func-begins :
    (s : Bytes)
    → (is_blank (trim_left_func is_space s) ≡ true)
      ⊎ (begins_with_text (trim_left_func is_space s) ≡ true)
unfolding trim_left_func
trim_left_func-begins [] = inl refl
trim_left_func-begins (c ∷ s) = elim (Bool-cases (is_space c)) [
  | inl space ↦ rw space (trim_left_func-begins s)
  | inr text ↦ rw text (inr (rw text refl))
]

-- What `TrimRight` leaves of a text that begins with no space begins with that byte.
trim_right_func-begins :
    (s : Bytes) → begins_with_text s ≡ true → begins_with_text (trim_right_func is_space s) ≡ true
unfolding trim_right_func
trim_right_func-begins [] h = cc
trim_right_func-begins (c ∷ s) h = ground arith

is_blank-trim_right : (s : Bytes) → is_blank s ≡ true → is_blank (trim_right_func is_space s) ≡ true
unfolding trim_right_func
is_blank-trim_right [] h = refl
is_blank-trim_right (c ∷ s) h = cc

trim_space-begins :
    (s : Bytes) → is_blank (trim_space s) ≡ false → begins_with_text (trim_space s) ≡ true
unfolding trim_space
trim_space-begins s h = elim (trim_left_func-begins s) [
  | inl none_left ↦ absurd (let b = is_blank-trim_right (trim_left_func is_space s) none_left in cc)
  | inr text ↦ trim_right_func-begins (trim_left_func is_space s) text
]

first_of-cons_first :
    (c : ℕ) (ps : List Bytes)
    → not (is_space c) ≡ true
    → begins_with_text (first_of (cons_first c ps)) ≡ true
first_of-cons_first c [] h = h
first_of-cons_first c (p ∷ ps) h = h

split-begins :
    (s : Bytes) → begins_with_text s ≡ true → begins_with_text (first_of (split b'\n' s)) ≡ true
unfolding split
split-begins [] h = cc
split-begins (c ∷ s) h = elim (Bool-cases (c == b'\n')) [
  | inl newline ↦ ground arith
  | inr text ↦ rw text (first_of-cons_first c (split b'\n' s) h)
]

-- The title that the loop gives a line with text.
abbrev pub title_of_line : Bytes → Bytes
title_of_line line = if has_prefix line (codes "#") then heading_text line else line_text line

heading_loop-first :
    (lines : List Bytes)
    → is_blank (trim_space (first_of lines)) ≡ false
    → heading_loop lines ≡ title_of_line (trim_space (first_of lines))
unfolding heading_loop
heading_loop-first [] h = absurd cc
heading_loop-first (raw ∷ lines) h = rw h refl

is_blank-begins : (s : Bytes) → begins_with_text s ≡ true → is_blank s ≡ false
is_blank-begins [] h = cc
is_blank-begins (c ∷ s) h = refl

-- `TrimSpace` leaves text where the first byte is text.
trim_space-text : (s : Bytes) → begins_with_text s ≡ true → is_blank (trim_space s) ≡ false
unfolding trim_space
trim_space-text [] h = cc
trim_space-text (c ∷ s) h =
    let same : trim_left_func is_space (c ∷ s) ≡ c ∷ s = unfold trim_left_func in ground arith in
    rw same (is_blank-begins (trim_right_func is_space (c ∷ s)) (trim_right_func-begins (c ∷ s) h))

-- The title of an upload that names none and is not blank is made of its first line alone: the text
-- behind the `#` of a heading, or at most 80 bytes of the line. Headings further down are not seen,
-- and the name for a text without lines is never given.
pub first_heading-first_line :
    (content : Bytes)
    → is_blank (trim_space content) ≡ false
    → first_heading (trim_space content)
      ≡ title_of_line (trim_space (first_of (split b'\n' (trim_space content))))
unfolding first_heading
first_heading-first_line content h =
    let text = trim_space content in
    heading_loop-first (split b'\n' text) (
      trim_space-text (first_of (split b'\n' text))
        (split-begins text (trim_space-begins content h)))
