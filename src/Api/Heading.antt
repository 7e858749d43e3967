-- ===== src/Api/Heading.antt =====
-- internal/api/server.go: `firstHeading`, and the parts of Go's `strings` and `path` that give a
-- document its title.
pub mod FirstLine
use ragline.Base.{
  ℕ, zero, suc, ◌≡◌, ◌≢◌, refl, Bool, true, false, not, ◌&&◌, ◌||◌, List, [], ◌∷◌, ◌++◌, Bytes,
  codes, ltb, ◌==◌, length, take, arith, has_prefix, is_space, trim_space, trim_left_func,
  trim_right_func, if◌then◌else◌, Bool-cases, inl, inr,
}

abbrev pub cons_first : ℕ → List Bytes → List Bytes
cons_first c [] = (c ∷ []) ∷ []
cons_first c (p ∷ ps) = (c ∷ p) ∷ ps

-- `strings.Split` at a separator of one byte.
unfoldable pub split : ℕ → Bytes → List Bytes
split sep [] = [] ∷ []
split sep (c ∷ s) = let rest = split sep s in if c == sep then [] ∷ rest else cons_first c rest

-- `strings.Split(s, sep)[0]`
abbrev pub first_of : List Bytes → Bytes
first_of [] = []
first_of (p ∷ ps) = p

-- The cutset "# ".
abbrev pub is_hash_or_space : ℕ → Bool
is_hash_or_space c = c == b'#' || c == b' '

abbrev pub is_blank : Bytes → Bool
is_blank [] = true
is_blank (c ∷ s) = false

-- A line that is a heading, or the first one with text, as a title.
abbrev pub heading_text : Bytes → Bytes
heading_text line = trim_space (trim_left_func is_hash_or_space line)

abbrev pub line_text : Bytes → Bytes
line_text line = if ltb 80 (length line) then take 80 line else line

-- The loop of `firstHeading`.
unfoldable pub heading_loop : List Bytes → Bytes
unfolding trim_space has_prefix trim_left_func
heading_loop [] = codes "untitled"
heading_loop (raw ∷ lines) =
    let rest = heading_loop lines in
    let line = trim_space raw in
    if has_prefix line (codes "#")
    then heading_text line
    else if is_blank line
    then rest
    else line_text line

-- `firstHeading`
unfoldable pub first_heading : Bytes → Bytes
unfolding split heading_loop
first_heading content = heading_loop (split b'\n' content)

-- `path.Base`: the last element, without trailing slashes.
abbrev pub is_slash : ℕ → Bool
is_slash c = c == b'/'

abbrev pub is_last_element : Bytes → Bool
is_last_element [] = true
is_last_element (c ∷ s) = not (is_slash c) && is_last_element s

unfoldable pub last_element : Bytes → Bytes
last_element [] = []
last_element (c ∷ s) =
    let rest = last_element s in
    if is_slash c
    then (if is_last_element s then s else rest)
    else (if is_last_element s then c ∷ s else rest)

unfoldable pub path_base : Bytes → Bytes
unfolding trim_right_func last_element
path_base [] = codes "."
path_base (c ∷ s) = elim (last_element (trim_right_func is_slash (c ∷ s))) [
  | [] ↦ codes "/"
  | d ∷ t ↦ d ∷ t
]
