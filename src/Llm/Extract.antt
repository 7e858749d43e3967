-- ===== src/Llm/Extract.antt =====
-- internal/llm/gemini.go: `ExtractJSON`.
pub mod Values
mod Tests
use ragline.Base.{
  ℕ, zero, suc, ◌-◌, Bool, true, false, not, ◌&&◌, ◌||◌, [], ◌∷◌, Option, none, some, Bytes, codes,
  length, drop, has_prefix, trim_space, ◌==◌, if◌then◌else◌,
}

abbrev pub backslash : ℕ
backslash = 92

abbrev pub quote : ℕ
quote = 34

abbrev pub before : ℕ → Option (Bytes × Bytes) → Option (Bytes × Bytes)
before c none = none
before c (some (p, r)) = some (c ∷ p, r)

-- `strings.Index` and the two slices at its result: what stands before the first occurrence of
-- `sep`, and what stands behind it.
unfoldable pub cut_first : Bytes → Bytes → Option (Bytes × Bytes)
cut_first sep [] = if has_prefix [] sep then some ([], []) else none
cut_first sep (c ∷ s) =
    let later = before c (cut_first sep s) in
    if has_prefix (c ∷ s) sep then some ([], drop (length sep) (c ∷ s)) else later

abbrev pub fence : Bytes
fence = b'`' ∷ b'`' ∷ b'`' ∷ []

-- Behind the rest of the fence's own line, if there is a line behind it.
unfoldable pub after_newline : Bytes → Bytes
unfolding cut_first
after_newline rest = elim (cut_first (10 ∷ []) rest) [ none ↦ rest | some (line, r) ↦ r ]

-- The inside of the first code fence, or the text as it is.
unfoldable pub unfence : Bytes → Bytes
unfolding after_newline
unfence s = elim (cut_first fence s) [
  | none ↦ s
  | some (p, rest) ↦ elim (cut_first fence (after_newline rest)) [
    | none ↦ s
    | some (inside, r) ↦ trim_space inside
  ]
]

-- `s[strings.IndexAny(s, "{["):]`
unfoldable pub from_open : Bytes → Option (ℕ × Bytes)
from_open [] = none
from_open (c ∷ s) = if c == b'{' || c == b'[' then some (c, s) else from_open s

abbrev pub closing : ℕ → ℕ
closing open_ch = if open_ch == b'[' then b']' else b'}'

-- The loop's variables.
pub record Scan : Type 0 where
  pub depth : ℕ
  pub in_str : Bool
  pub escaped : Bool

-- The `switch` on one byte; `none` is the return. The depth is 1 at least wherever a closing byte
-- is met, since the scan begins at an opening one.
unfoldable pub scan_step : ℕ → Scan → ℕ → Option Scan
scan_step open_ch st ch =
    if st.escaped
    then some (record st { escaped = false })
    else if ch == backslash && st.in_str
    then some (record st { escaped = true })
    else if ch == quote
    then some (record st { in_str = not st.in_str })
    else if st.in_str
    then some st
    else if ch == open_ch
    then some (record st { depth = suc st.depth })
    else if ch == closing open_ch
    then (if st.depth - 1 == 0 then none else some (record st { depth = st.depth - 1 }))
    else some st

abbrev pub consed : ℕ → Option Bytes → Option Bytes
consed c none = none
consed c (some s) = some (c ∷ s)

-- The bytes up to the one at which the loop returns.
unfoldable pub scan : ℕ → Scan → Bytes → Option Bytes
unfolding scan_step
scan open_ch st [] = none
scan open_ch st (ch ∷ s) = elim (scan_step open_ch st ch) [
  | none ↦ some (ch ∷ [])
  | some st' ↦ consed ch (scan open_ch st' s)
]

abbrev pub scan_start : Scan
scan_start = record { depth = 0; in_str = false; escaped = false }

unfoldable pub extract_json : Bytes → Option Bytes
unfolding unfence from_open scan trim_space
extract_json s = elim (from_open (unfence (trim_space s))) [
  | none ↦ none
  | some (open_ch, r) ↦ scan open_ch scan_start (open_ch ∷ r)
]
