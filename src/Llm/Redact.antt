-- ===== src/Llm/Redact.antt =====
-- internal/llm/gemini.go and internal/embed/embed.go: `redact`, which keeps the API key out of the
-- text of an error, and `truncate`.
pub mod Pieces
mod Tests
use ragline.Base.{
  ℕ, zero, suc, ◌-◌, Bool, true, false, ◌||◌, List, [], ◌∷◌, ◌++◌, Option, none, some, Bytes, codes,
  has_prefix, length, take, leb, if◌then◌else◌,
}

-- `strings.Contains`
unfoldable pub contains_text : Bytes → Bytes → Bool
unfolding has_prefix
contains_text [] key = has_prefix [] key
contains_text (c ∷ s) key = has_prefix (c ∷ s) key || contains_text s key

-- `strings.ReplaceAll` for a text that is not empty: the first number counts the bytes that a match has
-- taken already.
unfoldable pub replace_from : ℕ → Bytes → Bytes → Bytes → Bytes
unfolding has_prefix
replace_from skip [] key new = []
replace_from (suc skip) (c ∷ s) key new = replace_from skip s key new
replace_from zero (c ∷ s) key new =
    let behind = new ++ replace_from (length key - 1) s key new in
    let next = c ∷ replace_from zero s key new in if has_prefix (c ∷ s) key then behind else next

abbrev pub replace_all : Bytes → Bytes → Bytes → Bytes
replace_all s key new = replace_from 0 s key new

abbrev pub redacted : Bytes
redacted = codes "REDACTED"

abbrev pub redact_message : Bytes → Bytes → Bytes
redact_message key msg = if contains_text msg key then replace_all msg key redacted else msg

abbrev pub redact_with : Bytes → Bytes → Bytes
redact_with [] msg = msg
redact_with (c ∷ key) msg = redact_message (c ∷ key) msg

-- `redact`, on the text of the error; `none` is no error.
unfoldable pub redact : Bytes → Option Bytes → Option Bytes
unfolding contains_text replace_from
redact key none = none
redact key (some msg) = some (redact_with key msg)

-- `truncate`
unfoldable pub truncate : Bytes → ℕ → Bytes
truncate s n = if leb (length s) n then s else take n s
