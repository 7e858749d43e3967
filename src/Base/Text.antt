-- ===== src/Base/Text.antt =====
-- Text as a list of bytes, with the parts of Go's `strings` and `strconv` that the code calls.
-- White space, digits and case are those of ASCII; a byte from 128 on is an ordinary letter.
use Prim.Native.Nat.{ℕ, zero, suc, ◌+◌, ◌-◌, ◌*◌, ◌/◌, ◌%◌}
use Prim.Native.Char.{code}
use Prim.Native.String.{String}
use mathlib.Core.Path.{◌≡◌, refl}
use native.Mathlib.Omega.{arith}
use mathlib.Core.Bool.{Bool, true, false, not, ◌&&◌, ◌||◌}
use mathlib.Core.List.{List, [], ◌∷◌, ◌++◌}
use ragline.Base.Tests.{leb, ltb, ◌==◌, if◌then◌else◌}

abbrev pub Bytes : Type 0
Bytes = List ℕ

-- The code points of a literal: its bytes, if it is ASCII.
abbrev pub codes : String → Bytes
codes String.[] = []
codes (String.◌∷◌ c s) = code c ∷ codes s

abbrev pub is_digit : ℕ → Bool
is_digit c = leb b'0' c && leb c b'9'

-- `unicode.IsSpace` on ASCII: tab, newline, vertical tab, form feed, carriage return, space.
abbrev pub is_space : ℕ → Bool
is_space c = (leb 9 c && leb c 13) || c == 32

-- `strings.TrimLeftFunc`
unfoldable pub trim_left_func : (ℕ → Bool) → Bytes → Bytes
trim_left_func f [] = []
trim_left_func f (c ∷ s) = let rest = trim_left_func f s in if f c then rest else c ∷ s

-- `strings.TrimRightFunc`
unfoldable pub trim_right_func : (ℕ → Bool) → Bytes → Bytes
trim_right_func f [] = []
trim_right_func f (c ∷ s) = elim (trim_right_func f s) [
  | [] ↦ if f c then [] else c ∷ []
  | d ∷ t ↦ c ∷ d ∷ t
]

-- `strings.TrimSpace`
unfoldable pub trim_space : Bytes → Bytes
unfolding trim_left_func trim_right_func
trim_space s = trim_right_func is_space (trim_left_func is_space s)

-- `strings.HasPrefix`
unfoldable pub has_prefix : Bytes → Bytes → Bool
has_prefix s [] = true
has_prefix [] (p ∷ ps) = false
has_prefix (c ∷ s) (p ∷ ps) = c == p && has_prefix s ps

-- `strings.Join`
unfoldable pub join : List Bytes → Bytes → Bytes
join [] sep = []
join (p ∷ []) sep = p
join (p ∷ q ∷ ps) sep = p ++ (sep ++ join (q ∷ ps) sep)

-- Equality of two texts.
unfoldable pub bytes_eq : Bytes → Bytes → Bool
bytes_eq [] [] = true
bytes_eq [] (c ∷ s) = false
bytes_eq (c ∷ s) [] = false
bytes_eq (c ∷ s) (d ∷ t) = c == d && bytes_eq s t

pub bytes_eq_refl : (s : Bytes) → bytes_eq s s ≡ true
unfolding bytes_eq
bytes_eq_refl [] = refl
bytes_eq_refl (c ∷ s) = ground (arith, bytes_eq_refl s)

pub bytes_eq→eq : (s t : Bytes) → bytes_eq s t ≡ true → s ≡ t
unfolding bytes_eq
bytes_eq→eq [] [] h = refl
bytes_eq→eq [] (d ∷ t) h = cc
bytes_eq→eq (c ∷ s) [] h = cc
bytes_eq→eq (c ∷ s) (d ∷ t) h = ground (arith, bytes_eq→eq s t)

pub bytes_eq_sym : (s t : Bytes) → bytes_eq s t ≡ bytes_eq t s
unfolding bytes_eq
bytes_eq_sym [] [] = refl
bytes_eq_sym [] (d ∷ t) = refl
bytes_eq_sym (c ∷ s) [] = refl
bytes_eq_sym (c ∷ s) (d ∷ t) = ground (arith, bytes_eq_sym s t)

-- The number that a run of digits spells behind `n`.
unfoldable pub value : ℕ → Bytes → ℕ
value n [] = n
value n (c ∷ s) = value (n * 10 + (c - b'0')) s

-- `strings.ToLower`
unfoldable pub lower_byte : ℕ → ℕ
lower_byte c = if leb b'A' c && leb c b'Z' then c + 32 else c

unfoldable pub lower : Bytes → Bytes
unfolding lower_byte
lower [] = []
lower (c ∷ s) = lower_byte c ∷ lower s

-- `strconv.Itoa` of a number that is not negative; a number has at most as many digits as units.
unfoldable pub digits_of : ℕ → ℕ → Bytes → Bytes
digits_of zero n out = out
digits_of (suc f) n out =
    let more = digits_of f (n / 10) ((b'0' + n % 10) ∷ out) in
    if ltb n 10 then (b'0' + n % 10) ∷ out else more

unfoldable pub itoa : ℕ → Bytes
unfolding digits_of
itoa n = digits_of (n + 1) n []

abbrev begins : Bytes → Bool
begins [] = false
begins (c ∷ s) = not (is_space c)

abbrev cons_head : ℕ → List Bytes → List Bytes
cons_head c [] = (c ∷ []) ∷ []
cons_head c (w ∷ ws) = (c ∷ w) ∷ ws

-- `strings.Fields`
unfoldable pub fields : Bytes → List Bytes
fields [] = []
fields (c ∷ s) =
    let rest = fields s in
    if is_space c then rest else if begins s then cons_head c rest else (c ∷ []) ∷ rest

-- `unicode.IsPunct` on ASCII.
unfoldable pub is_punct : ℕ → Bool
is_punct c =
    (leb 33 c && leb c 35)
    || (leb 37 c && leb c 42)
    || (leb 44 c && leb c 47)
    || c == 58
    || c == 59
    || c == 63
    || c == 64
    || (leb 91 c && leb c 93)
    || c == 95
    || c == 123
    || c == 125
