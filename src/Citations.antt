-- ===== src/Citations.antt =====
-- internal/chat/chat.go: the citation markers of an answer (`citationRE`, `citationNumberRE`,
-- `parseCitations`, `stripUnknownMarkers`).
pub mod Segments
pub mod Sorting
pub mod Parse
pub mod Groups
pub mod Strip
pub mod Nested
mod Tests
use ragline.Base.{
  ℕ, zero, suc, Bool, true, false, ◌&&◌, ◌||◌, List, [], ◌∷◌, ◌++◌, Option, none, some, Bytes,
  codes, length, is_digit, value, join, ltb, leb, ◌==◌, if◌then◌else◌,
}

-- RE2's `\s` leaves the vertical tab out.
abbrev pub re_space : ℕ → Bool
re_space c = c == 9 || c == 10 || c == 12 || c == 13 || c == 32

-- `citationRE`, \[\s*\d{1,2}(?:\s*,\s*\d{1,2})*\s*\], as the automaton of the expression: before the
-- bracket, before a number, behind one digit, behind two, behind the blanks after a number.
pub data Mode : Type 0 where
  start want one two after : Mode

pub data Next : Type 0 where
  stop accept : Next
  goto : Mode → Next

-- What may stand behind a complete number.
abbrev pub behind_number : ℕ → Next
behind_number c =
    if re_space c
    then goto after
    else if c == b','
    then goto want
    else if c == b']'
    then accept
    else stop

unfoldable pub next : Mode → ℕ → Next
next start c = if c == b'[' then goto want else stop
next want c = if re_space c then goto want else if is_digit c then goto one else stop
next one c = if is_digit c then goto two else behind_number c
next two c = behind_number c
next after c = behind_number c

abbrev pub push : ℕ → Option (Bytes × Bytes) → Option (Bytes × Bytes)
push c none = none
push c (some (w, r)) = some (c ∷ w, r)

-- The match at the front of the text, and what follows it.
unfoldable pub run : Mode → Bytes → Option (Bytes × Bytes)
unfolding next
run m [] = none
run m (c ∷ s) = elim (next m c) [
  | stop ↦ none
  | accept ↦ some (c ∷ [], s)
  | goto m' ↦ push c (run m' s)
]

-- The text cut at the matches of `citationRE`, leftmost first.
pub data Segment : Type 0 where
  lit : ℕ → Segment
  group : Bytes → Segment

unfoldable pub cut : ℕ → Bytes → List Segment
unfolding run
cut zero s = []
cut (suc f) [] = []
cut (suc f) (c ∷ s) = elim (run start (c ∷ s)) [
  | none ↦ lit c ∷ cut f s
  | some (w, r) ↦ group w ∷ cut f r
]

unfoldable pub segments : Bytes → List Segment
unfolding cut
segments s = cut (length s) s

-- `citationNumberRE.FindAllString`: each match is one digit, or two where two stand together.
unfoldable pub numbers : Bytes → List Bytes
numbers [] = []
numbers (c ∷ []) = if is_digit c then (c ∷ []) ∷ [] else []
numbers (c ∷ d ∷ s) =
    let pair = (c ∷ d ∷ []) ∷ numbers s in
    let single = (c ∷ []) ∷ numbers (d ∷ s) in
    let skip = numbers (d ∷ s) in if is_digit c then (if is_digit d then pair else single) else skip

all_digits : Bytes → Bool
all_digits [] = true
all_digits (c ∷ s) = is_digit c && all_digits s

-- `strconv.Atoi` on a text with no sign that is far from overflow.
unfoldable pub atoi : Bytes → Option ℕ
unfolding value all_digits
atoi [] = none
atoi (c ∷ s) = if all_digits (c ∷ s) then some (value 0 (c ∷ s)) else none

-- The loop variables of `parseCitations`; a `map[int]bool` is a function that is false at first.
pub record Tally : Type 0 where
  pub seen_used : ℕ → Bool
  pub seen_unknown : ℕ → Bool
  pub used : List ℕ
  pub unknown : List ℕ

abbrev pub mark : (ℕ → Bool) → ℕ → ℕ → Bool
mark seen n k = if k == n then true else seen k

abbrev pub no_tally : Tally
no_tally = record { seen_used = λ _. false; seen_unknown = λ _. false; used = []; unknown = [] }

-- The body of the loops: the `switch` on one number.
unfoldable pub record_number : ℕ → Tally → ℕ → Tally
record_number source_count t n =
    if leb 1 n && leb n source_count
    then (if t.seen_used n
        then t
        else record t { seen_used = mark t.seen_used n; used = t.used ++ n ∷ [] })
    else if t.seen_unknown n
    then t
    else record t { seen_unknown = mark t.seen_unknown n; unknown = t.unknown ++ n ∷ [] }

-- On an error of `Atoi` the loop continues.
abbrev pub record_parsed : ℕ → Tally → Option ℕ → Tally
record_parsed k t none = t
record_parsed k t (some n) = record_number k t n

unfoldable pub tally_numbers : ℕ → Tally → List Bytes → Tally
unfolding record_number atoi
tally_numbers k t [] = t
tally_numbers k t (raw ∷ rest) = tally_numbers k (record_parsed k t (atoi raw)) rest

-- `FindAllString` visits the groups and passes the text between them by.
unfoldable pub tally : ℕ → Tally → List Segment → Tally
unfolding tally_numbers numbers
tally k t [] = t
tally k t (lit c ∷ rest) = tally k t rest
tally k t (group w ∷ rest) = tally k (tally_numbers k t (numbers w)) rest

-- `sort.Ints`
unfoldable pub insert_int : ℕ → List ℕ → List ℕ
insert_int n [] = n ∷ []
insert_int n (m ∷ ms) = if leb n m then n ∷ m ∷ ms else m ∷ insert_int n ms

unfoldable pub sort_ints : List ℕ → List ℕ
unfolding insert_int
sort_ints [] = []
sort_ints (n ∷ ns) = insert_int n (sort_ints ns)

-- `parseCitations`: the used markers and the unknown ones.
unfoldable pub parse_citations : Bytes → ℕ → List ℕ × List ℕ
unfolding tally segments sort_ints
parse_citations answer source_count =
    let t = tally source_count no_tally (segments answer) in (sort_ints t.used, sort_ints t.unknown)

unfoldable pub contains : List ℕ → ℕ → Bool
contains [] k = false
contains (n ∷ ns) k = k == n || contains ns k

-- The numbers of a group that survive.
unfoldable pub keep : (ℕ → Bool) → List Bytes → List Bytes
unfolding atoi
keep bad [] = []
keep bad (raw ∷ rest) = elim (atoi raw) [
  | none ↦ keep bad rest
  | some n ↦ if bad n then keep bad rest else raw ∷ keep bad rest
]

-- `fmt.Sprintf("[%s]", strings.Join(keep, ", "))`, or nothing.
unfoldable pub print_group : List Bytes → Bytes
unfolding join
print_group [] = []
print_group (raw ∷ rest) = b'[' ∷ (join (raw ∷ rest) (codes ", ") ++ b']' ∷ [])

-- `citationRE.ReplaceAllStringFunc`
unfoldable pub replace : (Bytes → Bytes) → List Segment → Bytes
replace f [] = []
replace f (lit c ∷ rest) = c ∷ replace f rest
replace f (group w ∷ rest) = f w ++ replace f rest

-- The function that `stripUnknownMarkers` replaces a group by.
unfoldable pub rewrite_group : (ℕ → Bool) → Bytes → Bytes
unfolding keep print_group numbers
rewrite_group bad w = print_group (keep bad (numbers w))

unfoldable pub strip_unknown_markers : Bytes → List ℕ → Bytes
unfolding replace rewrite_group segments contains
strip_unknown_markers answer unknown = replace (rewrite_group (contains unknown)) (segments answer)
