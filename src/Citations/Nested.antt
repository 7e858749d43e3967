-- ===== src/Citations/Nested.antt =====
-- Why `stripUnknownMarkers` needs its premise: a marker may take shape when another is removed.
use mathlib.Core.Path.{subst}
use ragline.Base.{
  ℕ, append-nil, ◌≡◌, refl, sym, ap, ap₂, ◌∙◌, Bool, true, false, List, [], ◌∷◌, ◌++◌, some, Bytes,
  arith,
}
use ragline.Citations.{
  run, Segment, lit, group, segments, numbers, atoi, keep, print_group, replace, rewrite_group,
  contains, Tally, no_tally, record_number, record_parsed, tally_numbers, tally, sort_ints,
  parse_citations, strip_unknown_markers,
}
use ragline.Citations.Segments.{text_of, IsCut, segments-text_of}
use ragline.Citations.Parse.{in_range}
use ragline.Citations.Groups.{IsRaw, numbers-print_group, run-print_group}

-- The marker [u] inside the marker [v].
abbrev pub nested : Bytes → Bytes → Bytes
nested u v = b'[' ∷ ((b'[' ∷ (u ++ b']' ∷ [])) ++ (v ++ b']' ∷ []))

abbrev lits : Bytes → List Segment
lits [] = []
lits (c ∷ s) = lit c ∷ lits s

text_of-lits : (s : Bytes) → text_of (lits s) ≡ s
text_of-lits [] = refl
text_of-lits (c ∷ s) = ap (λ t. c ∷ t) (text_of-lits s)

lits-IsCut : (v : Bytes) → IsRaw v → IsCut (lits (v ++ b']' ∷ []))
unfolding run
lits-IsCut [] h = absurd h
lits-IsCut (c ∷ []) h = ground arith
lits-IsCut (c ∷ d ∷ []) h = ground arith
lits-IsCut (c ∷ d ∷ e ∷ s) h = absurd h

abbrev nested_segments : Bytes → Bytes → List Segment
nested_segments u v = lit b'[' ∷ group (print_group (u ∷ [])) ∷ lits (v ++ b']' ∷ [])

segments-nested : (u v : Bytes) → IsRaw u → IsRaw v → segments (nested u v) ≡ nested_segments u v
unfolding print_group run
segments-nested u v hu hv =
    let segs = nested_segments u v in
    subst (λ t. segments (b'[' ∷ (print_group (u ∷ []) ++ t)) ≡ segs)
      (text_of-lits (v ++ b']' ∷ []))
      (segments-text_of segs (refl, (run-print_group u [] _ (hu, tt), lits-IsCut v hv)))

segments-print_group :
    (v : Bytes) → IsRaw v → segments (print_group (v ∷ [])) ≡ group (print_group (v ∷ [])) ∷ []
segments-print_group v hv =
    subst (λ t. segments t ≡ group (print_group (v ∷ [])) ∷ []) (append-nil (print_group (v ∷ [])))
      (segments-text_of (group (print_group (v ∷ [])) ∷ []) (run-print_group v [] [] (hv, tt), tt))

tally-lits : (k : ℕ) (t : Tally) (s : Bytes) → tally k t (lits s) ≡ t
unfolding tally
tally-lits k t [] = refl
tally-lits k t (c ∷ s) = tally-lits k t s

replace-lits : (f : Bytes → Bytes) (s : Bytes) → replace f (lits s) ≡ s
unfolding replace
replace-lits f [] = refl
replace-lits f (c ∷ s) = ap (λ t. c ∷ t) (replace-lits f s)

tally-group :
    (k : ℕ) (t : Tally) (w : Bytes) (rest : List Segment)
    → tally k t (group w ∷ rest) ≡ tally k (tally_numbers k t (numbers w)) rest
unfolding tally
tally-group k t w rest = refl

tally_numbers_one :
    (k : ℕ) (t : Tally) (raw : Bytes) → tally_numbers k t (raw ∷ []) ≡ record_parsed k t (atoi raw)
unfolding tally_numbers
tally_numbers_one k t raw = refl

keep_one :
    (bad : ℕ → Bool) (raw : Bytes) (n : ℕ)
    → atoi raw ≡ some n
    → bad n ≡ true
    → keep bad (raw ∷ []) ≡ []
unfolding keep
keep_one bad raw n e h = ground arith

contains_self : (n : ℕ) → contains (n ∷ []) n ≡ true
unfolding contains
contains_self n = ground arith

strip-replace :
    (answer : Bytes) (unknown : List ℕ)
    → strip_unknown_markers answer unknown
      ≡ replace (rewrite_group (contains unknown)) (segments answer)
unfolding strip_unknown_markers
strip-replace answer unknown = refl

module _ (k : ℕ) (u : Bytes) (n : ℕ) (raw : IsRaw u) (is_n : atoi u ≡ some n) where
  -- One group that holds the number `n` alone, and literal bytes.
  tally_one :
      (s : Bytes)
      → tally k no_tally (group (print_group (u ∷ [])) ∷ lits s) ≡ record_number k no_tally n
  tally_one s =
      rw (tally-group, numbers-print_group (u ∷ []) (raw, tt), tally_numbers_one, is_n)
        (tally-lits k (record_number k no_tally n) s)

  rewrite_one : rewrite_group (contains (n ∷ [])) (print_group (u ∷ [])) ≡ []
  unfolding rewrite_group
  rewrite_one =
      rw (numbers-print_group (u ∷ []) (raw, tt))
        (rw (keep_one (contains (n ∷ [])) u n is_n (contains_self n)) refl)

-- The lists that a record of one number, out of range, gives.
record_unknown :
    (k n : ℕ)
    → in_range k n ≡ false
    → (sort_ints (record_number k no_tally n).used ≡ [])
      × (sort_ints (record_number k no_tally n).unknown ≡ n ∷ [])
unfolding record_number sort_ints
record_unknown k n h = (ground arith, ground arith)

parse-tally :
    (answer : Bytes) (k : ℕ) (t : Tally)
    → tally k no_tally (segments answer) ≡ t
    → parse_citations answer k ≡ (sort_ints t.used, sort_ints t.unknown)
unfolding parse_citations
parse-tally answer k t e = ap (λ (x : Tally). (sort_ints x.used, sort_ints x.unknown)) e

tally-lit :
    (k : ℕ) (t : Tally) (c : ℕ) (rest : List Segment) → tally k t (lit c ∷ rest) ≡ tally k t rest
unfolding tally
tally-lit k t c rest = refl

replace-nested :
    (f : Bytes → Bytes) (u v : Bytes)
    → replace f (nested_segments u v) ≡ b'[' ∷ (f (print_group (u ∷ [])) ++ (v ++ b']' ∷ []))
unfolding replace
replace-nested f u v =
    ap (λ t. b'[' ∷ (f (print_group (u ∷ [])) ++ t)) (replace-lits f (v ++ b']' ∷ []))

print_one : (v : Bytes) → b'[' ∷ (v ++ b']' ∷ []) ≡ print_group (v ∷ [])
unfolding print_group
print_one v = refl

unknown_pair :
    (k n : ℕ)
    → in_range k n ≡ false
    → ◌≡◌ {A = List ℕ × List ℕ}
        (
          sort_ints (record_number k no_tally n).used,
          sort_ints (record_number k no_tally n).unknown,
        )
        ([], n ∷ [])
unknown_pair k n h =
    let (used, unknown) = record_unknown k n h in ap₂ (λ (xs ys : List ℕ). (xs, ys)) used unknown

module _ (k : ℕ) (u : Bytes) (n : ℕ) (raw : IsRaw u) (is_n : atoi u ≡ some n) where
  parse-nested :
      (v : Bytes) → IsRaw v → in_range k n ≡ false → parse_citations (nested u v) k ≡ ([], n ∷ [])
  parse-nested v raw_v no_n =
      parse-tally (nested u v) k (record_number k no_tally n)
        (rw (segments-nested u v raw raw_v, tally-lit) (tally_one k u n raw is_n (v ++ b']' ∷ [])))
      ∙ unknown_pair k n no_n

  parse-print_one : in_range k n ≡ false → parse_citations (print_group (u ∷ [])) k ≡ ([], n ∷ [])
  parse-print_one no_n =
      parse-tally (print_group (u ∷ [])) k (record_number k no_tally n)
        (rw (segments-print_group u raw) (tally_one k u n raw is_n []))
      ∙ unknown_pair k n no_n

  strip-nested :
      (v : Bytes) → IsRaw v → strip_unknown_markers (nested u v) (n ∷ []) ≡ print_group (v ∷ [])
  strip-nested v raw_v =
      rw (strip-replace, segments-nested u v raw raw_v, replace-nested, rewrite_one k u n raw is_n)
        (print_one v)

-- In the text [[u]v], with two numbers `n` and `m` of one or two digits that name no source, only
-- `n` is found unknown; the stripped text is [v], in which the unknown marker `m` has taken shape.
pub nested_marker_survives :
    (k : ℕ) (u v : Bytes) (n m : ℕ)
    → IsRaw u
    → IsRaw v
    → atoi u ≡ some n
    → atoi v ≡ some m
    → in_range k n ≡ false
    → in_range k m ≡ false
    → (parse_citations (nested u v) k ≡ ([], n ∷ []))
      × (strip_unknown_markers (nested u v) (n ∷ []) ≡ b'[' ∷ (v ++ b']' ∷ []))
      × (parse_citations (b'[' ∷ (v ++ b']' ∷ [])) k ≡ ([], m ∷ []))
nested_marker_survives k u v n m raw_u raw_v is_n is_m no_n no_m = (
  parse-nested k u n raw_u is_n v raw_v no_n,
  strip-nested k u n raw_u is_n v raw_v ∙ sym (print_one v),
  ap (λ t. parse_citations t k) (print_one v) ∙ parse-print_one k v m raw_v is_m no_m,
)
