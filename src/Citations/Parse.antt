-- ===== src/Citations/Parse.antt =====
-- What `parseCitations` returns: the numbers of the answer's groups, sorted by the source count.
use ragline.Base.{
  ℕ, ◌≡◌, refl, ◌∙◌, Bool, false, not, ◌&&◌, ◌||◌, List, [], ◌∷◌, ◌++◌, Option, none, some, Bytes,
  arith, leb, ◌==◌,
}
use ragline.Citations.{
  Segment, lit, group, segments, numbers, atoi, Tally, no_tally, record_number, record_parsed,
  tally_numbers, tally, contains, parse_citations,
}
use ragline.Citations.Sorting.{Ascending, Distinct, contains-sort_ints, Ascending-sort_ints}

-- The numbers that a list of raw texts spells, in order.
abbrev pub cons_some : Option ℕ → List ℕ → List ℕ
cons_some none ns = ns
cons_some (some n) ns = n ∷ ns

unfoldable pub values : List Bytes → List ℕ
values [] = []
values (raw ∷ rest) = cons_some (atoi raw) (values rest)

-- Every number that the groups of an answer cite, in order, with repetitions.
unfoldable pub cited : List Segment → List ℕ
unfolding values
cited [] = []
cited (lit c ∷ rest) = cited rest
cited (group w ∷ rest) = values (numbers w) ++ cited rest

-- A source that was supplied: 1 ≤ n ≤ sourceCount.
abbrev pub in_range : ℕ → ℕ → Bool
in_range k n = leb 1 n && leb n k

-- The loops as one fold over the numbers.
record_all : ℕ → Tally → List ℕ → Tally
record_all k t [] = t
record_all k t (n ∷ ns) = record_all k (record_number k t n) ns

record_all-append :
    (k : ℕ) (t : Tally) (ms ns : List ℕ)
    → record_all k t (ms ++ ns) ≡ record_all k (record_all k t ms) ns
unfolding record_all
record_all-append k t [] ns = refl
record_all-append k t (m ∷ ms) ns = record_all-append k (record_number k t m) ms ns

record_all-cons_some :
    (k : ℕ) (t : Tally) (o : Option ℕ) (ns : List ℕ)
    → record_all k (record_parsed k t o) ns ≡ record_all k t (cons_some o ns)
unfolding record_all
record_all-cons_some k t none ns = refl
record_all-cons_some k t (some n) ns = refl

tally_numbers-record_all :
    (k : ℕ) (t : Tally) (raws : List Bytes) → tally_numbers k t raws ≡ record_all k t (values raws)
unfolding tally_numbers values
tally_numbers-record_all k t [] = unfold record_all in refl
tally_numbers-record_all k t (raw ∷ rest) =
    tally_numbers-record_all k (record_parsed k t (atoi raw)) rest
    ∙ record_all-cons_some k t (atoi raw) (values rest)

tally-record_all :
    (k : ℕ) (t : Tally) (segs : List Segment) → tally k t segs ≡ record_all k t (cited segs)
unfolding tally cited
tally-record_all k t [] = unfold record_all in refl
tally-record_all k t (lit c ∷ rest) = tally-record_all k t rest
tally-record_all k t (group w ∷ rest) = rw record_all-append (
    rw (← tally_numbers-record_all k t (numbers w))
      (tally-record_all k (tally_numbers k t (numbers w)) rest))

-- The lists hold what the maps mark, no number twice.
record Agrees (t : Tally) : Type 0 where
  used_marked : (n : ℕ) → contains t.used n ≡ t.seen_used n
  unknown_marked : (n : ℕ) → contains t.unknown n ≡ t.seen_unknown n
  used_distinct : Distinct t.used
  unknown_distinct : Distinct t.unknown

pub contains-append :
    (ms ns : List ℕ) (k : ℕ) → contains (ms ++ ns) k ≡ (contains ms k || contains ns k)
unfolding contains
contains-append [] ns k = refl
contains-append (m ∷ ms) ns k = ground (arith, contains-append ms ns k)

contains_one : (n k : ℕ) → contains (n ∷ []) k ≡ (k == n)
unfolding contains
contains_one n k = ground arith

Distinct-append_one :
    (ms : List ℕ) (n : ℕ) → contains ms n ≡ false → Distinct ms → Distinct (ms ++ n ∷ [])
unfolding contains
Distinct-append_one [] n _ _ = (refl, tt)
Distinct-append_one (m ∷ ms) n h (fresh, rest) =
    ground (arith, Distinct-append_one ms n, contains-append ms (n ∷ []) m, contains_one n m)

-- One number more: what the maps mark afterwards.
record_number-seen_used :
    (k : ℕ) (t : Tally) (n j : ℕ)
    → (record_number k t n).seen_used j ≡ (t.seen_used j || (in_range k j && j == n))
unfolding record_number
record_number-seen_used k t n j = ground arith

record_number-seen_unknown :
    (k : ℕ) (t : Tally) (n j : ℕ)
    → (record_number k t n).seen_unknown j ≡ (t.seen_unknown j || (not (in_range k j) && j == n))
unfolding record_number
record_number-seen_unknown k t n j = ground arith

record_number-Agrees : (k : ℕ) (t : Tally) (n : ℕ) → Agrees t → Agrees (record_number k t n)
unfolding record_number
record_number-Agrees k t n a = record {
  used_marked =
      λ j. ground (arith, a.used_marked j, contains-append t.used (n ∷ []) j, contains_one n j);
  unknown_marked = λ j.
      ground (arith, a.unknown_marked j, contains-append t.unknown (n ∷ []) j, contains_one n j);
  used_distinct = ground (arith, Distinct-append_one t.used n, a.used_marked n, a.used_distinct);
  unknown_distinct =
      ground (arith, Distinct-append_one t.unknown n, a.unknown_marked n, a.unknown_distinct);
}

record_all-Agrees : (k : ℕ) (t : Tally) (ns : List ℕ) → Agrees t → Agrees (record_all k t ns)
unfolding record_all
record_all-Agrees k t [] a = a
record_all-Agrees k t (n ∷ ns) a =
    record_all-Agrees k (record_number k t n) ns (record_number-Agrees k t n a)

record_all-seen_used :
    (k : ℕ) (t : Tally) (ns : List ℕ) (j : ℕ)
    → (record_all k t ns).seen_used j ≡ (t.seen_used j || (in_range k j && contains ns j))
unfolding record_all contains
record_all-seen_used k t [] j = ground arith
record_all-seen_used k t (n ∷ ns) j =
    record_all-seen_used k (record_number k t n) ns j
    ∙ ground (arith, record_number-seen_used k t n j)

record_all-seen_unknown :
    (k : ℕ) (t : Tally) (ns : List ℕ) (j : ℕ)
    → (record_all k t ns).seen_unknown j
      ≡ (t.seen_unknown j || (not (in_range k j) && contains ns j))
unfolding record_all contains
record_all-seen_unknown k t [] j = ground arith
record_all-seen_unknown k t (n ∷ ns) j =
    record_all-seen_unknown k (record_number k t n) ns j
    ∙ ground (arith, record_number-seen_unknown k t n j)

no_tally-Agrees : Agrees no_tally
unfolding contains
no_tally-Agrees = record {
  used_marked = λ n. refl;
  unknown_marked = λ n. refl;
  used_distinct = tt;
  unknown_distinct = tt;
}

-- What one run of `parseCitations` has found.
pub record Sorted (k : ℕ) (cites : List ℕ) (r : List ℕ × List ℕ) : Type 0 where
  pub used_members : (n : ℕ) → contains r.0 n ≡ (in_range k n && contains cites n)
  pub unknown_members : (n : ℕ) → contains r.1 n ≡ (not (in_range k n) && contains cites n)
  pub used_ascending : Ascending r.0
  pub unknown_ascending : Ascending r.1

-- `parseCitations` returns two strictly ascending lists: the first holds exactly the numbers that
-- the answer's groups cite and that name a supplied source, the second exactly those that do not.
pub parse_citations-Sorted :
    (answer : Bytes) (k : ℕ) → Sorted k (cited (segments answer)) (parse_citations answer k)
unfolding parse_citations
parse_citations-Sorted answer k =
    let ns = cited (segments answer) in
    rw (tally-record_all k no_tally (segments answer)) (
      let a = record_all-Agrees k no_tally ns no_tally-Agrees in
      record {
        used_members =
            λ n. contains-sort_ints _ n ∙ a.used_marked n ∙ record_all-seen_used k no_tally ns n;
        unknown_members = λ n.
            contains-sort_ints _ n ∙ a.unknown_marked n ∙ record_all-seen_unknown k no_tally ns n;
        used_ascending = Ascending-sort_ints _ a.used_distinct;
        unknown_ascending = Ascending-sort_ints _ a.unknown_distinct;
      })
