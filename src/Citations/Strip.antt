-- ===== src/Citations/Strip.antt =====
-- An answer whose unknown markers were stripped, read again.
use ragline.Base.{
  ℕ, ◌≡◌, refl, ap, ap₂, ◌∙◌, Bool, true, false, not, ◌&&◌, List, [], ◌∷◌, ◌++◌, Option, none, some,
  Bytes, arith,
}
use ragline.Citations.{
  Mode, start, Next, stop, accept, goto, next, push, run, Segment, lit, group, segments, numbers,
  keep, print_group, replace, rewrite_group, contains, parse_citations, strip_unknown_markers,
}
use ragline.Citations.Segments.{text_of, IsCut, segments-text_of}
use ragline.Citations.Sorting.{Ascending-unique}
use ragline.Citations.Parse.{values, cited, contains-append, Sorted, parse_citations-Sorted}
use ragline.Citations.Groups.{
  AllRaw, numbers-AllRaw, keep-AllRaw, contains-values-keep, run-print_group, numbers-print_group,
}

-- The automaton stops within the literal bytes that come first, before it meets a group.
unfoldable pub stops : Mode → List Segment → Bool
unfolding next
stops m [] = true
stops m (group w ∷ rest) = false
stops m (lit c ∷ rest) = elim (next m c) [ stop ↦ true | accept ↦ false | goto m' ↦ stops m' rest ]

-- No bracket between the groups is left open: whatever stands for the groups, no match can begin at
-- a literal byte. Prose such as "[see below]" and "[1234]" is plain, "[[7]2]" is not.
unfoldable pub is_plain : List Segment → Bool
unfolding stops
is_plain [] = true
is_plain (lit c ∷ rest) = stops start (lit c ∷ rest) && is_plain rest
is_plain (group w ∷ rest) = is_plain rest

abbrev IsPlain : List Segment → Type 0
IsPlain [] = Unit
IsPlain (lit c ∷ rest) = (stops start (lit c ∷ rest) ≡ true) × IsPlain rest
IsPlain (group w ∷ rest) = IsPlain rest

is_plain→IsPlain : (segs : List Segment) → is_plain segs ≡ true → IsPlain segs
unfolding is_plain
is_plain→IsPlain [] h = tt
is_plain→IsPlain (lit c ∷ rest) h =
    let (first, others) = both _ _ h in (first, is_plain→IsPlain rest others)
  where
    both : (a b : Bool) → (a && b) ≡ true → (a ≡ true) × (b ≡ true)
    both a b e = ground arith
is_plain→IsPlain (group w ∷ rest) h = is_plain→IsPlain rest h

module _ (bad : ℕ → Bool) where
  -- The segments of the stripped text: groups with nothing left are gone.
  abbrev pub put_group : List Bytes → List Segment → List Segment
  put_group [] rest = rest
  put_group (raw ∷ raws) rest = group (print_group (raw ∷ raws)) ∷ rest

  pub rewrite : List Segment → List Segment
  rewrite [] = []
  rewrite (lit c ∷ rest) = lit c ∷ rewrite rest
  rewrite (group w ∷ rest) = put_group (keep bad (numbers w)) (rewrite rest)

  text_of-put_group :
      (raws : List Bytes) (rest : List Segment)
      → text_of (put_group raws rest) ≡ print_group raws ++ text_of rest
  text_of-put_group [] rest = unfold print_group in refl
  text_of-put_group (raw ∷ raws) rest = refl

  pub text_of-rewrite :
      (segs : List Segment) → text_of (rewrite segs) ≡ replace (rewrite_group bad) segs
  unfolding rewrite replace rewrite_group
  text_of-rewrite [] = refl
  text_of-rewrite (lit c ∷ rest) = ap (λ t. c ∷ t) (text_of-rewrite rest)
  text_of-rewrite (group w ∷ rest) =
      text_of-put_group (keep bad (numbers w)) (rewrite rest)
      ∙ ap (λ t. print_group (keep bad (numbers w)) ++ t) (text_of-rewrite rest)

  -- Literal bytes at which no match began are left as they were.
  stops-run :
      (m : Mode) (segs : List Segment) → stops m segs ≡ true → run m (text_of (rewrite segs)) ≡ none
  unfolding stops rewrite run
  stops-run m [] h = refl
  stops-run m (group w ∷ rest) h = cc
  stops-run m (lit c ∷ rest) h = go (next m c) h (λ m'. stops-run m' rest)
    where
      go :
          (x : Next)
          → (elim x [ stop ↦ true | accept ↦ false | goto m' ↦ stops m' rest ]) ≡ true
          → ((m' : Mode) → stops m' rest ≡ true → run m' (text_of (rewrite rest)) ≡ none)
          → ◌≡◌ {A = Option (Bytes × Bytes)}
              (elim x [
                | stop ↦ none
                | accept ↦ some (c ∷ [], text_of (rewrite rest))
                | goto m' ↦ push c (run m' (text_of (rewrite rest)))
              ])
              none
      go stop _ ih = refl
      go accept e ih = cc
      go (goto m') e ih = rw (ih m' e)

  put_group-IsCut :
      (raws : List Bytes) (rest : List Segment)
      → AllRaw raws
      → IsCut rest
      → IsCut (put_group raws rest)
  put_group-IsCut [] rest h k = k
  put_group-IsCut (raw ∷ raws) rest h k = (run-print_group raw raws (text_of rest) h, k)

  rewrite-IsCut : (segs : List Segment) → IsPlain segs → IsCut (rewrite segs)
  unfolding rewrite
  rewrite-IsCut [] h = tt
  rewrite-IsCut (lit c ∷ rest) (h, hs) = (stops-run start (lit c ∷ rest) h, rewrite-IsCut rest hs)
  rewrite-IsCut (group w ∷ rest) h =
      put_group-IsCut (keep bad (numbers w)) (rewrite rest)
        (keep-AllRaw bad (numbers w) (numbers-AllRaw w)) (rewrite-IsCut rest h)

  cited-put_group :
      (raws : List Bytes) (rest : List Segment)
      → AllRaw raws
      → cited (put_group raws rest) ≡ values raws ++ cited rest
  unfolding cited
  cited-put_group [] rest h = refl
  cited-put_group (raw ∷ raws) rest h = rw (numbers-print_group (raw ∷ raws) h)

  -- What is cited after the rewriting is what was cited and is not bad.
  pub contains-cited-rewrite :
      (segs : List Segment) (n : ℕ)
      → contains (cited (rewrite segs)) n ≡ (contains (cited segs) n && not (bad n))
  unfolding rewrite cited
  contains-cited-rewrite [] n = unfold contains in refl
  contains-cited-rewrite (lit c ∷ rest) n = contains-cited-rewrite rest n
  contains-cited-rewrite (group w ∷ rest) n =
      rw
        (cited-put_group (keep bad (numbers w)) (rewrite rest)
          (keep-AllRaw bad (numbers w) (numbers-AllRaw w)))
        (rw (contains-append (values (keep bad (numbers w))) (cited (rewrite rest)) n) (
          ground (
            arith,
            contains-append (values (numbers w)) (cited rest) n,
            contains-values-keep bad (numbers w) n,
            contains-cited-rewrite rest n,
          )))

segments-strip :
    (answer : Bytes) (unknown : List ℕ)
    → IsPlain (segments answer)
    → segments (strip_unknown_markers answer unknown) ≡ rewrite (contains unknown) (segments answer)
unfolding strip_unknown_markers
segments-strip answer unknown h = rw (← text_of-rewrite (contains unknown) (segments answer)) (
    segments-text_of (rewrite (contains unknown) (segments answer))
      (rewrite-IsCut (contains unknown) (segments answer) h))

no_members : (xs : List ℕ) → ((n : ℕ) → contains xs n ≡ false) → xs ≡ []
unfolding contains
no_members [] h = refl
no_members (x ∷ xs) h = ground (arith, h x)

module _ (answer : Bytes) (k : ℕ) (plain : IsPlain (segments answer)) where
  abbrev unknown : List ℕ
  unknown = (parse_citations answer k).1

  abbrev stripped : Bytes
  stripped = strip_unknown_markers answer unknown

  stripped-Sorted :
      Sorted k (cited (rewrite (contains unknown) (segments answer))) (parse_citations stripped k)
  stripped-Sorted = rw (← segments-strip answer unknown plain) (parse_citations-Sorted stripped k)

  stripped_used :
      (n : ℕ) → contains (parse_citations stripped k).0 n ≡ contains (parse_citations answer k).0 n
  stripped_used n =
      let before = parse_citations-Sorted answer k in
      ground (
        arith,
        stripped-Sorted.used_members n,
        before.used_members n,
        before.unknown_members n,
        contains-cited-rewrite (contains unknown) (segments answer) n,
      )

  stripped_unknown : (n : ℕ) → contains (parse_citations stripped k).1 n ≡ false
  stripped_unknown n =
      let before = parse_citations-Sorted answer k in
      ground (
        arith,
        stripped-Sorted.unknown_members n,
        before.unknown_members n,
        contains-cited-rewrite (contains unknown) (segments answer) n,
      )

  stripped_result : parse_citations stripped k ≡ ((parse_citations answer k).0, [])
  stripped_result =
      let before = parse_citations-Sorted answer k in
      ap₂ (λ (xs ys : List ℕ). (xs, ys))
        (Ascending-unique _ _ stripped-Sorted.used_ascending before.used_ascending stripped_used)
        (no_members _ stripped_unknown)

-- Where no bracket between the groups is left open, the answer that is shown after
-- `stripUnknownMarkers` has no unknown marker, and cites the very sources that it cited before.
pub parse-strip :
    (answer : Bytes) (k : ℕ)
    → is_plain (segments answer) ≡ true
    → parse_citations (strip_unknown_markers answer (parse_citations answer k).1) k
      ≡ ((parse_citations answer k).0, [])
parse-strip answer k h = stripped_result answer k (is_plain→IsPlain (segments answer) h)
