-- ===== src/Store/Bm25/Matches.antt =====
-- What BM25 matches: the chunks that hold a term of the query, each once.
use ragline.Base.{
  ℕ, ◌≡◌, refl, ap, ap₂, ◌∙◌, Bool, true, false, not, ◌&&◌, ◌||◌, List, [], ◌∷◌, ◌++◌, Option, none,
  some, Bytes, arith, ◌==◌, ==_iff, if◌then◌else◌, Bool-cases, inl, inr,
}
use ragline.Store.{Floats}
use ragline.Store.Fusion.{Scored, scored_ids, is_among, group_ids}
use ragline.Store.Fusion.Keywords.{Distinct}
use ragline.Store.Terms.{
  TermRow, Indexed, TermStats, Index, chunk_term_rows, has_term, find_chunk, count_holding, Change,
  changes, rows_of,
}
use ragline.Store.Terms.Kept.{IsKept, len_kept, kept_stats, no_chunks, reached-IsKept}
use ragline.Store.Bm25.{
  Arithmetic, tf_of, joined_row, hits_of, all_hits, score_groups, ids_of, bm25_matches,
}

group_ids-among :
    (k : ℕ) (is seen : List ℕ) → is_among k (group_ids is seen) ≡ (is_among k is || is_among k seen)
unfolding group_ids is_among
group_ids-among k [] seen = refl
group_ids-among k (i ∷ is) seen = elim (Bool-cases (is_among i (group_ids is seen))) [
  | inl again ↦ elim (Bool-cases (k == i)) [
    | inl same ↦
        let e = (==_iff k i).0 same in
        rw (again, same) (ap (λ j. is_among j (group_ids is seen)) e ∙ again)
    | inr apart ↦ rw (again, apart) (group_ids-among k is seen)
  ]
  | inr new ↦ rw new (elim (Bool-cases (k == i)) [
    | inl same ↦ rw same refl
    | inr apart ↦ rw apart (group_ids-among k is seen)
  ])
]

pub group_ids-each_once : (is seen : List ℕ) → Distinct seen → Distinct (group_ids is seen)
unfolding group_ids
group_ids-each_once [] seen d = d
group_ids-each_once (i ∷ is) seen d = elim (Bool-cases (is_among i (group_ids is seen))) [
  | inl again ↦ rw again (group_ids-each_once is seen d)
  | inr new ↦ rw new (new, group_ids-each_once is seen d)
]

-- A test of a key that is searched for, in front of a list or behind its head.
here_or_later :
    (f : ℕ → Bool) (k i : ℕ) (x later : Bool)
    → later ≡ (x && f k)
    → ((k == i && f i) || later) ≡ ((if k == i then true else x) && f k)
here_or_later f k i x later h = elim (Bool-cases (k == i)) [
  | inl same ↦ let e : f k ≡ f i = ap f ((==_iff k i).0 same) in ground (arith, e, h)
  | inr apart ↦ ground (arith, h)
]

-- Whether a chunk of the table holds a term of the query.
pub holds_any : List Bytes → Option Indexed → Bool
holds_any ts none = false
holds_any [] (some c) = false
holds_any (t ∷ ts) (some c) = has_term t (chunk_term_rows c.tsv) || holds_any ts (some c)

abbrev is_there {ℓ} : {A : Type ℓ} → Option A → Bool
is_there none = false
is_there (some a) = true

counted-holding :
    (t : Bytes) (k : ℕ) (cs : List Indexed) (c : Indexed)
    → find_chunk k cs ≡ some c
    → has_term t (chunk_term_rows c.tsv) ≡ true
    → (count_holding t cs == 0) ≡ false
unfolding find_chunk count_holding
counted-holding t k [] c e h = absurd (cc)
counted-holding t k (d ∷ cs) c e h = elim (Bool-cases (d.id == k)) [
  | inl here ↦ let same : d ≡ c = cc (rw here at e) in rw (same, h) (ground arith)
  | inr other ↦ let below = counted-holding t k cs c (rw other at e) h in ground (arith, below)
]

none_more : (b : Bool) (k : ℕ) → (b || is_among k []) ≡ b
unfolding is_among
none_more b k = ground arith

module _ (fl : Floats) (ar : Arithmetic fl) where
  open fl use {F}

  among_append :
      (k : ℕ) (xs ys : List (Scored F))
      → is_among k (scored_ids fl (xs ++ ys))
        ≡ (is_among k (scored_ids fl xs) || is_among k (scored_ids fl ys))
  unfolding is_among scored_ids
  among_append k [] ys = refl
  among_append k (x ∷ xs) ys = ground (arith, among_append k xs ys)

  scored_ids-groups :
      (hits : List (Scored F)) (is : List ℕ) → scored_ids fl (score_groups fl ar hits is) ≡ is
  unfolding scored_ids score_groups
  scored_ids-groups hits [] = refl
  scored_ids-groups hits (i ∷ is) = ap (λ x. i ∷ x) (scored_ids-groups hits is)

  module _ (st : TermStats) where
    -- The join finds a row for the term and the chunk.
    abbrev joins : Bytes → ℕ → Bool
    joins t k =
        is_there (tf_of fl ar t (st.terms_of k)) && is_there (st.len_of k) && not (st.df t == 0)

    joined_row-among :
        (k i df : ℕ) (tf len : Option ℕ) (rest : List (Scored F))
        → is_among k (scored_ids fl (joined_row fl ar st i df tf len rest)) ≡ (
            (k == i && (is_there tf && is_there len && not (df == 0)))
            || is_among k (scored_ids fl rest))
    unfolding is_among scored_ids
    joined_row-among k i df none len rest = ground arith
    joined_row-among k i df (some tf) none rest = ground arith
    joined_row-among k i df (some tf) (some len) rest = ground arith

    hits_of-among :
        (t : Bytes) (k : ℕ) (is : List ℕ)
        → is_among k (scored_ids fl (hits_of fl ar st t is)) ≡ (is_among k is && joins t k)
    unfolding hits_of is_among
    hits_of-among t k [] = unfold scored_ids in refl
    hits_of-among t k (i ∷ is) =
        joined_row-among k i (st.df t) (tf_of fl ar t (st.terms_of i)) (st.len_of i)
          (hits_of fl ar st t is)
        ∙ here_or_later (λ j. joins t j) k i (is_among k is)
            (is_among k (scored_ids fl (hits_of fl ar st t is))) (hits_of-among t k is)

    any_joins : List Bytes → ℕ → Bool
    any_joins [] k = false
    any_joins (t ∷ ts) k = joins t k || any_joins ts k

    all_hits-among :
        (ts : List Bytes) (k : ℕ) (is : List ℕ)
        → is_among k (scored_ids fl (all_hits fl ar st ts is)) ≡ (is_among k is && any_joins ts k)
    unfolding all_hits any_joins
    all_hits-among [] k is = unfold is_among scored_ids in ground arith
    all_hits-among (t ∷ ts) k is =
        among_append k (hits_of fl ar st t is) (all_hits fl ar st ts is)
        ∙ ground (arith, hits_of-among t k is, all_hits-among ts k is)

  ids_of-among :
      (k : ℕ) (cs : List Indexed) → is_among k (ids_of fl ar cs) ≡ is_there (find_chunk k cs)
  unfolding is_among find_chunk
  ids_of-among k [] = refl
  ids_of-among k (c ∷ cs) = ground (arith, ids_of-among k cs)

  tf_of-there : (t : Bytes) (rs : List TermRow) → is_there (tf_of fl ar t rs) ≡ has_term t rs
  unfolding tf_of has_term
  tf_of-there t [] = refl
  tf_of-there t (r ∷ rs) = ground (arith, tf_of-there t rs)

  module _ (x : Index) (kept : IsKept x) where
    -- Every chunk of the table has a length, and a term that it holds is counted.
    joins-there :
        (t : Bytes) (k : ℕ) (c : Indexed)
        → find_chunk k x.chunks ≡ some c
        → joins x.stats t k ≡ has_term t (chunk_term_rows c.tsv)
    unfolding kept_stats
    joins-there t k c e =
        let s = kept.same in
        let terms : x.stats.terms_of k ≡ chunk_term_rows c.tsv = s.terms k ∙ ap rows_of e in
        let len : is_there (x.stats.len_of k) ≡ true = ap is_there (s.lens k ∙ ap len_kept e) in
        let df : x.stats.df t ≡ count_holding t x.chunks = s.frequencies t in
        let tf =
          ap (λ rs. is_there (tf_of fl ar t rs)) terms ∙ tf_of-there t (chunk_term_rows c.tsv) in
        rw (tf, len, df)
          (elim (Bool-cases (has_term t (chunk_term_rows c.tsv))) [
            | inl held ↦ rw (held, counted-holding t k x.chunks c e held) refl
            | inr other ↦ rw other refl
          ])

    any_joins-there :
        (ts : List Bytes) (k : ℕ) (c : Indexed)
        → find_chunk k x.chunks ≡ some c
        → any_joins x.stats ts k ≡ holds_any ts (some c)
    unfolding any_joins holds_any
    any_joins-there [] k c e = refl
    any_joins-there (t ∷ ts) k c e = ap₂ (◌||◌) (joins-there t k c e) (any_joins-there ts k c e)

    found-holding :
        (ts : List Bytes) (k : ℕ) (o : Option Indexed)
        → find_chunk k x.chunks ≡ o
        → (is_there o && any_joins x.stats ts k) ≡ holds_any ts o
    found-holding ts k none e = unfold holds_any in refl
    found-holding ts k (some c) e = any_joins-there ts k c e

    bm25_matches-kept :
        (ts : List Bytes) (k : ℕ)
        → is_among k (scored_ids fl (bm25_matches fl ar x ts))
          ≡ holds_any ts (find_chunk k x.chunks)
    unfolding bm25_matches
    bm25_matches-kept ts k =
        let hits = all_hits fl ar x.stats ts (ids_of fl ar x.chunks) in
        rw (scored_ids-groups hits (group_ids (scored_ids fl hits) [])) (
          group_ids-among k (scored_ids fl hits) []
          ∙ none_more (is_among k (scored_ids fl hits)) k
          ∙ all_hits-among x.stats ts k (ids_of fl ar x.chunks)
          ∙ ap (λ b. b && any_joins x.stats ts k) (ids_of-among k x.chunks)
          ∙ found-holding ts k (find_chunk k x.chunks) refl)

-- Whatever chunks were inserted and deleted before, BM25 matches exactly the chunks of the table that hold
-- a term of the query, and each of them once.
pub bm25_matches-changes :
    (fl : Floats) (ar : Arithmetic fl) (ss : List Change) (ts : List Bytes)
    → Distinct (scored_ids fl (bm25_matches fl ar (changes ss no_chunks) ts))
      × ((k : ℕ)
          → is_among k (scored_ids fl (bm25_matches fl ar (changes ss no_chunks) ts))
            ≡ holds_any ts (find_chunk k (changes ss no_chunks).chunks))
unfolding bm25_matches
bm25_matches-changes fl ar ss ts =
    let x = changes ss no_chunks in
    let hits = all_hits fl ar x.stats ts (ids_of fl ar x.chunks) in
    (
      rw (scored_ids-groups fl ar hits (group_ids (scored_ids fl hits) []))
          (group_ids-each_once (scored_ids fl hits) [] tt),
      λ k. bm25_matches-kept fl ar x (reached-IsKept ss) ts k,
    )
