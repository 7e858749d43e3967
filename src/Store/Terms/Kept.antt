-- ===== src/Store/Terms/Kept.antt =====
-- The statistics that the triggers keep are those of the backfill.
use ragline.Base.{
  ℕ, ◌≡◌, refl, ap, ◌∙◌, List, [], ◌∷◌, ◌++◌, append-nil, Option, none, some, Bytes, arith,
  Option-cases, inl, inr,
}
use mathlib.Core.Path.{subst}
use ragline.Store.Terms.Table.{OnceEach, found-id, find-without, without-OnceEach, without-sums}
use ragline.Store.Terms.{
  TermRow, Indexed, TermStats, Index, chunk_term_rows, sum_tf, other_terms, bm25_insert, or_zero,
  bm25_delete, find_chunk, without_chunk, Change, add_chunk, drop_chunk, change, changes, rows_of,
  len_from, len_of_rows, count_holding, sum_len, backfill,
}

-- What the triggers hold of a table of chunks: the backfill, and a length of 0 for a chunk without terms,
-- of which the backfill has none.
abbrev pub len_kept : Option Indexed → Option ℕ
len_kept none = none
len_kept (some c) = some (sum_tf (chunk_term_rows c.tsv))

unfoldable pub kept_stats : List Indexed → TermStats
unfolding backfill
kept_stats cs = record (backfill cs) { len_of = λ i. len_kept (find_chunk i cs) }

-- Two states of the four tables with the same rows.
pub record SameRows (a b : TermStats) : Type 0 where
  pub terms : (i : ℕ) → a.terms_of i ≡ b.terms_of i
  pub lens : (i : ℕ) → a.len_of i ≡ b.len_of i
  pub frequencies : (t : Bytes) → a.df t ≡ b.df t
  pub count : a.chunk_count ≡ b.chunk_count
  pub total : a.total_len ≡ b.total_len

pub record IsKept (x : Index) : Type 0 where
  pub once : OnceEach x.chunks
  pub same : SameRows x.stats (kept_stats x.chunks)

module _ (c : Indexed) (cs : List Indexed) (st : TermStats)
    (same : SameRows st (kept_stats cs)) where
  abbrev rows : List TermRow
  rows = chunk_term_rows c.tsv

  module _ (free : find_chunk c.id cs ≡ none) where
    stored_rows : rows ++ other_terms rows (st.terms_of c.id) ≡ rows
    unfolding other_terms
    stored_rows =
        let e : st.terms_of c.id ≡ rows_of (find_chunk c.id cs) =
          unfold kept_stats in same.terms c.id in
        rw (e, free) (append-nil rows)

    bm25_insert-same : SameRows (bm25_insert c st) (kept_stats (c ∷ cs))
    unfolding bm25_insert kept_stats find_chunk count_holding sum_len
    bm25_insert-same = rw stored_rows (record {
      terms = λ i. ground (arith, same.terms i);
      lens = λ i. ground (arith, same.lens i);
      frequencies = λ t. ground (arith, same.frequencies t);
      count = omega (arith, same.count);
      total = omega (arith, same.total);
    })

module _ (c : Indexed) (cs : List Indexed) (st : TermStats) (same : SameRows st (kept_stats cs))
    (once : OnceEach cs) (found : find_chunk c.id cs ≡ some c) where
  bm25_delete-same : SameRows (bm25_delete c st) (kept_stats (without_chunk c.id cs))
  unfolding bm25_delete kept_stats
  bm25_delete-same =
      let (n, len, _) = without-sums c.id cs c [] found in
      let rows = chunk_term_rows c.tsv in
      record {
        terms = λ k. rw (find-without c.id k cs once) (ground (arith, same.terms k));
        lens = λ k. rw (find-without c.id k cs once) (ground (arith, same.lens k));
        frequencies = λ t.
            let (_, _, held) = without-sums c.id cs c t found in
            ground (arith, same.frequencies t, held);
        count = omega (arith, same.count, n);
        total =
            let known : or_zero (st.len_of c.id) ≡ sum_tf rows =
              ap or_zero (same.lens c.id ∙ ap len_kept found) in
            omega (arith, same.total, len, known);
      }

add-IsKept : (c : Indexed) (x : Index) → IsKept x → IsKept (change (add_chunk c) x)
unfolding change
add-IsKept c x k = elim (Option-cases (find_chunk c.id x.chunks)) [
  | inl free ↦
      rw free
        (record { once = (free, k.once); same = bm25_insert-same c x.chunks x.stats k.same free })
  | inr (d, taken) ↦ rw taken k
]

drop-IsKept : (i : ℕ) (x : Index) → IsKept x → IsKept (change (drop_chunk i) x)
unfolding change
drop-IsKept i x k = elim (Option-cases (find_chunk i x.chunks)) [
  | inl absent ↦ rw absent k
  | inr (c, there) ↦
      let id : c.id ≡ i = found-id i x.chunks c there in
      let found : find_chunk c.id x.chunks ≡ some c = ap (λ j. find_chunk j x.chunks) id ∙ there in
      rw there (record {
        once = without-OnceEach i x.chunks k.once;
        same =
            subst (λ j. SameRows (bm25_delete c x.stats) (kept_stats (without_chunk j x.chunks))) id
              (bm25_delete-same c x.chunks x.stats k.same k.once found);
      })
]

change-IsKept : (s : Change) (x : Index) → IsKept x → IsKept (change s x)
change-IsKept (add_chunk c) x k = add-IsKept c x k
change-IsKept (drop_chunk i) x k = drop-IsKept i x k

changes-IsKept : (ss : List Change) (x : Index) → IsKept x → IsKept (changes ss x)
unfolding changes
changes-IsKept [] x k = k
changes-IsKept (s ∷ ss) x k = changes-IsKept ss (change s x) (change-IsKept s x k)

abbrev pub no_chunks : Index
no_chunks = record {
  chunks = [];
  stats = record {
    terms_of = λ i. [];
    len_of = λ i. none;
    df = λ t. 0;
    chunk_count = 0;
    total_len = 0;
  };
}

pub reached-IsKept : (ss : List Change) → IsKept (changes ss no_chunks)
unfolding kept_stats backfill
reached-IsKept ss = changes-IsKept ss no_chunks (record {
  once = tt;
  same = record {
    terms = λ i. refl;
    lens = λ i. refl;
    frequencies = λ t. refl;
    count = refl;
    total = refl;
  };
})

length_of_rows : (rs : List TermRow) → sum_tf rs ≡ or_zero (len_of_rows rs)
unfolding sum_tf
length_of_rows [] = refl
length_of_rows (r ∷ rs) = refl

length_kept : (o : Option Indexed) → or_zero (len_kept o) ≡ or_zero (len_from o)
length_kept none = refl
length_kept (some c) = length_of_rows (chunk_term_rows c.tsv)

-- Two states of the four tables with the same statistics; a length that is not there reads 0.
pub record SameStats (a b : TermStats) : Type 0 where
  pub terms : (i : ℕ) → a.terms_of i ≡ b.terms_of i
  pub lens : (i : ℕ) → or_zero (a.len_of i) ≡ or_zero (b.len_of i)
  pub frequencies : (t : Bytes) → a.df t ≡ b.df t
  pub count : a.chunk_count ≡ b.chunk_count
  pub total : a.total_len ≡ b.total_len

-- Whatever chunks are inserted and deleted, in whatever order, the statistics that the triggers keep are
-- those that the backfill computes from the table of chunks: the terms and the length of every chunk,
-- where a length that is not there reads 0, the number of chunks that hold each term, the number of
-- chunks and the sum of their lengths.
pub changes-backfill :
    (ss : List Change)
    → SameStats (changes ss no_chunks).stats (backfill (changes ss no_chunks).chunks)
unfolding kept_stats
changes-backfill ss =
    let x = changes ss no_chunks in
    let k = reached-IsKept ss in
    let s = k.same in
    record {
      terms = s.terms;
      lens = λ i. ap or_zero (s.lens i) ∙ length_kept (find_chunk i x.chunks);
      frequencies = s.frequencies;
      count = s.count;
      total = s.total;
    }
