-- ===== src/Store/Terms.antt =====
-- internal/store/schema.sql: the statistics that BM25 reads, as the triggers on `chunks` keep them
-- (`chunk_term_rows`, `chunks_bm25_insert`, `chunks_bm25_delete`) and as the backfill computes them. A
-- table with a primary key is a function of the key; a row of `corpus_terms` that is not there counts 0.

pub mod Kept
pub mod Table
use ragline.Base.{
  ℕ, suc, ◌+◌, ◌-◌, Bool, true, false, not, ◌&&◌, ◌||◌, List, [], ◌∷◌, ◌++◌, Option, none, some,
  Bytes, bytes_eq, length, ◌==◌, if◌then◌else◌,
}

-- A lexeme of a `tsvector`, with the weights of its positions: whether each is an 'A'.
pub record Lexeme : Type 0 where
  pub lexeme : Bytes
  pub weights : List Bool

pub record TermRow : Type 0 where
  pub term : Bytes
  pub tf : ℕ

-- A row of `chunks`, as far as the triggers read it.
pub record Indexed : Type 0 where
  pub id : ℕ
  pub tsv : List Lexeme

-- `SUM(CASE WHEN w = 'A' THEN 2 ELSE 1 END)`; a lexeme without positions has one weight 'D'.
unfoldable pub sum_weights : List Bool → ℕ
sum_weights [] = 0
sum_weights (w ∷ ws) = (if w then 2 else 1) + sum_weights ws

abbrev pub weights_or_d : List Bool → List Bool
weights_or_d [] = false ∷ []
weights_or_d (w ∷ ws) = w ∷ ws

-- `chunk_term_rows`: the lexemes of a `tsvector` differ, so that every group is one.
unfoldable pub chunk_term_rows : List Lexeme → List TermRow
unfolding sum_weights
chunk_term_rows [] = []
chunk_term_rows (u ∷ us) =
    record { term = u.lexeme; tf = sum_weights (weights_or_d u.weights) } ∷ chunk_term_rows us

unfoldable pub has_term : Bytes → List TermRow → Bool
has_term t [] = false
has_term t (r ∷ rs) = bytes_eq r.term t || has_term t rs

unfoldable pub sum_tf : List TermRow → ℕ
sum_tf [] = 0
sum_tf (r ∷ rs) = r.tf + sum_tf rs

-- `chunk_terms`, `chunk_stats`, `corpus_terms` and `corpus_stats`.
pub record TermStats : Type 0 where
  pub terms_of : ℕ → List TermRow
  pub len_of : ℕ → Option ℕ
  pub df : Bytes → ℕ
  pub chunk_count : ℕ
  pub total_len : ℕ

pub record Index : Type 0 where
  pub chunks : List Indexed
  pub stats : TermStats

abbrev pub at_id {ℓ} : {A : Type ℓ} → ℕ → A → (ℕ → A) → ℕ → A
at_id i a m k = if k == i then a else m k

-- `INSERT ... ON CONFLICT (chunk_id, term) DO UPDATE`: the new rows, and the old ones of other terms.
unfoldable pub other_terms : List TermRow → List TermRow → List TermRow
unfolding has_term
other_terms rows [] = []
other_terms rows (r ∷ old) =
    let rest = other_terms rows old in if has_term r.term rows then rest else r ∷ rest

-- `chunks_bm25_insert`
unfoldable pub bm25_insert : Indexed → TermStats → TermStats
unfolding chunk_term_rows sum_tf other_terms
bm25_insert c st =
    let rows = chunk_term_rows c.tsv in
    let stored = rows ++ other_terms rows (st.terms_of c.id) in
    let total = sum_tf stored in
    record {
      terms_of = at_id c.id stored st.terms_of;
      len_of = at_id c.id (some total) st.len_of;
      df = λ t. if has_term t rows then st.df t + 1 else st.df t;
      chunk_count = st.chunk_count + 1;
      total_len = st.total_len + total;
    }

-- `COALESCE(total, 0)`
abbrev pub or_zero : Option ℕ → ℕ
or_zero none = 0
or_zero (some n) = n

-- `chunks_bm25_delete`, and the cascade; `-` stops at 0, as `GREATEST(..., 0)` does.
unfoldable pub bm25_delete : Indexed → TermStats → TermStats
unfolding chunk_term_rows has_term
bm25_delete c st =
    let rows = chunk_term_rows c.tsv in
    record {
      terms_of = at_id c.id [] st.terms_of;
      len_of = at_id c.id none st.len_of;
      df = λ t. if has_term t rows then st.df t - 1 else st.df t;
      chunk_count = st.chunk_count - 1;
      total_len = st.total_len - or_zero (st.len_of c.id);
    }

unfoldable pub find_chunk : ℕ → List Indexed → Option Indexed
find_chunk i [] = none
find_chunk i (c ∷ cs) = if c.id == i then some c else find_chunk i cs

unfoldable pub without_chunk : ℕ → List Indexed → List Indexed
without_chunk i [] = []
without_chunk i (c ∷ cs) = if c.id == i then cs else c ∷ without_chunk i cs

-- The statements on `chunks`: an `INSERT`, which a taken identifier refuses, and a `DELETE` of one row.
pub data Change : Type 0 where
  add_chunk : Indexed → Change
  drop_chunk : ℕ → Change

abbrev pub insert_free : Option Indexed → Indexed → Index → Index
insert_free (some taken) c x = x
insert_free none c x = record { chunks = c ∷ x.chunks; stats = bm25_insert c x.stats }

abbrev pub delete_found : Option Indexed → ℕ → Index → Index
delete_found none i x = x
delete_found (some c) i x = record {
  chunks = without_chunk i x.chunks;
  stats = bm25_delete c x.stats;
}

unfoldable pub change : Change → Index → Index
unfolding find_chunk bm25_insert bm25_delete without_chunk
change (add_chunk c) x = insert_free (find_chunk c.id x.chunks) c x
change (drop_chunk i) x = delete_found (find_chunk i x.chunks) i x

unfoldable pub changes : List Change → Index → Index
unfolding change
changes [] x = x
changes (s ∷ ss) x = changes ss (change s x)

-- The backfill: the statistics from the table of chunks alone.
abbrev pub rows_of : Option Indexed → List TermRow
rows_of none = []
rows_of (some c) = chunk_term_rows c.tsv

-- `SELECT chunk_id, SUM(tf) FROM chunk_terms GROUP BY chunk_id`: a chunk without terms is no group.
abbrev pub len_of_rows : List TermRow → Option ℕ
len_of_rows [] = none
len_of_rows (r ∷ rs) = some (sum_tf (r ∷ rs))

abbrev pub len_from : Option Indexed → Option ℕ
len_from none = none
len_from (some c) = len_of_rows (chunk_term_rows c.tsv)

unfoldable pub count_holding : Bytes → List Indexed → ℕ
unfolding chunk_term_rows has_term
count_holding t [] = 0
count_holding t (c ∷ cs) =
    (if has_term t (chunk_term_rows c.tsv) then 1 else 0) + count_holding t cs

unfoldable pub sum_len : List Indexed → ℕ
unfolding chunk_term_rows sum_tf
sum_len [] = 0
sum_len (c ∷ cs) = sum_tf (chunk_term_rows c.tsv) + sum_len cs

unfoldable pub backfill : List Indexed → TermStats
unfolding find_chunk count_holding sum_len
backfill cs = record {
  terms_of = λ i. rows_of (find_chunk i cs);
  len_of = λ i. len_from (find_chunk i cs);
  df = λ t. count_holding t cs;
  chunk_count = length cs;
  total_len = sum_len cs;
}
