-- ===== src/Store/Bm25.antt =====
-- internal/store/store.go: the keyword arm that BM25 scores (`hybridSearchBM25SQL`,
-- `keywordSearchBM25SQL`), over the statistics that the triggers keep. The arithmetic of `float8` and the
-- lexemes of the query are arguments.

pub mod Matches
mod Tests
use ragline.Base.{
  ℕ, Bool, true, false, List, [], ◌∷◌, ◌++◌, Option, none, some, Bytes, bytes_eq, max, ◌==◌,
  if◌then◌else◌,
}
use ragline.Store.{Floats}
use ragline.Store.Fusion.{Scored, scored_ids, group_ids}
use ragline.Store.Terms.{TermRow, TermStats, Indexed, Index}

module _ (fl : Floats) where
  open fl use {F, zero_score}

  -- `float8`, with `bm25K1` and `bm25B`.
  pub record Arithmetic : Type 0 where
    pub of_nat : ℕ → F
    pub half : F
    pub k1 : F
    pub b : F
    pub add : F → F → F
    pub sub : F → F → F
    pub mul : F → F → F
    pub div : F → F → F
    pub ln : F → F

  module _ (ar : Arithmetic) where
    open ar use {of_nat, half, k1, b, add, sub, mul, div, ln}

    -- `bm25_corpus`
    abbrev pub corpus_size : TermStats → F
    corpus_size st = of_nat (max st.chunk_count 1)

    abbrev pub mean_len : TermStats → F
    mean_len st = div (of_nat (max st.total_len 1)) (of_nat (max st.chunk_count 1))

    -- The summand of a term: its rarity, and how often it stands in a chunk of that length.
    unfoldable pub weight : TermStats → ℕ → ℕ → ℕ → F
    weight st df tf len =
        let one = of_nat 1 in
        let rarity =
          ln (add one (div (add (sub (corpus_size st) (of_nat df)) half) (add (of_nat df) half))) in
        let length_norm = add (sub one b) (div (mul b (of_nat len)) (mean_len st)) in
        div (mul rarity (mul (of_nat tf) (add k1 one))) (add (of_nat tf) (mul k1 length_norm))

    -- `chunk_terms ct ON ct.term = qt.term`, for one chunk.
    unfoldable pub tf_of : Bytes → List TermRow → Option ℕ
    tf_of t [] = none
    tf_of t (r ∷ rs) = if bytes_eq r.term t then some r.tf else tf_of t rs

    -- The joined row of a term and a chunk: the chunk has the term and a length, and the corpus knows the
    -- term.
    abbrev pub joined_row :
        TermStats → ℕ → ℕ → Option ℕ → Option ℕ → List (Scored F) → List (Scored F)
    joined_row st i df none len rest = rest
    joined_row st i df (some tf) none rest = rest
    joined_row st i df (some tf) (some len) rest =
        if df == 0 then rest else record { id = i; score = weight st df tf len } ∷ rest

    unfoldable pub hits_of : TermStats → Bytes → List ℕ → List (Scored F)
    unfolding tf_of weight
    hits_of st t [] = []
    hits_of st t (i ∷ is) =
        joined_row st i (st.df t) (tf_of t (st.terms_of i)) (st.len_of i) (hits_of st t is)

    -- `FROM query_terms qt JOIN ...`
    unfoldable pub all_hits : TermStats → List Bytes → List ℕ → List (Scored F)
    unfolding hits_of
    all_hits st [] is = []
    all_hits st (t ∷ ts) is = hits_of st t is ++ all_hits st ts is

    -- `SUM(...)` of a group.
    unfoldable pub sum_scores : ℕ → List (Scored F) → F
    sum_scores i [] = zero_score
    sum_scores i (h ∷ hs) =
        let rest = sum_scores i hs in if h.id == i then add h.score rest else rest

    unfoldable pub score_groups : List (Scored F) → List ℕ → List (Scored F)
    unfolding sum_scores
    score_groups hits [] = []
    score_groups hits (i ∷ is) = record { id = i; score = sum_scores i hits } ∷ score_groups hits is

    abbrev pub ids_of : List Indexed → List ℕ
    ids_of [] = []
    ids_of (c ∷ cs) = c.id ∷ ids_of cs

    -- `scored`: the chunks that hold a term of the query.
    unfoldable pub bm25_matches : Index → List Bytes → List (Scored F)
    unfolding all_hits score_groups scored_ids group_ids
    bm25_matches x terms =
        let hits = all_hits x.stats terms (ids_of x.chunks) in
        score_groups hits (group_ids (scored_ids fl hits) [])
