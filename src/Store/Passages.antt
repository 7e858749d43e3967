-- ===== src/Store/Passages.antt =====
-- internal/store/store.go: the chunks of the documents, and the rows that the searches return: the
-- joins of `hybridSearchSQL`, `hybridSearchBM25SQL`, `keywordSearchTsRankSQL` and
-- `keywordSearchBM25SQL` in `HybridSearch` and `KeywordSearch`, and `Neighbours`. A foreign key gives
-- every chunk its document.

pub mod Around
use ragline.Base.{
  ℕ, ◌+◌, ◌-◌, Bool, true, false, ◌&&◌, List, [], ◌∷◌, Option, none, some, Bytes, ltb, leb, ◌==◌,
  if◌then◌else◌, ℤ, pos, negsuc,
}
use ragline.Store.{Floats, Chunk}
use ragline.Store.Documents.{Document, Table, find_id}
use ragline.Store.Fusion.{Fused, Scored, hybrid_search}
use ragline.Store.Fusion.Keywords.{keyword_search}

-- A row of `chunks`, as far as the searches read it.
pub record Passage : Type 0 where
  pub id : ℕ
  pub document_id : ℕ
  pub ordinal : ℕ
  pub heading : Bytes
  pub content : Bytes

pub record Corpus : Type 0 where
  pub documents : Table
  pub passages : List Passage

-- `JOIN chunks ch ON ch.id = ...`: the identifier is unique.
unfoldable pub find_passage : ℕ → List Passage → Option Passage
find_passage i [] = none
find_passage i (p ∷ ps) = if p.id == i then some p else find_passage i ps

module _ {F : Type 0} where
  -- The columns of a row, with the score and the two ranks.
  abbrev pub chunk_of : F → F → ℕ → ℕ → Passage → Document → Chunk F
  chunk_of zero_score score vector_rank keyword_rank p d = record {
    id = p.id;
    document_id = p.document_id;
    doc_title = d.title;
    source_uri = d.source_uri;
    ordinal = p.ordinal;
    heading = p.heading;
    content = p.content;
    rrf_score = score;
    vector_rank = vector_rank;
    keyword_rank = keyword_rank;
    rerank_score = zero_score;
  }

  -- `JOIN documents d ON d.id = ch.document_id`: a row without its partner is no row.
  abbrev pub with_document :
      F → F → ℕ → ℕ → Passage → Option Document → List (Chunk F) → List (Chunk F)
  with_document z score v k p none rest = rest
  with_document z score v k p (some d) rest = chunk_of z score v k p d ∷ rest

  abbrev pub with_passage : F → F → ℕ → ℕ → Table → Option Passage → List (Chunk F) → List (Chunk F)
  with_passage z score v k docs none rest = rest
  with_passage z score v k docs (some p) rest =
      with_document z score v k p (find_id p.document_id docs) rest

  -- The rows of the outer query, in their order.
  unfoldable pub join_rows : F → (Fused → F) → Corpus → List Fused → List (Chunk F)
  unfolding find_passage
  join_rows z score c [] = []
  join_rows z score c (f ∷ fs) =
      with_passage z (score f) f.vector_rank f.keyword_rank c.documents
        (find_passage f.id c.passages) (join_rows z score c fs)

-- What the two searches take from PostgreSQL: whether the statement runs, the chunks by distance and the
-- chunks that the words match, with the scores; and the parameters of the fusion.
pub record Search (fl : Floats) (E : Type 0) : Type 0 where
  pub up : Bool
  pub nearest : E → List ℕ
  pub matches : Bytes → List (Scored fl.F)
  pub fused_score : Fused → fl.F
  pub keyword_score : Fused → fl.F
  pub vector_k : ℕ
  pub keyword_k : ℕ
  pub rrf_k : ℕ

module _ {E : Type 0} (fl : Floats) (s : Search fl E) (c : Corpus) where
  open fl use {F, zero_score}

  -- `HybridSearch`; a negative `LIMIT` is an error.
  unfoldable pub hybrid_chunks : E → Bytes → ℤ → Option (List (Chunk F))
  unfolding join_rows hybrid_search
  hybrid_chunks v query (negsuc n) = none
  hybrid_chunks v query (pos n) =
      let found =
        hybrid_search fl s.vector_k s.keyword_k s.rrf_k n (s.nearest v) (s.matches query) in
      if s.up then some (join_rows zero_score s.fused_score c found) else none

  -- `KeywordSearch`
  unfoldable pub keyword_chunks : Bytes → ℤ → Option (List (Chunk F))
  unfolding join_rows keyword_search
  keyword_chunks query (negsuc n) = none
  keyword_chunks query (pos n) =
      let found = keyword_search fl n (s.matches query) in
      if s.up then some (join_rows zero_score s.keyword_score c found) else none

-- `ch.ordinal BETWEEN ordinal-radius AND ordinal+radius`, for numbers that are not negative.
abbrev pub is_near : ℕ → ℕ → ℕ → Passage → Bool
is_near doc ordinal radius p =
    p.document_id == doc && leb (ordinal - radius) p.ordinal && leb p.ordinal (ordinal + radius)

-- `ORDER BY ch.ordinal`
unfoldable pub insert_passage : Passage → List Passage → List Passage
insert_passage p [] = p ∷ []
insert_passage p (q ∷ qs) = if ltb q.ordinal p.ordinal then q ∷ insert_passage p qs else p ∷ q ∷ qs

unfoldable pub near : ℕ → ℕ → ℕ → List Passage → List Passage
unfolding insert_passage
near doc ordinal radius [] = []
near doc ordinal radius (p ∷ ps) =
    let rest = near doc ordinal radius ps in
    if is_near doc ordinal radius p then insert_passage p rest else rest

abbrev pub chunks_in : {F : Type 0} → F → Document → List Passage → List (Chunk F)
chunks_in z d [] = []
chunks_in z d (p ∷ ps) = chunk_of z z 0 0 p d ∷ chunks_in z d ps

abbrev pub in_document : {F : Type 0} → F → List Passage → Option Document → List (Chunk F)
in_document z ps none = []
in_document z ps (some d) = chunks_in z d ps

-- `Neighbours`
unfoldable pub neighbours : {F : Type 0} → Bool → F → ℕ → ℕ → ℕ → Corpus → Option (List (Chunk F))
unfolding near find_id
neighbours up z doc ordinal radius c =
    if up
    then some (in_document z (near doc ordinal radius c.passages) (find_id doc c.documents))
    else none
