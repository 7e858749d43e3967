-- ===== src/Chat/Corpus/Rows.antt =====
-- The sources of an answer against the tables of the store.
use ragline.Base.{
  ℕ, ◌≡◌, refl, ap, ◌∙◌, Bool, true, false, ◌==◌, ==_iff, List, [], ◌∷◌, Option, none, some, Bytes,
  ℤ, pos, negsuc, Bool-cases, inl, inr, if◌then◌else◌,
}
use ragline.Store.{Floats, Chunk}
use ragline.Store.Documents.{Document, find_id}
use ragline.Store.Fusion.{Fused, hybrid_search}
use ragline.Store.Fusion.Keywords.{keyword_search}
use ragline.Store.Passages.{
  Passage, Corpus, Search, find_passage, with_document, with_passage, join_rows, hybrid_chunks,
  keyword_chunks,
}
use ragline.Rerank.Result.{All}
use ragline.Rerank.Modes.{Reranker, Client, new_reranker, rerank_by-Ranks, Cuts}
use ragline.Chat.Prompt.{snippet}
use ragline.Chat.Types.{Request, Citation, World, Service}
use ragline.Chat.Steps.{search, sources_of}
use ragline.Chat.Answer.{answer}
use ragline.Chat.Corpus.{over_store, service_over}
use ragline.Chat.Corpus.Sourced.{Sourced, Draws, answer-Sourced}

-- A chunk of the corpus with its document.
pub record IsRow {F : Type 0} (c : Corpus) (x : Chunk F) : Type 0 where
  pub passage : Passage
  pub document : Document
  pub stands : find_passage x.id c.passages ≡ some passage
  pub belongs : find_id passage.document_id c.documents ≡ some document
  pub same_document : x.document_id ≡ passage.document_id
  pub same_heading : x.heading ≡ passage.heading
  pub same_content : x.content ≡ passage.content
  pub same_title : x.doc_title ≡ document.title
  pub same_uri : x.source_uri ≡ document.source_uri

-- A citation that shows a chunk of the corpus: its document's title and address, its heading and the
-- beginning of its text.
pub record Shows (c : Corpus) (x : Citation) : Type 0 where
  pub passage : Passage
  pub document : Document
  pub stands : find_passage x.chunk_id c.passages ≡ some passage
  pub belongs : find_id passage.document_id c.documents ≡ some document
  pub same_document : x.document_id ≡ passage.document_id
  pub same_heading : x.heading ≡ passage.heading
  pub same_text : x.snippet ≡ snippet passage.content 240
  pub same_title : x.title ≡ document.title
  pub same_uri : x.source_uri ≡ document.source_uri

found_id : (i : ℕ) (ps : List Passage) {p : Passage} → find_passage i ps ≡ some p → p.id ≡ i
unfolding find_passage
found_id i [] e = absurd (cc)
found_id i (q ∷ ps) {p} e = elim (Bool-cases (q.id == i)) [
  | inl here ↦
      let same : some q ≡ some p = rw here at e in
      let first : q ≡ p = cc in rw (← first) ((==_iff q.id i).0 here)
  | inr other ↦ found_id i ps (rw other at e)
]

module _ {F : Type 0} (c : Corpus) where
  with_document-rows :
      (z score : F) (v k : ℕ) (p : Passage) (o : Option Document) (rest : List (Chunk F))
      → find_id p.document_id c.documents ≡ o
      → find_passage p.id c.passages ≡ some p
      → All (IsRow c) rest
      → All (IsRow c) (with_document z score v k p o rest)
  with_document-rows z score v k p none rest d e h = h
  with_document-rows z score v k p (some doc) rest d e h = (
    record {
      passage = p;
      document = doc;
      stands = e;
      belongs = d;
      same_document = refl;
      same_heading = refl;
      same_content = refl;
      same_title = refl;
      same_uri = refl;
    },
    h,
  )

  with_passage-rows :
      (i : ℕ) (z score : F) (v k : ℕ) (o : Option Passage) (rest : List (Chunk F))
      → find_passage i c.passages ≡ o
      → All (IsRow c) rest
      → All (IsRow c) (with_passage z score v k c.documents o rest)
  with_passage-rows i z score v k none rest e h = h
  with_passage-rows i z score v k (some p) rest e h =
      with_document-rows z score v k p (find_id p.document_id c.documents) rest refl
        (ap (λ j. find_passage j c.passages) (found_id i c.passages e) ∙ e) h

  join_rows-rows :
      (z : F) (score : Fused → F) (fs : List Fused) → All (IsRow c) (join_rows z score c fs)
  unfolding join_rows
  join_rows-rows z score [] = tt
  join_rows-rows z score (f ∷ fs) =
      with_passage-rows f.id z (score f) f.vector_rank f.keyword_rank (find_passage f.id c.passages)
        (join_rows z score c fs) refl (join_rows-rows z score fs)

module _ {E : Type 0} (fl : Floats) (s : Search fl E) (c : Corpus) where
  open fl use {F, zero_score}

  abbrev FoundRows : Option (List (Chunk F)) → Type 0
  FoundRows o = Cuts (IsRow c) o

  up_or_error :
      (b : Bool) (cs : List (Chunk F)) → All (IsRow c) cs → FoundRows (if b then some cs else none)
  up_or_error true cs h = h
  up_or_error false cs h = tt

  hybrid_chunks-rows : (v : E) (q : Bytes) (n : ℤ) → FoundRows (hybrid_chunks fl s c v q n)
  unfolding hybrid_chunks
  hybrid_chunks-rows v q (negsuc n) = tt
  hybrid_chunks-rows v q (pos n) =
      let found = hybrid_search fl s.vector_k s.keyword_k s.rrf_k n (s.nearest v) (s.matches q) in
      up_or_error s.up (join_rows zero_score s.fused_score c found)
        (join_rows-rows c zero_score s.fused_score found)

  keyword_chunks-rows : (q : Bytes) (n : ℤ) → FoundRows (keyword_chunks fl s c q n)
  unfolding keyword_chunks
  keyword_chunks-rows q (negsuc n) = tt
  keyword_chunks-rows q (pos n) =
      let found = keyword_search fl n (s.matches q) in
      up_or_error s.up (join_rows zero_score s.keyword_score c found)
        (join_rows-rows c zero_score s.keyword_score found)

  source-Shows :
      (include : Bool) (i : ℕ) (x : Chunk F)
      → IsRow c x
      → All (Shows c) (sources_of include i (x ∷ []))
  unfolding sources_of
  source-Shows include i x r = (
    record {
      passage = r.passage;
      document = r.document;
      stands = r.stands;
      belongs = r.belongs;
      same_document = r.same_document;
      same_heading = r.same_heading;
      same_text = rw r.same_content refl;
      same_title = r.same_title;
      same_uri = r.same_uri;
    },
    tt,
  )

  rescored : (x : Chunk F) (score : F) → IsRow c x → IsRow c (record x { rerank_score = score })
  rescored x score r = record {
    passage = r.passage;
    document = r.document;
    stands = r.stands;
    belongs = r.belongs;
    same_document = r.same_document;
    same_heading = r.same_heading;
    same_content = r.same_content;
    same_title = r.same_title;
    same_uri = r.same_uri;
  }

  module _ (r : Reranker fl) (sv : Service F E) where
    searches-rows : (v : Option E) (q : Bytes) → FoundRows (search (over_store fl s c r sv) v q)
    unfolding search
    searches-rows none q = keyword_chunks-rows q sv.rerank_top_n
    searches-rows (some v) q = hybrid_chunks-rows v q sv.rerank_top_n

    over_store-Draws : Draws (over_store fl s c r sv) (IsRow c) (Shows c)
    over_store-Draws = record {
      searches = searches-rows;
      ranks = λ q cs n h. rerank_by-Ranks fl (IsRow c) rescored r q cs n h;
      cites = source-Shows;
    }

-- The service that `main` builds over the tables of the store, in every mode of reranking: each source
-- of an answer shows a chunk of the corpus with its document's title and address, its heading and the
-- beginning of its text, and so does each citation of an answer that is not from the cache.
pub answer-Shows :
    {E : Type 0} (fl : Floats) (s : Search fl E) (c : Corpus) (mode : Bytes) (client : Client fl)
    (sv : Service fl.F E) (req : Request) (w : World E)
    → Sourced (IsRow c) (Shows c) (answer (service_over fl s c mode client sv) req w).1
unfolding service_over
answer-Shows fl s c mode client sv req w =
    let r = new_reranker fl mode client in
    answer-Sourced (over_store fl s c r sv) (IsRow c) (Shows c) (over_store-Draws fl s c r sv) req w
