-- ===== src/Chat/Tests.antt =====
-- One question put to a small service, and the theorems at it.
use ragline.Base.{
  ℕ, ◌≡◌, refl, true, false, none, some, List, [], ◌∷◌, Bytes, codes, bytes_eq, has_prefix,
  trim_space,
}
use ragline.RateLimit.{check_rate_limit}
use ragline.Rerank.{noop_rerank}
use ragline.Chat.Sample.{chunk, off-returns, service, fresh, request}
use ragline.Chat.Types.{Result, Request, Message, Outcome, answered, Citation}
use ragline.Chat.Prompt.{snippet}
use ragline.Chat.Answer.{answer, turn_of}
use ragline.Chat.Panics.{Grounded, answer-Grounded}
use ragline.Chat.Replay.{Replayed, answer-Replayed}
use ragline.Cache.{normalize_question, answer_preimage}
use ragline.Cache.Keys.{no_zero}
use ragline.Chat.Types.{CorpusStats}
use ragline.Chat.Recorded.{Records, answer-Records}
use ragline.Chat.Version.{answer_preimage-corpus}
use ragline.Chat.Events.Stages.{SentBehind}
use ragline.Chat.Events.{answer-Sent}
use ragline.Chat.Effects.{Bounded, answer-Bounded}
use ragline.Store.Whole.{whole}
use ragline.Store.Documents.{Document, Status, find_id}
use ragline.Store.Fusion.{hybrid_search}
use ragline.Store.Passages.{Passage, Corpus, hybrid_chunks}
use ragline.Store.Passages.{Search as StoreSearch}
use ragline.Rerank.Modes.{Client}
use ragline.Chat.Corpus.{service_over}
use ragline.Chat.Corpus.Sourced.{Sourced}
use ragline.Chat.Corpus.Rows.{IsRow, Shows, answer-Shows}

abbrev text_of : Outcome ℕ → Bytes
text_of (answered r) = r.answer
text_of _ = []

abbrev cite : ℕ → ℕ → Citation
cite m n = record {
  marker = m;
  chunk_id = n;
  document_id = 1;
  title = codes "T";
  source_uri = [];
  heading = [];
  snippet = codes "keys";
  content = [];
}

abbrev first_result : Result ℕ
first_result = record {
  answer = codes "Rotate [2].";
  citations = cite 2 12 ∷ [];
  sources = cite 1 11 ∷ cite 2 12 ∷ [];
  retrieved = chunk 11 ∷ chunk 12 ∷ [];
  usage = record {
    cache_hit = false;
    model = codes "g";
    reranker = codes "off";
    retrieved = 3;
    used = 2;
    prompt_tokens = 0;
    output_tokens = 0;
  };
  refused = false;
  reason = [];
}

-- The invented source 9 is gone from the answer.
first_answer : text_of (answer service request fresh).1 ≡ codes "Rotate [2]."
unfolding answer bytes_eq has_prefix noop_rerank
first_answer = refl

answer-Grounded_example : Grounded (answer service request fresh).1
answer-Grounded_example = answer-Grounded service request fresh 2 off-returns refl

answer-Replayed_example :
    Replayed
      (codes "Rotate [2].")
      (12 ∷ [])
      (answer service request fresh).0
      (answer service request (answer service request fresh).0)
unfolding answer check_rate_limit bytes_eq has_prefix noop_rerank snippet
answer-Replayed_example =
    answer-Replayed service request fresh first_result
      (record { no_conversation = refl; may_cache = refl; cached = refl; up = refl }) refl refl refl

answer-Bounded_example :
    Bounded service
      (turn_of service request (trim_space (codes " Rotate keys? ")) fresh)
      fresh
      (answer service request fresh).0
answer-Bounded_example = answer-Bounded service request fresh

answer-Sent_example : SentBehind fresh (answer service request fresh)
answer-Sent_example = answer-Sent service request fresh

abbrev in_conversation : Request
in_conversation = record request { conversation = some 4 }

answer-Records_example :
    Records service
      (some 4)
      (trim_space in_conversation.question)
      fresh
      (answer service in_conversation fresh)
answer-Records_example = answer-Records service in_conversation fresh

abbrev cites_of : List Message → List (List ℕ)
cites_of [] = []
cites_of (m ∷ ms) = m.citations ∷ cites_of ms

-- The same first question in a conversation: answered by the model, and from the cache.
first_turn : cites_of ((answer service in_conversation fresh).0.messages 4) ≡ [] ∷ (12 ∷ []) ∷ []
unfolding answer check_rate_limit bytes_eq has_prefix noop_rerank snippet
first_turn = refl

cached_turn : (answer service in_conversation (answer service request fresh).0).0.messages 4 ≡ []
unfolding answer check_rate_limit bytes_eq has_prefix noop_rerank snippet
cached_turn = refl

abbrev small_corpus : CorpusStats
small_corpus = record { ready_docs = 1; chunks = 12; last_ingest = some 1700000000 }

answer_preimage-corpus_example :
    (normalize_question (codes "Rotate keys?") ≡ normalize_question (codes " rotate  keys"))
    × (small_corpus ≡ small_corpus)
unfolding no_zero normalize_question answer_preimage
answer_preimage-corpus_example =
    answer_preimage-corpus (codes "Rotate keys?") (codes " rotate  keys") small_corpus small_corpus
      refl refl refl

abbrev passage : ℕ → Passage
passage n = record {
  id = n;
  document_id = 1;
  ordinal = n;
  heading = codes "Keys";
  content = codes "Rotate them.";
}

abbrev handbook : Document
handbook = record {
  id = 1;
  source_uri = codes "doc.md";
  title = codes "Handbook";
  content_hash = codes "h";
  content_type = codes "text/plain";
  byte_size = 12;
  status = Status.ready;
  chunk_count = 2;
  attempts = 1;
  last_error = [];
  created_at = 5;
  ingested_at = some 6;
}

abbrev library : Corpus
library = record {
  documents = record { doc = handbook; raw_content = [] } ∷ [];
  passages = passage 11 ∷ passage 12 ∷ [];
}

abbrev by_words : StoreSearch whole ℕ
by_words = record {
  up = true;
  nearest = λ v. 12 ∷ 11 ∷ [];
  matches = λ q. record { id = 12; score = 4 } ∷ [];
  fused_score = λ f. 0;
  keyword_score = λ f. 0;
  vector_k = 10;
  keyword_k = 10;
  rrf_k = 60;
}

abbrev silent_model : Client whole
silent_model = record { model = codes "m"; generate = λ prompt. none; read_json = λ text. none }

abbrev titles : List Citation → List Bytes
titles [] = []
titles (c ∷ cs) = c.title ∷ titles cs

abbrev cited_titles : Outcome ℕ → List Bytes
cited_titles (answered r) = titles r.citations
cited_titles _ = []

-- The second source is the chunk that the vectors alone found.
library_answer :
    cited_titles
      (answer
        (service_over whole by_words library (codes " Off ") silent_model service)
        request
        fresh).1
    ≡ codes "Handbook" ∷ []
unfolding answer bytes_eq has_prefix noop_rerank service_over hybrid_chunks hybrid_search find_id
    snippet
library_answer = refl

answer-Shows_example :
    Sourced
      (IsRow library)
      (Shows library)
      (answer
        (service_over whole by_words library (codes " Off ") silent_model service)
        request
        fresh).1
answer-Shows_example =
    answer-Shows whole by_words library (codes " Off ") silent_model service request fresh
