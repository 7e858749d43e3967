-- ===== src/Chat/Sample.antt =====
-- A small service with a corpus of three chunks, for the runs at concrete inputs.
use ragline.Base.{ℕ, ◌≢◌, true, false, List, [], ◌∷◌, Option, none, some, Bytes, codes, ℤ, pos}
use ragline.Store.{Chunk}
use ragline.Rerank.{Ranking, RerankError, Stats, no_stats, noop_rerank}
use ragline.Rerank.Result.{noop_rerank-take}
use ragline.Llm.Stream.{no_usage, ApiResponse}
use ragline.Chat.Types.{Request, Service, World}

abbrev pub chunk : ℕ → Chunk ℕ
chunk n = record {
  id = n;
  document_id = 1;
  doc_title = codes "T";
  source_uri = [];
  ordinal = n;
  heading = [];
  content = codes "keys";
  rrf_score = 0;
  vector_rank = 0;
  keyword_rank = 0;
  rerank_score = 0;
}

-- The reranker that is off: the fusion order.
abbrev pub cut_ranking : Option (List (Chunk ℕ)) → Ranking ℕ
cut_ranking none = none
cut_ranking (some cs) = some (cs, no_stats, none)

abbrev pub off : Bytes → List (Chunk ℕ) → ℤ → Ranking ℕ
off q cs n = cut_ranking (noop_rerank cs n)

pub some≢none : (x : List (Chunk ℕ) × Stats × Option RerankError) → some x ≢ none
some≢none x e = cc

pub off-returns : (q : Bytes) (cs : List (Chunk ℕ)) (n : ℕ) → off q cs (pos n) ≢ none
off-returns q cs n = rw (noop_rerank-take cs n) (some≢none _)

abbrev pub reply : ApiResponse
reply = record {
  candidates =
      record {
        parts = record { text = codes "Rotate [2, 9]."; thought = false } ∷ [];
        finish_reason = [];
      }
      ∷ [];
  usage = no_usage;
}

abbrev pub service : Service ℕ ℕ
service = record {
  has_cache = true;
  redis_up = true;
  now = 0;
  unix_base36 = codes "t0";
  per_minute = pos 30;
  burst = pos 10;
  context_top_n = pos 2;
  rerank_top_n = pos 12;
  history_turns = pos 6;
  digest = λ s. s;
  embedding_model = codes "e";
  embedding_dim = 3;
  dim_of = λ v. 3;
  embed = λ q. some 5;
  keyword_search = λ q n. some [];
  hybrid_search = λ v q n. some (chunk 11 ∷ chunk 12 ∷ chunk 13 ∷ []);
  stats = some (record { ready_docs = 1; chunks = 3; last_ingest = some 7 });
  history_up = true;
  append_question_up = true;
  append_answer_up = true;
  log_up = true;
  llm_model = codes "g";
  reranker_name = codes "off";
  rerank = off;
  open_stream = λ c. some (codes "data: {a}" ∷ [], false);
  decode = λ d. some reply;
  fails = λ es e. false;
}

abbrev pub fresh : World ℕ
fresh = record {
  redis = λ k. none;
  answers = λ k. none;
  embeddings = λ k. none;
  messages = λ c. [];
  logs = [];
  events = [];
  asked = [];
}

abbrev pub request : Request
request = record {
  question = codes " Rotate keys? ";
  conversation = none;
  client_id = codes "c";
  no_cache = false;
  top_n = pos 0;
  include_source_text = false;
}
