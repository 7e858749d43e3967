-- ===== src/Chat/Types.antt =====
-- internal/chat/chat.go: the data of `Service.Answer`, the stores that it changes, and the services
-- that it calls. Durations and the cost in dollars are left out.
use ragline.Base.{ℕ, Bool, List, Option, Bytes, ℤ}
use ragline.RateLimit.{Redis}
use ragline.Cache.{CachedAnswer}
use ragline.Store.{Chunk}
use ragline.Rerank.{Ranking}
use ragline.Llm.Stream.{ApiResponse}

-- `Request`; `uuid.Nil` is `none`.
pub record Request : Type 0 where
  pub question : Bytes
  pub conversation : Option ℕ
  pub client_id : Bytes
  pub no_cache : Bool
  pub top_n : ℤ
  pub include_source_text : Bool

-- `Citation`
pub record Citation : Type 0 where
  pub marker : ℕ
  pub chunk_id : ℕ
  pub document_id : ℕ
  pub title : Bytes
  pub source_uri : Bytes
  pub heading : Bytes
  pub snippet : Bytes
  pub content : Bytes

-- `Usage`
pub record Usage : Type 0 where
  pub cache_hit : Bool
  pub model : Bytes
  pub reranker : Bytes
  pub retrieved : ℕ
  pub used : ℕ
  pub prompt_tokens : ℕ
  pub output_tokens : ℕ

-- `Event`
pub data Event : Type 0 where
  sources : List Citation → Event
  token : Bytes → Event
  done : Usage → Event

-- `Result`
pub record Result (F : Type 0) : Type 0 where
  pub answer : Bytes
  pub citations : List Citation
  pub sources : List Citation
  pub retrieved : List (Chunk F)
  pub usage : Usage
  pub refused : Bool
  pub reason : Bytes

-- The errors of `Answer`; `ErrRateLimited` has its wait.
pub data AnswerError : Type 0 where
  question_empty retrieval emit_failed generation : AnswerError
  rate_limited : ℕ → AnswerError

-- How `Answer` ends.
pub data Outcome (F : Type 0) : Type 0 where
  answered : Result F → Outcome F
  failed : AnswerError → Outcome F
  panicked : Outcome F

-- `store.Message`, without the time.
pub data Role : Type 0 where
  user assistant : Role

pub record Message : Type 0 where
  pub role : Role
  pub content : Bytes
  pub citations : List ℕ

-- `llm.Content` with its one part.
pub data LlmRole : Type 0 where
  role_user role_model : LlmRole

pub record Content : Type 0 where
  pub role : LlmRole
  pub text : Bytes

-- `store.QueryLog`, without the durations and the cost.
pub record QueryLog : Type 0 where
  pub conversation : Option ℕ
  pub question : Bytes
  pub answered : Bool
  pub refusal_reason : Bytes
  pub retrieved : List ℕ
  pub cited : List ℕ
  pub usage : Usage

-- What a request changes: the buckets, the two caches, the messages and the query log of the store,
-- the events that the client was sent, and the requests that the model was sent. `E` is an embedding.
pub record World (E : Type 0) : Type 0 where
  pub redis : Redis
  pub answers : Bytes → Option CachedAnswer
  pub embeddings : Bytes → Option E
  pub messages : ℕ → List Message
  pub logs : List QueryLog
  pub events : List Event
  pub asked : List (List Content)

-- `store.CorpusStats`, as far as the version has it: `last_ingest` in seconds since 1970, `none`
-- where nothing was ingested, which is Go's zero time.
pub record CorpusStats : Type 0 where
  pub ready_docs : ℕ
  pub chunks : ℕ
  pub last_ingest : Option ℕ

-- The service with its configuration and what it calls outside the repository. A Boolean `..._up`
-- says whether that call succeeds. `fails` is the error of `emit` behind the events so far;
-- `open_stream` is the header of the model's answer, with the lines of its body and whether reading
-- them fails.
pub record Service (F E : Type 0) : Type 0 where
  pub has_cache : Bool
  pub redis_up : Bool
  pub now : ℕ
  pub unix_base36 : Bytes
  pub per_minute : ℤ
  pub burst : ℤ
  pub context_top_n : ℤ
  pub rerank_top_n : ℤ
  pub history_turns : ℤ
  pub digest : Bytes → Bytes
  pub embedding_model : Bytes
  pub embedding_dim : ℕ
  pub dim_of : E → ℕ
  pub embed : Bytes → Option E
  pub keyword_search : Bytes → ℤ → Option (List (Chunk F))
  pub hybrid_search : E → Bytes → ℤ → Option (List (Chunk F))
  pub stats : Option CorpusStats
  pub history_up : Bool
  pub append_question_up : Bool
  pub append_answer_up : Bool
  pub log_up : Bool
  pub llm_model : Bytes
  pub reranker_name : Bytes
  pub rerank : Bytes → List (Chunk F) → ℤ → Ranking F
  pub open_stream : List Content → Option (List Bytes × Bool)
  pub decode : Bytes → Option ApiResponse
  pub fails : List Event → Event → Bool
