-- ===== src/Lib.antt =====
-- Verification of the Go service of ragline, which answers questions from indexed documents. A
-- question passes the rate limiter, is looked up among the cached answers, embedded and searched
-- for; the passages found are reranked, a language model streams an answer from them, and the
-- answer's citations are checked against the passages.
--
-- Files, with the code that each one models:
-- - RateLimit: the token bucket (internal/cache/cache.go, tokenBucketScript and Cache.Allow),
--   checkRateLimit (internal/chat/chat.go) and the Retry-After header of writeChatError
--   (internal/api/server.go).
-- - Cache: the keys of the cached answers and embeddings (internal/cache/cache.go,
--   normalizeQuestion, AnswerKey, EmbeddingKey). Cache.Entries: GetAnswer, PutAnswer,
--   GetEmbedding, PutEmbedding and InvalidateAnswers, over a Redis that is an argument.
--   Cache.Entries.Cleared has what is assumed of its DEL and SCAN.
-- - Citations: the regular expressions of the markers as a scanner, parseCitations and
--   stripUnknownMarkers (internal/chat/chat.go).
-- - Chat: Service.Answer (internal/chat/chat.go) as explicit passing of a World, which holds the
--   buckets, the caches, the messages, the query log, the events sent and the requests to the
--   model. Chat.Types has the data, Chat.Prompt buildContents and snippet, Chat.Steps what the
--   path is put together from, Chat.Answer the path, Chat.Search Service.Search, Chat.Corpus the
--   service over the tables of the store and the reranker of a mode, as main
--   (cmd/gateway/main.go) builds it. It calls RateLimit, Cache, Llm.Stream and Citations, and
--   takes the reranker as a function, which Rerank provides.
-- - Llm.Stream: the read loop of Client.Stream (internal/llm/gemini.go). Llm.Retry: doWithRetry
--   and openStream there, and post (internal/embed/embed.go). Llm.Extract: ExtractJSON.
--   Llm.Generate: build and Generate. Llm.Redact: redact and truncate, there and in
--   internal/embed/embed.go.
-- - Rerank: Noop.Rerank, LLMReranker.Rerank and buildPrompt (internal/rerank/rerank.go).
--   Rerank.Decode: parseScores and flattenScoreItems. Rerank.Modes: New, NewLLM and Name.
-- - Embed: Embed, EmbedBatch, Normalize and Cosine (internal/embed/embed.go).
-- - Store: the rows that retrieval returns, and the tables (internal/store/store.go):
--   Store.Documents has CreateDocument, Document, ListDocuments and the counts of CorpusStats,
--   Store.Conversations EnsureConversation, AppendMessage and History, Store.Fusion the two arms
--   of HybridSearch, their fusion by reciprocal ranks, and KeywordSearch, Store.Passages the
--   joins of both searches with the chunks and the documents, and Neighbours, Store.Terms the
--   triggers of internal/store/schema.sql that keep the statistics of the terms, and Store.Bm25
--   the keyword arm of hybridSearchBM25SQL and keywordSearchBM25SQL over them, Store.Telemetry
--   LogQuery and Stats, Store.Vectors vectorLiteral. A table is the list of its rows in the order
--   of insertion, except that the four tables of the statistics in Store.Terms are functions of
--   their keys.
-- - Queue: IngestJob and Publish (internal/queue/queue.go), over the topic as the list of its
--   messages.
-- - Api: the HTTP handlers (internal/api/server.go). Api.Upload has uploadDocument, over the
--   table of documents and the topic; Api.Ask chatStream, clientID and searchOnly, over Chat and
--   the table of conversations; Api.Reads the handlers that read; Api.Telemetry stats and
--   healthz; Api.Heading firstHeading.
-- - Config: Load and the readers of the environment (internal/config/config.go).
-- - Gateway: openStoreWithRetry and the start of main (cmd/gateway/main.go), over Config and
--   Chat.
-- - Base: shared helpers: Boolean tests, lists measured by native numbers, signed integers, and
--   text as bytes with the functions of Go's strings package that the code calls.
--
-- Texts are lists of bytes, and white space, case and punctuation are those of ASCII. Numbers are
-- unbounded: the code counts chunks, tokens and nanoseconds, far from the bounds of int64. The
-- rate limiter is computed exactly where the script computes in floating point; times are
-- nanoseconds and a token is divided so that a refill is a whole number. The sums of reciprocal
-- ranks are exact fractions where PostgreSQL rounds them. The scores of the reranker are any type
-- with a strict weak order, which is what sorting asks of float64. Loops are structural
-- recursion, except the scanner of markers, whose fuel is the length of the text, since each
-- round takes a byte or more; the digits of a number, whose fuel is the number; and the retry
-- loop, whose fuel is the number of attempts left, as in the code, and so is that of opening the
-- store; the loop of InvalidateAnswers, whose fuel is the number of scans until the cursor is 0
-- again.
--
-- Parameters stand for what is outside the repository: the reading and writing of JSON text and
-- of single frames, the arithmetic on floats, SHA-256, the clock, the identifiers that are drawn,
-- the distances of vectors, the scores of ts_rank_cd, the lexemes of a text, whether a statement
-- runs, the commands GET, SET and DEL of Redis and what it answers to a scan of its keys, what
-- the broker makes of a message, the answers of the embedding and the language model, and whether
-- Redis and the store answer. Not modelled: durations and the cost in dollars, the creation of
-- topics, the listener and the shutdown of the process, and the Python programs beside the
-- service.
pub mod Api
pub mod Base
pub mod Cache
pub mod Chat
pub mod Citations
pub mod Config
pub mod Embed
pub mod Gateway
pub mod Llm
pub mod Queue
pub mod RateLimit
pub mod Rerank
pub mod Store
