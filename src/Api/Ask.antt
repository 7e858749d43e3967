-- ===== src/Api/Ask.antt =====
-- internal/api/server.go: `chatStream`, `clientID` and `searchOnly`, over the answers of
-- internal/chat. Readers of JSON, addresses and identifiers, and the texts of errors, are arguments.
pub mod Streams
use ragline.Base.{
  ℕ, Bool, true, false, not, ◌||◌, List, [], ◌∷◌, ◌++◌, Option, none, some, Bytes, codes, take,
  trim_space, ◌⊎◌, inl, inr, ℤ, is_positive, if◌then◌else◌, ◌==◌,
}
use ragline.RateLimit.{retry_after_header}
use ragline.Store.{Chunk}
use ragline.Store.Conversations.{Tables, ensure_conversation}
use ragline.Chat.Types.{
  Request, Event, Result, AnswerError, rate_limited, question_empty, retrieval, emit_failed,
  generation, Outcome, answered, failed, panicked, Service,
}
use ragline.Chat.Types
use ragline.Chat.Answer.{answer}
use ragline.Chat.Search.{
  SearchTimings, SearchOutcome, search_found, search_failed, search_panicked, search_only,
}
use ragline.Api.{Reply, write_error, write_json}
use ragline.Api.Heading.{split, first_of, is_blank}

-- `chatRequest`; `stream` may be missing.
pub record ChatRequest : Type 0 where
  pub question : Bytes
  pub conversation_id : Bytes
  pub no_cache : Bool
  pub top_n : ℤ
  pub include_source_text : Bool
  pub stream : Option Bool

-- The body of `POST /v1/search`.
pub record SearchRequest : Type 0 where
  pub query : Bytes
  pub top_n : ℤ
  pub no_rerank : Bool

-- The request: its body, the headers that name the client, its address, and whether the writer of
-- the answer can flush.
pub record HttpRequest : Type 0 where
  pub body : Bytes
  pub x_client_id : Bytes
  pub x_forwarded_for : Bytes
  pub remote_addr : Bytes
  pub flushes : Bool

-- What the handlers call outside the repository. `split_host_port` is `net.SplitHostPort`, without
-- the port.
pub record Server : Type 0 where
  pub decode_chat : Bytes → Bytes ⊎ ChatRequest
  pub decode_search : Bytes → Option SearchRequest
  pub parse_uuid : Bytes → Option ℕ
  pub split_host_port : Bytes → Option Bytes
  pub error_text : AnswerError → Bytes

-- What is given at one call: whether the statement of `EnsureConversation` runs, the new identifier
-- and the time, whether the error of an answer is that the context was cancelled, and whether the
-- event of an error cannot be sent.
pub record Call : Type 0 where
  pub ensure_up : Bool
  pub fresh : ℕ
  pub now : ℕ
  pub is_cancelled : AnswerError → Bool
  pub error_event_fails : Bool

-- The table of conversations, and what an answer changes, its messages among it.
pub record World (E : Type 0) : Type 0 where
  pub tables : Tables
  pub chat : ragline.Chat.Types.World E

-- How `chatStream` answers: with a status and a body, with 429 and its `Retry-After`, or with the
-- headers of a stream, whose events are in the world, and the event of an error behind them. A panic
-- ends either without more.
pub data ChatReply (F : Type 0) : Type 0 where
  plain : Reply (Result F) → ChatReply F
  too_many_requests : ℕ → Bytes → ChatReply F
  streamed : Option Bytes → ChatReply F
  aborted stream_aborted : ChatReply F

-- How `searchOnly` answers; a panic ends it without an answer.
pub data SearchReply (F : Type 0) : Type 0 where
  search_plain : Reply (List (Chunk F) × SearchTimings) → SearchReply F
  search_aborted : SearchReply F

-- `io.LimitReader(r.Body, 1<<20)`
abbrev pub max_body : ℕ
max_body = 1048576

-- `clientID`
abbrev pub host_or_all : Bytes → Option Bytes → Bytes
host_or_all addr none = addr
host_or_all addr (some host) = host

unfoldable pub client_id : Server → HttpRequest → Bytes
unfolding split trim_space
client_id s r =
    if not (is_blank r.x_client_id)
    then r.x_client_id
    else if not (is_blank r.x_forwarded_for)
    then trim_space (first_of (split b',' r.x_forwarded_for))
    else host_or_all r.remote_addr (s.split_host_port r.remote_addr)

-- The conversation that a request names, where 0 is `uuid.Nil`; `inl` is an identifier that cannot be
-- read.
abbrev pub known : ℕ → Option ℕ
known i = if i == 0 then none else some i

abbrev pub parsed_conversation : Option ℕ → Bytes ⊎ Option ℕ
parsed_conversation none = inl (codes "invalid conversation_id")
parsed_conversation (some i) = inr (known i)

abbrev pub conversation_of : Server → Bytes → Bytes ⊎ Option ℕ
conversation_of s [] = inr none
conversation_of s (c ∷ t) = parsed_conversation (s.parse_uuid (c ∷ t))

abbrev pub with_conversation : ChatRequest → Bytes ⊎ Option ℕ → Bytes ⊎ (ChatRequest × Option ℕ)
with_conversation req (inl e) = inl e
with_conversation req (inr c) = inr (req, c)

-- The request that the body comes to, or the text of the error that goes with status 400.
unfoldable pub check_chat : Server → Bytes ⊎ ChatRequest → Bytes ⊎ (ChatRequest × Option ℕ)
unfolding trim_space
check_chat s (inl e) = inl (codes "malformed JSON: " ++ e)
check_chat s (inr req) =
    if is_blank (trim_space req.question)
    then inl (codes "question is required")
    else with_conversation req (conversation_of s req.conversation_id)

unfoldable pub read_chat : Server → HttpRequest → Bytes ⊎ (ChatRequest × Option ℕ)
unfolding check_chat
read_chat s r = check_chat s (s.decode_chat (take max_body r.body))

abbrev pub is_streaming : Option Bool → Bool
is_streaming none = true
is_streaming (some b) = b

abbrev pub request_for : ChatRequest → Option ℕ → Bytes → Request
request_for req conversation client = record {
  question = req.question;
  conversation = conversation;
  client_id = client;
  no_cache = req.no_cache;
  top_n = req.top_n;
  include_source_text = req.include_source_text;
}

-- `EnsureConversation`, whose error is only logged.
abbrev pub ensured : Call → Option ℕ → Bytes → Tables → Tables
ensured call none client t = t
ensured call (some i) client t =
    (ensure_conversation call.ensure_up call.fresh call.now i client t).0

-- `writeChatError`
unfoldable pub write_chat_error : {F : Type 0} → Server → AnswerError → ChatReply F
write_chat_error s (rate_limited wait) =
    too_many_requests (retry_after_header wait) (s.error_text (rate_limited wait))
write_chat_error s question_empty = plain (write_error 500 (s.error_text question_empty))
write_chat_error s retrieval = plain (write_error 500 (s.error_text retrieval))
write_chat_error s emit_failed = plain (write_error 500 (s.error_text emit_failed))
write_chat_error s generation = plain (write_error 500 (s.error_text generation))

module _ {F E : Type 0} (s : Server) (sv : Service F E) where
  -- The service with no function to send events to.
  abbrev pub quiet : Service F E
  quiet = record sv { fails = λ es e. false }

  abbrev pub reply_for : Outcome F → ChatReply F
  reply_for (answered r) = plain (write_json 200 r)
  reply_for (failed e) = write_chat_error s e
  reply_for panicked = aborted

  -- What the stream says behind the events of the answer.
  abbrev pub closing : Call → Outcome F → ChatReply F
  closing call (answered r) = streamed none
  closing call (failed e) =
      streamed
        (if call.is_cancelled e || call.error_event_fails then none else some (s.error_text e))
  closing call panicked = stream_aborted

  unfoldable pub respond : Call → Bool → Bool → Request → World E → World E × ChatReply F
  unfolding answer write_chat_error
  respond call false flushes req w =
      let (chat, o) = answer quiet req w.chat in
      (record w { chat = record chat { events = w.chat.events } }, reply_for o)
  respond call true false req w =
      (w, plain (write_error 500 (codes "streaming unsupported by this server")))
  respond call true true req w =
      let (chat, o) = answer sv req w.chat in (record w { chat = chat }, closing call o)

  unfoldable pub handle_chat :
      Call → HttpRequest → Bytes ⊎ (ChatRequest × Option ℕ) → World E → World E × ChatReply F
  unfolding respond client_id
  handle_chat call r (inl e) w = (w, plain (write_error 400 e))
  handle_chat call r (inr (req, conversation)) w =
      let client = client_id s r in
      respond call (is_streaming req.stream) r.flushes (request_for req conversation client)
        (record w { tables = ensured call conversation client w.tables })

  -- `chatStream`
  unfoldable pub chat_stream : Call → HttpRequest → World E → World E × ChatReply F
  unfolding read_chat handle_chat
  chat_stream call r w = handle_chat call r (read_chat s r) w

  abbrev pub search_reply : SearchOutcome F → SearchReply F
  search_reply (search_found cs t) = search_plain (write_json 200 (cs, t))
  search_reply (search_failed t) = search_plain (write_error 500 (s.error_text retrieval))
  search_reply search_panicked = search_aborted

  -- `searchOnly`
  unfoldable pub find_chunks :
      Option SearchRequest → ragline.Chat.Types.World E → ragline.Chat.Types.World E × SearchReply F
  unfolding search_only trim_space
  find_chunks none w = (w, search_plain (write_error 400 (codes "malformed JSON")))
  find_chunks (some req) w =
      let top_n = if is_positive req.top_n then req.top_n else sv.context_top_n in
      let (w', o) = search_only sv req.query top_n req.no_rerank w in
      if is_blank (trim_space req.query)
      then (w, search_plain (write_error 400 (codes "query is required")))
      else (w', search_reply o)

  unfoldable pub search_handler :
      HttpRequest → ragline.Chat.Types.World E → ragline.Chat.Types.World E × SearchReply F
  unfolding find_chunks
  search_handler r w = find_chunks (s.decode_search (take max_body r.body)) w
