-- ===== src/Api/Ask/Streams.antt =====
-- What `chatStream` sends, by the kind of answer that was asked for and by how the answer ends.
use ragline.Base.{
  ℕ, ◌≡◌, Bool, true, false, ◌||◌, List, ◌++◌, Option, none, some, Bytes, codes, ◌⊎◌, inl, inr,
}
use ragline.RateLimit.{retry_after_header}
use ragline.Chat.Types.{
  Event, Result, AnswerError, rate_limited, Outcome, answered, failed, panicked, Service,
}
use ragline.Chat.Answer.{answer}
use ragline.Chat.Events.Stages.{Sent}
use ragline.Api.{write_error, write_json}
use ragline.Api.Ask.{
  ChatRequest, HttpRequest, Server, Call, World, ChatReply, plain, too_many_requests, streamed,
  aborted, stream_aborted, client_id, ensured, is_streaming, request_for, quiet,
}

abbrev pub is_limit : AnswerError → Bool
is_limit (rate_limited wait) = true
is_limit _ = false

module _ {F : Type 0} (s : Server) where
  -- The one answer to a request that wants no stream, by the end of its answer.
  pub data Single : Outcome F → ChatReply F → Type 0 where
    whole : (r : Result F) → Single (answered r) (plain (write_json 200 r))
    limited :
        (wait : ℕ)
        → Single
            (failed (rate_limited wait))
            (too_many_requests (retry_after_header wait) (s.error_text (rate_limited wait)))
    broken :
        (e : AnswerError)
        → is_limit e ≡ false
        → Single (failed e) (plain (write_error 500 (s.error_text e)))
    none_sent : Single panicked aborted

module _ {F : Type 0} (s : Server) (call : Call) where
  -- The end of a stream: the last event of an answer, the event of its error, or nothing, where the
  -- client is gone or the answer panicked.
  pub data Closed : List Event → Outcome F → ChatReply F → Type 0 where
    with_done :
        (es : List Event) (r : Result F)
        → Sent es (answered r)
        → Closed es (answered r) (streamed none)
    with_error :
        (es : List Event) (e : AnswerError)
        → Sent {F = F} es (failed e)
        → (call.is_cancelled e || call.error_event_fails) ≡ false
        → Closed es (failed e) (streamed (some (s.error_text e)))
    cut_off :
        (es : List Event) (e : AnswerError)
        → Sent {F = F} es (failed e)
        → (call.is_cancelled e || call.error_event_fails) ≡ true
        → Closed es (failed e) (streamed none)
    torn : (es : List Event) → Sent {F = F} es panicked → Closed es panicked stream_aborted

module _ {F E : Type 0} (s : Server) (call : Call) where
  -- How a request is served, by what its body comes to.
  pub data Served (sv : Service F E) (r : HttpRequest) (w : World E)
      : Bytes ⊎ (ChatRequest × Option ℕ) → World E × ChatReply F → Type 0 where
    bad_request : (e : Bytes) → Served sv r w (inl e) (w, plain (write_error 400 e))
    no_flush :
        (req : ChatRequest) (c : Option ℕ)
        → is_streaming req.stream ≡ true
        → r.flushes ≡ false
        → Served sv r w (inr (req, c)) (
          record w { tables = ensured call c (client_id s r) w.tables },
          plain (write_error 500 (codes "streaming unsupported by this server")),
        )
    single :
        (req : ChatRequest) (c : Option ℕ) (v : World E) (reply : ChatReply F)
        → is_streaming req.stream ≡ false
        → v.chat.events ≡ w.chat.events
        → Single s (answer (quiet s sv) (request_for req c (client_id s r)) w.chat).1 reply
        → Served sv r w (inr (req, c)) (v, reply)
    stream :
        (req : ChatRequest) (c : Option ℕ) (v : World E) (reply : ChatReply F) (new : List Event)
        → is_streaming req.stream ≡ true
        → v.chat.events ≡ w.chat.events ++ new
        → Closed s call new (answer sv (request_for req c (client_id s r)) w.chat).1 reply
        → Served sv r w (inr (req, c)) (v, reply)
