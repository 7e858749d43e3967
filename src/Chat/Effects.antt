-- ===== src/Chat/Effects.antt =====
-- What one request asks of the model, and when it touches the cached answers.
mod Stages
use ragline.Base.{
  ℕ, ◌≡◌, refl, sym, ap, ◌∙◌, Bool, true, false, ◌&&◌, List, [], ◌∷◌, ◌++◌, append-nil, Option,
  none, some, Bytes, length, ◌⊎◌, inl, inr, trim_space, if◌then◌else◌,
}
use ragline.RateLimit.{check_rate_limit, Redis}
use ragline.Citations.{parse_citations}
use ragline.Store.{Chunk}
use ragline.Rerank.{Ranking}
use ragline.Llm.Stream.{
  Response, StreamEnd, complete, aborted, broken, StreamEvent, delta, finished, stream_body,
}
use ragline.Llm.Stream.Invariant.{stream_body-keeps}
use ragline.Cache.{CachedAnswer, embedding_key}
use ragline.Chat.Types.{
  Request, Citation, Usage, sources, Content, Outcome, World, Service, emit_failed, failed,
}
use ragline.Chat.Prompt.{build_contents}
use ragline.Chat.Steps.{
  Turn, cited_sources, sources_of, send, checked_answer, refuse, replay, history_of, embed_question,
  reuse, right_dim, search, keep_embedding,
}
use ragline.Chat.Answer.{
  conclude, conclude_cited, verify, on_event, on_end, on_open, generate, ground_answer,
  with_candidates, retrieve, serve, admit, ask, answer, turn_of, lookup, ranked_usage,
  answered_usage,
}
use ragline.Chat.Effects.Stages.{
  Grew, untouched, Evidence, no_request, moved, with_candidates-Evidence,
}

module _ {F E : Type 0} (sv : Service F E) where
  keep_embedding-same :
      (key : Bytes) (o : Option E) (w : World E)
      → ((keep_embedding sv key o w).0.asked ≡ w.asked)
        × ((keep_embedding sv key o w).0.answers ≡ w.answers)
  keep_embedding-same key none w = (refl, refl)
  keep_embedding-same key (some v) w = (refl, refl)

  reuse-same :
      (o : Option E) (key q : Bytes) (w : World E)
      → ((reuse sv o key q w).0.asked ≡ w.asked) × ((reuse sv o key q w).0.answers ≡ w.answers)
  reuse-same (some v) key q w = (refl, refl)
  reuse-same none key q w = keep_embedding-same key (sv.embed q) w

  embed_question-same :
      (q : Bytes) (w : World E)
      → ((embed_question sv q w).0.asked ≡ w.asked)
        × ((embed_question sv q w).0.answers ≡ w.answers)
  unfolding embed_question
  embed_question-same q w =
      let key = embedding_key sv.digest q sv.embedding_model sv.embedding_dim in
      let found = right_dim sv (w.embeddings key) in
      reuse-same (if sv.has_cache && sv.redis_up then found else none) key q w

  retrieve-Evidence :
      (t : Turn) (w : World E)
      → (v : Option E) × Evidence sv t (search sv v t.question) w (retrieve sv t w).0
  unfolding retrieve
  retrieve-Evidence t w =
      let (w1, v) = embed_question sv t.question w in
      let (p, q) = embed_question-same t.question w in
      (
        v,
        moved sv t (search sv v t.question) w w1 _ p q
            (with_candidates-Evidence sv t (search sv v t.question) w1),
      )

  serve-Evidence :
      (t : Turn) (o : Option CachedAnswer) (w : World E)
      → (v : Option E) × Evidence sv t (search sv v t.question) w (serve sv t o w).0
  unfolding serve
  serve-Evidence t (some cached) w =
      unfold replay in (none, no_request (untouched sv t w _ refl refl))
  serve-Evidence t none w = retrieve-Evidence t w

  -- What a request comes to: the words of `retrieve` on the search for its question.
  abbrev pub Bounded : Turn → World E → World E → Type 0
  Bounded t w w' = (v : Option E) × Evidence sv t (search sv v t.question) w w'

  history_of-redis :
      (o : Option ℕ) (w : World E) (r : Redis)
      → history_of sv o (record w { redis = r }) ≡ history_of sv o w
  unfolding history_of
  history_of-redis none w r = refl
  history_of-redis (some id) w r = refl

  turn_of-redis :
      (req : Request) (q : Bytes) (w : World E) (r : Redis)
      → turn_of sv req q (record w { redis = r }) ≡ turn_of sv req q w
  unfolding turn_of
  turn_of-redis req q w r = rw (history_of-redis req.conversation w r) refl

  from_turn :
      (t t1 : Turn) (w w1 w' : World E)
      → t1 ≡ t
      → w1.asked ≡ w.asked
      → w1.answers ≡ w.answers
      → Bounded t1 w1 w'
      → Bounded t w w'
  from_turn t t1 w w1 w' e p q b =
      let (v, ev) = rw e at b in (v, moved sv t (search sv v t.question) w w1 w' p q ev)

  admit-Bounded :
      (req : Request) (q : Bytes) (o : Option ℕ) (w : World E)
      → Bounded (turn_of sv req q w) w (admit sv req q o w).0
  unfolding admit
  admit-Bounded req q (some wait) w =
      (none, no_request (untouched sv (turn_of sv req q w) w w refl refl))
  admit-Bounded req q none w =
      let t = turn_of sv req q w in serve-Evidence t (lookup sv t.cacheable t.key w) w

  ask-Bounded :
      (req : Request) (q : Bytes) (w : World E) → Bounded (turn_of sv req q w) w (ask sv req q w).0
  unfolding ask
  ask-Bounded req [] w = (none, no_request (untouched sv (turn_of sv req [] w) w w refl refl))
  ask-Bounded req (c ∷ s) w =
      let (r, o) =
        check_rate_limit sv.has_cache sv.redis_up sv.now req.client_id sv.per_minute sv.burst
          w.redis in
      let w1 : World E = record w { redis = r } in
      let t = turn_of sv req (c ∷ s) w in
      let (v, e) = admit-Bounded req (c ∷ s) o w1 in
      from_turn t (turn_of sv req (c ∷ s) w1) w w1 _ (turn_of-redis req (c ∷ s) w r) refl refl
        (v, e)

-- A request asks the model at most once, and only if the search for its question returned a chunk;
-- the prompt is built from the history, the question and some passages. It leaves the cached answers
-- as they were if it has a history or forbids the cache, or there is none.
pub answer-Bounded :
    {F E : Type 0} (sv : Service F E) (req : Request) (w : World E)
    → Bounded sv (turn_of sv req (trim_space req.question) w) w (answer sv req w).0
unfolding answer
answer-Bounded sv req w = ask-Bounded sv req (trim_space req.question) w
