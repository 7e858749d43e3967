-- ===== src/Chat/Events.antt =====
-- The order of the events that one request sends.
pub mod Stages
use ragline.Base.{
  ℕ, ◌≡◌, refl, sym, ap, ◌∙◌, Bool, true, false, ◌&&◌, List, [], ◌∷◌, ◌++◌, append_assoc,
  append-nil, Option, none, some, Bytes, length, trim_space, if◌then◌else◌,
}
use ragline.RateLimit.{check_rate_limit}
use ragline.Citations.{parse_citations}
use ragline.Store.{Chunk}
use ragline.Rerank.{Ranking}
use ragline.Llm.Stream.{
  Response, StreamEnd, complete, aborted, broken, StreamEvent, delta, finished, stream_body,
}
use ragline.Llm.Stream.Invariant.{Tracks, stream_body-tracks}
use ragline.Cache.{CachedAnswer, embedding_key}
use ragline.Chat.Types.{
  Request, Citation, Usage, Event, sources, token, done, Result, Outcome, answered, failed,
  panicked, World, Service, emit_failed,
}
use ragline.Chat.Prompt.{build_contents}
use ragline.Chat.Steps.{
  Turn, cited_sources, sources_of, send, checked_answer, refuse, replay, embed_question, reuse,
  right_dim, search, keep_embedding,
}
use ragline.Chat.Answer.{
  conclude, conclude_cited, verify, on_event, on_end, on_open, generate, ground_answer,
  with_candidates, retrieve, serve, admit, ask, answer, turn_of, lookup, ranked_usage,
  answered_usage,
}
use ragline.Chat.Events.Stages.{
  Sent, silent, refused_at_once, whole, broken_off, from_cache, SentBehind, stopped, either,
  quiet_end, generate-Sent,
}

module _ {F E : Type 0} (sv : Service F E) where
  ground_answer-Sent :
      (t : Turn) (u : Usage) (r : Ranking F) (w : World E)
      → u.cache_hit ≡ false
      → SentBehind w (ground_answer sv t u r w)
  unfolding ground_answer
  ground_answer-Sent t u none w fresh = quiet_end w w panicked refl refl
  ground_answer-Sent t u (some (ranked, stats, e)) w fresh =
      let cites = sources_of t.req.include_source_text 1 ranked in
      let u' = ranked_usage u (length ranked) stats in
      let (w', bad) = send sv w (sources cites) in
      either w bad (w', failed emit_failed) (generate sv t ranked u' cites w')
        (stopped w w' (failed emit_failed) cites [] refl ([], refl, refl))
        (generate-Sent sv t w ranked u' cites fresh w' ([], refl, refl))

  with_candidates-Sent :
      (t : Turn) (o : Option (List (Chunk F))) (w : World E)
      → t.usage.cache_hit ≡ false
      → SentBehind w (with_candidates sv t o w)
  unfolding with_candidates
  with_candidates-Sent t none w fresh = quiet_end w w _ refl refl
  with_candidates-Sent t (some []) w fresh =
      unfold refuse in (_, append_assoc w.events (_ ∷ []) (_ ∷ []), refused_at_once _ _ refl)
  with_candidates-Sent t (some (c ∷ cs)) w fresh =
      let u : Usage = record t.usage { retrieved = length (c ∷ cs) } in
      ground_answer-Sent t u (sv.rerank t.question (c ∷ cs) t.top_n) w fresh

  -- Events are counted from a world with the same events.
  from_same :
      (w w1 : World E) (x : World E × Outcome F)
      → w1.events ≡ w.events
      → SentBehind w1 x
      → SentBehind w x
  from_same w w1 x e (new, h, s) = (new, h ∙ ap (λ es. es ++ new) e, s)

  keep_embedding-events :
      (key : Bytes) (o : Option E) (w : World E) → (keep_embedding sv key o w).0.events ≡ w.events
  keep_embedding-events key none w = refl
  keep_embedding-events key (some v) w = refl

  reuse-events :
      (o : Option E) (key q : Bytes) (w : World E) → (reuse sv o key q w).0.events ≡ w.events
  reuse-events (some v) key q w = refl
  reuse-events none key q w = keep_embedding-events key (sv.embed q) w

  embed_question-events : (q : Bytes) (w : World E) → (embed_question sv q w).0.events ≡ w.events
  unfolding embed_question
  embed_question-events q w =
      let key = embedding_key sv.digest q sv.embedding_model sv.embedding_dim in
      let found = right_dim sv (w.embeddings key) in
      reuse-events (if sv.has_cache && sv.redis_up then found else none) key q w

  serve-Sent :
      (t : Turn) (o : Option CachedAnswer) (w : World E)
      → t.usage.cache_hit ≡ false
      → SentBehind w (serve sv t o w)
  unfolding serve retrieve
  serve-Sent t (some cached) w fresh =
      unfold replay in
      (
        _,
        append_assoc (w.events ++ _ ∷ []) (_ ∷ []) (_ ∷ [])
            ∙ append_assoc w.events (_ ∷ []) (_ ∷ _ ∷ []),
        whole _ (cached.answer ∷ []) _ refl
            (from_cache _ refl refl (sym (append-nil cached.answer))),
      )
  serve-Sent t none w fresh =
      let (w1, v) = embed_question sv t.question w in
      from_same w w1 (with_candidates sv t (search sv v t.question) w1)
        (embed_question-events t.question w)
        (with_candidates-Sent t (search sv v t.question) w1 fresh)

  admit-Sent :
      (req : Request) (q : Bytes) (o : Option ℕ) (w : World E) → SentBehind w (admit sv req q o w)
  unfolding admit
  admit-Sent req q (some wait) w = quiet_end w w _ refl refl
  admit-Sent req q none w =
      let t = turn_of sv req q w in
      serve-Sent t (lookup sv t.cacheable t.key w) w (unfold turn_of in refl)

  ask-Sent : (req : Request) (q : Bytes) (w : World E) → SentBehind w (ask sv req q w)
  unfolding ask
  ask-Sent req [] w = quiet_end w w _ refl refl
  ask-Sent req (c ∷ s) w =
      let (r, o) =
        check_rate_limit sv.has_cache sv.redis_up sv.now req.client_id sv.per_minute sv.burst
          w.redis in
      let w1 : World E = record w { redis = r } in
      from_same w w1 (admit sv req (c ∷ s) o w1) refl (admit-Sent req (c ∷ s) o w1)

-- The events of a request come in order: the sources, then the tokens, then one last event with the
-- result's usage, which comes exactly where there is a result. The tokens spell the text of which the
-- result's answer is the checked form, and the sources are the result's; for a cached answer they spell
-- the answer itself, and the sources are its citations. A refusal has one token and no sources, and a
-- request that ends with an error sends nothing, or the sources and some tokens.
pub answer-Sent :
    {F E : Type 0} (sv : Service F E) (req : Request) (w : World E) → SentBehind w (answer sv req w)
unfolding answer
answer-Sent sv req w = ask-Sent sv req (trim_space req.question) w
