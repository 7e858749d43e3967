-- ===== src/Chat/Answer.antt =====
-- internal/chat/chat.go: `Service.Answer` from the question to the result, in the order of the code.
use ragline.Base.{
  ℕ, ◌+◌, Bool, true, false, not, ◌&&◌, List, [], ◌∷◌, ◌++◌, Option, none, some, Bytes, trim_space,
  if◌then◌else◌, is_positive, length,
}
use ragline.RateLimit.{check_rate_limit}
use ragline.Cache.{CachedAnswer, answer_key}
use ragline.Citations.{parse_citations}
use ragline.Store.{Chunk}
use ragline.Rerank.{Ranking, Stats}
use ragline.Llm.Stream.{
  Response, StreamEnd, complete, aborted, broken, StreamEvent, delta, finished, stream_body,
}
use ragline.Chat.Prompt.{build_contents}
use ragline.Chat.Types.{
  Request, Citation, Usage, sources, token, done, Outcome, answered, failed, panicked, World,
  Service, question_empty, retrieval, emit_failed, generation, rate_limited,
}
use ragline.Chat.Steps.{
  Turn, is_empty, cited_sources, cited_ids, sources_of, chunk_ids, checked_answer, send, tell,
  log_query, history_of, corpus_version, embed_question, search, replay, refuse, append_turn,
  put_answer,
}

-- The accounting behind the reranker, and behind the model.
abbrev pub ranked_usage : Usage → ℕ → Stats → Usage
ranked_usage u n stats = record u {
  used = n;
  prompt_tokens = u.prompt_tokens + stats.prompt_tokens;
  output_tokens = u.output_tokens + stats.output_tokens;
}

abbrev pub answered_usage : Usage → Response → Usage
answered_usage u resp = record u {
  prompt_tokens = u.prompt_tokens + resp.usage.prompt_tokens;
  output_tokens = u.output_tokens + resp.usage.output_tokens;
}

module _ {F E : Type 0} (sv : Service F E) where
  -- What `PutAnswer` is given.
  abbrev pub entry_of : List (Chunk F) → Bytes → List Citation → CachedAnswer
  entry_of ranked answer citations = record {
    answer = answer;
    chunk_ids = chunk_ids ranked;
    citations = cited_ids citations;
    model = sv.llm_model;
  }

  -- Behind the check of the citations: the cache, the conversation, the log, the last event.
  unfoldable pub conclude :
      Turn
      → List (Chunk F)
      → Usage
      → Bytes
      → List Citation
      → List Citation
      → World E
      → World E × Outcome F
  conclude t ranked usage answer cites citations w =
      let ids = chunk_ids ranked in
      let cited = cited_ids citations in
      let w = put_answer sv t.cacheable t.key (entry_of ranked answer citations) w in
      let w = record w {
        messages = append_turn sv t.req.conversation t.question answer cited w.messages;
      } in
      let w = log_query sv w t ids cited usage true [] in
      (
        tell sv w (done usage),
        answered (record {
          answer = answer;
          citations = citations;
          sources = cites;
          retrieved = ranked;
          usage = usage;
          refused = false;
          reason = [];
        }),
      )

  abbrev pub conclude_cited :
      Turn
      → List (Chunk F)
      → Usage
      → Bytes
      → List Citation
      → Option (List Citation)
      → World E
      → World E × Outcome F
  conclude_cited t ranked usage answer cites none w = (w, panicked)
  conclude_cited t ranked usage answer cites (some citations) w =
      conclude t ranked usage answer cites citations w

  -- The citations of a complete answer, checked.
  unfoldable pub verify :
      Turn → List (Chunk F) → Usage → List Citation → Response → World E → World E × Outcome F
  unfolding conclude cited_sources checked_answer parse_citations
  verify t ranked usage cites resp w =
      let found = parse_citations resp.text (length ranked) in
      let usage = answered_usage usage resp in
      conclude_cited t ranked usage (checked_answer resp.text found.1) cites
        (cited_sources cites found.0) w

  -- The callback of `Stream`.
  abbrev pub on_event : StreamEvent → World E → World E × Bool
  on_event (delta s) w = send sv w (token s)
  on_event (finished u) w = (w, false)

  abbrev pub on_end :
      Turn
      → List (Chunk F)
      → Usage
      → List Citation
      → Response × World E × StreamEnd
      → World E × Outcome F
  on_end t ranked usage cites (resp, w, complete) = verify t ranked usage cites resp w
  on_end t ranked usage cites (resp, w, aborted) = (w, failed generation)
  on_end t ranked usage cites (resp, w, broken) = (w, failed generation)

  abbrev pub on_open :
      Turn
      → List (Chunk F)
      → Usage
      → List Citation
      → Option (List Bytes × Bool)
      → World E
      → World E × Outcome F
  on_open t ranked usage cites none w = (w, failed generation)
  on_open t ranked usage cites (some (lines, scan_failed)) w =
      on_end t ranked usage cites (stream_body on_event sv.decode lines scan_failed w)

  -- The call of the model.
  unfoldable pub generate :
      Turn → List (Chunk F) → Usage → List Citation → World E → World E × Outcome F
  unfolding verify build_contents stream_body
  generate t ranked usage cites w =
      let contents = build_contents t.history t.question ranked in
      on_open t ranked usage cites (sv.open_stream contents)
        (record w { asked = w.asked ++ contents ∷ [] })

  -- Behind the reranker: the sources go out before the first token.
  unfoldable pub ground_answer : Turn → Usage → Ranking F → World E → World E × Outcome F
  unfolding generate sources_of
  ground_answer t usage none w = (w, panicked)
  ground_answer t usage (some (ranked, stats, err)) w =
      let usage = ranked_usage usage (length ranked) stats in
      let cites = sources_of t.req.include_source_text 1 ranked in
      let (w, bad) = send sv w (sources cites) in
      let more = generate t ranked usage cites w in if bad then (w, failed emit_failed) else more

  -- The candidates: an error, nothing, or something to rank.
  unfoldable pub with_candidates : Turn → Option (List (Chunk F)) → World E → World E × Outcome F
  unfolding refuse ground_answer
  with_candidates t none w = (w, failed retrieval)
  with_candidates t (some []) w = refuse sv t w
  with_candidates t (some (c ∷ cs)) w =
      let usage = record t.usage { retrieved = length (c ∷ cs) } in
      ground_answer t usage (sv.rerank t.question (c ∷ cs) t.top_n) w

  unfoldable pub retrieve : Turn → World E → World E × Outcome F
  unfolding embed_question search with_candidates
  retrieve t w =
      let (w, vector) = embed_question sv t.question w in
      with_candidates t (search sv vector t.question) w

  -- `GetAnswer`, where the answer is cacheable; an error counts as a miss.
  abbrev pub lookup : Bool → Bytes → World E → Option CachedAnswer
  lookup cacheable key w = if cacheable && sv.redis_up then w.answers key else none

  unfoldable pub serve : Turn → Option CachedAnswer → World E → World E × Outcome F
  unfolding replay retrieve
  serve t (some cached) w = replay sv t cached w
  serve t none w = retrieve t w

  abbrev pub fresh_usage : Usage
  fresh_usage = record {
    cache_hit = false;
    model = sv.llm_model;
    reranker = sv.reranker_name;
    retrieved = 0;
    used = 0;
    prompt_tokens = 0;
    output_tokens = 0;
  }

  -- The local variables behind the rate limit.
  unfoldable pub turn_of : Request → Bytes → World E → Turn
  unfolding history_of corpus_version answer_key
  turn_of req question w =
      let history = history_of sv req.conversation w in
      record {
        req = req;
        question = question;
        top_n = if is_positive req.top_n then req.top_n else sv.context_top_n;
        history = history;
        key = answer_key sv.digest question (corpus_version sv sv.stats);
        cacheable = is_empty history && not req.no_cache && sv.has_cache;
        usage = fresh_usage;
      }

  unfoldable pub admit : Request → Bytes → Option ℕ → World E → World E × Outcome F
  unfolding turn_of serve
  admit req question (some wait) w = (w, failed (rate_limited wait))
  admit req question none w =
      let t = turn_of req question w in serve t (lookup t.cacheable t.key w) w

  unfoldable pub ask : Request → Bytes → World E → World E × Outcome F
  unfolding admit check_rate_limit
  ask req [] w = (w, failed question_empty)
  ask req (c ∷ s) w =
      let (r, refused) =
        check_rate_limit sv.has_cache sv.redis_up sv.now req.client_id sv.per_minute sv.burst
          w.redis in
      admit req (c ∷ s) refused (record w { redis = r })

  -- `Answer`
  unfoldable pub answer : Request → World E → World E × Outcome F
  unfolding ask trim_space
  answer req w = ask req (trim_space req.question) w
