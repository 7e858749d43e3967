-- ===== src/Chat/Replay.antt =====
-- A repeated question: `Service.Answer` replays the answer that it has cached.
use ragline.Base.{
  ℕ, suc, ◌≡◌, refl, sym, ap, Bool, true, false, ◌&&◌, List, [], ◌∷◌, ◌++◌, Option, none, some,
  Bytes, bytes_eq_refl, length, trim_space, if◌then◌else◌,
}
use ragline.RateLimit.{check_rate_limit, Redis}
use ragline.Citations.{parse_citations}
use ragline.Store.{Chunk}
use ragline.Rerank.{Ranking}
use ragline.Llm.Stream.{Response, StreamEnd, complete, aborted, broken, stream_body}
use ragline.Cache.{CachedAnswer, answer_key}
use ragline.Chat.Types.{
  Request, Citation, Usage, sources, Result, Outcome, answered, failed, panicked, World, Service,
  emit_failed,
}
use ragline.Chat.Prompt.{build_contents}
use ragline.Chat.Steps.{
  Turn, cited_ids, hydrate_citations, cited_sources, sources_of, send, checked_answer, replay,
  refuse, corpus_version, history_of, embed_question, search,
}
use ragline.Chat.Answer.{
  conclude, entry_of, conclude_cited, verify, on_event, on_end, on_open, generate, ground_answer,
  with_candidates, retrieve, serve, admit, ask, answer, turn_of, lookup, ranked_usage,
  answered_usage,
}

-- Markers that count up by one.
abbrev pub Numbered : ℕ → List Citation → Type 0
Numbered n [] = Unit
Numbered n (c ∷ cs) = (c.marker ≡ n) × Numbered (suc n) cs

cited_ids-hydrate : (n : ℕ) (ids : List ℕ) → cited_ids (hydrate_citations n ids) ≡ ids
unfolding hydrate_citations
cited_ids-hydrate n [] = refl
cited_ids-hydrate n (id ∷ ids) = ap (◌∷◌ id) (cited_ids-hydrate (suc n) ids)

hydrate-Numbered : (n : ℕ) (ids : List ℕ) → Numbered n (hydrate_citations n ids)
unfolding hydrate_citations
hydrate-Numbered n [] = tt
hydrate-Numbered n (id ∷ ids) = (refl, hydrate-Numbered (suc n) ids)

module _ {F E : Type 0} where
  -- An answer that is no refusal is in the cache at the key, with the chunks that it cites.
  abbrev Kept : Bytes → World E → Outcome F → Type 0
  Kept key w (answered r) =
      r.refused ≡ false
      → (c : CachedAnswer) × (w.answers key ≡ some c)
        × (c.answer ≡ r.answer)
        × (c.citations ≡ cited_ids r.citations)
  Kept key w (failed e) = Unit
  Kept key w panicked = Unit

  abbrev KeptBy : Bytes → World E × Outcome F → Type 0
  KeptBy key x = Kept key x.0 x.1

  kept_either :
      (key : Bytes) (b : Bool) (x y : World E × Outcome F)
      → KeptBy key x
      → KeptBy key y
      → KeptBy key (if b then x else y)
  kept_either key true x y p q = p
  kept_either key false x y p q = q

  -- An answer out of the cache: the model is not asked, the text is the cached one, and the citations
  -- name the cached chunks, numbered from 1 whatever the markers in the text are.
  abbrev pub Replayed : Bytes → List ℕ → World E → World E × Outcome F → Type 0
  Replayed text ids w x =
      (x.0.asked ≡ w.asked)
      × (r : Result F) × (x.1 ≡ answered r)
      × (r.answer ≡ text)
      × (r.usage.cache_hit ≡ true)
      × (cited_ids r.citations ≡ ids)
      × (Numbered 1 r.citations)

  Kept-answer :
      (key : Bytes) (w : World E) (o : Outcome F) (r : Result F)
      → o ≡ answered r
      → Kept key w o
      → r.refused ≡ false
      → (c : CachedAnswer) × (w.answers key ≡ some c)
        × (c.answer ≡ r.answer)
        × (c.citations ≡ cited_ids r.citations)
  Kept-answer key w o r e h = rw e at h

module _ {F E : Type 0} (sv : Service F E) where
  module _ (t : Turn) (fresh : (t.cacheable && sv.redis_up) ≡ true) where
    conclude_cited-Kept :
        (ranked : List (Chunk F)) (u : Usage) (text : Bytes) (cites : List Citation)
        (o : Option (List Citation)) (w : World E)
        → KeptBy t.key (conclude_cited sv t ranked u text cites o w)
    unfolding conclude
    conclude_cited-Kept ranked u text cites none w = tt
    conclude_cited-Kept ranked u text cites (some citations) w =
        λ _. (entry_of sv ranked text citations, rw (fresh, bytes_eq_refl t.key) refl, refl, refl)

    on_end-Kept :
        (ranked : List (Chunk F)) (u : Usage) (cites : List Citation)
        (x : Response × World E × StreamEnd)
        → KeptBy t.key (on_end sv t ranked u cites x)
    unfolding verify
    on_end-Kept ranked u cites (resp, w, complete) =
        let found = parse_citations resp.text (length ranked) in
        conclude_cited-Kept ranked (answered_usage u resp) (checked_answer resp.text found.1) cites
          (cited_sources cites found.0) w
    on_end-Kept ranked u cites (resp, w, aborted) = tt
    on_end-Kept ranked u cites (resp, w, broken) = tt

    on_open-Kept :
        (ranked : List (Chunk F)) (u : Usage) (cites : List Citation)
        (o : Option (List Bytes × Bool)) (w : World E)
        → KeptBy t.key (on_open sv t ranked u cites o w)
    on_open-Kept ranked u cites none w = tt
    on_open-Kept ranked u cites (some (lines, e)) w =
        on_end-Kept ranked u cites (stream_body (on_event sv) sv.decode lines e w)

    generate-Kept :
        (ranked : List (Chunk F)) (u : Usage) (cites : List Citation) (w : World E)
        → KeptBy t.key (generate sv t ranked u cites w)
    unfolding generate
    generate-Kept ranked u cites w =
        let contents = build_contents t.history t.question ranked in
        on_open-Kept ranked u cites (sv.open_stream contents)
          (record w { asked = w.asked ++ contents ∷ [] })

    ground_answer-Kept :
        (u : Usage) (r : Ranking F) (w : World E) → KeptBy t.key (ground_answer sv t u r w)
    unfolding ground_answer
    ground_answer-Kept u none w = tt
    ground_answer-Kept u (some (ranked, stats, e)) w =
        let cites = sources_of t.req.include_source_text 1 ranked in
        let u' = ranked_usage u (length ranked) stats in
        let (w', bad) = send sv w (sources cites) in
        kept_either t.key bad (w', failed emit_failed) (generate sv t ranked u' cites w') tt
          (generate-Kept ranked u' cites w')

    with_candidates-Kept :
        (o : Option (List (Chunk F))) (w : World E) → KeptBy t.key (with_candidates sv t o w)
    unfolding with_candidates
    with_candidates-Kept none w = tt
    with_candidates-Kept (some []) w =
        unfold refuse in λ given. absurd (let bad : true ≡ false = given in cc)
    with_candidates-Kept (some (c ∷ cs)) w =
        ground_answer-Kept (record t.usage { retrieved = length (c ∷ cs) })
          (sv.rerank t.question (c ∷ cs) t.top_n) w

    serve-Kept :
        (o : Option CachedAnswer) (w : World E)
        → o ≡ w.answers t.key
        → KeptBy t.key (serve sv t o w)
    unfolding serve
    serve-Kept (some cached) w e =
        unfold replay in λ _. (cached, sym e, refl, sym (cited_ids-hydrate 1 cached.citations))
    serve-Kept none w e =
        unfold retrieve in
        let (w', vector) = embed_question sv t.question w in
        with_candidates-Kept (search sv vector t.question) w'

    replays :
        (c : CachedAnswer) (w : World E)
        → w.answers t.key ≡ some c
        → Replayed c.answer c.citations w (serve sv t (lookup sv t.cacheable t.key w) w)
    unfolding serve
    replays c w e =
        rw (fresh, e)
          (unfold replay in
            (
              refl,
              _,
              refl,
              refl,
              refl,
              cited_ids-hydrate 1 c.citations,
              hydrate-Numbered 1 c.citations,
            ))

  -- What makes a request's answer one for everybody: no conversation, no `NoCache`, a cache that answers.
  pub record Shared (req : Request) : Type 0 where
    pub no_conversation : req.conversation ≡ none
    pub may_cache : req.no_cache ≡ false
    pub cached : sv.has_cache ≡ true
    pub up : sv.redis_up ≡ true

  abbrev pub key_of : Bytes → Bytes
  key_of q = answer_key sv.digest q (corpus_version sv sv.stats)

  abbrev pub limit_of : Request → Redis → Redis × Option ℕ
  limit_of req r =
      check_rate_limit sv.has_cache sv.redis_up sv.now req.client_id sv.per_minute sv.burst r

  module _ (req : Request) (sh : Shared req) where
    turn-fresh : (q : Bytes) (w : World E) → ((turn_of sv req q w).cacheable && sv.redis_up) ≡ true
    unfolding turn_of history_of
    turn-fresh q w = rw (sh.no_conversation, sh.may_cache, sh.cached, sh.up) refl

    admit-Kept : (q : Bytes) (o : Option ℕ) (w : World E) → KeptBy (key_of q) (admit sv req q o w)
    unfolding admit
    admit-Kept q (some wait) w = tt
    admit-Kept q none w =
        let t = turn_of sv req q w in
        unfold turn_of in
        serve-Kept t (turn-fresh q w) (lookup sv t.cacheable t.key w) w (rw (turn-fresh q w) refl)

    ask-Kept : (q : Bytes) (w : World E) → KeptBy (key_of q) (ask sv req q w)
    unfolding ask
    ask-Kept [] w = tt
    ask-Kept (c ∷ s) w =
        let (r, o) = limit_of req w.redis in admit-Kept (c ∷ s) o (record w { redis = r })

    admit-replays :
        (q : Bytes) (c : CachedAnswer) (o : Option ℕ) (w : World E)
        → w.answers (key_of q) ≡ some c
        → o ≡ none
        → Replayed c.answer c.citations w (admit sv req q o w)
    unfolding admit
    admit-replays q c (some wait) w e free = absurd (let bad : some wait ≡ none = free in cc)
    admit-replays q c none w e free =
        let t = turn_of sv req q w in unfold turn_of in replays t (turn-fresh q w) c w e

    ask-replays :
        (q : Bytes) (w : World E) (r : Result F)
        → (ask sv req q w).1 ≡ answered r
        → r.refused ≡ false
        → (limit_of req (ask sv req q w).0.redis).1 ≡ none
        → Replayed r.answer
            (cited_ids r.citations)
            (ask sv req q w).0
            (ask sv req q (ask sv req q w).0)
    ask-replays [] w r e given free = absurd (unfold ask in cc)
    ask-replays (x ∷ s) w r e given free =
        let w' = (ask sv req (x ∷ s) w).0 in
        let (c, at, same, cites) =
          Kept-answer (key_of (x ∷ s)) w' _ r e (ask-Kept (x ∷ s) w) given in
        rw (← same, ← cites)
          (unfold ask in
            admit-replays (x ∷ s) c (limit_of req w'.redis).1
              (record w' { redis = (limit_of req w'.redis).0 }) at free)

-- A request in no conversation that does not ask to pass the cache by, where there is a cache and Redis
-- answers: if it was answered, not refused, then asking it again right behind, with the service unchanged
-- (the same reading of the corpus state and the same second) and let through by the rate limit, replays
-- the answer from the cache: the same text, the same cited chunks numbered from 1 whatever their markers
-- were, and nothing is asked of the model. That holds also where the corpus state cannot be read, since
-- the key then has the second of the clock, which the two requests share.
pub answer-Replayed :
    {F E : Type 0} (sv : Service F E) (req : Request) (w : World E) (r : Result F)
    → Shared sv req
    → (answer sv req w).1 ≡ answered r
    → r.refused ≡ false
    → (limit_of sv req (answer sv req w).0.redis).1 ≡ none
    → Replayed r.answer
        (cited_ids r.citations)
        (answer sv req w).0
        (answer sv req (answer sv req w).0)
unfolding answer
answer-Replayed sv req w r sh = ask-replays sv req sh (trim_space req.question) w r
