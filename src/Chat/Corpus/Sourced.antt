-- ===== src/Chat/Corpus/Sourced.antt =====
-- What every chunk that a search finds has, the sources and the citations of an answer have.
use ragline.Base.{
  ℕ, zero, suc, ◌≡◌, refl, Bool, true, false, List, [], ◌∷◌, ◌++◌, Option, none, some, Bytes,
  length, get_elem?, trim_space, Option-cases, inl, inr, ℤ, if◌then◌else◌,
}
use ragline.RateLimit.{check_rate_limit}
use ragline.Citations.{parse_citations}
use ragline.Store.{Chunk}
use ragline.Rerank.{Ranking}
use ragline.Rerank.Result.{All}
use ragline.Rerank.Modes.{Ranks, Cuts}
use ragline.Llm.Stream.{Response, StreamEnd, complete, aborted, broken}
use ragline.Cache.{CachedAnswer}
use ragline.Chat.Prompt.{build_contents}
use ragline.Chat.Types.{
  Request, Citation, Usage, sources, Outcome, answered, failed, panicked, emit_failed, World,
  Service,
}
use ragline.Chat.Steps.{
  Turn, cited_sources, cons_some, sources_of, send, checked_answer, refuse, replay, embed_question,
  search,
}
use ragline.Chat.Answer.{
  conclude, conclude_cited, verify, on_end, on_open, generate, ground_answer, with_candidates,
  retrieve, serve, admit, ask, answer, turn_of, lookup, ranked_usage, answered_usage,
}

module _ {F : Type 0} (P : Chunk F → Type 0) (Q : Citation → Type 0) where
  -- The citations of an answer that is not from the cache.
  abbrev pub Cited : Bool → List Citation → Type 0
  Cited true cs = Unit
  Cited false cs = All Q cs

  abbrev pub Sourced : Outcome F → Type 0
  Sourced (answered r) = All Q r.sources × Cited r.usage.cache_hit r.citations
  Sourced (failed e) = Unit
  Sourced panicked = Unit

  All-Cited : (b : Bool) (cs : List Citation) → All Q cs → Cited b cs
  All-Cited true cs h = tt
  All-Cited false cs h = h

  module _
      (cites : (include : Bool) (i : ℕ) (c : Chunk F)
        → P c
        → All Q (sources_of include i (c ∷ []))) where
    sources_of-All :
        (include : Bool) (i : ℕ) (cs : List (Chunk F)) → All P cs → All Q (sources_of include i cs)
    unfolding sources_of
    sources_of-All include i [] h = tt
    sources_of-All include i (c ∷ cs) (h, hs) =
        ((cites include i c h).0, sources_of-All include (suc i) cs hs)

  get_elem?-All :
      (cs : List Citation) (m : ℕ) {c : Citation} → get_elem? cs m ≡ some c → All Q cs → Q c
  get_elem?-All [] m e h = absurd (cc)
  get_elem?-All (x ∷ cs) zero {c} e (h, hs) = let same : x ≡ c = cc in rw (← same) h
  get_elem?-All (x ∷ cs) (suc m) e (h, hs) = get_elem?-All cs m e hs

  cons_some-eq :
      (o : Option Citation) (p : Option (List Citation)) {out : List Citation}
      → cons_some o p ≡ some out
      → (c : Citation) × (cs : List Citation) × (o ≡ some c) × (p ≡ some cs) × (c ∷ cs ≡ out)
  cons_some-eq none p e = absurd (cc)
  cons_some-eq (some c) none e = absurd (cc)
  cons_some-eq (some c) (some cs) e = (c, cs, refl, refl, (cc))

  cited_sources-All :
      (cs : List Citation) (ms : List ℕ) {out : List Citation}
      → cited_sources cs ms ≡ some out
      → All Q cs
      → All Q out
  unfolding cited_sources
  cited_sources-All cs [] {out} e h = let same : [] ≡ out = cc in rw (← same) tt
  cited_sources-All cs (zero ∷ ms) e h = absurd (cc)
  cited_sources-All cs (suc m ∷ ms) e h =
      let (c, rest, at, more, same) = cons_some-eq (get_elem? cs m) (cited_sources cs ms) e in
      rw (← same) (get_elem?-All cs m at h, cited_sources-All cs ms more h)

  sent_or :
      {E : Type 0} (bad : Bool) (x y : World E × Outcome F)
      → Sourced x.1
      → Sourced y.1
      → Sourced (if bad then x else y).1
  sent_or true x y p q = p
  sent_or false x y p q = q

module _ {F E : Type 0} (sv : Service F E) (P : Chunk F → Type 0) (Q : Citation → Type 0) where
  conclude_cited-Sourced :
      (t : Turn) (ranked : List (Chunk F)) (u : Usage) (text : Bytes) (cites : List Citation)
      (ms : List ℕ) (w : World E)
      → All Q cites
      → Sourced P Q (conclude_cited sv t ranked u text cites (cited_sources cites ms) w).1
  unfolding conclude
  conclude_cited-Sourced t ranked u text cites ms w h =
      elim (Option-cases (cited_sources cites ms)) [
        | inl out_of_range ↦ rw (out_of_range, conclude_cited) tt
        | inr (out, picked) ↦
            rw (picked, conclude_cited)
              (h, All-Cited P Q u.cache_hit out (cited_sources-All P Q cites ms picked h))
      ]

  on_end-Sourced :
      (t : Turn) (ranked : List (Chunk F)) (u : Usage) (cites : List Citation)
      (x : Response × World E × StreamEnd)
      → All Q cites
      → Sourced P Q (on_end sv t ranked u cites x).1
  unfolding verify
  on_end-Sourced t ranked u cites (resp, w, complete) h =
      let found = parse_citations resp.text (length ranked) in
      conclude_cited-Sourced t ranked (answered_usage u resp) (checked_answer resp.text found.1)
        cites found.0 w h
  on_end-Sourced t ranked u cites (resp, w, aborted) h = tt
  on_end-Sourced t ranked u cites (resp, w, broken) h = tt

  on_open-Sourced :
      (t : Turn) (ranked : List (Chunk F)) (u : Usage) (cites : List Citation)
      (o : Option (List Bytes × Bool)) (w : World E)
      → All Q cites
      → Sourced P Q (on_open sv t ranked u cites o w).1
  on_open-Sourced t ranked u cites none w h = tt
  on_open-Sourced t ranked u cites (some (lines, e)) w h = on_end-Sourced t ranked u cites _ h

  generate-Sourced :
      (t : Turn) (ranked : List (Chunk F)) (u : Usage) (cites : List Citation) (w : World E)
      → All Q cites
      → Sourced P Q (generate sv t ranked u cites w).1
  unfolding generate
  generate-Sourced t ranked u cites w h =
      let contents = build_contents t.history t.question ranked in
      on_open-Sourced t ranked u cites (sv.open_stream contents)
        (record w { asked = w.asked ++ contents ∷ [] }) h

  -- The two searches and the reranker, and the source that a chunk makes.
  pub record Draws : Type 0 where
    pub searches : (v : Option E) (q : Bytes) → Cuts P (search sv v q)
    pub ranks : (q : Bytes) (cs : List (Chunk F)) (n : ℤ) → All P cs → Ranks P (sv.rerank q cs n)
    pub cites : (include : Bool) (i : ℕ) (c : Chunk F) → P c → All Q (sources_of include i (c ∷ []))

  module _ (d : Draws) where
    ground_answer-Sourced :
        (t : Turn) (u : Usage) (r : Ranking F) (w : World E)
        → Ranks P r
        → Sourced P Q (ground_answer sv t u r w).1
    unfolding ground_answer
    ground_answer-Sourced t u none w h = tt
    ground_answer-Sourced t u (some (ranked, stats, e)) w h =
        let cites = sources_of t.req.include_source_text 1 ranked in
        let u' = ranked_usage u (length ranked) stats in
        let (w', bad) = send sv w (sources cites) in
        sent_or P Q bad (w', failed emit_failed) (generate sv t ranked u' cites w') tt
          (generate-Sourced t ranked u' cites w'
            (sources_of-All P Q d.cites t.req.include_source_text 1 ranked h))

    with_candidates-Sourced :
        (t : Turn) (o : Option (List (Chunk F))) (w : World E)
        → Cuts P o
        → Sourced P Q (with_candidates sv t o w).1
    unfolding with_candidates
    with_candidates-Sourced t none w h = tt
    with_candidates-Sourced t (some []) w h =
        unfold refuse in (tt, All-Cited P Q t.usage.cache_hit [] tt)
    with_candidates-Sourced t (some (c ∷ cs)) w h =
        ground_answer-Sourced t (record t.usage { retrieved = length (c ∷ cs) })
          (sv.rerank t.question (c ∷ cs) t.top_n) w (d.ranks t.question (c ∷ cs) t.top_n h)

    serve-Sourced :
        (t : Turn) (o : Option CachedAnswer) (w : World E) → Sourced P Q (serve sv t o w).1
    unfolding serve
    serve-Sourced t (some cached) w = unfold replay in (tt, tt)
    serve-Sourced t none w =
        unfold retrieve in
        let (w1, v) = embed_question sv t.question w in
        with_candidates-Sourced t (search sv v t.question) w1 (d.searches v t.question)

    admit-Sourced :
        (req : Request) (q : Bytes) (o : Option ℕ) (w : World E)
        → Sourced P Q (admit sv req q o w).1
    unfolding admit
    admit-Sourced req q (some wait) w = tt
    admit-Sourced req q none w =
        let t = turn_of sv req q w in serve-Sourced t (lookup sv t.cacheable t.key w) w

    ask-Sourced : (req : Request) (q : Bytes) (w : World E) → Sourced P Q (ask sv req q w).1
    unfolding ask
    ask-Sourced req [] w = tt
    ask-Sourced req (c ∷ s) w =
        let (r, o) =
          check_rate_limit sv.has_cache sv.redis_up sv.now req.client_id sv.per_minute sv.burst
            w.redis in
        admit-Sourced req (c ∷ s) o (record w { redis = r })

    -- Every source of an answer, and every citation of one that is not from the cache, has what the
    -- sources of the chunks found have.
    pub answer-Sourced : (req : Request) (w : World E) → Sourced P Q (answer sv req w).1
    unfolding answer
    answer-Sourced req w = ask-Sourced req (trim_space req.question) w
