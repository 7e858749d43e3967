-- ===== src/Chat/Effects/Stages.antt =====
-- What the stages of a request behind the search ask of the model and put into the cache.
use ragline.Base.{
  ◌≡◌, refl, sym, ap, ◌∙◌, Bool, true, false, ◌&&◌, List, [], ◌∷◌, ◌++◌, append-nil, Option, none,
  some, Bytes, length, ◌⊎◌, inl, inr, if◌then◌else◌,
}
use ragline.Citations.{parse_citations}
use ragline.Store.{Chunk}
use ragline.Rerank.{Ranking}
use ragline.Llm.Stream.{
  Response, StreamEnd, complete, aborted, broken, StreamEvent, delta, finished, stream_body,
}
use ragline.Llm.Stream.Invariant.{stream_body-keeps}
use ragline.Chat.Types.{
  Citation, Usage, sources, Content, Outcome, World, Service, emit_failed, failed,
}
use ragline.Chat.Prompt.{build_contents}
use ragline.Chat.Steps.{Turn, cited_sources, sources_of, send, checked_answer, refuse}
use ragline.Chat.Answer.{
  conclude, conclude_cited, verify, on_event, on_end, on_open, generate, ground_answer,
  with_candidates, ranked_usage, answered_usage,
}

module _ {E : Type 0} where
  -- The requests to the model grew by `xs`; the cached answers are as before, unless `cacheable`.
  pub record Grew (xs : List (List Content)) (cacheable : Bool) (w w' : World E) : Type 0 where
    pub grown : w'.asked ≡ w.asked ++ xs
    pub uncached : cacheable ≡ false → w'.answers ≡ w.answers

module _ {F E : Type 0} (sv : Service F E) where
  callback-Grew :
      (xs : List (List Content)) (b : Bool) (w : World E) (e : StreamEvent) (w' : World E)
      → Grew xs b w w'
      → Grew xs b w (on_event sv e w').0
  callback-Grew xs b w (delta s) w' g = record { grown = g.grown; uncached = g.uncached }
  callback-Grew xs b w (finished u) w' g = g

  module _ (t : Turn) where
    uncacheable : {A : Type 0} (c up : Bool) (x y : A) → c ≡ false → (if c && up then x else y) ≡ y
    uncacheable c up x y h = rw h refl

    conclude_cited-Grew :
        (xs : List (List Content)) (w0 : World E) (ranked : List (Chunk F)) (u : Usage)
        (text : Bytes) (cites : List Citation) (o : Option (List Citation)) (w : World E)
        → Grew xs t.cacheable w0 w
        → Grew xs t.cacheable w0 (conclude_cited sv t ranked u text cites o w).0
    unfolding conclude
    conclude_cited-Grew xs w0 ranked u text cites none w g = g
    conclude_cited-Grew xs w0 ranked u text cites (some citations) w g = record {
      grown = g.grown;
      uncached = λ h. uncacheable t.cacheable sv.redis_up _ w.answers h ∙ g.uncached h;
    }

    on_end-Grew :
        (xs : List (List Content)) (w0 : World E) (ranked : List (Chunk F)) (u : Usage)
        (cites : List Citation) (x : Response × World E × StreamEnd)
        → Grew xs t.cacheable w0 x.1
        → Grew xs t.cacheable w0 (on_end sv t ranked u cites x).0
    unfolding verify
    on_end-Grew xs w0 ranked u cites (resp, w, complete) g =
        let found = parse_citations resp.text (length ranked) in
        conclude_cited-Grew xs w0 ranked (answered_usage u resp) (checked_answer resp.text found.1)
          cites (cited_sources cites found.0) w g
    on_end-Grew xs w0 ranked u cites (resp, w, aborted) g = g
    on_end-Grew xs w0 ranked u cites (resp, w, broken) g = g

    on_open-Grew :
        (xs : List (List Content)) (w0 : World E) (ranked : List (Chunk F)) (u : Usage)
        (cites : List Citation) (o : Option (List Bytes × Bool)) (w : World E)
        → Grew xs t.cacheable w0 w
        → Grew xs t.cacheable w0 (on_open sv t ranked u cites o w).0
    on_open-Grew xs w0 ranked u cites none w g = g
    on_open-Grew xs w0 ranked u cites (some (lines, e)) w g =
        on_end-Grew xs w0 ranked u cites (stream_body (on_event sv) sv.decode lines e w) (
          stream_body-keeps (on_event sv) (Grew xs t.cacheable w0) (callback-Grew xs t.cacheable w0)
            sv.decode lines e w g)

    generate-Grew :
        (ranked : List (Chunk F)) (u : Usage) (cites : List Citation) (w : World E)
        → Grew
            (build_contents t.history t.question ranked ∷ [])
            t.cacheable
            w
            (generate sv t ranked u cites w).0
    unfolding generate
    generate-Grew ranked u cites w =
        let contents = build_contents t.history t.question ranked in
        on_open-Grew (contents ∷ []) w ranked u cites (sv.open_stream contents)
          (record w { asked = w.asked ++ contents ∷ [] })
          (record { grown = refl; uncached = λ h. refl })

    -- At most one request to the model, with passages that the reranker picked.
    abbrev Once : World E → World E → Type 0
    Once w w' =
        Grew [] t.cacheable w w'
        ⊎ (ranked : List (Chunk F)) × Grew (build_contents t.history t.question ranked ∷ [])
            t.cacheable w w'

    pub untouched :
        (w w' : World E) → w'.asked ≡ w.asked → w'.answers ≡ w.answers → Grew [] t.cacheable w w'
    untouched w w' p q = record { grown = p ∙ sym (append-nil w.asked); uncached = λ h. q }

    unless_sent :
        (w : World E) (bad : Bool) (x y : World E × Outcome F)
        → Once w x.0
        → Once w y.0
        → Once w (if bad then x else y).0
    unless_sent w true x y p q = p
    unless_sent w false x y p q = q

    ground_answer-Once :
        (u : Usage) (r : Ranking F) (w : World E) → Once w (ground_answer sv t u r w).0
    unfolding ground_answer
    ground_answer-Once u none w = inl (untouched w w refl refl)
    ground_answer-Once u (some (ranked, stats, e)) w =
        let cites = sources_of t.req.include_source_text 1 ranked in
        let u' = ranked_usage u (length ranked) stats in
        let (w', bad) = send sv w (sources cites) in
        let g = generate-Grew ranked u' cites w' in
        unless_sent w bad (w', failed emit_failed) (generate sv t ranked u' cites w')
          (inl (untouched w w' refl refl))
          (inr (ranked, record { grown = g.grown; uncached = g.uncached }))

    -- The model is asked only where retrieval found a chunk.
    pub data Evidence : Option (List (Chunk F)) → World E → World E → Type 0 where
      no_request :
          {o : Option (List (Chunk F))} {w w' : World E}
          → Grew [] t.cacheable w w'
          → Evidence o w w'
      one_request :
          {c : Chunk F} {cs : List (Chunk F)} {w w' : World E} (ranked : List (Chunk F))
          → Grew (build_contents t.history t.question ranked ∷ []) t.cacheable w w'
          → Evidence (some (c ∷ cs)) w w'

    from_once :
        (c : Chunk F) (cs : List (Chunk F)) (w w' : World E)
        → Once w w'
        → Evidence (some (c ∷ cs)) w w'
    from_once c cs w w' (inl g) = no_request g
    from_once c cs w w' (inr (ranked, g)) = one_request ranked g

    pub with_candidates-Evidence :
        (o : Option (List (Chunk F))) (w : World E) → Evidence o w (with_candidates sv t o w).0
    unfolding with_candidates
    with_candidates-Evidence none w = no_request (untouched w w refl refl)
    with_candidates-Evidence (some []) w = unfold refuse in no_request (untouched w _ refl refl)
    with_candidates-Evidence (some (c ∷ cs)) w =
        let u : Usage = record t.usage { retrieved = length (c ∷ cs) } in
        from_once c cs w _ (ground_answer-Once u (sv.rerank t.question (c ∷ cs) t.top_n) w)

    pub moved :
        (o : Option (List (Chunk F))) (w w1 w' : World E)
        → w1.asked ≡ w.asked
        → w1.answers ≡ w.answers
        → Evidence o w1 w'
        → Evidence o w w'
    moved o w w1 w' p q (no_request g) =
        no_request
          (record { grown = g.grown ∙ ap (λ x. x ++ []) p; uncached = λ h. g.uncached h ∙ q })
    moved o w w1 w' p q (one_request ranked g) =
        let contents = build_contents t.history t.question ranked in
        one_request ranked (record {
          grown = g.grown ∙ ap (λ x. x ++ contents ∷ []) p;
          uncached = λ h. g.uncached h ∙ q;
        })
