-- ===== src/Chat/Panics.antt =====
-- `Service.Answer` never indexes its sources out of range, and cites what it was given.
use ragline.Base.{
  ℕ, zero, suc, ◌+◌, ◌<◌, ◌≡◌, ◌≢◌, refl, sym, ap, ap₂, ◌∙◌, Bool, true, false, ◌&&◌, List, [], ◌∷◌,
  ◌++◌, Option, none, some, Bytes, arith, length, get_elem?, ℤ, pos, negsuc, is_positive,
  trim_space, if◌then◌else◌,
}
use ragline.Citations.{parse_citations, contains, segments}
use ragline.Citations.Parse.{cited, in_range, parse_citations-Sorted}
use ragline.Store.{Chunk}
use ragline.Rerank.{Ranking}
use ragline.Llm.Stream.{Response, StreamEnd, complete, aborted, broken}
use ragline.Cache.{CachedAnswer}
use ragline.Chat.Prompt.{build_contents}
use ragline.Chat.Types.{
  Request, Citation, Usage, sources, Result, Outcome, answered, failed, panicked, emit_failed,
  World, Service,
}
use ragline.Chat.Steps.{
  Turn, cited_sources, cons_some, sources_of, send, checked_answer, refuse, replay,
}
use ragline.Chat.Answer.{
  conclude, conclude_cited, verify, on_end, on_open, generate, ground_answer, with_candidates,
  retrieve, serve, admit, ask, answer, turn_of, lookup, ranked_usage,
}

pub markers : List Citation → List ℕ
markers [] = []
markers (c ∷ cs) = c.marker ∷ markers cs

-- The markers of the citations pick the citations out of the sources. A cached answer has no sources.
abbrev pub Picked : {F : Type 0} → Bool → Result F → Type 0
Picked true r = Unit
Picked false r = cited_sources r.sources (markers r.citations) ≡ some r.citations

-- No panic, and an answer that the model gave cites from its own sources.
abbrev pub Grounded : {F : Type 0} → Outcome F → Type 0
Grounded (answered r) = Picked r.usage.cache_hit r
Grounded (failed e) = Unit
Grounded panicked = ⊥

picked :
    {F : Type 0} (b : Bool) (r : Result F)
    → cited_sources r.sources (markers r.citations) ≡ some r.citations
    → Picked b r
picked true r h = tt
picked false r h = h

module _ {F : Type 0} where
  length-sources_of :
      (b : Bool) (i : ℕ) (cs : List (Chunk F)) → length (sources_of b i cs) ≡ length cs
  unfolding sources_of
  length-sources_of b i [] = refl
  length-sources_of b i (c ∷ cs) = ap suc (length-sources_of b (suc i) cs)

  -- The source at a position, and its marker.
  sources_of-marker :
      (b : Bool) (i : ℕ) (cs : List (Chunk F)) (m : ℕ)
      → m < length cs
      → (c : Citation) × (get_elem? (sources_of b i cs) m ≡ some c) × (c.marker ≡ i + m)
  unfolding sources_of
  sources_of-marker b i [] m h = absurd (omega (arith, h))
  sources_of-marker b i (c ∷ cs) zero h = (_, refl, omega arith)
  sources_of-marker b i (c ∷ cs) (suc m) h =
      let (d, at, mark) = sources_of-marker b (suc i) cs m (omega arith) in (d, at, omega arith)

  -- Markers in range pick citations with those markers.
  cited_sources-picks :
      (b : Bool) (cs : List (Chunk F)) (ms : List ℕ)
      → ((n : ℕ) → contains ms n ≡ true → in_range (length cs) n ≡ true)
      → (out : List Citation) × (cited_sources (sources_of b 1 cs) ms ≡ some out)
        × (markers out ≡ ms)
  unfolding cited_sources contains markers
  cited_sources-picks b cs [] h = ([], refl, refl)
  cited_sources-picks b cs (zero ∷ ms) h = absurd (let bad : false ≡ true = h 0 refl in cc)
  cited_sources-picks b cs (suc m ∷ ms) h =
      let here : in_range (length cs) (suc m) ≡ true = h (suc m) (ground arith) in
      let (c, at, mark) = sources_of-marker b 1 cs m (ground arith) in
      let (out, eq, same) = cited_sources-picks b cs ms (λ n e. h n (ground (arith, e))) in
      (c ∷ out, ap₂ cons_some at eq, ap₂ (◌∷◌) (omega (arith, mark)) same)

used-in_range :
    (text : Bytes) (k : ℕ) (n : ℕ)
    → contains (parse_citations text k).0 n ≡ true
    → in_range k n ≡ true
used-in_range text k n h =
    let same = (parse_citations-Sorted text k).used_members n in
    let mem : (in_range k n && contains (cited (segments text)) n) ≡ true = sym same ∙ h in
    ground (arith, mem)

-- The count that reaches the reranker is not negative.
chosen : (a b : ℤ) (n : ℕ) → b ≡ pos n → (m : ℕ) × ((if is_positive a then a else b) ≡ pos m)
chosen (pos zero) b n e = (n, e)
chosen (pos (suc k)) b n e = (suc k, refl)
chosen (negsuc k) b n e = (n, e)

unless_sent :
    {F E : Type 0} (bad : Bool) (x y : World E × Outcome F)
    → Grounded x.1
    → Grounded y.1
    → Grounded (if bad then x else y).1
unless_sent true x y p q = p
unless_sent false x y p q = q

module _ {F E : Type 0} (sv : Service F E) where
  conclude_cited-Grounded :
      (t : Turn) (ranked : List (Chunk F)) (u : Usage) (text : Bytes) (cites : List Citation)
      (o : Option (List Citation)) (w : World E) (out : List Citation)
      → o ≡ some out
      → cited_sources cites (markers out) ≡ some out
      → Grounded (conclude_cited sv t ranked u text cites o w).1
  unfolding conclude
  conclude_cited-Grounded t ranked u text cites o w out e h = rw e (picked u.cache_hit _ h)

  verify-Grounded :
      (t : Turn) (ranked : List (Chunk F)) (u : Usage) (b : Bool) (resp : Response) (w : World E)
      → Grounded (verify sv t ranked u (sources_of b 1 ranked) resp w).1
  unfolding verify
  verify-Grounded t ranked u b resp w =
      let found = parse_citations resp.text (length ranked) in
      let (out, eq, same) =
        cited_sources-picks b ranked found.0 (used-in_range resp.text (length ranked)) in
      conclude_cited-Grounded t ranked _ (checked_answer resp.text found.1) (sources_of b 1 ranked)
        (cited_sources (sources_of b 1 ranked) found.0) w out eq (rw same eq)

  on_end-Grounded :
      (t : Turn) (ranked : List (Chunk F)) (u : Usage) (b : Bool)
      (x : Response × World E × StreamEnd)
      → Grounded (on_end sv t ranked u (sources_of b 1 ranked) x).1
  on_end-Grounded t ranked u b (resp, w, complete) = verify-Grounded t ranked u b resp w
  on_end-Grounded t ranked u b (resp, w, aborted) = tt
  on_end-Grounded t ranked u b (resp, w, broken) = tt

  on_open-Grounded :
      (t : Turn) (ranked : List (Chunk F)) (u : Usage) (b : Bool) (o : Option (List Bytes × Bool))
      (w : World E)
      → Grounded (on_open sv t ranked u (sources_of b 1 ranked) o w).1
  on_open-Grounded t ranked u b none w = tt
  on_open-Grounded t ranked u b (some (lines, e)) w = on_end-Grounded t ranked u b _

  generate-Grounded :
      (t : Turn) (ranked : List (Chunk F)) (u : Usage) (b : Bool) (w : World E)
      → Grounded (generate sv t ranked u (sources_of b 1 ranked) w).1
  unfolding generate
  generate-Grounded t ranked u b w =
      let contents = build_contents t.history t.question ranked in
      on_open-Grounded t ranked u b (sv.open_stream contents)
        (record w { asked = w.asked ++ contents ∷ [] })

  ground_answer-Grounded :
      (t : Turn) (u : Usage) (r : Ranking F) (w : World E)
      → r ≢ none
      → Grounded (ground_answer sv t u r w).1
  unfolding ground_answer
  ground_answer-Grounded t u none w h = absurd (h refl)
  ground_answer-Grounded t u (some (ranked, stats, e)) w h =
      let cites = sources_of t.req.include_source_text 1 ranked in
      let u' = ranked_usage u (length ranked) stats in
      let (w', bad) = send sv w (sources cites) in
      unless_sent bad (w', failed emit_failed) (generate sv t ranked u' cites w') tt
        (generate-Grounded t ranked u' t.req.include_source_text w')

  module _ (ranks : (q : Bytes) (cs : List (Chunk F)) (n : ℕ) → sv.rerank q cs (pos n) ≢ none) where
    with_candidates-Grounded :
        (t : Turn) (n : ℕ) (o : Option (List (Chunk F))) (w : World E)
        → t.top_n ≡ pos n
        → Grounded (with_candidates sv t o w).1
    unfolding with_candidates
    with_candidates-Grounded t n none w e = tt
    with_candidates-Grounded t n (some []) w e =
        unfold refuse in picked t.usage.cache_hit _ (unfold cited_sources markers in refl)
    with_candidates-Grounded t n (some (c ∷ cs)) w e =
        ground_answer-Grounded t (record t.usage { retrieved = length (c ∷ cs) })
          (sv.rerank t.question (c ∷ cs) t.top_n) w (rw e (ranks t.question (c ∷ cs) n))

    serve-Grounded :
        (t : Turn) (n : ℕ) (o : Option CachedAnswer) (w : World E)
        → t.top_n ≡ pos n
        → Grounded (serve sv t o w).1
    unfolding serve
    serve-Grounded t n (some cached) w e = unfold replay in tt
    serve-Grounded t n none w e = unfold retrieve in with_candidates-Grounded t n _ _ e

    turn-top_n :
        (req : Request) (question : Bytes) (w : World E) (n : ℕ)
        → sv.context_top_n ≡ pos n
        → (m : ℕ) × ((turn_of sv req question w).top_n ≡ pos m)
    unfolding turn_of
    turn-top_n req question w n e = chosen req.top_n sv.context_top_n n e

    admit-Grounded :
        (req : Request) (q : Bytes) (o : Option ℕ) (w : World E) (n : ℕ)
        → sv.context_top_n ≡ pos n
        → Grounded (admit sv req q o w).1
    unfolding admit
    admit-Grounded req q (some wait) w n e = tt
    admit-Grounded req q none w n e =
        let (m, top) = turn-top_n req q w n e in
        let t = turn_of sv req q w in serve-Grounded t m (lookup sv t.cacheable t.key w) w top

    ask-Grounded :
        (req : Request) (q : Bytes) (w : World E) (n : ℕ)
        → sv.context_top_n ≡ pos n
        → Grounded (ask sv req q w).1
    unfolding ask
    ask-Grounded req [] w n e = tt
    ask-Grounded req (c ∷ s) w n e = admit-Grounded req (c ∷ s) _ _ n e

-- With a reranker that returns for every count that is not negative, and a configured count of that
-- kind, `Answer` panics on no request: a result that is not from the cache has citations that their
-- markers pick out of its sources.
pub answer-Grounded :
    {F E : Type 0} (sv : Service F E) (req : Request) (w : World E) (n : ℕ)
    → ((q : Bytes) (cs : List (Chunk F)) (k : ℕ) → sv.rerank q cs (pos k) ≢ none)
    → sv.context_top_n ≡ pos n
    → Grounded (answer sv req w).1
unfolding answer
answer-Grounded sv req w n ranks e = ask-Grounded sv ranks req (trim_space req.question) w n e
