-- ===== src/Chat/Recorded.antt =====
-- What `Service.Answer` adds to the messages of the conversations.
use ragline.Base.{
  ℕ, ◌≡◌, refl, sym, ap, ◌∙◌, Bool, true, false, ◌&&◌, not, List, [], ◌∷◌, ◌++◌, append-nil,
  append_assoc, Option, none, some, Bytes, length, arith, ◌==◌, trim_space, if◌then◌else◌,
}
use ragline.Cache.{CachedAnswer, embedding_key}
use ragline.Citations.{parse_citations}
use ragline.RateLimit.{check_rate_limit}
use ragline.Store.{Chunk}
use ragline.Rerank.{Ranking}
use ragline.Llm.Stream.{
  Response, StreamEnd, complete, aborted, broken, StreamEvent, delta, finished, stream_body,
}
use ragline.Llm.Stream.Invariant.{stream_body-keeps}
use ragline.Chat.Types.{
  Citation, Usage, Message, user, assistant, Result, Request, Outcome, answered, failed, panicked,
  World, Service, emit_failed, sources,
}
use ragline.Chat.Prompt.{build_contents}
use ragline.Chat.Steps.{
  Turn, cited_ids, cited_sources, sources_of, send, checked_answer, refuse, replay, append_turn,
  embed_question, reuse, right_dim, search, keep_embedding,
}
use ragline.Chat.Answer.{
  conclude, conclude_cited, verify, on_event, on_end, on_open, generate, ground_answer,
  with_candidates, retrieve, serve, admit, ask, answer, turn_of, lookup, ranked_usage,
  answered_usage,
}

module _ {F E : Type 0} (sv : Service F E) where
  -- The messages of one turn that reach the store.
  pub turn_messages : Bytes → Bytes → List ℕ → List Message
  turn_messages question text cited =
      (if sv.append_question_up
        then record { role = user; content = question; citations = [] } ∷ []
        else [])
      ++ (if sv.append_answer_up
          then record { role = assistant; content = text; citations = cited } ∷ []
          else [])

  abbrev pub noted : Option ℕ → Bytes → Result F → ℕ → List Message
  noted none question r k = []
  noted (some id) question r k =
      if k == id && not r.refused && not r.usage.cache_hit
      then turn_messages question r.answer (cited_ids r.citations)
      else []

  -- What an answer adds to conversation `k`.
  abbrev pub recorded : Option ℕ → Bytes → Outcome F → ℕ → List Message
  recorded conversation question (answered r) k = noted conversation question r k
  recorded conversation question (failed e) k = []
  recorded conversation question panicked k = []

  pub record Records (conversation : Option ℕ) (question : Bytes) (w : World E)
      (x : World E × Outcome F) : Type 0 where
    pub adds : (k : ℕ) → x.0.messages k ≡ w.messages k ++ recorded conversation question x.1 k

  append_turn-noted :
      (c : Option ℕ) (q : Bytes) (r : Result F) (ms : ℕ → List Message) (k : ℕ)
      → r.refused ≡ false
      → r.usage.cache_hit ≡ false
      → append_turn sv c q r.answer (cited_ids r.citations) ms k ≡ ms k ++ noted c q r k
  unfolding turn_messages
  append_turn-noted none q r ms k p h = sym (append-nil (ms k))
  append_turn-noted (some id) q r ms k p h = ground (
    arith,
    p,
    h,
    append-nil (ms k),
    append_assoc (ms k) (record { role = user; content = q; citations = [] } ∷ [])
        (record { role = assistant; content = r.answer; citations = cited_ids r.citations } ∷ []),
  )

  keep_embedding-messages :
      (key : Bytes) (o : Option E) (w : World E)
      → (keep_embedding sv key o w).0.messages ≡ w.messages
  keep_embedding-messages key none w = refl
  keep_embedding-messages key (some v) w = refl

  reuse-messages :
      (o : Option E) (key q : Bytes) (w : World E) → (reuse sv o key q w).0.messages ≡ w.messages
  reuse-messages (some v) key q w = refl
  reuse-messages none key q w = keep_embedding-messages key (sv.embed q) w

  embed_question-messages :
      (q : Bytes) (w : World E) → (embed_question sv q w).0.messages ≡ w.messages
  unfolding embed_question
  embed_question-messages q w =
      let key = embedding_key sv.digest q sv.embedding_model sv.embedding_dim in
      let found = right_dim sv (w.embeddings key) in
      reuse-messages (if sv.has_cache && sv.redis_up then found else none) key q w

  module _ (t : Turn) (w0 : World E) where
    abbrev Noted : World E × Outcome F → Type 0
    Noted x = Records t.req.conversation t.question w0 x

    -- No message is written, and none is due.
    unnoted :
        (w : World E) (o : Outcome F)
        → w.messages ≡ w0.messages
        → ((k : ℕ) → recorded t.req.conversation t.question o k ≡ [])
        → Noted (w, o)
    unnoted w o e none_due = record {
      adds = λ k.
          ap (λ m. m k) e
          ∙ sym (append-nil (w0.messages k))
          ∙ ap (λ x. w0.messages k ++ x) (sym (none_due k));
    }

    conclude_cited-Noted :
        (ranked : List (Chunk F)) (u : Usage) (text : Bytes) (cites : List Citation)
        (o : Option (List Citation)) (w : World E)
        → u.cache_hit ≡ false
        → w.messages ≡ w0.messages
        → Noted (conclude_cited sv t ranked u text cites o w)
    unfolding conclude
    conclude_cited-Noted ranked u text cites none w h e = unnoted w panicked e (λ k. refl)
    conclude_cited-Noted ranked u text cites (some citations) w h e =
        let r : Result F = record {
          answer = text;
          citations = citations;
          sources = cites;
          retrieved = ranked;
          usage = u;
          refused = false;
          reason = [];
        } in
        record {
          adds = λ k.
              append_turn-noted t.req.conversation t.question r w.messages k refl h
              ∙ ap (λ m. m k ++ noted t.req.conversation t.question r k) e;
        }

    on_end-Noted :
        (ranked : List (Chunk F)) (u : Usage) (cites : List Citation)
        (x : Response × World E × StreamEnd)
        → u.cache_hit ≡ false
        → x.1.messages ≡ w0.messages
        → Noted (on_end sv t ranked u cites x)
    unfolding verify
    on_end-Noted ranked u cites (resp, w, complete) h e =
        let found = parse_citations resp.text (length ranked) in
        conclude_cited-Noted ranked (answered_usage u resp) (checked_answer resp.text found.1) cites
          (cited_sources cites found.0) w h e
    on_end-Noted ranked u cites (resp, w, aborted) h e = unnoted w _ e (λ k. refl)
    on_end-Noted ranked u cites (resp, w, broken) h e = unnoted w _ e (λ k. refl)

    callback-same :
        (ev : StreamEvent) (w : World E)
        → w.messages ≡ w0.messages
        → (on_event sv ev w).0.messages ≡ w0.messages
    callback-same (delta s) w e = e
    callback-same (finished u) w e = e

    on_open-Noted :
        (ranked : List (Chunk F)) (u : Usage) (cites : List Citation)
        (o : Option (List Bytes × Bool)) (w : World E)
        → u.cache_hit ≡ false
        → w.messages ≡ w0.messages
        → Noted (on_open sv t ranked u cites o w)
    on_open-Noted ranked u cites none w h e = unnoted w _ e (λ k. refl)
    on_open-Noted ranked u cites (some (lines, bad)) w h e =
        on_end-Noted ranked u cites (stream_body (on_event sv) sv.decode lines bad w) h (
          stream_body-keeps (on_event sv) (λ v. v.messages ≡ w0.messages) callback-same sv.decode
            lines bad w e)

    generate-Noted :
        (ranked : List (Chunk F)) (u : Usage) (cites : List Citation) (w : World E)
        → u.cache_hit ≡ false
        → w.messages ≡ w0.messages
        → Noted (generate sv t ranked u cites w)
    unfolding generate
    generate-Noted ranked u cites w h e =
        let contents = build_contents t.history t.question ranked in
        on_open-Noted ranked u cites (sv.open_stream contents)
          (record w { asked = w.asked ++ contents ∷ [] }) h e

    unless_sent :
        (bad : Bool) (x y : World E × Outcome F) → Noted x → Noted y → Noted (if bad then x else y)
    unless_sent true x y p q = p
    unless_sent false x y p q = q

    ground_answer-Noted :
        (u : Usage) (r : Ranking F) (w : World E)
        → u.cache_hit ≡ false
        → w.messages ≡ w0.messages
        → Noted (ground_answer sv t u r w)
    unfolding ground_answer
    ground_answer-Noted u none w h e = unnoted w panicked e (λ k. refl)
    ground_answer-Noted u (some (ranked, stats, err)) w h e =
        let cites = sources_of t.req.include_source_text 1 ranked in
        let u' = ranked_usage u (length ranked) stats in
        let (w', bad) = send sv w (sources cites) in
        unless_sent bad (w', failed emit_failed) (generate sv t ranked u' cites w')
          (unnoted w' (failed emit_failed) e (λ k. refl)) (generate-Noted ranked u' cites w' h e)

    noted_none :
        (c : Option ℕ) (q : Bytes) (r : Result F) (k : ℕ)
        → (not r.refused && not r.usage.cache_hit) ≡ false
        → noted c q r k ≡ []
    noted_none none q r k h = refl
    noted_none (some id) q r k h = ground (arith, h)

    with_candidates-Noted :
        (o : Option (List (Chunk F))) (w : World E)
        → t.usage.cache_hit ≡ false
        → w.messages ≡ w0.messages
        → Noted (with_candidates sv t o w)
    unfolding with_candidates
    with_candidates-Noted none w h e = unnoted w _ e (λ k. refl)
    with_candidates-Noted (some []) w h e =
        unfold refuse in unnoted _ _ e (λ k. noted_none t.req.conversation t.question _ k refl)
    with_candidates-Noted (some (c ∷ cs)) w h e =
        let u : Usage = record t.usage { retrieved = length (c ∷ cs) } in
        ground_answer-Noted u (sv.rerank t.question (c ∷ cs) t.top_n) w h e

    serve-Noted :
        (o : Option CachedAnswer) (w : World E)
        → t.usage.cache_hit ≡ false
        → w.messages ≡ w0.messages
        → Noted (serve sv t o w)
    unfolding serve retrieve
    serve-Noted (some cached) w h e =
        unfold replay in unnoted _ _ e (λ k. noted_none t.req.conversation t.question _ k refl)
    serve-Noted none w h e =
        let (w1, v) = embed_question sv t.question w in
        with_candidates-Noted (search sv v t.question) w1 h
          (embed_question-messages t.question w ∙ e)

  admit-Records :
      (req : Request) (q : Bytes) (o : Option ℕ) (w0 w : World E)
      → w.messages ≡ w0.messages
      → Records req.conversation q w0 (admit sv req q o w)
  unfolding admit turn_of
  admit-Records req q (some wait) w0 w e = unnoted (turn_of sv req q w) w0 w _ e (λ k. refl)
  admit-Records req q none w0 w e =
      let t = turn_of sv req q w in serve-Noted t w0 (lookup sv t.cacheable t.key w) w refl e

  ask-Records :
      (req : Request) (q : Bytes) (w : World E) → Records req.conversation q w (ask sv req q w)
  unfolding ask turn_of
  ask-Records req [] w = unnoted (turn_of sv req [] w) w w _ refl (λ k. refl)
  ask-Records req (c ∷ s) w =
      let (r, o) =
        check_rate_limit sv.has_cache sv.redis_up sv.now req.client_id sv.per_minute sv.burst
          w.redis in
      admit-Records req (c ∷ s) o w (record w { redis = r }) refl

-- An answer that is neither refused nor replayed from the cache adds to its conversation, behind the
-- messages that it has, the trimmed question and the text of the result with the chunks that it cites,
-- each if its own statement runs. No other request adds a message to any conversation, and this one adds none
-- to another: a question that is answered from the cache leaves no message in its conversation.
pub answer-Records :
    {F E : Type 0} (sv : Service F E) (req : Request) (w : World E)
    → Records sv req.conversation (trim_space req.question) w (answer sv req w)
unfolding answer
answer-Records sv req w = ask-Records sv req (trim_space req.question) w
