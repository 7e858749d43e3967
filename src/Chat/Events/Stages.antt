-- ===== src/Chat/Events/Stages.antt =====
-- The events that the model's answer sends, and what they spell.
use ragline.Base.{
  ◌≡◌, refl, sym, ap, ◌∙◌, Bool, true, false, List, [], ◌∷◌, ◌++◌, append_assoc, append-nil, Option,
  none, some, Bytes, length, if◌then◌else◌,
}
use ragline.Citations.{parse_citations}
use ragline.Store.{Chunk}
use ragline.Llm.Stream.{Response, StreamEnd, complete, aborted, broken, stream_body}
use ragline.Llm.Stream.Invariant.{Tracks, stream_body-tracks}
use ragline.Chat.Types.{
  Citation, Usage, Event, sources, token, done, Result, Outcome, answered, failed, panicked, World,
  Service,
}
use ragline.Chat.Prompt.{build_contents}
use ragline.Chat.Steps.{Turn, cited_sources, checked_answer}
use ragline.Chat.Answer.{
  conclude, conclude_cited, verify, on_event, on_end, on_open, generate, answered_usage,
}

abbrev pub tokens : List Bytes → List Event
tokens [] = []
tokens (t ∷ ts) = token t ∷ tokens ts

abbrev pub is_answered : {F : Type 0} → Outcome F → Bool
is_answered (answered r) = true
is_answered (failed e) = false
is_answered panicked = false

-- One text from the texts of the tokens.
abbrev pub joined : List Bytes → Bytes
joined [] = []
joined (t ∷ ts) = t ++ joined ts

joined-snoc : (ts : List Bytes) (t : Bytes) → joined (ts ++ t ∷ []) ≡ joined ts ++ t
joined-snoc [] t = append-nil t
joined-snoc (s ∷ ts) t = ap (λ x. s ++ x) (joined-snoc ts t) ∙ sym (append_assoc s (joined ts) t)

-- What the client saw against the result: the model's own text, of which the answer is the checked
-- form, with the result's sources; or a cached answer with its citations.
pub data Spells {F : Type 0} (cs : List Citation) (text : Bytes) : Result F → Type 0 where
  from_model :
      (r : Result F)
      → r.usage.cache_hit ≡ false
      → cs ≡ r.sources
      → r.answer ≡ checked_answer text (parse_citations text (length r.retrieved)).1
      → Spells cs text r
  from_cache :
      (r : Result F)
      → r.usage.cache_hit ≡ true
      → cs ≡ r.citations
      → r.answer ≡ text
      → Spells cs text r

-- The events of one request, by its end.
pub data Sent {F : Type 0} : List Event → Outcome F → Type 0 where
  silent : (o : Outcome F) → is_answered o ≡ false → Sent [] o
  refused_at_once :
      (t : Bytes) (r : Result F)
      → r.refused ≡ true
      → Sent (token t ∷ done r.usage ∷ []) (answered r)
  whole :
      (cs : List Citation) (ts : List Bytes) (r : Result F)
      → r.refused ≡ false
      → Spells cs (joined ts) r
      → Sent (sources cs ∷ (tokens ts ++ done r.usage ∷ [])) (answered r)
  broken_off :
      (cs : List Citation) (ts : List Bytes) (o : Outcome F)
      → is_answered o ≡ false
      → Sent (sources cs ∷ tokens ts) o

-- The events behind those that were there.
abbrev pub SentBehind : {F E : Type 0} → World E → World E × Outcome F → Type 0
SentBehind w x = (new : List Event) × (x.0.events ≡ w.events ++ new) × Sent new x.1

tokens-snoc : (ts : List Bytes) (t : Bytes) → tokens ts ++ token t ∷ [] ≡ tokens (ts ++ t ∷ [])
tokens-snoc [] t = refl
tokens-snoc (s ∷ ts) t = ap (λ x. token s ∷ x) (tokens-snoc ts t)

module _ {E : Type 0} where
  -- The sources went out, and behind them tokens that spell a text.
  abbrev pub Streaming : List Event → List Citation → Bytes → World E → Type 0
  Streaming es cs text w =
      (ts : List Bytes) × (w.events ≡ es ++ sources cs ∷ tokens ts) × (joined ts ≡ text)

module _ {F E : Type 0} (w0 : World E) where
  pub stopped :
      (w : World E) (o : Outcome F) (cs : List Citation) (text : Bytes)
      → is_answered o ≡ false
      → Streaming w0.events cs text w
      → SentBehind w0 (w, o)
  stopped w o cs text h (ts, e, _) = (sources cs ∷ tokens ts, e, broken_off cs ts o h)

  pub either :
      (bad : Bool) (x y : World E × Outcome F)
      → SentBehind w0 x
      → SentBehind w0 y
      → SentBehind w0 (if bad then x else y)
  either true x y p q = p
  either false x y p q = q

  pub quiet_end :
      (w : World E) (o : Outcome F)
      → is_answered o ≡ false
      → w.events ≡ w0.events
      → SentBehind w0 (w, o)
  quiet_end w o h e = ([], e ∙ sym (append-nil w0.events), silent o h)

module _ {F E : Type 0} (sv : Service F E) where
  callback-Streaming :
      (es : List Event) (cs : List Citation) → Tracks (on_event sv) (Streaming es cs)
  callback-Streaming es cs = record {
    on_delta = λ t text w x. (
      x.0 ++ t ∷ [],
      ap (λ v. v ++ token t ∷ []) x.1
          ∙ append_assoc es (sources cs ∷ tokens x.0) (token t ∷ [])
          ∙ ap (λ v. es ++ sources cs ∷ v) (tokens-snoc x.0 t),
      joined-snoc x.0 t ∙ ap (λ v. v ++ t) x.2,
    );
    on_last = λ u text w x. x;
  }

  module _ (t : Turn) (w0 : World E) where
    module _ (ranked : List (Chunk F)) (u : Usage) (cites : List Citation)
        (fresh : u.cache_hit ≡ false) where
      conclude_cited-Sent :
          (resp : Response) (o : Option (List Citation)) (w : World E)
          → Streaming w0.events cites resp.text w
          → SentBehind w0 (
              conclude_cited sv t ranked
                (answered_usage u resp)
                (checked_answer resp.text (parse_citations resp.text (length ranked)).1)
                cites
                o
                w)
      unfolding conclude
      conclude_cited-Sent resp none w s = stopped w0 w panicked cites resp.text refl s
      conclude_cited-Sent resp (some citations) w (ts, e, text) =
          let last = done (answered_usage u resp) ∷ [] in
          (
            sources cites ∷ (tokens ts ++ last),
            ap (λ x. x ++ last) e ∙ append_assoc w0.events (sources cites ∷ tokens ts) last,
            whole cites ts _ refl (rw text (from_model _ fresh refl refl)),
          )

      on_end-Sent :
          (x : Response × World E × StreamEnd)
          → Streaming w0.events cites x.0.text x.1
          → SentBehind w0 (on_end sv t ranked u cites x)
      unfolding verify
      on_end-Sent (resp, w, complete) s =
          conclude_cited-Sent resp
            (cited_sources cites (parse_citations resp.text (length ranked)).0) w s
      on_end-Sent (resp, w, aborted) s = stopped w0 w _ cites resp.text refl s
      on_end-Sent (resp, w, broken) s = stopped w0 w _ cites resp.text refl s

      on_open-Sent :
          (o : Option (List Bytes × Bool)) (w : World E)
          → Streaming w0.events cites [] w
          → SentBehind w0 (on_open sv t ranked u cites o w)
      on_open-Sent none w s = stopped w0 w _ cites [] refl s
      on_open-Sent (some (lines, e)) w s =
          on_end-Sent (stream_body (on_event sv) sv.decode lines e w) (
            stream_body-tracks (on_event sv) (Streaming w0.events cites)
              (callback-Streaming w0.events cites) sv.decode lines e w s)

      pub generate-Sent :
          (w : World E)
          → Streaming w0.events cites [] w
          → SentBehind w0 (generate sv t ranked u cites w)
      unfolding generate
      generate-Sent w s =
          let contents = build_contents t.history t.question ranked in
          on_open-Sent (sv.open_stream contents) (record w { asked = w.asked ++ contents ∷ [] }) s
