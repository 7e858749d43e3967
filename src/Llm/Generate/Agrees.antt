-- ===== src/Llm/Generate/Agrees.antt =====
-- A response in one piece against the same response as a stream of one frame.
use ragline.Base.{
  ◌<◌, ◌≡◌, refl, sym, ap, ◌∙◌, Bool, true, false, List, [], ◌∷◌, ◌++◌, append_assoc, append-nil,
  Option, some, Bytes, arith, ltb, if◌then◌else◌, Bool-cases, inl, inr,
}
use ragline.Llm.Stream.{
  Usage, Part, Candidate, ApiResponse, Response, no_response, complete, aborted, StreamEvent, delta,
  is_nil, take_frame, line_step, emit_parts, read_candidates, read_frame, usage_of, finish,
  reason_of, read_step, read_lines, stream_body,
}
use ragline.Llm.Generate.{generated, response_of, join_parts, read_response, first_candidate}

nil-eq : (t : Bytes) → is_nil t ≡ true → t ≡ []
nil-eq [] h = refl
nil-eq (c ∷ t) h = cc

reason_of-fresh : (c : Candidate) → reason_of c [] ≡ c.finish_reason
reason_of-fresh c = elim (Bool-cases (is_nil c.finish_reason)) [
  | inl empty ↦
      ap (λ b. if b then [] else c.finish_reason) empty ∙ sym (nil-eq c.finish_reason empty)
  | inr text ↦ ap (λ b. if b then [] else c.finish_reason) text
]

module _ {S : Type 0} (on_event : StreamEvent → S → S × Bool)
    (works : (e : StreamEvent) (s : S) → (on_event e s).1 ≡ false) where
  emit_parts-join :
      (ps : List Part) (acc : Bytes) (s : S)
      → ((emit_parts on_event ps acc s).0 ≡ acc ++ join_parts ps)
        × ((emit_parts on_event ps acc s).2 ≡ false)
  unfolding emit_parts join_parts
  emit_parts-join [] acc s = (sym (append-nil acc), refl)
  emit_parts-join (p ∷ ps) acc s =
      let (s', failed) = on_event (delta p.text) s in
      ground (
        arith,
        emit_parts-join ps acc s,
        emit_parts-join ps (acc ++ p.text) s',
        works (delta p.text) s,
        append_assoc acc p.text (join_parts ps),
        nil-eq p.text,
      )

  read_candidates-first :
      (c : Candidate) (cs : List Candidate) (usage : Usage) (s : S)
      → ((read_candidates on_event (c ∷ cs) usage no_response s).0 ≡ response_of c usage)
        × ((read_candidates on_event (c ∷ cs) usage no_response s).2 ≡ false)
  unfolding read_candidates
  read_candidates-first c cs usage s =
      let (text, whole) = emit_parts-join c.parts [] s in
      (
        ap (λ t. record { text = t; finish_reason = reason_of c []; usage = usage }) text
            ∙ ap (λ r. record { text = join_parts c.parts; finish_reason = r; usage = usage })
                (reason_of-fresh c),
        whole,
      )

  read_frame-first :
      (chunk : ApiResponse) (c : Candidate) (cs : List Candidate) (s : S)
      → chunk.candidates ≡ c ∷ cs
      → 0 < chunk.usage.total_tokens
      → ((read_frame on_event chunk no_response s).0 ≡ response_of c chunk.usage)
        × ((read_frame on_event chunk no_response s).2 ≡ false)
  unfolding read_frame
  read_frame-first chunk c cs s e h =
      let counts : ltb 0 chunk.usage.total_tokens ≡ true = ground (arith, h) in
      let same =
        ap (λ k. read_candidates on_event k (usage_of chunk no_response.usage) no_response s) e
        ∙ ap
            (λ b.
              read_candidates on_event (c ∷ cs) (if b then chunk.usage else no_response.usage)
                no_response s)
            counts in
      let (whole, fine) = read_candidates-first c cs chunk.usage s in
      (ap (λ x. x.0) same ∙ whole, ap (λ x. x.2) same ∙ fine)

  read_step-ends :
      (x : Response × S × Bool)
      → x.2 ≡ false
      → ((if x.2 then (x.0, x.1, aborted) else finish on_event false x.0 x.1).0 ≡ x.0)
        × ((if x.2 then (x.0, x.1, aborted) else finish on_event false x.0 x.1).2 ≡ complete)
  unfolding finish
  read_step-ends (out, s, true) h = cc
  read_step-ends (out, s, false) h = (refl, refl)

-- A response with a candidate and a count of its tokens comes to the same, decoded as the body of
-- `Generate` and sent to `Stream` in one frame: the same text, reason and usage, and the stream is
-- complete, if the callback does not fail.
pub generate-stream :
    {S : Type 0} (on_event : StreamEvent → S → S × Bool) (decode : Bytes → Option ApiResponse)
    (line : Bytes) (chunk : ApiResponse) (c : Candidate) (cs : List Candidate)
    (block_reason : Bytes) (s : S)
    → ((e : StreamEvent) (t : S) → (on_event e t).1 ≡ false)
    → line_step decode line ≡ take_frame chunk
    → chunk.candidates ≡ c ∷ cs
    → 0 < chunk.usage.total_tokens
    → (read_response (some (chunk, block_reason))
        ≡ generated (stream_body on_event decode (line ∷ []) false s).0)
      × ((stream_body on_event decode (line ∷ []) false s).2 ≡ complete)
unfolding stream_body read_lines read_step read_response
generate-stream on_event decode line chunk c cs block_reason s works step e h =
    let (whole, fine) = read_frame-first on_event works chunk c cs s e h in
    let (text, ends) =
      read_step-ends on_event works (read_frame on_event chunk no_response s) fine in
    let one : read_response (some (chunk, block_reason)) ≡ generated (response_of c chunk.usage) =
      ap (λ k. first_candidate block_reason k chunk.usage) e in
    rw step (one ∙ ap generated (sym (text ∙ whole)), ends)
