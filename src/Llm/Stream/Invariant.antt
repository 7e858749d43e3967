-- ===== src/Llm/Stream/Invariant.antt =====
-- What the callback keeps, the whole stream keeps: relations between the text of the response and the
-- state of the callback.
use ragline.Base.{Bool, true, false, ◌||◌, List, [], ◌∷◌, ◌++◌, Option, Bytes, if◌then◌else◌}
use ragline.Llm.Stream.{
  Usage, Part, Candidate, ApiResponse, Response, no_response, StreamEnd, aborted, is_nil,
  StreamEvent, delta, finished, LineStep, skip, leave, take_frame, line_step, emit_parts,
  read_candidates, read_frame, usage_of, finish, read_step, read_lines, stream_body,
}

module _ {S : Type 0} (on_event : StreamEvent → S → S × Bool) where
  -- A delta lengthens the text, and the last event leaves it.
  pub record Tracks (R : Bytes → S → Type 0) : Type 0 where
    pub on_delta : (t text : Bytes) (s : S) → R text s → R (text ++ t) (on_event (delta t) s).0
    pub on_last : (u : Usage) (text : Bytes) (s : S) → R text s → R text (on_event (finished u) s).0

  module _ (R : Bytes → S → Type 0) (tr : Tracks R) where
    either_text :
        (b : Bool) (x y : Bytes × S × Bool)
        → R x.0 x.1
        → R y.0 y.1
        → R (if b then x else y).0 (if b then x else y).1
    either_text true x y p q = p
    either_text false x y p q = q

    either_end :
        (b : Bool) (x y : Response × S × StreamEnd)
        → R x.0.text x.1
        → R y.0.text y.1
        → R (if b then x else y).0.text (if b then x else y).1
    either_end true x y p q = p
    either_end false x y p q = q

    emit_parts-tracks :
        (ps : List Part) (acc : Bytes) (s : S)
        → R acc s
        → R (emit_parts on_event ps acc s).0 (emit_parts on_event ps acc s).1
    unfolding emit_parts
    emit_parts-tracks [] acc s h = h
    emit_parts-tracks (p ∷ ps) acc s h =
        let (s', failed) = on_event (delta p.text) s in
        let h' = tr.on_delta p.text acc s h in
        let go = emit_parts on_event ps (acc ++ p.text) s' in
        either_text (p.thought || is_nil p.text) (emit_parts on_event ps acc s)
          (if failed then (acc ++ p.text, s', true) else go) (emit_parts-tracks ps acc s h)
          (either_text failed (acc ++ p.text, s', true) go h'
            (emit_parts-tracks ps (acc ++ p.text) s' h'))

    candidates-tracks :
        (cs : List Candidate) (usage : Usage) (out : Response) (s : S)
        → R out.text s
        → R
            (read_candidates on_event cs usage out s).0.text
            (read_candidates on_event cs usage out s).1
    unfolding read_candidates
    candidates-tracks [] usage out s h = h
    candidates-tracks (c ∷ cs) usage out s h = emit_parts-tracks c.parts out.text s h

    read_frame-tracks :
        (chunk : ApiResponse) (out : Response) (s : S)
        → R out.text s
        → R (read_frame on_event chunk out s).0.text (read_frame on_event chunk out s).1
    unfolding read_frame
    read_frame-tracks chunk out s h =
        candidates-tracks chunk.candidates (usage_of chunk out.usage) out s h

    finish-tracks :
        (b : Bool) (out : Response) (s : S)
        → R out.text s
        → R (finish on_event b out s).0.text (finish on_event b out s).1
    unfolding finish
    finish-tracks true out s h = h
    finish-tracks false out s h = tr.on_last out.usage out.text s h

    step-tracks :
        (b : Bool) (x : LineStep) (next : Response → S → Response × S × StreamEnd)
        → ((out : Response) (s : S) → R out.text s → R (next out s).0.text (next out s).1)
        → (out : Response) (s : S) → R out.text s
        → R (read_step on_event b x next out s).0.text (read_step on_event b x next out s).1
    unfolding read_step
    step-tracks b skip next ih out s h = ih out s h
    step-tracks b leave next ih out s h = finish-tracks b out s h
    step-tracks b (take_frame chunk) next ih out s h =
        let (out', s', failed) = read_frame on_event chunk out s in
        let h' = read_frame-tracks chunk out s h in
        either_end failed (out', s', aborted) (next out' s') h' (ih out' s' h')

    lines-tracks :
        (decode : Bytes → Option ApiResponse) (scan_failed : Bool) (lines : List Bytes)
        (out : Response) (s : S)
        → R out.text s
        → R
            (read_lines on_event decode lines scan_failed out s).0.text
            (read_lines on_event decode lines scan_failed out s).1
    unfolding read_lines
    lines-tracks decode scan_failed [] out s h = finish-tracks scan_failed out s h
    lines-tracks decode scan_failed (line ∷ rest) out s h =
        step-tracks scan_failed (line_step decode line)
          (read_lines on_event decode rest scan_failed) (lines-tracks decode scan_failed rest) out s
          h

    -- A relation of the text so far and the state that the callback keeps holds behind the stream
    -- where it held of no text at its start.
    pub stream_body-tracks :
        (decode : Bytes → Option ApiResponse) (lines : List Bytes) (scan_failed : Bool) (s : S)
        → R [] s
        → R
            (stream_body on_event decode lines scan_failed s).0.text
            (stream_body on_event decode lines scan_failed s).1
    unfolding stream_body
    stream_body-tracks decode lines scan_failed s h =
        lines-tracks decode scan_failed lines no_response s h

-- The state behind a stream has every property that the callback keeps and the state before had.
pub stream_body-keeps :
    {S : Type 0} (on_event : StreamEvent → S → S × Bool) (P : S → Type 0)
    → ((e : StreamEvent) (s : S) → P s → P (on_event e s).0)
    → (decode : Bytes → Option ApiResponse) (lines : List Bytes) (scan_failed : Bool) (s : S) → P s
    → P (stream_body on_event decode lines scan_failed s).1
stream_body-keeps on_event P keeps decode lines scan_failed s h =
    stream_body-tracks on_event (λ text. P)
      (record { on_delta = λ t text. keeps (delta t); on_last = λ u text. keeps (finished u) })
      decode lines scan_failed s h
