-- ===== src/Llm/Stream/Said.antt =====
-- The text of a streamed response against what the frames say.
use ragline.Base.{
  ◌≡◌, refl, sym, ap, ◌∙◌, Bool, true, false, List, [], ◌∷◌, ◌++◌, append_assoc, append-nil, Option,
  Bytes, arith, if◌then◌else◌,
}
use ragline.Llm.Stream.{
  Usage, Part, Candidate, ApiResponse, Response, no_response, StreamEnd, complete, broken, is_nil,
  StreamEvent, delta, LineStep, skip, leave, take_frame, line_step, emit_parts, read_candidates,
  read_frame, usage_of, finish, read_step, read_lines, stream_body,
}

-- The text of the parts that are no thoughts.
pub spoken : List Part → Bytes
spoken [] = []
spoken (p ∷ ps) = (if p.thought then [] else p.text) ++ spoken ps

pub first_spoken : List Candidate → Bytes
unfolding spoken
first_spoken [] = []
first_spoken (c ∷ cs) = spoken c.parts

abbrev pub step_text : LineStep → Bytes → Bytes
step_text skip rest = rest
step_text leave rest = []
step_text (take_frame chunk) rest = first_spoken chunk.candidates ++ rest

-- What the frames up to the end mark say.
pub said : (Bytes → Option ApiResponse) → List Bytes → Bytes
said decode [] = []
said decode (line ∷ rest) = step_text (line_step decode line) (said decode rest)

eq-nil : (t : Bytes) → is_nil t ≡ true → t ≡ []
eq-nil [] h = refl
eq-nil (c ∷ t) h = cc

abbrev pub end_of : Bool → StreamEnd
end_of true = broken
end_of false = complete

-- What a run without errors of the callback comes to.
pub record Says {S : Type 0} (text : Bytes) (end : StreamEnd) (x : Response × S × StreamEnd)
    : Type 0 where
  pub says : x.0.text ≡ text
  pub ends : x.2 ≡ end

module _ {S : Type 0} (on_event : StreamEvent → S → S × Bool)
    (never : (e : StreamEvent) (s : S) → (on_event e s).1 ≡ false) where
  parts-spoken :
      (ps : List Part) (acc : Bytes) (s : S)
      → ((emit_parts on_event ps acc s).0 ≡ acc ++ spoken ps)
        × ((emit_parts on_event ps acc s).2 ≡ false)
  unfolding emit_parts spoken
  parts-spoken [] acc s = (sym (append-nil acc), refl)
  parts-spoken (p ∷ ps) acc s =
      let (s', failed) = on_event (delta p.text) s in
      ground (
        arith,
        parts-spoken ps acc s,
        parts-spoken ps (acc ++ p.text) s',
        never (delta p.text) s,
        append_assoc acc p.text (spoken ps),
        eq-nil p.text,
      )

  candidates-spoken :
      (cs : List Candidate) (usage : Usage) (out : Response) (s : S)
      → ((read_candidates on_event cs usage out s).0.text ≡ out.text ++ first_spoken cs)
        × ((read_candidates on_event cs usage out s).2 ≡ false)
  unfolding read_candidates first_spoken
  candidates-spoken [] usage out s = (sym (append-nil out.text), refl)
  candidates-spoken (c ∷ cs) usage out s = parts-spoken c.parts out.text s

  frame-spoken :
      (chunk : ApiResponse) (out : Response) (s : S)
      → ((read_frame on_event chunk out s).0.text ≡ out.text ++ first_spoken chunk.candidates)
        × ((read_frame on_event chunk out s).2 ≡ false)
  unfolding read_frame
  frame-spoken chunk out s = candidates-spoken chunk.candidates (usage_of chunk out.usage) out s

  finish-Says :
      (b : Bool) (out : Response) (s : S) → Says out.text (end_of b) (finish on_event b out s)
  unfolding finish
  finish-Says true out s = record { says = refl; ends = refl }
  finish-Says false out s = record { says = refl; ends = refl }

  step-Says :
      (x : LineStep) (next : Response → S → Response × S × StreamEnd) (text : Bytes) (b : Bool)
      → ((out : Response) (s : S) → Says (out.text ++ text) (end_of b) (next out s))
      → (out : Response) (s : S)
      → Says (out.text ++ step_text x text) (end_of b) (read_step on_event b x next out s)
  unfolding read_step
  step-Says skip next text b ih out s = ih out s
  step-Says leave next text b ih out s =
      let f = finish-Says b out s in
      record { says = f.says ∙ sym (append-nil out.text); ends = f.ends }
  step-Says (take_frame chunk) next text b ih out s =
      let (out', s', failed) = read_frame on_event chunk out s in
      let (spoke, passed) = frame-spoken chunk out s in
      let rest = ih out' s' in
      rw passed (record {
        says =
            rest.says
            ∙ ap (λ t. t ++ text) spoke
            ∙ append_assoc out.text (first_spoken chunk.candidates) text;
        ends = rest.ends;
      })

  lines-Says :
      (decode : Bytes → Option ApiResponse) (scan_failed : Bool) (lines : List Bytes)
      (out : Response) (s : S)
      → Says
          (out.text ++ said decode lines)
          (end_of scan_failed)
          (read_lines on_event decode lines scan_failed out s)
  unfolding read_lines said
  lines-Says decode scan_failed [] out s =
      let f = finish-Says scan_failed out s in
      record { says = f.says ∙ sym (append-nil out.text); ends = f.ends }
  lines-Says decode scan_failed (line ∷ rest) out s =
      step-Says (line_step decode line) (read_lines on_event decode rest scan_failed)
        (said decode rest) scan_failed (lines-Says decode scan_failed rest) out s

-- With a callback that never fails the response is the text of all frames up to the end mark, the
-- thoughts left out, and the stream is complete exactly where the scanner reports no error behind the
-- loop, be it ended by the end mark or by the last line.
pub stream_body-Says :
    {S : Type 0} (on_event : StreamEvent → S → S × Bool) (decode : Bytes → Option ApiResponse)
    (lines : List Bytes) (scan_failed : Bool) (s : S)
    → ((e : StreamEvent) (s : S) → (on_event e s).1 ≡ false)
    → Says
        (said decode lines)
        (end_of scan_failed)
        (stream_body on_event decode lines scan_failed s)
unfolding stream_body
stream_body-Says on_event decode lines scan_failed s never =
    lines-Says on_event never decode scan_failed lines no_response s
