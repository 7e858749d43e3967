-- ===== src/Llm/Stream.antt =====
-- internal/llm/gemini.go: the read loop of `Client.Stream`, behind the response header. A line is
-- what the scanner returns; decoding one frame's JSON is an argument.
pub mod Emitted
pub mod Said
pub mod Invariant
mod Tests
use ragline.Base.{
  ℕ, ◌+◌, Bool, true, false, ◌&&◌, ◌||◌, not, List, [], ◌∷◌, ◌++◌, Option, none, some, Bytes, codes,
  has_prefix, drop, trim_space, bytes_eq, ltb, if◌then◌else◌,
}

-- `Usage`
pub record Usage : Type 0 where
  pub prompt_tokens : ℕ
  pub output_tokens : ℕ
  pub total_tokens : ℕ

abbrev pub no_usage : Usage
no_usage = record { prompt_tokens = 0; output_tokens = 0; total_tokens = 0 }

-- `Part`, `Candidate` and `apiResponse`, as far as the loop reads them.
pub record Part : Type 0 where
  pub text : Bytes
  pub thought : Bool

pub record Candidate : Type 0 where
  pub parts : List Part
  pub finish_reason : Bytes

pub record ApiResponse : Type 0 where
  pub candidates : List Candidate
  pub usage : Usage

-- `Response`, without the latency.
pub record Response : Type 0 where
  pub text : Bytes
  pub finish_reason : Bytes
  pub usage : Usage

abbrev pub no_response : Response
no_response = record { text = []; finish_reason = []; usage = no_usage }

-- How `Stream` ended: with the final event, by an error of the callback, by an error of the scanner.
pub data StreamEnd : Type 0 where
  complete aborted broken : StreamEnd

abbrev pub is_nil : Bytes → Bool
is_nil [] = true
is_nil (c ∷ s) = false

-- `StreamEvent`: a delta, or the last event with the usage.
pub data StreamEvent : Type 0 where
  delta : Bytes → StreamEvent
  finished : Usage → StreamEvent

-- What a line carries: nothing, the end mark, or data.
pub data Line : Type 0 where
  blank done : Line
  frame : Bytes → Line

abbrev pub data_of : Bytes → Line
data_of d = if bytes_eq d (codes "[DONE]") then done else frame d

unfoldable pub classify : Bytes → Line
unfolding has_prefix trim_space bytes_eq
classify line =
    if has_prefix line (codes "data:") then data_of (trim_space (drop 5 line)) else blank

-- The usage of a frame counts where its total is set.
abbrev pub usage_of : ApiResponse → Usage → Usage
usage_of chunk old = if ltb 0 chunk.usage.total_tokens then chunk.usage else old

abbrev pub reason_of : Candidate → Bytes → Bytes
reason_of c old = if is_nil c.finish_reason then old else c.finish_reason

-- What the loop does with a line: `continue`, `break`, or read a frame. One that does not decode is
-- passed by.
pub data LineStep : Type 0 where
  skip leave : LineStep
  take_frame : ApiResponse → LineStep

abbrev pub decoded : Option ApiResponse → LineStep
decoded none = skip
decoded (some chunk) = take_frame chunk

unfoldable pub line_step : (Bytes → Option ApiResponse) → Bytes → LineStep
unfolding classify
line_step decode line = elim (classify line) [
  | blank ↦ skip
  | done ↦ leave
  | frame d ↦ decoded (decode d)
]

-- The callback takes an event and a state, and says whether it failed.
module _ {S : Type 0} (on_event : StreamEvent → S → S × Bool) where
  -- The loop over the parts; the flag is an error of the callback.
  unfoldable pub emit_parts : List Part → Bytes → S → Bytes × S × Bool
  emit_parts [] acc s = (acc, s, false)
  emit_parts (p ∷ ps) acc s =
      let pass = emit_parts ps acc s in
      let (s', failed) = on_event (delta p.text) s in
      let go = emit_parts ps (acc ++ p.text) s' in
      if p.thought || is_nil p.text then pass else if failed then (acc ++ p.text, s', true) else go

  unfoldable pub read_candidates : List Candidate → Usage → Response → S → Response × S × Bool
  unfolding emit_parts
  read_candidates [] usage out s = (record out { usage = usage }, s, false)
  read_candidates (c ∷ cs) usage out s =
      let (text, s', failed) = emit_parts c.parts out.text s in
      (
        record { text = text; finish_reason = reason_of c out.finish_reason; usage = usage },
        s',
        failed,
      )

  -- One decoded frame: the usage, then the first candidate's reason and parts.
  unfoldable pub read_frame : ApiResponse → Response → S → Response × S × Bool
  unfolding read_candidates
  read_frame chunk out s = read_candidates chunk.candidates (usage_of chunk out.usage) out s

  -- Behind the loop: `onEvent` with the usage, its error ignored, unless the scanner failed.
  unfoldable pub finish : Bool → Response → S → Response × S × StreamEnd
  finish true out s = (out, s, broken)
  finish false out s = (out, (on_event (finished out.usage) s).0, complete)

  -- One round, and the rest of the loop `next`. The flag is what `sc.Err()` reports behind the loop,
  -- whether the lines or the end mark ended it.
  unfoldable pub read_step :
      Bool
      → LineStep
      → (Response → S → Response × S × StreamEnd)
      → Response
      → S
      → Response × S × StreamEnd
  unfolding read_frame finish
  read_step scan_failed skip next out s = next out s
  read_step scan_failed leave next out s = finish scan_failed out s
  read_step scan_failed (take_frame chunk) next out s =
      let (out', s', failed) = read_frame chunk out s in
      if failed then (out', s', aborted) else next out' s'

  -- The loop over the lines that the scanner returns, from the response so far. An error of the
  -- scanner shows only behind the loop; a read may deliver the end mark together with an error.
  unfoldable pub read_lines :
      (Bytes → Option ApiResponse) → List Bytes → Bool → Response → S → Response × S × StreamEnd
  unfolding read_step line_step
  read_lines decode [] scan_failed out s = finish scan_failed out s
  read_lines decode (line ∷ rest) scan_failed out s =
      read_step scan_failed (line_step decode line) (read_lines decode rest scan_failed) out s

  -- `Stream`, once the response header has come.
  unfoldable pub stream_body :
      (Bytes → Option ApiResponse) → List Bytes → Bool → S → Response × S × StreamEnd
  unfolding read_lines
  stream_body decode lines scan_failed s = read_lines decode lines scan_failed no_response s
