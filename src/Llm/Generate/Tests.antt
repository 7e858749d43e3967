-- ===== src/Llm/Generate/Tests.antt =====
-- One response in one piece and as one frame, and the theorem at it.
use ragline.Base.{
  ◌≡◌, refl, Bool, true, false, List, [], ◌∷◌, Option, none, some, Bytes, codes, bytes_eq,
  has_prefix, trim_space, arith, ◌==◌, if◌then◌else◌, pos,
}
use ragline.Llm.Stream.{ApiResponse, Candidate, StreamEvent, delta, finished, complete, stream_body}
use ragline.Llm.Retry.{response}
use ragline.Llm.Generate.{Request, generated, response_of, read_response, generate_text}
use ragline.Llm.Generate.Agrees.{generate-stream}

abbrev candidate : Candidate
candidate = record {
  parts =
      record { text = codes "Let me see."; thought = true }
      ∷ record { text = codes "[3, "; thought = false }
      ∷ record { text = codes "9]"; thought = false }
      ∷ [];
  finish_reason = codes "STOP";
}

abbrev chunk : ApiResponse
chunk = record {
  candidates = candidate ∷ [];
  usage = record { prompt_tokens = 7; output_tokens = 2; total_tokens = 9 };
}

abbrev decode : Bytes → Option ApiResponse
decode d = if bytes_eq d (codes "{a}") then some chunk else none

abbrev keep_all : StreamEvent → List Bytes → List Bytes × Bool
keep_all (delta t) seen = (t ∷ seen, false)
keep_all (finished u) seen = (seen, false)

keep_all-works : (e : StreamEvent) (s : List Bytes) → (keep_all e s).1 ≡ false
keep_all-works (delta t) s = refl
keep_all-works (finished u) s = refl

abbrev request : Request Bytes
request = record {
  system = codes "Score the passages.";
  contents = [];
  config = record {
    temperature = [];
    max_output_tokens = pos 0;
    response_mime_type = [];
    response_schema = [];
  };
  json = true;
}

-- The thought is not part of the text, and the second attempt succeeds.
generate_run :
    generate_text
      (λ t. true)
      (λ s. some (chunk, []))
      (λ req k. if k == 1 then response 200 (some []) else response 503 (some []))
      (λ k. 10)
      (λ k. false)
      60000
      4
      (codes "key")
      request
    ≡ generated (response_of candidate chunk.usage)
unfolding generate_text bytes_eq
generate_run = refl

generate-stream_example :
    (read_response (some (chunk, []))
      ≡ generated (stream_body keep_all decode (codes "data: {a}" ∷ []) false []).0)
    × ((stream_body keep_all decode (codes "data: {a}" ∷ []) false []).2 ≡ complete)
unfolding stream_body bytes_eq has_prefix trim_space
generate-stream_example =
    generate-stream keep_all decode (codes "data: {a}") chunk candidate [] [] [] keep_all-works refl
      refl (omega arith)
