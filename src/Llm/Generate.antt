-- ===== src/Llm/Generate.antt =====
-- internal/llm/gemini.go: `Request.build` and `Generate`, the answer in one piece. Encoding a request
-- and decoding a response are arguments; the loop behind the call is `do_with_retry`.
pub mod Agrees
mod Tests
use ragline.Base.{
  ℕ, Bool, true, false, ◌&&◌, List, [], ◌∷◌, ◌++◌, Option, none, some, Bytes, codes, ◌==◌, length,
  ℤ, pos, negsuc, if◌then◌else◌,
}
use ragline.Chat.Types.{Content}
use ragline.Llm.Stream.{Usage, Part, Candidate, ApiResponse, Response, is_nil}
use ragline.Llm.Retry.{
  Attempt, Ending, got, rejected, exhausted, gave_up, cancelled, Run, do_with_retry,
}

-- `GenerationConfig`; a temperature is a `V`, and a schema is its fields.
pub record GenerationConfig (V : Type 0) : Type 0 where
  pub temperature : V
  pub max_output_tokens : ℤ
  pub response_mime_type : Bytes
  pub response_schema : List (Bytes × Bytes)

pub record Request (V : Type 0) : Type 0 where
  pub system : Bytes
  pub contents : List Content
  pub config : GenerationConfig V
  pub json : Bool

-- `apiRequest`; the system instruction is its one text.
pub record ApiRequest (V : Type 0) : Type 0 where
  pub system_instruction : Option Bytes
  pub contents : List Content
  pub generation_config : Option (GenerationConfig V)

abbrev pub is_zero : ℤ → Bool
is_zero (pos n) = n == 0
is_zero (negsuc n) = false

module _ {V : Type 0} (no_temperature : V → Bool) where
  -- `isZero`
  abbrev pub is_zero_config : GenerationConfig V → Bool
  is_zero_config c =
      no_temperature c.temperature
      && is_zero c.max_output_tokens
      && is_nil c.response_mime_type
      && (length c.response_schema == 0)

  abbrev pub config_of : Request V → GenerationConfig V
  config_of r =
      if r.json then record r.config { response_mime_type = codes "application/json" } else r.config

  -- `build`
  unfoldable pub build : Request V → ApiRequest V
  build r = record {
    system_instruction = if is_nil r.system then none else some r.system;
    contents = r.contents;
    generation_config = if is_zero_config (config_of r) then none else some (config_of r);
  }

-- The text of the parts that are no thoughts.
unfoldable pub join_parts : List Part → Bytes
join_parts [] = []
join_parts (p ∷ ps) = let rest = join_parts ps in if p.thought then rest else p.text ++ rest

-- The results of `Generate`: a response or one of its errors; `no_candidates` has the reason.
pub data Generation : Type 0 where
  generated : Response → Generation
  no_api_key undecodable : Generation
  no_candidates : Bytes → Generation
  api_failed : Ending → Generation

abbrev pub response_of : Candidate → Usage → Response
response_of c usage = record {
  text = join_parts c.parts;
  finish_reason = c.finish_reason;
  usage = usage;
}

abbrev pub first_candidate : Bytes → List Candidate → Usage → Generation
first_candidate block_reason [] usage = no_candidates block_reason
first_candidate block_reason (c ∷ cs) usage = generated (response_of c usage)

-- The decoded body, with the reason of a blocked prompt, or the empty text.
unfoldable pub read_response : Option (ApiResponse × Bytes) → Generation
unfolding join_parts
read_response none = undecodable
read_response (some (ar, block_reason)) = first_candidate block_reason ar.candidates ar.usage

abbrev pub behind_call : (Bytes → Option (ApiResponse × Bytes)) → Ending → Generation
behind_call decode (got body) = read_response (decode body)
behind_call decode (rejected code) = api_failed (rejected code)
behind_call decode (exhausted e) = api_failed (exhausted e)
behind_call decode (gave_up e) = api_failed (gave_up e)
behind_call decode cancelled = api_failed cancelled

-- `Generate`, with the answers of the API to the request that was built.
unfoldable pub generate_text :
    {V : Type 0}
    → (V → Bool)
    → (Bytes → Option (ApiResponse × Bytes))
    → (ApiRequest V → ℕ → Attempt)
    → (ℕ → ℕ)
    → (ℕ → Bool)
    → ℕ
    → ℕ
    → Bytes
    → Request V
    → Generation
unfolding build read_response do_with_retry
generate_text no_temperature decode http took ctx_done budget max_retries [] req = no_api_key
generate_text no_temperature decode http took ctx_done budget max_retries (k ∷ key) req =
    behind_call decode
      (do_with_retry (http (build no_temperature req)) took ctx_done budget max_retries).ending
