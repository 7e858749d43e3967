-- ===== src/Llm/Stream/Tests.antt =====
-- A stream of two frames with a thought between them, and the theorems at it.
use ragline.Base.{
  ◌≡◌, refl, Bool, true, false, List, [], ◌∷◌, Option, none, some, Bytes, codes, bytes_eq,
  has_prefix, if◌then◌else◌,
}
use ragline.Llm.Stream.{ApiResponse, StreamEvent, delta, finished, stream_body}
use ragline.Llm.Stream.Said.{said, end_of, Says, stream_body-Says}

abbrev say : Bytes → Bool → ApiResponse
say t thinking = record {
  candidates =
      record { parts = record { text = t; thought = thinking } ∷ []; finish_reason = [] } ∷ [];
  usage = record { prompt_tokens = 7; output_tokens = 2; total_tokens = 9 };
}

-- The reader of JSON knows three frames.
abbrev decode : Bytes → Option ApiResponse
decode d =
    if bytes_eq d (codes "{a}")
    then some (say (codes "Keys ") false)
    else if bytes_eq d (codes "{b}")
    then some (say (codes "hm") true)
    else if bytes_eq d (codes "{c}")
    then some (say (codes "rotate [1].") false)
    else none

abbrev lines : List Bytes
lines =
    codes "data: {a}"
    ∷ []
    ∷ codes "data: {b}"
    ∷ codes "data: {broken"
    ∷ codes "data: {c}"
    ∷ codes "data: [DONE]"
    ∷ codes "data: {a}"
    ∷ []

-- A client that disconnects at the second delta.
abbrev impatient : StreamEvent → List Bytes → List Bytes × Bool
impatient (delta t) [] = (t ∷ [], false)
impatient (delta t) (u ∷ us) = (t ∷ u ∷ us, true)
impatient (finished u) seen = (seen, false)

abbrev patient : StreamEvent → List Bytes → List Bytes × Bool
patient (delta t) seen = (t ∷ seen, false)
patient (finished u) seen = (seen, false)

patient-never : (e : StreamEvent) (s : List Bytes) → (patient e s).1 ≡ false
patient-never (delta t) s = refl
patient-never (finished u) s = refl

whole_text : (stream_body patient decode lines false []).0.text ≡ codes "Keys rotate [1]."
unfolding stream_body bytes_eq has_prefix
whole_text = refl

stream_body-Says_example :
    Says (said decode lines) (end_of true) (stream_body patient decode lines true [])
stream_body-Says_example = stream_body-Says patient decode lines true [] patient-never
