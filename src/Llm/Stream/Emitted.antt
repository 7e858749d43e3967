-- ===== src/Llm/Stream/Emitted.antt =====
-- The text of a streamed response against what the callback was given.
use ragline.Base.{◌≡◌, refl, sym, ap, ◌∙◌, Bool, List, [], ◌++◌, append-nil, Option, Bytes}
use ragline.Llm.Stream.{ApiResponse, StreamEvent, delta, finished, stream_body}
use ragline.Llm.Stream.Invariant.{stream_body-tracks}

module _ {S : Type 0} (on_event : StreamEvent → S → S × Bool) where
  abbrev text_in : StreamEvent → Bytes
  text_in (delta t) = t
  text_in (finished u) = []

  -- The callback, beside a record of the text that it was given.
  abbrev pub recording : StreamEvent → S × Bytes → (S × Bytes) × Bool
  recording e (s, r) = let (s', failed) = on_event e s in ((s', r ++ text_in e), failed)

-- Whatever the callback does and however the stream ends, the text of the response is the text that
-- the callback was given, delta by delta, up to the one at which it failed.
pub stream_body-recorded :
    {S : Type 0} (on_event : StreamEvent → S → S × Bool) (decode : Bytes → Option ApiResponse)
    (lines : List Bytes) (scan_failed : Bool) (s : S)
    → (stream_body (recording on_event) decode lines scan_failed (s, [])).0.text
      ≡ (stream_body (recording on_event) decode lines scan_failed (s, [])).1.1
stream_body-recorded on_event decode lines scan_failed s =
    stream_body-tracks (recording on_event) (λ text x. text ≡ x.1)
      (record {
        on_delta = λ t text x h. ap (λ r. r ++ t) h;
        on_last = λ u text x h. h ∙ sym (append-nil x.1);
      })
      decode lines scan_failed (s, []) refl
