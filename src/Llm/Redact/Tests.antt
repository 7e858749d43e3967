-- ===== src/Llm/Redact/Tests.antt =====
-- A transport error with the key in its address, twice.
use ragline.Base.{◌≡◌, refl, List, some, Bytes, codes, join, has_prefix}
use ragline.Rerank.Result.{All}
use ragline.Llm.Redact.{redact, redacted, truncate}
use ragline.Llm.Redact.Pieces.{Free, redact-pieces}

abbrev api_key : Bytes
api_key = codes "AIza7"

hides_key :
    redact api_key (some (codes "Post ?key=AIza7: EOF AIzaAIza7"))
    ≡ some (codes "Post ?key=REDACTED: EOF AIzaREDACTED")
unfolding redact has_prefix
hides_key = refl

cuts : truncate (codes "quota exceeded") 5 ≡ codes "quota"
unfolding truncate
cuts = refl

redact-pieces_example :
    (ps : List Bytes) × (join ps api_key ≡ codes "key=AIza7!")
    × (redact api_key (some (codes "key=AIza7!")) ≡ some (join ps redacted))
    × All (Free b'A' (codes "Iza7")) ps
redact-pieces_example = redact-pieces b'A' (codes "Iza7") (codes "key=AIza7!")
