-- ===== src/Embed/Batch.antt =====
-- `EmbedBatch` keeps every vector with its text.
use ragline.Base.{◌≡◌, List, [], ◌∷◌, Option, none, some, Bytes, length}
use ragline.Embed.{
  Arithmetic, Embedded, embedded, embed_failed, request_failed, undecodable, wrong_count, normalize,
}

module _ (ar : Arithmetic) where
  open ar use {F, zero_float, sqrt, is_zero}

  -- One vector for each that came back: scaled, and of its dimension.
  pub data Scaled : List (List F) → List (List F) → Type 0 where
    none_left : Scaled [] []
    one_more :
        (v w : List F) {vs ws : List (List F)}
        → w ≡ normalize ar v
        → length w ≡ length v
        → Scaled vs ws
        → Scaled (v ∷ vs) (w ∷ ws)

  module _ (post : List Bytes → Option Bytes) (decode : Bytes → Option (List (List F)))
      (texts : List Bytes) where
    -- What a batch of texts comes to, by what the request for them returned.
    pub data Aligned : Embedded (List (List F)) → Type 0 where
      no_texts : texts ≡ [] → Aligned (embedded [])
      aligned :
          (raw : Bytes) (vs ws : List (List F))
          → post texts ≡ some raw
          → decode raw ≡ some vs
          → length vs ≡ length texts
          → Scaled vs ws
          → Aligned (embedded ws)
      miscounted :
          (raw : Bytes) (vs : List (List F))
          → post texts ≡ some raw
          → decode raw ≡ some vs
          → ((length vs ≡ length texts) → ⊥)
          → Aligned (embed_failed (wrong_count (length texts) (length vs)))
      unsent : post texts ≡ none → Aligned (embed_failed request_failed)
      unread :
          (raw : Bytes)
          → post texts ≡ some raw
          → decode raw ≡ none
          → Aligned (embed_failed undecodable)
