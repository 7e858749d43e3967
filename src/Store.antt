-- ===== src/Store.antt =====
-- internal/store/store.go: the rows that retrieval returns; the children have the tables.
pub mod Documents
pub mod Conversations
pub mod Fusion
pub mod Whole
pub mod Passages
pub mod Terms
pub mod Bm25
pub mod Telemetry
pub mod Vectors
mod Tests
use ragline.Base.{ℕ, ◌≡◌, Bool, true, false, Bytes}

-- What the code asks of `float64`: zero and `>`. The scores that reach a comparison are finite, so
-- `>` is a strict weak order; JSON cannot spell a NaN.
pub record Floats : Type 1 where
  pub F : Type 0
  pub zero_score : F
  pub gt : F → F → Bool
  pub gt_irrefl : (a : F) → gt a a ≡ false
  pub gt_trans : (a b c : F) → gt a b ≡ true → gt b c ≡ true → gt a c ≡ true
  pub not-gt_trans : (a b c : F) → gt a b ≡ false → gt b c ≡ false → gt a c ≡ false

-- `Chunk`
pub record Chunk (F : Type 0) : Type 0 where
  pub id : ℕ
  pub document_id : ℕ
  pub doc_title : Bytes
  pub source_uri : Bytes
  pub ordinal : ℕ
  pub heading : Bytes
  pub content : Bytes
  pub rrf_score : F
  pub vector_rank : ℕ
  pub keyword_rank : ℕ
  pub rerank_score : F
