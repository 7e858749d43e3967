-- ===== src/Cache.antt =====
-- internal/cache/cache.go: the keys and the entries of the answer cache and the embedding cache. The
-- first 32 characters of the SHA-256 digest in hexadecimal are an argument.
pub mod Keys
pub mod Entries
mod Tests
use ragline.Base.{
  ℕ, ◌∷◌, [], List, ◌++◌, Bool, ◌||◌, Bytes, codes, lower, trim_space, trim_right_func, is_space,
  is_punct, fields, join, itoa,
}

-- `CachedAnswer`, without the time.
pub record CachedAnswer : Type 0 where
  pub answer : Bytes
  pub chunk_ids : List ℕ
  pub citations : List ℕ
  pub model : Bytes

-- The function that the trailing text is cut by.
abbrev pub is_tail : ℕ → Bool
is_tail c = is_punct c || is_space c

-- `normalizeQuestion`
unfoldable pub normalize_question : Bytes → Bytes
unfolding lower trim_space trim_right_func is_punct fields join
normalize_question q = join (fields (trim_right_func is_tail (lower (trim_space q)))) (codes " ")

-- What `AnswerKey` hashes: the normalised question, a zero byte, the version of the corpus.
unfoldable pub answer_preimage : Bytes → Bytes → Bytes
unfolding normalize_question
answer_preimage question corpus_version = normalize_question question ++ 0 ∷ corpus_version

-- `AnswerKey`
unfoldable pub answer_key : (Bytes → Bytes) → Bytes → Bytes → Bytes
unfolding answer_preimage
answer_key digest question corpus_version =
    codes "ans:" ++ digest (answer_preimage question corpus_version)

-- What `EmbeddingKey` hashes, for a dimension that is not negative.
unfoldable pub embedding_preimage : Bytes → Bytes → ℕ → Bytes
unfolding normalize_question itoa
embedding_preimage text model dim = normalize_question text ++ 0 ∷ (model ++ 0 ∷ itoa dim)

-- `EmbeddingKey`
unfoldable pub embedding_key : (Bytes → Bytes) → Bytes → Bytes → ℕ → Bytes
unfolding embedding_preimage
embedding_key digest text model dim = codes "emb:" ++ digest (embedding_preimage text model dim)
