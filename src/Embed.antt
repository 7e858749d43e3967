-- ===== src/Embed.antt =====
-- internal/embed/embed.go: `Embed`, `EmbedBatch`, `Normalize` and `Cosine`. The request with its
-- retries and the reading of the JSON answer are arguments, and so is the arithmetic on floats.
pub mod Batch
mod Tests
use ragline.Base.{
  ℕ, Bool, true, false, ◌||◌, List, [], ◌∷◌, Option, none, some, Bytes, length, ◌==◌, if◌then◌else◌,
}

-- What the code asks of `float32` and `float64`; the conversions between them are part of the
-- operations.
pub record Arithmetic : Type 1 where
  pub F : Type 0
  pub zero_float : F
  pub add : F → F → F
  pub mul : F → F → F
  pub div : F → F → F
  pub sqrt : F → F
  pub is_zero : F → Bool

pub data EmbedError : Type 0 where
  request_failed undecodable no_vector : EmbedError
  wrong_count : ℕ → ℕ → EmbedError

pub data Embedded (A : Type 0) : Type 0 where
  embedded : A → Embedded A
  embed_failed : EmbedError → Embedded A

module _ (ar : Arithmetic) where
  open ar use {F, zero_float, add, mul, div, sqrt, is_zero}

  -- The first loop of `Normalize`, from the sum so far.
  unfoldable pub sum_squares : F → List F → F
  sum_squares acc [] = acc
  sum_squares acc (f ∷ v) = sum_squares (add acc (mul f f)) v

  unfoldable pub divide_all : F → List F → List F
  divide_all norm [] = []
  divide_all norm (f ∷ v) = div f norm ∷ divide_all norm v

  -- `Normalize`
  unfoldable pub normalize : List F → List F
  unfolding sum_squares divide_all
  normalize v =
      let norm = sqrt (sum_squares zero_float v) in if is_zero norm then v else divide_all norm v

  -- The loop of `Cosine` that sums the products.
  unfoldable pub sum_products : F → List F → List F → F
  sum_products acc [] b = acc
  sum_products acc (x ∷ a) [] = acc
  sum_products acc (x ∷ a) (y ∷ b) = sum_products (add acc (mul x y)) a b

  -- `Cosine`
  unfoldable pub cosine : List F → List F → F
  unfolding sum_squares sum_products
  cosine a b =
      let na = sum_squares zero_float a in
      let nb = sum_squares zero_float b in
      if length a == length b
      then (if is_zero na || is_zero nb
          then zero_float
          else div (sum_products zero_float a b) (mul (sqrt na) (sqrt nb)))
      else zero_float

  abbrev pub one_vector : Option (List F) → Embedded (List F)
  one_vector none = embed_failed undecodable
  one_vector (some []) = embed_failed no_vector
  one_vector (some (f ∷ v)) = embedded (normalize (f ∷ v))

  abbrev pub read_one : (Bytes → Option (List F)) → Option Bytes → Embedded (List F)
  read_one decode none = embed_failed request_failed
  read_one decode (some raw) = one_vector (decode raw)

  -- `Embed`
  unfoldable pub embed :
      (Bytes → Option Bytes) → (Bytes → Option (List F)) → Bytes → Embedded (List F)
  unfolding normalize
  embed post decode text = read_one decode (post text)

  unfoldable pub normalize_all : List (List F) → List (List F)
  unfolding normalize
  normalize_all [] = []
  normalize_all (v ∷ vs) = normalize v ∷ normalize_all vs

  -- The check of the count.
  abbrev pub check_count : ℕ → Option (List (List F)) → Embedded (List (List F))
  check_count n none = embed_failed undecodable
  check_count n (some vs) =
      if length vs == n
      then embedded (normalize_all vs)
      else embed_failed (wrong_count n (length vs))

  abbrev pub read_batch :
      (Bytes → Option (List (List F))) → ℕ → Option Bytes → Embedded (List (List F))
  read_batch decode n none = embed_failed request_failed
  read_batch decode n (some raw) = check_count n (decode raw)

  -- `EmbedBatch`; no texts are no request.
  unfoldable pub embed_batch :
      (List Bytes → Option Bytes)
      → (Bytes → Option (List (List F)))
      → List Bytes
      → Embedded (List (List F))
  unfolding normalize_all
  embed_batch post decode [] = embedded []
  embed_batch post decode (t ∷ ts) = read_batch decode (length (t ∷ ts)) (post (t ∷ ts))
