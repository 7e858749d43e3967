-- ===== src/Rerank.antt =====
-- internal/rerank/rerank.go: the fusion order (`Noop.Rerank`) and the listwise reranker
-- (`LLMReranker.Rerank`, `buildPrompt`); `Decode` has the reading of the model's scores.
pub mod Decode
pub mod Scores
pub mod Order
pub mod Result
pub mod Total
pub mod Modes
mod Tests
use ragline.Base.{
  ℕ, zero, suc, ◌+◌, ◌-◌, itoa, ◌≡◌, Bool, true, false, ◌&&◌, ◌||◌, List, [], ◌∷◌, ◌++◌, Option,
  none, some, Bytes, codes, length, take, get_elem?, set, replicate, leb, ltb, ◌==◌, if◌then◌else◌,
  ℤ, pos, negsuc, bytes_eq,
}
use ragline.Store.{Floats, Chunk}
use ragline.Rerank.Decode.{Json, parse_scores}

-- `Stats`, without the duration.
pub record Stats : Type 0 where
  pub prompt_tokens : ℕ
  pub output_tokens : ℕ
  pub reordered : ℕ
  pub fallback : Bool

abbrev pub no_stats : Stats
no_stats = record { prompt_tokens = 0; output_tokens = 0; reordered = 0; fallback = false }

-- Why the reranker fell back; the errors are returned beside the fusion order.
pub data RerankError : Type 0 where
  request_failed unusable_scores : RerankError

-- The three results; `none` is the panic of a slice out of range.
abbrev pub Ranking : Type 0 → Type 0
Ranking F = Option (List (Chunk F) × Stats × Option RerankError)

-- `xs[:n]`, on a slice whose capacity is its length.
unfoldable pub slice_to {ℓ} : {A : Type ℓ} → List A → ℤ → Option (List A)
slice_to xs (pos n) = if leb n (length xs) then some (take n xs) else none
slice_to xs (negsuc n) = none

-- `if topN > len(xs) { topN = len(xs) }`
unfoldable pub at_most : ℤ → ℕ → ℤ
at_most (pos n) m = if ltb m n then pos m else pos n
at_most (negsuc n) m = negsuc n

module _ {F : Type 0} where
  -- `Noop.Rerank`
  unfoldable pub noop_rerank : List (Chunk F) → ℤ → Option (List (Chunk F))
  unfolding slice_to at_most
  noop_rerank candidates top_n = slice_to candidates (at_most top_n (length candidates))

-- What `Client.Generate` answers: the text and the token counts.
pub record Generated : Type 0 where
  pub text : Bytes
  pub prompt_tokens : ℕ
  pub output_tokens : ℕ

abbrev pub stats_of : Generated → Stats
stats_of g = record no_stats { prompt_tokens = g.prompt_tokens; output_tokens = g.output_tokens }

-- " › " and "…" in UTF-8.
abbrev pub separator : Bytes
separator = 32 ∷ 226 ∷ 128 ∷ 186 ∷ 32 ∷ []

abbrev pub ellipsis : Bytes
ellipsis = 226 ∷ 128 ∷ 166 ∷ []

abbrev pub prompt_end : Bytes
prompt_end =
    codes
      "Return JSON: {\"scores\":[{\"index\":0,\"score\":7.5}, ...]} with one entry for every passage index 0 to "

-- The title of a passage, as both prompts print it.
unfoldable pub full_title : Bytes → Bytes → Bytes
full_title title [] = title
full_title title (c ∷ s) = title ++ (separator ++ c ∷ s)

-- `if len(text) > n { text = text[:n] + "…" }`, in bytes, where a limit is set.
unfoldable pub clip : ℕ → Bytes → Bytes
clip n text = if ltb 0 n && ltb n (length text) then take n text ++ ellipsis else text

module _ {F : Type 0} where
  -- The loop of `buildPrompt`.
  unfoldable pub passages : ℕ → ℕ → List (Chunk F) → Bytes
  unfolding full_title clip itoa
  passages limit i [] = []
  passages limit i (c ∷ cs) =
      10
      ∷ b'['
      ∷ (itoa i
          ++ (codes "] ("
              ++ (full_title c.doc_title c.heading
                  ++ (b')' ∷ 10 ∷ (clip limit c.content ++ 10 ∷ passages limit (suc i) cs)))))

  unfoldable pub build_prompt : ℕ → Bytes → List (Chunk F) → Bytes
  unfolding passages
  build_prompt limit question candidates =
      codes "Question: "
      ++ (question
          ++ (10
              ∷ 10
              ∷ (codes "Passages:"
                  ++ 10
                    ∷ (passages limit 0 candidates
                        ++ (10 ∷ (prompt_end ++ (itoa (length candidates - 1) ++ codes ".")))))))

  -- The last position at which a chunk with that id stands, as the map `originalPos` has it; a
  -- missing key reads as 0.
  unfoldable pub original_pos : ℕ → ℕ → List (Chunk F) → ℕ → ℕ
  original_pos default i [] k = default
  original_pos default i (c ∷ cs) k = original_pos (if c.id == k then i else default) (suc i) cs k

  -- `stats.Reordered`: how many chunks stand elsewhere than in the pool.
  unfoldable pub count_moved : (ℕ → ℕ) → ℕ → List (Chunk F) → ℕ
  count_moved pos_of i [] = 0
  count_moved pos_of i (c ∷ cs) =
      (if pos_of c.id == i then 0 else 1) + count_moved pos_of (suc i) cs

  -- `ranked[i].RerankScore = scores[i]`, on lists of one length.
  unfoldable pub with_scores : List (Chunk F) → List F → List (Chunk F)
  with_scores [] xs = []
  with_scores (c ∷ cs) [] = c ∷ cs
  with_scores (c ∷ cs) (x ∷ xs) = record c { rerank_score = x } ∷ with_scores cs xs

module _ (fl : Floats) where
  open fl use {F, gt}

  -- `sort.SliceStable` by `RerankScore` descending: a chunk goes behind those that score higher, and
  -- before those that stood behind it and score the same.
  unfoldable pub insert_chunk : Chunk F → List (Chunk F) → List (Chunk F)
  insert_chunk c [] = c ∷ []
  insert_chunk c (d ∷ ds) =
      if gt d.rerank_score c.rerank_score then d ∷ insert_chunk c ds else c ∷ d ∷ ds

  unfoldable pub sort_stable : List (Chunk F) → List (Chunk F)
  unfolding insert_chunk
  sort_stable [] = []
  sort_stable (c ∷ cs) = insert_chunk c (sort_stable cs)

  -- The fusion order, with an error beside it.
  unfoldable pub fall_back : List (Chunk F) → ℤ → Stats → RerankError → Ranking F
  unfolding noop_rerank
  fall_back candidates top_n stats e = elim (noop_rerank candidates top_n) [
    | none ↦ none
    | some out ↦ some (out, record stats { fallback = true }, some e)
  ]

  -- The part behind the scores.
  unfoldable pub rank_pool : List (Chunk F) → List F → ℤ → Stats → Ranking F
  unfolding with_scores sort_stable original_pos count_moved slice_to at_most
  rank_pool pool scores top_n stats =
      let ranked = sort_stable (with_scores pool scores) in
      let moved = count_moved (original_pos 0 0 pool) 0 ranked in
      elim (slice_to ranked (at_most top_n (length ranked))) [
        | none ↦ none
        | some out ↦ some (out, record stats { reordered = moved }, none)
      ]

  -- `LLMReranker`, with the reader of JSON text.
  pub record LlmReranker : Type 0 where
    pub max_candidates : ℕ
    pub max_passage_chars : ℕ
    pub generate : Bytes → Option Generated
    pub read_json : Bytes → Option (Json F)

  -- `pool[:r.MaxCandidates]` where that is set and exceeded.
  abbrev pub pool_of : ℕ → List (Chunk F) → List (Chunk F)
  pool_of limit cs = if ltb 0 limit && ltb limit (length cs) then take limit cs else cs

  -- The part of `Rerank` that calls the model.
  unfoldable pub score_pool : LlmReranker → Bytes → List (Chunk F) → ℤ → Ranking F
  unfolding build_prompt parse_scores fall_back rank_pool
  score_pool r question candidates top_n =
      let pool = pool_of r.max_candidates candidates in
      elim (r.generate (build_prompt r.max_passage_chars question pool)) [
        | none ↦ fall_back candidates top_n no_stats request_failed
        | some resp ↦ elim (parse_scores fl r.read_json resp.text (length pool)) [
          | none ↦ fall_back candidates top_n (stats_of resp) unusable_scores
          | some scores ↦ rank_pool pool scores top_n (stats_of resp)
        ]
      ]

  abbrev pub quiet : Option (List (Chunk F)) → Ranking F
  quiet none = none
  quiet (some out) = some (out, no_stats, none)

  -- `topN >= n`
  abbrev pub reaches : ℤ → ℕ → Bool
  reaches (pos k) n = leb n k
  reaches (negsuc k) n = false

  -- `LLMReranker.Rerank`
  unfoldable pub llm_rerank : LlmReranker → Bytes → List (Chunk F) → ℤ → Ranking F
  unfolding score_pool noop_rerank
  llm_rerank r question [] top_n = some ([], no_stats, none)
  llm_rerank r question (c ∷ cs) top_n =
      if leb (length (c ∷ cs)) 1 || reaches top_n (length (c ∷ cs))
      then quiet (noop_rerank (c ∷ cs) top_n)
      else score_pool r question (c ∷ cs) top_n
