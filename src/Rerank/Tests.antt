-- ===== src/Rerank/Tests.antt =====
-- Runs of the reranker on the inputs of internal/rerank/rerank_test.go, and the theorems at inputs.
-- Scores are numbers here, and the reader of JSON text knows one text.
use ragline.Base.{
  ℕ, ◌≡◌, refl, List, [], ◌∷◌, ◌++◌, Option, none, some, Bytes, codes, bytes_eq, arith, has_prefix,
  lower, if◌then◌else◌, pos,
}
use ragline.Store.{Chunk}
use ragline.Store.Whole.{whole}
use ragline.Llm.Extract.{extract_json}
use ragline.Rerank.{Stats, RerankError, Generated, LlmReranker, score_pool, llm_rerank, with_scores}
use ragline.Rerank.Decode.{
  Json, num, arr, obj, cons, nil, field, end, ScoredItem, read_scores, parse_scores,
}
use ragline.Rerank.Order.{Descending, of_score}
use ragline.Rerank.Scores.{Parsed, parse_scores-Parsed}
use ragline.Rerank.Total.{Returns, llm_rerank-Returns, score_pool-best}

abbrev item : ℕ → ℕ → Json ℕ
item i x = obj (
    field (codes "index") (num (some (pos i)) (some i))
      (field (codes "Score") (num (some (pos x)) (some x)) end))

-- {"scores":[[{"index":2,"score":9},{"index":0,"score":3},{"index":7,"score":9}]]}
abbrev nested : Json ℕ
nested = obj (
    field (codes "scores")
      (arr (cons (arr (cons (item 2 9) (cons (item 0 3) (cons (item 7 9) nil)))) nil)) end)

abbrev read_json : Bytes → Option (Json ℕ)
read_json s = if bytes_eq s (codes "{N}") then some nested else none

abbrev items : List (ScoredItem ℕ)
items =
    record { index = pos 2; score = 9 }
    ∷ record { index = pos 0; score = 3 }
    ∷ record { index = pos 7; score = 9 }
    ∷ []

nested_array : parse_scores whole read_json (codes "ok {N}") 3 ≡ some (3 ∷ 0 ∷ 9 ∷ [])
unfolding parse_scores extract_json bytes_eq has_prefix lower
nested_array = refl

unusable : parse_scores whole read_json (codes "I think passage 2 is best.") 3 ≡ none
unfolding parse_scores extract_json bytes_eq has_prefix lower
unusable = refl

parse_scores-Parsed_example :
    Parsed whole 3
      (read_scores whole read_json (codes "ok {N}"))
      (parse_scores whole read_json (codes "ok {N}") 3)
parse_scores-Parsed_example = parse_scores-Parsed whole read_json (codes "ok {N}") 3

abbrev chunk : ℕ → Chunk ℕ
chunk n = record {
  id = n;
  document_id = 1;
  doc_title = codes "T";
  source_uri = [];
  ordinal = n;
  heading = [];
  content = codes "c";
  rrf_score = 0;
  vector_rank = 0;
  keyword_rank = 0;
  rerank_score = 0;
}

abbrev three : List (Chunk ℕ)
three = chunk 11 ∷ chunk 12 ∷ chunk 13 ∷ []

abbrev reply : Generated
reply = record { text = codes "{N}"; prompt_tokens = 40; output_tokens = 9 }

abbrev reranker : LlmReranker whole
reranker = record {
  max_candidates = 20;
  max_passage_chars = 1200;
  generate = λ _. some reply;
  read_json = read_json;
}

llm_rerank-Returns_example :
    (out : List (Chunk ℕ)) × (stats : Stats) × (e : Option RerankError) × (llm_rerank whole reranker
        (codes "q")
        three
        (pos 2)
      ≡ some (out, stats, e))
    × Returns whole three 2 out
llm_rerank-Returns_example = llm_rerank-Returns whole reranker (codes "q") three 2 (omega arith)

score_pool-best_example :
    (out rest : List (Chunk ℕ)) × (stats : Stats) × (score_pool whole reranker
        (codes "q")
        three
        (pos 2)
      ≡ some (out, stats, none))
    × Descending whole (out ++ rest)
    × ((x : ℕ)
        → of_score whole x (out ++ rest) ≡ of_score whole x (with_scores three (3 ∷ 0 ∷ 9 ∷ [])))
unfolding parse_scores extract_json bytes_eq has_prefix lower
score_pool-best_example =
    score_pool-best whole reranker (codes "q") three 2 reply (3 ∷ 0 ∷ 9 ∷ []) refl refl
