-- ===== src/Rerank/Total.antt =====
-- `LLMReranker.Rerank` returns for every count that is not negative, whatever the model does: the
-- fusion order where scoring failed, the best-scored chunks of the pool where it did not.
use ragline.Base.{
  ℕ, ◌≤◌, ◌≡◌, refl, ◌∙◌, true, ◌&&◌, ◌||◌, List, [], ◌∷◌, ◌++◌, Option, none, some, Bytes, arith,
  length, take, drop, take-append-drop, length-take, min, ltb, leb, ℤ, pos, inl, inr, Bool-cases,
  Option-cases,
}
use ragline.Store.{Floats, Chunk}
use ragline.Rerank.{
  Stats, stats_of, no_stats, RerankError, request_failed, unusable_scores, Generated, build_prompt,
  with_scores, sort_stable, fall_back, rank_pool, LlmReranker, pool_of, score_pool, reaches,
  llm_rerank,
}
use ragline.Rerank.Decode.{parse_scores}
use ragline.Rerank.Order.{Descending, of_score, sort_stable_lem, length-sort_stable}
use ragline.Rerank.Result.{
  All, All-take, All-sort_stable, All-with_scores, All-pool_of, noop_rerank-take, fall_back-take,
  rank_pool-take, length-with_scores,
}

module _ (fl : Floats) where
  open fl use {F, gt}

  -- A call that returned: `n` chunks or all of them, each a candidate up to its rerank score.
  pub record Returns (cs : List (Chunk F)) (n : ℕ) (out : List (Chunk F)) : Type 1 where
    pub count : length out ≡ min n (length cs)
    pub drawn :
        (P : Chunk F → Type 0)
        → ((c : Chunk F) (x : F) → P c → P (record c { rerank_score = x }))
        → All P cs
        → All P out

  take-Returns : (cs : List (Chunk F)) (n : ℕ) → Returns cs n (take n cs)
  take-Returns cs n = record { count = length-take n cs; drawn = λ P keeps h. All-take P n cs h }

  length-pool_of :
      (limit n : ℕ) (cs : List (Chunk F))
      → n ≤ limit
      → min n (length (pool_of fl limit cs)) ≡ min n (length cs)
  length-pool_of limit n cs h = elim (Bool-cases (ltb 0 limit && ltb limit (length cs))) [
    | inl cut ↦ rw cut (omega (arith, length-take limit cs))
    | inr whole ↦ rw whole refl
  ]

  ranked-Returns :
      (limit n : ℕ) (cs : List (Chunk F)) (scores : List F)
      → n ≤ limit
      → Returns cs n (take n (sort_stable fl (with_scores (pool_of fl limit cs) scores)))
  ranked-Returns limit n cs scores h =
      let pool = pool_of fl limit cs in
      let ranked = sort_stable fl (with_scores pool scores) in
      record {
        count = omega (
          arith,
          length-take n ranked,
          length-sort_stable fl (with_scores pool scores),
          length-with_scores fl pool scores,
          length-pool_of limit n cs h,
        );
        drawn = λ P keeps hs. All-take P n ranked (
            All-sort_stable fl P keeps (with_scores pool scores)
              (All-with_scores fl P keeps pool scores (All-pool_of fl P keeps limit cs hs)));
      }

  -- What the model was asked for.
  abbrev pub scored : LlmReranker fl → Bytes → List (Chunk F) → Option Generated
  scored r question cs =
      r.generate (build_prompt r.max_passage_chars question (pool_of fl r.max_candidates cs))

  module _ (r : LlmReranker fl) (question : Bytes) (cs : List (Chunk F)) (top_n : ℤ) where
    abbrev pool : List (Chunk F)
    pool = pool_of fl r.max_candidates cs

    score_pool-failed :
        scored r question cs ≡ none
        → score_pool fl r question cs top_n ≡ fall_back fl cs top_n no_stats request_failed
    unfolding score_pool
    score_pool-failed e = rw (e, score_pool)

    score_pool-unread :
        (g : Generated)
        → scored r question cs ≡ some g
        → parse_scores fl r.read_json g.text (length pool) ≡ none
        → score_pool fl r question cs top_n ≡ fall_back fl cs top_n (stats_of g) unusable_scores
    unfolding score_pool
    score_pool-unread g e unread = rw (e, score_pool) (rw (unread, score_pool))

    score_pool-read :
        (g : Generated) (scores : List F)
        → scored r question cs ≡ some g
        → parse_scores fl r.read_json g.text (length pool) ≡ some scores
        → score_pool fl r question cs top_n ≡ rank_pool fl pool scores top_n (stats_of g)
    unfolding score_pool
    score_pool-read g scores e read = rw (e, score_pool) (rw (read, score_pool))

  module _ (r : LlmReranker fl) (question : Bytes) (cs : List (Chunk F)) (n : ℕ) where
    abbrev Reached : Option (List (Chunk F) × Stats × Option RerankError) → Type 1
    Reached x =
        (out : List (Chunk F)) × (stats : Stats) × (e : Option RerankError) × (x
          ≡ some (out, stats, e))
        × Returns cs n out

    after_reply :
        n ≤ r.max_candidates
        → (g : Generated) → scored r question cs ≡ some g
        → Reached (score_pool fl r question cs (pos n))
    after_reply h g asked =
        elim (Option-cases
          (parse_scores fl r.read_json g.text (length (pool_of fl r.max_candidates cs)))) [
            | inl unread ↦ (
              take n cs,
              record (stats_of g) { fallback = true },
              some unusable_scores,
              score_pool-unread r question cs (pos n) g asked unread
                  ∙ fall_back-take fl cs n (stats_of g) unusable_scores,
              take-Returns cs n,
            )
            | inr (scores, read) ↦
                let pool = pool_of fl r.max_candidates cs in
                let (moved, e) = rank_pool-take fl pool scores n (stats_of g) in
                (
                  take n (sort_stable fl (with_scores pool scores)),
                  record (stats_of g) { reordered = moved },
                  none,
                  score_pool-read r question cs (pos n) g scores asked read ∙ e,
                  ranked-Returns r.max_candidates n cs scores h,
                )
          ]

    after_request : n ≤ r.max_candidates → Reached (score_pool fl r question cs (pos n))
    after_request h = elim (Option-cases (scored r question cs)) [
      | inl failed ↦ (
        take n cs,
        record no_stats { fallback = true },
        some request_failed,
        score_pool-failed r question cs (pos n) failed
            ∙ fall_back-take fl cs n no_stats request_failed,
        take-Returns cs n,
      )
      | inr (g, asked) ↦ after_reply h g asked
    ]

  -- `topN` chunks come back, or all if there are fewer, each a candidate up to its rerank score,
  -- whatever the model answers and whether it answers at all. The count is not negative and not above
  -- `MaxCandidates`.
  pub llm_rerank-Returns :
      (r : LlmReranker fl) (question : Bytes) (cs : List (Chunk F)) (n : ℕ)
      → n ≤ r.max_candidates
      → (out : List (Chunk F)) × (stats : Stats) × (e : Option RerankError) × (llm_rerank fl r
            question cs
            (pos n)
          ≡ some (out, stats, e))
        × Returns cs n out
  unfolding llm_rerank
  llm_rerank-Returns r question [] n h =
      ([], no_stats, none, refl, record { count = omega arith; drawn = λ P keeps hs. tt })
  llm_rerank-Returns r question (c ∷ cs) n h =
      elim (Bool-cases (leb (length (c ∷ cs)) 1 || reaches fl (pos n) (length (c ∷ cs)))) [
        | inl few ↦ (
          take n (c ∷ cs),
          no_stats,
          none,
          rw (few, llm_rerank) (rw (noop_rerank-take (c ∷ cs) n) refl),
          take-Returns (c ∷ cs) n,
        )
        | inr many ↦
            let (out, stats, e, eq, ret) = after_request r question (c ∷ cs) n h in
            (out, stats, e, rw (many, llm_rerank) eq, ret)
      ]

  -- Where the model was asked and its reply scores the pool, no chunk that is returned is outscored
  -- by one of the pool that is left out: the returned chunks and the rest are the pool in descending
  -- order of the scores, with the fusion order among equals.
  pub score_pool-best :
      (r : LlmReranker fl) (question : Bytes) (cs : List (Chunk F)) (n : ℕ) (g : Generated)
      (scores : List F)
      → scored r question cs ≡ some g
      → parse_scores fl r.read_json g.text (length (pool_of fl r.max_candidates cs)) ≡ some scores
      → (out rest : List (Chunk F)) × (stats : Stats) × (score_pool fl r question cs (pos n)
          ≡ some (out, stats, none))
        × Descending fl (out ++ rest)
        × ((x : F)
            → of_score fl x (out ++ rest)
              ≡ of_score fl x (with_scores (pool_of fl r.max_candidates cs) scores))
  score_pool-best r question cs n g scores asked read =
      let pool = pool_of fl r.max_candidates cs in
      let ranked = sort_stable fl (with_scores pool scores) in
      let (moved, e) = rank_pool-take fl pool scores n (stats_of g) in
      let (down, same) = sort_stable_lem fl (with_scores pool scores) in
      (
        take n ranked,
        drop n ranked,
        record (stats_of g) { reordered = moved },
        score_pool-read r question cs (pos n) g scores asked read ∙ e,
        rw (take-append-drop n ranked) down,
        λ x. rw (take-append-drop n ranked) (same x),
      )
