-- ===== src/Rerank/Modes.antt =====
-- internal/rerank/rerank.go: the reranker that a mode names (`New`, `NewLLM`, `Name`), and what every
-- reranker keeps of the candidates.
use ragline.Base.{
  ◌||◌, Bool, List, [], ◌∷◌, ◌++◌, Option, none, some, Bytes, codes, ℤ, pos, negsuc, length, leb,
  bytes_eq, lower, trim_space, Bool-cases, Option-cases, inl, inr, if◌then◌else◌,
}
use ragline.Store.{Floats, Chunk}
use ragline.Rerank.{
  Ranking, Stats, RerankError, request_failed, unusable_scores, Generated, stats_of, no_stats,
  slice_to, at_most, noop_rerank, fall_back, rank_pool, sort_stable, with_scores, LlmReranker,
  pool_of, score_pool, quiet, reaches, llm_rerank, build_prompt,
}
use ragline.Rerank.Decode.{Json, parse_scores}
use ragline.Rerank.Result.{All, All-take, All-with_scores, All-sort_stable, All-pool_of}

module _ {F : Type 0} (P : Chunk F → Type 0) where
  -- Every chunk that comes back has the property.
  abbrev pub Ranks : Ranking F → Type 0
  Ranks none = Unit
  Ranks (some (out, stats, e)) = All P out

  abbrev pub Cuts : Option (List (Chunk F)) → Type 0
  Cuts none = Unit
  Cuts (some out) = All P out

module _ (fl : Floats) where
  open fl use {F}

  -- What a reranker has of `llm.Client`: the model's name, its answers and the reader of JSON text.
  pub record Client : Type 0 where
    pub model : Bytes
    pub generate : Bytes → Option Generated
    pub read_json : Bytes → Option (Json F)

  -- The two implementations of `Reranker`.
  pub data Reranker : Type 0 where
    noop : Reranker
    llm : Bytes → LlmReranker fl → Reranker

  -- `NewLLM`
  abbrev pub new_llm : Client → Reranker
  new_llm c = llm c.model (record {
    max_candidates = 20;
    max_passage_chars = 1200;
    generate = c.generate;
    read_json = c.read_json;
  })

  abbrev pub names_noop : Bytes → Bool
  names_noop mode = bytes_eq mode [] || bytes_eq mode (codes "off") || bytes_eq mode (codes "none")

  -- `New`
  unfoldable pub new_reranker : Bytes → Client → Reranker
  unfolding lower trim_space bytes_eq
  new_reranker mode c = if names_noop (lower (trim_space mode)) then noop else new_llm c

  -- `Name`
  abbrev pub name_of : Reranker → Bytes
  name_of noop = codes "none"
  name_of (llm model r) = codes "llm:" ++ model

  -- `Rerank`
  abbrev pub rerank_by : Reranker → Bytes → List (Chunk F) → ℤ → Ranking F
  rerank_by noop question candidates top_n = quiet fl (noop_rerank candidates top_n)
  rerank_by (llm model r) question candidates top_n = llm_rerank fl r question candidates top_n

  module _ (P : Chunk F → Type 0)
      (keeps : (c : Chunk F) (x : F) → P c → P (record c { rerank_score = x })) where
    slice_to-Cuts : (cs : List (Chunk F)) (n : ℤ) → All P cs → Cuts P (slice_to cs n)
    unfolding slice_to
    slice_to-Cuts cs (pos n) h = elim (Bool-cases (leb n (length cs))) [
      | inl fits ↦ rw fits (All-take P n cs h)
      | inr over ↦ rw over tt
    ]
    slice_to-Cuts cs (negsuc n) h = tt

    noop_rerank-Cuts : (cs : List (Chunk F)) (n : ℤ) → All P cs → Cuts P (noop_rerank cs n)
    unfolding noop_rerank
    noop_rerank-Cuts cs n h = slice_to-Cuts cs (at_most n (length cs)) h

    quiet-Ranks : (o : Option (List (Chunk F))) → Cuts P o → Ranks P (quiet fl o)
    quiet-Ranks none h = tt
    quiet-Ranks (some out) h = h

    fall_back-Ranks :
        (cs : List (Chunk F)) (n : ℤ) (stats : Stats) (e : RerankError)
        → All P cs
        → Ranks P (fall_back fl cs n stats e)
    unfolding fall_back
    fall_back-Ranks cs n stats e h = elim (Option-cases (noop_rerank cs n)) [
      | inl out_of_range ↦ rw (out_of_range, fall_back) tt
      | inr (out, cut) ↦ let kept = noop_rerank-Cuts cs n h in rw (cut, fall_back) (rw cut at kept)
    ]

    rank_pool-Ranks :
        (pool : List (Chunk F)) (scores : List F) (n : ℤ) (stats : Stats)
        → All P pool
        → Ranks P (rank_pool fl pool scores n stats)
    unfolding rank_pool
    rank_pool-Ranks pool scores n stats h =
        let ranked = sort_stable fl (with_scores pool scores) in
        let kept : All P ranked =
          All-sort_stable fl P keeps (with_scores pool scores)
            (All-with_scores fl P keeps pool scores h) in
        let k = at_most n (length ranked) in
        let cuts = slice_to-Cuts ranked k kept in
        elim (Option-cases (slice_to ranked k)) [
          | inl out_of_range ↦ rw (out_of_range, rank_pool) tt
          | inr (out, cut) ↦ rw (cut, rank_pool) (rw cut at cuts)
        ]

    score_pool-Ranks :
        (r : LlmReranker fl) (q : Bytes) (cs : List (Chunk F)) (n : ℤ)
        → All P cs
        → Ranks P (score_pool fl r q cs n)
    unfolding score_pool
    score_pool-Ranks r q cs n h =
        let pool = pool_of fl r.max_candidates cs in
        elim (Option-cases (r.generate (build_prompt r.max_passage_chars q pool))) [
          | inl failed ↦ rw (failed, score_pool) (fall_back-Ranks cs n no_stats request_failed h)
          | inr (g, asked) ↦
              rw (asked, score_pool)
                (elim (Option-cases (parse_scores fl r.read_json g.text (length pool))) [
                  | inl unread ↦
                      rw (unread, score_pool) (fall_back-Ranks cs n (stats_of g) unusable_scores h)
                  | inr (scores, read) ↦
                      rw (read, score_pool)
                        (rank_pool-Ranks pool scores n (stats_of g)
                          (All-pool_of fl P keeps r.max_candidates cs h))
                ])
        ]

    -- What holds of every candidate, whatever its score, holds of every chunk that a reranker returns.
    pub rerank_by-Ranks :
        (r : Reranker) (q : Bytes) (cs : List (Chunk F)) (n : ℤ)
        → All P cs
        → Ranks P (rerank_by r q cs n)
    unfolding llm_rerank
    rerank_by-Ranks noop q cs n h = quiet-Ranks (noop_rerank cs n) (noop_rerank-Cuts cs n h)
    rerank_by-Ranks (llm model r) q [] n h = tt
    rerank_by-Ranks (llm model r) q (c ∷ cs) n h =
        elim (Bool-cases (leb (length (c ∷ cs)) 1 || reaches fl n (length (c ∷ cs)))) [
          | inl few ↦ rw few (quiet-Ranks (noop_rerank (c ∷ cs) n) (noop_rerank-Cuts (c ∷ cs) n h))
          | inr many ↦ rw many (score_pool-Ranks r q (c ∷ cs) n h)
        ]
