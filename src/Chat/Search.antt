-- ===== src/Chat/Search.antt =====
-- internal/chat/chat.go: `Service.Search`, retrieval without generation.
use ragline.Base.{
  ℕ, ◌≡◌, ◌≢◌, refl, Bool, true, false, List, Option, none, some, Bytes, codes, length, take, ℤ,
  pos, if◌then◌else◌,
}
use ragline.Store.{Chunk}
use ragline.Rerank.{Ranking, Stats, RerankError, noop_rerank}
use ragline.Rerank.Result.{noop_rerank-take}
use ragline.Chat.Types.{World, Service}
use ragline.Chat.Steps.{embed_question, search}

-- `SearchTimings`, without the durations.
pub record SearchTimings : Type 0 where
  pub reranker : Bytes
  pub candidates : ℕ
  pub reordered : ℕ

pub data SearchOutcome (F : Type 0) : Type 0 where
  search_found : List (Chunk F) → SearchTimings → SearchOutcome F
  search_failed : SearchTimings → SearchOutcome F
  search_panicked : SearchOutcome F

abbrev pub no_timings : SearchTimings
no_timings = record { reranker = codes "none"; candidates = 0; reordered = 0 }

module _ {F E : Type 0} (sv : Service F E) where
  abbrev pub cut_only : SearchTimings → Option (List (Chunk F)) → SearchOutcome F
  cut_only t none = search_panicked
  cut_only t (some out) = search_found out t

  abbrev pub reranked : SearchTimings → Ranking F → SearchOutcome F
  reranked t none = search_panicked
  reranked t (some (out, stats, e)) =
      search_found out (record t { reranker = sv.reranker_name; reordered = stats.reordered })

  unfoldable pub order_found : Bytes → ℤ → Bool → Option (List (Chunk F)) → SearchOutcome F
  unfolding noop_rerank
  order_found query top_n no_rerank none = search_failed no_timings
  order_found query top_n no_rerank (some cs) =
      let t : SearchTimings = record no_timings { candidates = length cs } in
      if no_rerank then cut_only t (noop_rerank cs top_n) else reranked t (sv.rerank query cs top_n)

  -- `Search`
  unfoldable pub search_only : Bytes → ℤ → Bool → World E → World E × SearchOutcome F
  unfolding embed_question search order_found
  search_only query top_n no_rerank w =
      let (w, vector) = embed_question sv query w in
      (w, order_found query top_n no_rerank (search sv vector query))

  -- What a search comes to: its error, the first chunks of the fusion order, or what the reranker
  -- makes of all of them.
  pub data Finds (query : Bytes) (n : ℕ) (no_rerank : Bool)
      : Option (List (Chunk F)) → SearchOutcome F → Type 0 where
    broke : Finds query n no_rerank none (search_failed no_timings)
    plain :
        (cs : List (Chunk F))
        → no_rerank ≡ true
        → Finds query n no_rerank
            (some cs)
            (search_found (take n cs) (record no_timings { candidates = length cs }))
    ranked :
        (cs out : List (Chunk F)) (stats : Stats) (e : Option RerankError)
        → no_rerank ≡ false
        → sv.rerank query cs (pos n) ≡ some (out, stats, e)
        → Finds query n no_rerank (some cs) (
            search_found out (record {
              reranker = sv.reranker_name;
              candidates = length cs;
              reordered = stats.reordered;
            }))

  reranked-Finds :
      (query : Bytes) (n : ℕ) (b : Bool) (cs : List (Chunk F)) (r : Ranking F)
      → b ≡ false
      → sv.rerank query cs (pos n) ≡ r
      → r ≢ none
      → Finds query n b (some cs) (reranked (record no_timings { candidates = length cs }) r)
  reranked-Finds query n b cs none off e h = absurd (h refl)
  reranked-Finds query n b cs (some (out, stats, err)) off e h = ranked cs out stats err off e

  order_found-Finds :
      (query : Bytes) (n : ℕ) (b : Bool) (o : Option (List (Chunk F)))
      → ((cs : List (Chunk F)) → sv.rerank query cs (pos n) ≢ none)
      → Finds query n b o (order_found query (pos n) b o)
  unfolding order_found
  order_found-Finds query n b none h = broke
  order_found-Finds query n true (some cs) h = rw (noop_rerank-take cs n) (plain cs refl)
  order_found-Finds query n false (some cs) h =
      reranked-Finds query n false cs (sv.rerank query cs (pos n)) refl refl (h cs)

-- With a count that is not negative and a reranker that returns for it, `Search` returns: the error of
-- the search, or the first chunks found where reranking is off, or else what the reranker makes of
-- all chunks found, always with the number of chunks found.
pub search_only-Finds :
    {F E : Type 0} (sv : Service F E) (query : Bytes) (n : ℕ) (no_rerank : Bool) (w : World E)
    → ((cs : List (Chunk F)) → sv.rerank query cs (pos n) ≢ none)
    → Finds sv query n no_rerank
        (search sv (embed_question sv query w).1 query)
        (search_only sv query (pos n) no_rerank w).1
unfolding search_only
search_only-Finds sv query n no_rerank w h =
    order_found-Finds sv query n no_rerank (search sv (embed_question sv query w).1 query) h
