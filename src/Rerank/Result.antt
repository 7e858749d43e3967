-- ===== src/Rerank/Result.antt =====
-- What a caller of the reranker gets: the fusion order or the best-scored chunks, and never a panic
-- for a count that is not negative.
use ragline.Base.{
  ℕ, zero, suc, ◌≤◌, ◌≡◌, refl, ap, true, ◌&&◌, List, [], ◌∷◌, none, some, arith, length, take, ltb,
  pos, inl, inr, Bool-cases,
}
use ragline.Store.{Floats, Chunk}
use ragline.Rerank.{
  Stats, RerankError, slice_to, at_most, noop_rerank, with_scores, sort_stable, insert_chunk,
  fall_back, original_pos, count_moved, rank_pool, pool_of,
}

module _ {ℓ κ} {A : Type ℓ} (P : A → Type κ) where
  abbrev pub All : List A → Type κ
  All [] = Unit
  All (x ∷ xs) = P x × All xs

  pub All-take : (n : ℕ) (xs : List A) → All xs → All (take n xs)
  All-take zero xs h = tt
  All-take (suc n) [] h = tt
  All-take (suc n) (x ∷ xs) (hx, hs) = (hx, All-take n xs hs)

take_all {ℓ} : {A : Type ℓ} (n : ℕ) (xs : List A) → length xs ≤ n → take n xs ≡ xs
take_all zero [] h = refl
take_all zero (x ∷ xs) h = absurd (omega arith)
take_all (suc n) [] h = refl
take_all (suc n) (x ∷ xs) h = ap (λ t. x ∷ t) (take_all n xs (omega arith))

-- Cutting a slice to at most `n` elements never panics.
pub slice_at_most :
    {A : Type 0} (n : ℕ) (xs : List A)
    → slice_to xs (at_most (pos n) (length xs)) ≡ some (take n xs)
unfolding slice_to at_most
slice_at_most n xs = elim (Bool-cases (ltb (length xs) n)) [
  | inl longer ↦ rw longer (ground (arith, take_all (length xs) xs, take_all n xs))
  | inr fits ↦ rw fits (ground arith)
]

-- `Noop.Rerank` keeps the fusion order and cuts it at the count.
pub noop_rerank-take :
    {F : Type 0} (cs : List (Chunk F)) (n : ℕ) → noop_rerank cs (pos n) ≡ some (take n cs)
unfolding noop_rerank
noop_rerank-take cs n = slice_at_most n cs

module _ (fl : Floats) where
  open fl use {F, gt}

  pub fall_back-take :
      (cs : List (Chunk F)) (n : ℕ) (stats : Stats) (e : RerankError)
      → fall_back fl cs (pos n) stats e ≡ some (take n cs, record stats { fallback = true }, some e)
  unfolding fall_back
  fall_back-take cs n stats e = rw (noop_rerank-take cs n, fall_back) refl

  pub rank_pool-take :
      (pool : List (Chunk F)) (scores : List F) (n : ℕ) (stats : Stats)
      → (moved : ℕ) × (rank_pool fl pool scores (pos n) stats
          ≡ some (
            take n (sort_stable fl (with_scores pool scores)),
            record stats { reordered = moved },
            none,
          ))
  unfolding rank_pool
  rank_pool-take pool scores n stats =
      let ranked = sort_stable fl (with_scores pool scores) in
      (count_moved (original_pos 0 0 pool) 0 ranked, rw (slice_at_most n ranked, rank_pool) refl)

  pub length-with_scores :
      (cs : List (Chunk F)) (xs : List F) → length (with_scores cs xs) ≡ length cs
  unfolding with_scores
  length-with_scores [] xs = refl
  length-with_scores (c ∷ cs) [] = refl
  length-with_scores (c ∷ cs) (x ∷ xs) = ap suc (length-with_scores cs xs)

  module _ (P : Chunk F → Type 0)
      (keeps : (c : Chunk F) (x : F) → P c → P (record c { rerank_score = x })) where
    pub All-with_scores : (cs : List (Chunk F)) (xs : List F) → All P cs → All P (with_scores cs xs)
    unfolding with_scores
    All-with_scores [] xs h = tt
    All-with_scores (c ∷ cs) [] h = h
    All-with_scores (c ∷ cs) (x ∷ xs) (hc, hs) = (keeps c x hc, All-with_scores cs xs hs)

    All-insert : (c : Chunk F) (ds : List (Chunk F)) → P c → All P ds → All P (insert_chunk fl c ds)
    unfolding insert_chunk
    All-insert c [] h _ = (h, tt)
    All-insert c (d ∷ ds) h (hd, hs) = elim (Bool-cases (gt d.rerank_score c.rerank_score)) [
      | inl above ↦ rw above (hd, All-insert c ds h hs)
      | inr below ↦ rw below (h, (hd, hs))
    ]

    pub All-sort_stable : (cs : List (Chunk F)) → All P cs → All P (sort_stable fl cs)
    unfolding sort_stable
    All-sort_stable [] h = tt
    All-sort_stable (c ∷ cs) (hc, hs) = All-insert c (sort_stable fl cs) hc (All-sort_stable cs hs)

    pub All-pool_of : (limit : ℕ) (cs : List (Chunk F)) → All P cs → All P (pool_of fl limit cs)
    All-pool_of limit cs h = elim (Bool-cases (ltb 0 limit && ltb limit (length cs))) [
      | inl cut ↦ rw cut (All-take P limit cs h)
      | inr whole ↦ rw whole h
    ]
