-- ===== src/Rerank/Order.antt =====
-- The stable sort by score: it is descending, and each score's chunks keep the order they came in.
use ragline.Base.{
  suc, ◌≡◌, refl, ap, ◌∙◌, true, false, not, ◌&&◌, List, [], ◌∷◌, arith, if◌then◌else◌, length,
}
use ragline.Store.{Floats, Chunk}
use ragline.Rerank.{insert_chunk, sort_stable}

module _ (fl : Floats) where
  open fl use {F, gt}

  -- No chunk of the list scores higher than `c`.
  abbrev pub NoneAbove : Chunk F → List (Chunk F) → Type 0
  NoneAbove c [] = Unit
  NoneAbove c (d ∷ ds) = (gt d.rerank_score c.rerank_score ≡ false) × NoneAbove c ds

  abbrev pub Descending : List (Chunk F) → Type 0
  Descending [] = Unit
  Descending (c ∷ cs) = NoneAbove c cs × Descending cs

  -- The chunks that score neither more nor less than `x`, in order.
  unfoldable pub of_score : F → List (Chunk F) → List (Chunk F)
  of_score x [] = []
  of_score x (c ∷ cs) =
      if not (gt c.rerank_score x) && not (gt x c.rerank_score)
      then c ∷ of_score x cs
      else of_score x cs

  gt_asym : (a b : F) → gt a b ≡ true → gt b a ≡ false
  gt_asym a b h = ground (arith, fl.gt_trans a b a, fl.gt_irrefl a)

  of_score-insert :
      (x : F) (c : Chunk F) (ds : List (Chunk F))
      → of_score x (insert_chunk fl c ds) ≡ of_score x (c ∷ ds)
  unfolding of_score insert_chunk
  of_score-insert x c [] = refl
  of_score-insert x c (d ∷ ds) =
      ground (arith, of_score-insert x c ds, fl.not-gt_trans d.rerank_score x c.rerank_score)

  NoneAbove-insert :
      (c d : Chunk F) (ds : List (Chunk F))
      → gt c.rerank_score d.rerank_score ≡ false
      → NoneAbove d ds
      → NoneAbove d (insert_chunk fl c ds)
  unfolding insert_chunk
  NoneAbove-insert c d [] h _ = (h, tt)
  NoneAbove-insert c d (e ∷ es) h (he, hs) = ground (arith, NoneAbove-insert c d es h hs)

  NoneAbove-trans :
      (c d : Chunk F) (ds : List (Chunk F))
      → gt d.rerank_score c.rerank_score ≡ false
      → NoneAbove d ds
      → NoneAbove c ds
  NoneAbove-trans c d [] h _ = tt
  NoneAbove-trans c d (e ∷ es) h (he, hs) = (
    fl.not-gt_trans e.rerank_score d.rerank_score c.rerank_score he h,
    NoneAbove-trans c d es h hs,
  )

  Descending-insert :
      (c : Chunk F) (ds : List (Chunk F)) → Descending ds → Descending (insert_chunk fl c ds)
  unfolding insert_chunk
  Descending-insert c [] _ = (tt, tt)
  Descending-insert c (d ∷ ds) (hd, hs) = ground (
    arith,
    Descending-insert c ds hs,
    NoneAbove-insert c d ds,
    NoneAbove-trans c d ds,
    gt_asym d.rerank_score c.rerank_score,
  )

  pub Descending-sort_stable : (cs : List (Chunk F)) → Descending (sort_stable fl cs)
  unfolding sort_stable
  Descending-sort_stable [] = tt
  Descending-sort_stable (c ∷ cs) =
      Descending-insert c (sort_stable fl cs) (Descending-sort_stable cs)

  of_score_cons :
      (x : F) (c : Chunk F) (cs ds : List (Chunk F))
      → of_score x cs ≡ of_score x ds
      → of_score x (c ∷ cs) ≡ of_score x (c ∷ ds)
  unfolding of_score
  of_score_cons x c cs ds h = ground arith

  of_score-sort_stable :
      (x : F) (cs : List (Chunk F)) → of_score x (sort_stable fl cs) ≡ of_score x cs
  unfolding sort_stable
  of_score-sort_stable x [] = refl
  of_score-sort_stable x (c ∷ cs) =
      of_score-insert x c (sort_stable fl cs)
      ∙ of_score_cons x c (sort_stable fl cs) cs (of_score-sort_stable x cs)

  pub length-insert :
      (c : Chunk F) (ds : List (Chunk F)) → length (insert_chunk fl c ds) ≡ suc (length ds)
  unfolding insert_chunk
  length-insert c [] = refl
  length-insert c (d ∷ ds) = ground (arith, length-insert c ds)

  pub length-sort_stable : (cs : List (Chunk F)) → length (sort_stable fl cs) ≡ length cs
  unfolding sort_stable
  length-sort_stable [] = refl
  length-sort_stable (c ∷ cs) = length-insert c (sort_stable fl cs) ∙ ap suc (length-sort_stable cs)

  -- The ranked chunks descend by score, and those of any one score are the pool's of that score in
  -- the pool's order: nothing is lost or added, and ties keep the fusion order.
  pub sort_stable_lem :
      (cs : List (Chunk F))
      → Descending (sort_stable fl cs) × ((x : F) → of_score x (sort_stable fl cs) ≡ of_score x cs)
  sort_stable_lem cs = (Descending-sort_stable cs, λ x. of_score-sort_stable x cs)
