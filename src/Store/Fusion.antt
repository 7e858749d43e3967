-- ===== src/Store/Fusion.antt =====
-- internal/store/store.go: the two arms of retrieval and their fusion (`hybridSearchSQL`,
-- `hybridSearchBM25SQL`, `HybridSearch`) and the search by keywords alone
-- (`keywordSearchTsRankSQL`, `keywordSearchBM25SQL`, `KeywordSearch`). The order by distance of the
-- vector index and the scores of the keyword arm are arguments; the sums of reciprocal ranks are
-- exact fractions. The smoothing constant is not negative.
pub mod Agreed
pub mod Keywords
use ragline.Base.{
  ℕ, zero, suc, ◌+◌, ◌*◌, Bool, true, false, not, ◌&&◌, ◌||◌, List, [], ◌∷◌, ◌++◌, Option, none,
  some, Bytes, ltb, leb, ◌==◌, if◌then◌else◌, take,
}
use ragline.Store.{Floats, Chunk}

-- A row of an arm: `ROW_NUMBER()` counts from 1.
pub record Hit : Type 0 where
  pub id : ℕ
  pub rank : ℕ

unfoldable pub number_from : ℕ → List ℕ → List Hit
number_from i [] = []
number_from i (id ∷ ids) = record { id = id; rank = i } ∷ number_from (suc i) ids

-- `vector_hits`, of the identifiers by rising distance.
unfoldable pub vector_hits : ℕ → List ℕ → List Hit
unfolding number_from
vector_hits vector_k nearest = number_from 1 (take vector_k nearest)

-- A chunk that the query's words match, with its score.
pub record Scored (F : Type 0) : Type 0 where
  pub id : ℕ
  pub score : F

module _ (fl : Floats) where
  open fl use {F, gt}

  -- `ORDER BY score DESC, id`
  abbrev pub scores_before : Scored F → Scored F → Bool
  scores_before a b = gt a.score b.score || (not (gt b.score a.score) && ltb a.id b.id)

  unfoldable pub insert_scored : Scored F → List (Scored F) → List (Scored F)
  insert_scored s [] = s ∷ []
  insert_scored s (r ∷ rs) = if scores_before r s then r ∷ insert_scored s rs else s ∷ r ∷ rs

  unfoldable pub by_score : List (Scored F) → List (Scored F)
  unfolding insert_scored
  by_score [] = []
  by_score (s ∷ ss) = insert_scored s (by_score ss)

  unfoldable pub scored_ids : List (Scored F) → List ℕ
  scored_ids [] = []
  scored_ids (s ∷ ss) = s.id ∷ scored_ids ss

  -- `keyword_hits`
  unfoldable pub keyword_hits : ℕ → List (Scored F) → List Hit
  unfolding by_score scored_ids number_from
  keyword_hits keyword_k matches = number_from 1 (take keyword_k (scored_ids (by_score matches)))

-- The rank of a chunk in an arm, and `COALESCE(..., 0)` where it is not there.
unfoldable pub rank_of : ℕ → List Hit → ℕ
rank_of i [] = 0
rank_of i (h ∷ hs) = if h.id == i then h.rank else rank_of i hs

-- A row of `fused`, with the two ranks that the outer query looks up.
pub record Fused : Type 0 where
  pub id : ℕ
  pub vector_rank : ℕ
  pub keyword_rank : ℕ

abbrev pub fused_at : List Hit → List Hit → ℕ → Fused
fused_at vs ks i = record { id = i; vector_rank = rank_of i vs; keyword_rank = rank_of i ks }

unfoldable pub hit_ids : List Hit → List ℕ
hit_ids [] = []
hit_ids (h ∷ hs) = h.id ∷ hit_ids hs

unfoldable pub is_among : ℕ → List ℕ → Bool
is_among i [] = false
is_among i (j ∷ js) = if i == j then true else is_among i js

-- `UNION ALL ... GROUP BY id`: every identifier once.
unfoldable pub group_ids : List ℕ → List ℕ → List ℕ
unfolding is_among
group_ids [] seen = seen
group_ids (i ∷ is) seen = let rest = group_ids is seen in if is_among i rest then rest else i ∷ rest

unfoldable pub fuse_ids : List Hit → List Hit → List ℕ → List Fused
unfolding rank_of
fuse_ids vs ks [] = []
fuse_ids vs ks (i ∷ is) = fused_at vs ks i ∷ fuse_ids vs ks is

unfoldable pub fuse : List Hit → List Hit → List Fused
unfolding fuse_ids group_ids hit_ids
fuse vs ks = fuse_ids vs ks (group_ids (hit_ids vs ++ hit_ids ks) [])

-- A sum of `1.0 / (k + rank)`, as a fraction; rank 0 adds nothing.
pub record Fraction : Type 0 where
  pub num : ℕ
  pub den : ℕ

abbrev pub reciprocal : ℕ → ℕ → Fraction
reciprocal k zero = record { num = 0; den = 1 }
reciprocal k (suc r) = record { num = 1; den = k + suc r }

abbrev pub add_fraction : Fraction → Fraction → Fraction
add_fraction a b = record { num = a.num * b.den + b.num * a.den; den = a.den * b.den }

unfoldable pub rrf_score : ℕ → Fused → Fraction
rrf_score k e = add_fraction (reciprocal k e.vector_rank) (reciprocal k e.keyword_rank)

abbrev pub exceeds : Fraction → Fraction → Bool
exceeds a b = ltb (b.num * a.den) (a.num * b.den)

-- `ORDER BY f.rrf DESC, ch.id`
unfoldable pub outranks : ℕ → Fused → Fused → Bool
unfolding rrf_score
outranks k a b =
    if exceeds (rrf_score k a) (rrf_score k b)
    then true
    else if exceeds (rrf_score k b) (rrf_score k a)
    then false
    else ltb a.id b.id

unfoldable pub insert_fused : ℕ → Fused → List Fused → List Fused
unfolding outranks
insert_fused k e [] = e ∷ []
insert_fused k e (d ∷ ds) = if outranks k d e then d ∷ insert_fused k e ds else e ∷ d ∷ ds

unfoldable pub by_rrf : ℕ → List Fused → List Fused
unfolding insert_fused
by_rrf k [] = []
by_rrf k (e ∷ es) = insert_fused k e (by_rrf k es)

-- The rows of `HybridSearch`, from the two arms.
unfoldable pub hybrid_rows : ℕ → ℕ → List Hit → List Hit → List Fused
unfolding by_rrf fuse
hybrid_rows rrf_k limit vs ks = take limit (by_rrf rrf_k (fuse vs ks))

-- `HybridSearch`
unfoldable pub hybrid_search :
    (fl : Floats) → ℕ → ℕ → ℕ → ℕ → List ℕ → List (Scored fl.F) → List Fused
unfolding hybrid_rows vector_hits keyword_hits
hybrid_search fl vector_k keyword_k rrf_k limit nearest matches =
    hybrid_rows rrf_k limit (vector_hits vector_k nearest) (keyword_hits fl keyword_k matches)
