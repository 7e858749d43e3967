-- ===== src/Store/Fusion/Keywords.antt =====
-- internal/store/store.go: `KeywordSearch`, against `HybridSearch` without vectors.
use ragline.Base.{
  ℕ, zero, suc, ◌≤◌, ◌≡◌, refl, ap, ◌∙◌, Bool, true, false, List, [], ◌∷◌, ◌++◌, arith, ◌==◌,
  if◌then◌else◌, take, Bool-cases, inl, inr,
}
use ragline.Store.{Floats}
use ragline.Store.Fusion.{
  Hit, Fused, Scored, scored_ids, by_score, vector_hits, keyword_hits, hybrid_search, insert_scored,
  scores_before, rrf_score, outranks, insert_fused, by_rrf, fuse, fuse_ids, fused_at, rank_of,
  number_from, hybrid_rows, group_ids, hit_ids, is_among,
}

-- A row of `KeywordSearch`: its `ROW_NUMBER()` is the keyword rank, and the vector rank is 0.
unfoldable pub keyword_rows : List Hit → List Fused
keyword_rows [] = []
keyword_rows (h ∷ hs) =
    record { id = h.id; vector_rank = 0; keyword_rank = h.rank } ∷ keyword_rows hs

-- `KeywordSearch`, of the chunks that the query's words match.
unfoldable pub keyword_search : (fl : Floats) → ℕ → List (Scored fl.F) → List Fused
unfolding keyword_rows number_from by_score scored_ids
keyword_search fl limit matches =
    take limit (keyword_rows (number_from 1 (scored_ids fl (by_score fl matches))))

-- No identifier stands twice.
abbrev pub Distinct : List ℕ → Type 0
Distinct [] = Unit
Distinct (i ∷ is) = (is_among i is ≡ false) × Distinct is

group_ids-Distinct : (is : List ℕ) → Distinct is → group_ids is [] ≡ is
unfolding group_ids
group_ids-Distinct [] d = refl
group_ids-Distinct (i ∷ is) (a, d) = rw (group_ids-Distinct is d) (rw a refl)

hit_ids-number_from : (k : ℕ) (is : List ℕ) → hit_ids (number_from k is) ≡ is
unfolding hit_ids number_from
hit_ids-number_from k [] = refl
hit_ids-number_from k (i ∷ is) = ap (λ x. i ∷ x) (hit_ids-number_from (suc k) is)

both_false : (b x : Bool) → (if b then true else x) ≡ false → (b ≡ false) × (x ≡ false)
both_false true x h = cc
both_false false x h = (refl, h)

eq_refl : (n : ℕ) → (n == n) ≡ true
eq_refl n = ground arith

eq_false : (m n : ℕ) → (m == n) ≡ false → (n == m) ≡ false
eq_false m n h = ground arith

-- An arm in front of which `i` stands gives the other identifiers their ranks.
fuse_ids-skip :
    (i k : ℕ) (hs : List Hit) (js : List ℕ)
    → is_among i js ≡ false
    → fuse_ids [] (record { id = i; rank = k } ∷ hs) js ≡ fuse_ids [] hs js
unfolding fuse_ids rank_of is_among
fuse_ids-skip i k hs [] a = refl
fuse_ids-skip i k hs (j ∷ js) a =
    let (other, rest) = both_false (i == j) (is_among i js) a in
    ap
      (λ b.
        record { id = j; vector_rank = 0; keyword_rank = if b then k else rank_of j hs }
        ∷ fuse_ids [] (record { id = i; rank = k } ∷ hs) js)
      other
    ∙ ap (λ x. fused_at [] hs j ∷ x) (fuse_ids-skip i k hs js rest)

fuse_ids-number_from :
    (k : ℕ) (is : List ℕ)
    → Distinct is
    → fuse_ids [] (number_from k is) is ≡ keyword_rows (number_from k is)
unfolding number_from keyword_rows fuse_ids rank_of
fuse_ids-number_from k [] d = refl
fuse_ids-number_from k (i ∷ is) (a, d) =
    let arm = number_from (suc k) is in
    ap
      (λ b.
        record { id = i; vector_rank = 0; keyword_rank = if b then k else rank_of i arm }
        ∷ fuse_ids [] (record { id = i; rank = k } ∷ arm) is)
      (eq_refl i)
    ∙ ap (λ x. record { id = i; vector_rank = 0; keyword_rank = k } ∷ x)
        (fuse_ids-skip i k arm is a ∙ fuse_ids-number_from (suc k) is d)

abbrev row : ℕ → ℕ → Fused
row i r = record { id = i; vector_rank = 0; keyword_rank = r }

later_rank-outranks : (k i j r : ℕ) → outranks k (row j (suc (suc r))) (row i (suc r)) ≡ false
unfolding outranks rrf_score
later_rank-outranks k i j r = ground arith

by_rrf-keyword_rows :
    (k r : ℕ) (is : List ℕ)
    → by_rrf k (keyword_rows (number_from (suc r) is)) ≡ keyword_rows (number_from (suc r) is)
unfolding by_rrf keyword_rows number_from insert_fused
by_rrf-keyword_rows k r [] = refl
by_rrf-keyword_rows k r (i ∷ []) = refl
by_rrf-keyword_rows k r (i ∷ j ∷ js) =
    let rest = keyword_rows (number_from (suc (suc r)) (j ∷ js)) in
    let behind = keyword_rows (number_from (suc (suc (suc r))) js) in
    ap (insert_fused k (row i (suc r))) (by_rrf-keyword_rows k (suc r) (j ∷ js))
    ∙ ap
        (λ b.
          if b
          then row j (suc (suc r)) ∷ insert_fused k (row i (suc r)) behind
          else row i (suc r) ∷ rest)
        (later_rank-outranks k i j r)

take-rows :
    (n m r : ℕ) (is : List ℕ)
    → n ≤ m
    → take n (keyword_rows (number_from r (take m is))) ≡ take n (keyword_rows (number_from r is))
unfolding keyword_rows number_from
take-rows zero m r is h = refl
take-rows (suc n) zero r is h = absurd (omega (arith, h))
take-rows (suc n) (suc m) r [] h = refl
take-rows (suc n) (suc m) r (i ∷ is) h =
    ap (λ x. row i r ∷ x) (take-rows n m (suc r) is (omega (arith, h)))

is_among-take : (i n : ℕ) (is : List ℕ) → is_among i is ≡ false → is_among i (take n is) ≡ false
unfolding is_among
is_among-take i zero is h = refl
is_among-take i (suc n) [] h = refl
is_among-take i (suc n) (j ∷ js) h = ground (arith, is_among-take i n js)

Distinct-take : (n : ℕ) (is : List ℕ) → Distinct is → Distinct (take n is)
Distinct-take zero is d = tt
Distinct-take (suc n) [] d = tt
Distinct-take (suc n) (i ∷ is) (a, d) = (is_among-take i n is a, Distinct-take n is d)

abbrev no_ids : List ℕ
no_ids = []

take-nil : (n : ℕ) → take n no_ids ≡ []
take-nil zero = refl
take-nil (suc n) = refl

module _ (fl : Floats) where
  is_among-insert :
      (i : ℕ) (s : Scored fl.F) (rs : List (Scored fl.F))
      → (i == s.id) ≡ false
      → is_among i (scored_ids fl rs) ≡ false
      → is_among i (scored_ids fl (insert_scored fl s rs)) ≡ false
  unfolding is_among scored_ids insert_scored
  is_among-insert i s [] p q = rw p refl
  is_among-insert i s (r ∷ rs) p q =
      let (other, rest) = both_false (i == r.id) (is_among i (scored_ids fl rs)) q in
      elim (Bool-cases (scores_before fl r s)) [
        | inl first ↦ rw first (rw other (is_among-insert i s rs p rest))
        | inr behind ↦ rw behind (rw p q)
      ]

  is_among-by_score :
      (i : ℕ) (ss : List (Scored fl.F))
      → is_among i (scored_ids fl ss) ≡ false
      → is_among i (scored_ids fl (by_score fl ss)) ≡ false
  unfolding is_among scored_ids by_score
  is_among-by_score i [] h = refl
  is_among-by_score i (s ∷ ss) h =
      let (other, rest) = both_false (i == s.id) (is_among i (scored_ids fl ss)) h in
      is_among-insert i s (by_score fl ss) other (is_among-by_score i ss rest)

  Distinct-insert :
      (s : Scored fl.F) (rs : List (Scored fl.F))
      → is_among s.id (scored_ids fl rs) ≡ false
      → Distinct (scored_ids fl rs)
      → Distinct (scored_ids fl (insert_scored fl s rs))
  unfolding is_among scored_ids insert_scored
  Distinct-insert s [] a d = (refl, tt)
  Distinct-insert s (r ∷ rs) a (b, d) =
      let (other, rest) = both_false (s.id == r.id) (is_among s.id (scored_ids fl rs)) a in
      elim (Bool-cases (scores_before fl r s)) [
        | inl first ↦
            rw first
              (is_among-insert r.id s rs (eq_false s.id r.id other) b, Distinct-insert s rs rest d)
        | inr behind ↦ rw behind (a, (b, d))
      ]

  Distinct-by_score :
      (ss : List (Scored fl.F))
      → Distinct (scored_ids fl ss)
      → Distinct (scored_ids fl (by_score fl ss))
  unfolding scored_ids by_score
  Distinct-by_score [] d = tt
  Distinct-by_score (s ∷ ss) (a, d) =
      Distinct-insert s (by_score fl ss) (is_among-by_score s.id ss a) (Distinct-by_score ss d)

-- The search by keywords alone, which serves where there is no embedding, is the hybrid search of
-- which the vector arm is empty: the same chunks in the same order with the same ranks, where the
-- keyword arm is as long as the result and no chunk matches twice.
pub keyword_search-hybrid :
    (fl : Floats) (vector_k keyword_k k limit : ℕ) (matches : List (Scored fl.F))
    → limit ≤ keyword_k
    → Distinct (scored_ids fl matches)
    → hybrid_search fl vector_k keyword_k k limit [] matches ≡ keyword_search fl limit matches
unfolding hybrid_search hybrid_rows vector_hits keyword_hits fuse keyword_search
keyword_search-hybrid fl vector_k keyword_k k limit matches h d =
    let ids = scored_ids fl (by_score fl matches) in
    let cut = take keyword_k ids in
    let arm = number_from 1 cut in
    let distinct = Distinct-take keyword_k ids (Distinct-by_score fl matches d) in
    let fused : fuse_ids [] arm (group_ids (hit_ids arm) []) ≡ keyword_rows arm =
      ap (λ x. fuse_ids [] arm x)
        (ap (λ x. group_ids x []) (hit_ids-number_from 1 cut) ∙ group_ids-Distinct cut distinct)
      ∙ fuse_ids-number_from 1 cut distinct in
    ap
      (λ vs. take limit (
        by_rrf k (
          fuse_ids (number_from 1 vs) arm
            (group_ids (hit_ids (number_from 1 vs) ++ hit_ids arm) []))))
      (take-nil vector_k)
    ∙ ap (λ x. take limit (by_rrf k x)) fused
    ∙ ap (take limit) (by_rrf-keyword_rows k 0 cut)
    ∙ take-rows limit keyword_k 1 ids h
