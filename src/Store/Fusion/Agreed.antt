-- ===== src/Store/Fusion/Agreed.antt =====
-- Chunks that both retrievers found come before those that only one found.
use ragline.Base.{
  ℕ, zero, suc, ◌+◌, ◌*◌, ◌≤◌, ◌<◌, ◌≡◌, refl, Bool, true, false, not, ◌&&◌, List, [], ◌∷◌, arith,
  ltb, if◌then◌else◌, take, length, length-take, ◌++◌, Bool-cases, ◌⊎◌, inl, inr,
}
use native.Mathlib.Nat.{mul-le-mul_left}
use ragline.Store.{Floats}
use ragline.Store.Fusion.{
  Hit, Fused, Scored, scored_ids, by_score, vector_hits, keyword_hits, hybrid_search, Fraction,
  add_fraction, reciprocal, rrf_score, exceeds, outranks, insert_fused, by_rrf, fuse, fuse_ids,
  rank_of, number_from, hybrid_rows, group_ids, hit_ids,
}

-- 1 / (k + r) + 1 / (k + s) exceeds 1 / (k + t), for ranks up to k + 1 of the two.
two_beat_one :
    (k a b c : ℕ) → a ≤ 2 * k + 1 → b ≤ 2 * k + 1 → k + 1 ≤ c → 0 < a → a * b < (b + a) * c
two_beat_one k a b c p q r h =
    let left : b * a ≤ b * (2 * k + 1) = mul-le-mul_left b p in
    let right : a * b ≤ a * (2 * k + 1) = mul-le-mul_left a q in
    let both : (b + a) * (k + 1) ≤ (b + a) * c = mul-le-mul_left (b + a) r in
    grind (arith, left, right, both)

-- The score of two ranks, one of which may be 0.
abbrev score_of : ℕ → ℕ → ℕ → Fraction
score_of k r s = add_fraction (reciprocal k r) (reciprocal k s)

agreed-exceeds :
    (k r s t u : ℕ)
    → 0 < r
    → r ≤ k + 1
    → 0 < s
    → s ≤ k + 1
    → (t ≡ 0) ⊎ (u ≡ 0)
    → exceeds (score_of k r s) (score_of k t u) ≡ true
agreed-exceeds k zero s t u a b c d e = absurd (omega (arith, a))
agreed-exceeds k (suc r) zero t u a b c d e = absurd (omega (arith, c))
agreed-exceeds k (suc r) (suc s) zero zero a b c d e = ground arith
agreed-exceeds k (suc r) (suc s) (suc t) zero a b c d e =
    ground (arith, two_beat_one k (k + suc r) (k + suc s) (k + suc t))
agreed-exceeds k (suc r) (suc s) zero (suc u) a b c d e =
    ground (arith, two_beat_one k (k + suc r) (k + suc s) (k + suc u))
agreed-exceeds k (suc r) (suc s) (suc t) (suc u) a b c d e = ground arith

-- A chunk that both retrievers found.
abbrev pub is_agreed : Fused → Bool
is_agreed e = ltb 0 e.vector_rank && ltb 0 e.keyword_rank

pub none_agreed : List Fused → Bool
none_agreed [] = true
none_agreed (e ∷ es) = not (is_agreed e) && none_agreed es

-- All chunks that both retrievers found come before the others.
unfoldable pub agreed_first : List Fused → Bool
unfolding none_agreed
agreed_first [] = true
agreed_first (e ∷ es) = let rest = agreed_first es in if is_agreed e then rest else none_agreed es

abbrev Small : ℕ → Fused → Type 0
Small k e = (e.vector_rank ≤ k + 1) × (e.keyword_rank ≤ k + 1)

abbrev AllSmall : ℕ → List Fused → Type 0
AllSmall k [] = Unit
AllSmall k (e ∷ es) = Small k e × AllSmall k es

exceeds_asym : (a b : Fraction) → exceeds a b ≡ true → exceeds b a ≡ false
exceeds_asym a b h = ground arith

agreed-outranks :
    (k : ℕ) (a b : Fused)
    → Small k a
    → is_agreed a ≡ true
    → is_agreed b ≡ false
    → (outranks k a b ≡ true) × (outranks k b a ≡ false)
unfolding outranks rrf_score
agreed-outranks k a b (p, q) h n =
    let more =
      agreed-exceeds k a.vector_rank a.keyword_rank b.vector_rank b.keyword_rank (ground (arith, h))
        p (ground (arith, h)) q (ground (arith, n)) in
    let less = exceeds_asym (rrf_score k a) (rrf_score k b) more in
    (rw more refl, rw (less, more) refl)

none_agreed_lem :
    (d : Fused) (ds : List Fused) → none_agreed (d ∷ ds) ≡ (not (is_agreed d) && none_agreed ds)
unfolding none_agreed
none_agreed_lem d ds = refl

none_agreed-insert :
    (k : ℕ) (e : Fused) (es : List Fused)
    → none_agreed (insert_fused k e es) ≡ (not (is_agreed e) && none_agreed es)
unfolding none_agreed insert_fused
none_agreed-insert k e [] = refl
none_agreed-insert k e (d ∷ ds) = ground (arith, none_agreed-insert k e ds)

agreed_first-insert :
    (k : ℕ) (e : Fused) (es : List Fused)
    → Small k e
    → AllSmall k es
    → agreed_first es ≡ true
    → agreed_first (insert_fused k e es) ≡ true
unfolding agreed_first insert_fused
agreed_first-insert k e [] s ss h = unfold none_agreed in ground arith
agreed_first-insert k e (d ∷ ds) s (sd, ss) h = ground (
  arith,
  agreed_first-insert k e ds s ss,
  none_agreed-insert k e ds,
  agreed-outranks k e d s,
  agreed-outranks k d e sd,
  none_agreed_lem d ds,
)

AllSmall-insert :
    (k : ℕ) (e : Fused) (es : List Fused)
    → Small k e
    → AllSmall k es
    → AllSmall k (insert_fused k e es)
unfolding insert_fused
AllSmall-insert k e [] s ss = (s, tt)
AllSmall-insert k e (d ∷ ds) s (sd, ss) = elim (Bool-cases (outranks k d e)) [
  | inl first ↦ rw first (sd, AllSmall-insert k e ds s ss)
  | inr behind ↦ rw behind (s, (sd, ss))
]

by_rrf-agreed_first :
    (k : ℕ) (es : List Fused)
    → AllSmall k es
    → (agreed_first (by_rrf k es) ≡ true) × AllSmall k (by_rrf k es)
unfolding by_rrf
by_rrf-agreed_first k [] s = (unfold agreed_first in refl, tt)
by_rrf-agreed_first k (e ∷ es) (s, ss) =
    let (first, small) = by_rrf-agreed_first k es ss in
    (agreed_first-insert k e (by_rrf k es) s small first, AllSmall-insert k e (by_rrf k es) s small)

-- Ranks in an arm that was cut at `n` rows are at most `n`.
rank_of-le : (x i : ℕ) (ids : List ℕ) → rank_of x (number_from (suc i) ids) ≤ i + length ids
unfolding rank_of number_from
rank_of-le x i [] = omega arith
rank_of-le x i (j ∷ js) = ground (arith, rank_of-le x (suc i) js)

rank_of-take_le : (x n : ℕ) (ids : List ℕ) → rank_of x (number_from 1 (take n ids)) ≤ n
rank_of-take_le x n ids = omega (arith, rank_of-le x 0 (take n ids), length-take n ids)

fuse_ids-AllSmall :
    (k : ℕ) (vs ks : List Hit) (is : List ℕ)
    → ((x : ℕ) → rank_of x vs ≤ k + 1)
    → ((x : ℕ) → rank_of x ks ≤ k + 1)
    → AllSmall k (fuse_ids vs ks is)
unfolding fuse_ids
fuse_ids-AllSmall k vs ks [] p q = tt
fuse_ids-AllSmall k vs ks (i ∷ is) p q = ((p i, q i), fuse_ids-AllSmall k vs ks is p q)

none_agreed-take :
    (n : ℕ) (es : List Fused) → none_agreed es ≡ true → none_agreed (take n es) ≡ true
unfolding none_agreed
none_agreed-take zero es h = refl
none_agreed-take (suc n) [] h = refl
none_agreed-take (suc n) (e ∷ es) h = ground (arith, none_agreed-take n es)

agreed_first-take :
    (n : ℕ) (es : List Fused) → agreed_first es ≡ true → agreed_first (take n es) ≡ true
unfolding agreed_first
agreed_first-take zero es h = refl
agreed_first-take (suc n) [] h = refl
agreed_first-take (suc n) (e ∷ es) h = ground (arith, agreed_first-take n es, none_agreed-take n es)

-- Where neither arm returns more than `k + 1` rows, for the smoothing constant `k`, every chunk that
-- both retrievers found comes before every chunk that only one of them found, whatever their ranks.
-- The defaults, 30 rows each and 60, are of that kind.
pub hybrid_search-agreed_first :
    (fl : Floats) (vector_k keyword_k k limit : ℕ) (nearest : List ℕ) (matches : List (Scored fl.F))
    → vector_k ≤ k + 1
    → keyword_k ≤ k + 1
    → agreed_first (hybrid_search fl vector_k keyword_k k limit nearest matches) ≡ true
unfolding hybrid_search hybrid_rows vector_hits keyword_hits fuse
hybrid_search-agreed_first fl vector_k keyword_k k limit nearest matches p q =
    let vs = vector_hits vector_k nearest in
    let ks = keyword_hits fl keyword_k matches in
    let ids = group_ids (hit_ids vs ++ hit_ids ks) [] in
    agreed_first-take limit (by_rrf k (fuse_ids vs ks ids))
      (by_rrf-agreed_first k (fuse_ids vs ks ids) (
        fuse_ids-AllSmall k vs ks ids (λ x. omega (arith, rank_of-take_le x vector_k nearest))
          (λ x.
            omega (arith, rank_of-take_le x keyword_k (scored_ids fl (by_score fl matches)))))).0
