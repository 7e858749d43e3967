-- ===== src/Store/Terms/Table.antt =====
-- The table of chunks as a deletion leaves it.
use ragline.Base.{
  ℕ, ◌+◌, ◌≡◌, refl, sym, ap, ◌∙◌, List, [], ◌∷◌, none, some, Bytes, arith, length, ◌==◌, ==_iff,
  if◌then◌else◌, Bool-cases, inl, inr,
}
use ragline.Store.Terms.{
  Indexed, chunk_term_rows, has_term, sum_tf, find_chunk, without_chunk, count_holding, sum_len,
}

-- No identifier stands twice.
abbrev pub OnceEach : List Indexed → Type 0
OnceEach [] = Unit
OnceEach (c ∷ cs) = (find_chunk c.id cs ≡ none) × OnceEach cs

pub found-id : (i : ℕ) (cs : List Indexed) (c : Indexed) → find_chunk i cs ≡ some c → c.id ≡ i
unfolding find_chunk
found-id i [] c e = absurd (cc)
found-id i (d ∷ cs) c e = ground (arith, found-id i cs c)

-- Of distinct identifiers, one that is deleted is gone, and the others stay.
pub find-without :
    (i k : ℕ) (cs : List Indexed)
    → OnceEach cs
    → find_chunk k (without_chunk i cs) ≡ (if k == i then none else find_chunk k cs)
unfolding find_chunk without_chunk
find-without i k [] h = ground arith
find-without i k (c ∷ cs) (free, h) = elim (Bool-cases (c.id == i)) [
  | inl here ↦
      let gone : find_chunk i cs ≡ none =
        ap (λ j. find_chunk j cs) (sym ((==_iff c.id i).0 here)) ∙ free in
      elim (Bool-cases (k == i)) [
        | inl same ↦
            let all_gone : find_chunk k cs ≡ none =
              ap (λ j. find_chunk j cs) ((==_iff k i).0 same) ∙ gone in
            rw (here, same) all_gone
        | inr apart ↦ ground arith
      ]
  | inr other ↦ ground (arith, find-without i k cs h)
]

pub without-OnceEach : (i : ℕ) (cs : List Indexed) → OnceEach cs → OnceEach (without_chunk i cs)
unfolding without_chunk
without-OnceEach i [] h = tt
without-OnceEach i (c ∷ cs) (free, h) = elim (Bool-cases (c.id == i)) [
  | inl here ↦ rw here h
  | inr other ↦ rw other (find-without i c.id cs h ∙ rw other free, without-OnceEach i cs h)
]

-- The sums lose what the chunk that goes has brought.
pub without-sums :
    (i : ℕ) (cs : List Indexed) (c : Indexed) (t : Bytes)
    → find_chunk i cs ≡ some c
    → (length cs ≡ 1 + length (without_chunk i cs))
      × (sum_len cs ≡ sum_tf (chunk_term_rows c.tsv) + sum_len (without_chunk i cs))
      × (count_holding t cs
          ≡ (if has_term t (chunk_term_rows c.tsv) then 1 else 0)
            + count_holding t (without_chunk i cs))
unfolding find_chunk without_chunk sum_len count_holding
without-sums i [] c t e = absurd (cc)
without-sums i (d ∷ cs) c t e = elim (Bool-cases (d.id == i)) [
  | inl here ↦ let same : d ≡ c = cc (rw here at e) in rw (here, same) (omega arith, refl, refl)
  | inr other ↦
      let (n, len, held) = without-sums i cs c t (rw other at e) in
      rw other (omega (arith, n), omega (arith, len), omega (arith, held))
]
