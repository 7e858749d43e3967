-- ===== src/Store/Passages/Around.antt =====
-- `Neighbours`: the chunks around a hit.
use ragline.Base.{
  ℕ, ◌+◌, ◌≤◌, ◌≡◌, refl, Bool, true, ◌&&◌, List, [], ◌∷◌, some, arith, ltb, leb, ◌==◌,
  if◌then◌else◌, Bool-cases, inl, inr,
}
use ragline.Store.{Chunk}
use ragline.Store.Documents.{Document, find_id}
use ragline.Store.Passages.{Passage, Corpus, is_near, insert_passage, near, chunks_in, neighbours}

-- How many chunks have an identifier, and how many passages of the document that lie at most `radius`
-- away from the position, on either side.
pub count_id : {F : Type 0} → ℕ → List (Chunk F) → ℕ
count_id k [] = 0
count_id k (c ∷ cs) = (if c.id == k then 1 else 0) + count_id k cs

abbrev pub is_around : ℕ → ℕ → ℕ → Passage → Bool
is_around doc ordinal radius p =
    p.document_id == doc && leb ordinal (p.ordinal + radius) && leb p.ordinal (ordinal + radius)

pub count_around : ℕ → ℕ → ℕ → ℕ → List Passage → ℕ
count_around doc ordinal radius k [] = 0
count_around doc ordinal radius k (p ∷ ps) =
    (if is_around doc ordinal radius p && p.id == k then 1 else 0)
    + count_around doc ordinal radius k ps

-- The positions do not fall, from a lower bound on.
abbrev pub RisesFrom : {F : Type 0} → ℕ → List (Chunk F) → Type 0
RisesFrom n [] = Unit
RisesFrom n (c ∷ cs) = (n ≤ c.ordinal) × RisesFrom c.ordinal cs

module _ {F : Type 0} (z : F) (d : Document) where
  chunks : List Passage → List (Chunk F)
  chunks ps = chunks_in z d ps

  insert-count :
      (k : ℕ) (p : Passage) (ps : List Passage)
      → count_id k (chunks (insert_passage p ps))
        ≡ (if p.id == k then 1 else 0) + count_id k (chunks ps)
  unfolding count_id insert_passage chunks
  insert-count k p [] = refl
  insert-count k p (q ∷ qs) = ground (arith, insert-count k p qs)

  insert-rises :
      (n : ℕ) (p : Passage) (ps : List Passage)
      → n ≤ p.ordinal
      → RisesFrom n (chunks ps)
      → RisesFrom n (chunks (insert_passage p ps))
  unfolding insert_passage chunks
  insert-rises n p [] h r = (h, tt)
  insert-rises n p (q ∷ qs) h (a, r) = elim (Bool-cases (ltb q.ordinal p.ordinal)) [
    | inl below ↦ rw below (a, insert-rises q.ordinal p qs (ground arith) r)
    | inr above ↦ rw above (h, (ground arith, r))
  ]

  near-count :
      (doc ordinal radius k : ℕ) (ps : List Passage)
      → count_id k (chunks (near doc ordinal radius ps)) ≡ count_around doc ordinal radius k ps
  unfolding near count_around count_id
  near-count doc ordinal radius k [] = unfold chunks in refl
  near-count doc ordinal radius k (p ∷ ps) =
      ground
        (arith, near-count doc ordinal radius k ps, insert-count k p (near doc ordinal radius ps))

  near-rises :
      (doc ordinal radius : ℕ) (ps : List Passage)
      → RisesFrom 0 (chunks (near doc ordinal radius ps))
  unfolding near
  near-rises doc ordinal radius [] = unfold chunks in tt
  near-rises doc ordinal radius (p ∷ ps) = elim (Bool-cases (is_near doc ordinal radius p)) [
    | inl close ↦ rw close (
        insert-rises 0 p (near doc ordinal radius ps) (omega arith)
          (near-rises doc ordinal radius ps))
    | inr far ↦ rw far (near-rises doc ordinal radius ps)
  ]

-- Of a document that is there, `Neighbours` returns the chunks at most the radius away from the position
-- on either side, each as often as the table has it, and no other, in the order of the document.
pub neighbours-around :
    {F : Type 0} (z : F) (doc ordinal radius : ℕ) (c : Corpus) {d : Document}
    → find_id doc c.documents ≡ some d
    → (out : List (Chunk F)) × (neighbours true z doc ordinal radius c ≡ some out)
      × RisesFrom 0 out
      × ((k : ℕ) → count_id k out ≡ count_around doc ordinal radius k c.passages)
unfolding neighbours
neighbours-around z doc ordinal radius c {d} e = (
  chunks_in z d (near doc ordinal radius c.passages),
  rw e refl,
  unfold chunks in near-rises z d doc ordinal radius c.passages,
  λ k. unfold chunks in near-count z d doc ordinal radius k c.passages,
)
