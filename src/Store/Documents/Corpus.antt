-- ===== src/Store/Documents/Corpus.antt =====
-- The table of documents as a map from contents to documents.
use ragline.Base.{
  ℕ, ◌≡◌, refl, sym, ap, ◌∙◌, true, false, List, [], ◌∷◌, ◌++◌, Option, none, some, Bytes, arith,
  bytes_eq, bytes_eq→eq, ◌==◌, if◌then◌else◌, Bool-cases, inl, inr,
}
use ragline.Store.Documents.{
  Document, Row, Table, find_hash, find_id, fresh_row, insert_unless, insert_document, Created,
  created, existing, behind_insert, create_document,
}

-- The abstract corpus: the document that holds some bytes, by their hash.
abbrev pub CorpusMap : Type 0
CorpusMap = Bytes → Option Document

abbrev pub view : Table → CorpusMap
view t h = find_hash h t

-- What `CreateDocument` promises: insertion where the bytes are new.
abbrev pub put_new : Document → CorpusMap → Option Document → CorpusMap × Created
put_new d m (some e) = (m, existing e)
put_new d m none = ((λ h. if bytes_eq d.content_hash h then some d else m h), created d)

abbrev pub create_new : Document → CorpusMap → CorpusMap × Created
create_new d m = put_new d m (m d.content_hash)

pub find_hash-snoc :
    (h : Bytes) (t : Table) (r : Row)
    → find_hash h t ≡ none
    → find_hash h (t ++ r ∷ []) ≡ (if bytes_eq r.doc.content_hash h then some r.doc else none)
unfolding find_hash
find_hash-snoc h [] r e = refl
find_hash-snoc h (s ∷ t) r e = ground (arith, find_hash-snoc h t r)

pub find_hash-snoc_some :
    (h : Bytes) (t : Table) (r : Row) (d : Document)
    → find_hash h t ≡ some d
    → find_hash h (t ++ r ∷ []) ≡ some d
unfolding find_hash
find_hash-snoc_some h [] r d e = cc
find_hash-snoc_some h (s ∷ t) r d e = ground (arith, find_hash-snoc_some h t r d)

-- The document that a call stores: the columns that the caller does not give have their defaults.
abbrev pub stored : ℕ → ℕ → Document → Bytes → Document
stored fresh now d raw = (fresh_row (if d.id == 0 then fresh else d.id) now d raw).doc

-- Two rows never hold the same bytes, nor the same identifier.
abbrev pub Unlike : Row → List Row → Type 0
Unlike r [] = Unit
Unlike r (s ∷ t) =
    (bytes_eq r.doc.content_hash s.doc.content_hash ≡ false)
    × ((r.doc.id == s.doc.id) ≡ false)
    × Unlike r t

abbrev pub IsCorpus : Table → Type 0
IsCorpus [] = Unit
IsCorpus (r ∷ t) = Unlike r t × IsCorpus t

Unlike-snoc :
    (r s : Row) (t : Table)
    → bytes_eq r.doc.content_hash s.doc.content_hash ≡ false
    → (r.doc.id == s.doc.id) ≡ false
    → Unlike r t
    → Unlike r (t ++ s ∷ [])
Unlike-snoc r s [] p q u = (p, q, tt)
Unlike-snoc r s (x ∷ t) p q (a, b, u) = (a, b, Unlike-snoc r s t p q u)

pub IsCorpus-snoc :
    (s : Row) (t : Table)
    → find_hash s.doc.content_hash t ≡ none
    → find_id s.doc.id t ≡ none
    → IsCorpus t
    → IsCorpus (t ++ s ∷ [])
unfolding find_hash find_id
IsCorpus-snoc s [] p q c = (tt, tt)
IsCorpus-snoc s (r ∷ t) p q (u, c) = (
  Unlike-snoc r s t (ground (arith, p)) (ground (arith, q)) u,
  IsCorpus-snoc s t (ground (arith, p)) (ground (arith, q)) c,
)

-- What a call leaves behind: the abstract corpus that `m` is after the call, the result that goes
-- with it, and a table that is still a corpus.
pub record Refines (m : CorpusMap × Created) (x : Table × Created) : Type 0 where
  pub viewed : (h : Bytes) → view x.0 h ≡ m.0 h
  pub result : x.1 ≡ m.1
  pub kept : IsCorpus x.0

module _ (t : Table) (c : IsCorpus t) (fresh now : ℕ) (d : Document) (raw : Bytes) where
  abbrev row : Row
  row = fresh_row (if d.id == 0 then fresh else d.id) now d raw

  viewed_new :
      (h : Bytes) (o : Option Document)
      → find_hash d.content_hash t ≡ none
      → find_hash h t ≡ o
      → find_hash h (t ++ row ∷ [])
        ≡ (if bytes_eq d.content_hash h then some row.doc else find_hash h t)
  viewed_new h none e at = rw at (find_hash-snoc h t row at)
  viewed_new h (some old) e at = elim (Bool-cases (bytes_eq d.content_hash h)) [
    | inl same ↦
        let eq : d.content_hash ≡ h = bytes_eq→eq d.content_hash h same in
        absurd (let bad : some old ≡ none = sym at ∙ ap (λ k. find_hash k t) (sym eq) ∙ e in cc)
    | inr other ↦ rw (other, at) (find_hash-snoc_some h t row old at)
  ]

  insert-Refines :
      (o : Option Document)
      → find_hash d.content_hash t ≡ o
      → find_id row.doc.id t ≡ none
      → Refines
          (put_new row.doc (view t) o)
          (behind_insert true d.content_hash (insert_unless o none row t))
  insert-Refines none e q = record {
    viewed = λ h. viewed_new h (find_hash h t) e refl;
    result = refl;
    kept = IsCorpus-snoc row t e q c;
  }
  insert-Refines (some old) e q = record { viewed = λ h. refl; result = rw e refl; kept = c }

-- Where both statements run and the identifier is new, `CreateDocument` is insertion of new bytes
-- into the abstract corpus: what it stores, what it returns and what it leaves alone. Rows keep
-- distinct bytes and identifiers.
pub create_document-Refines :
    (t : Table) (fresh now : ℕ) (d : Document) (raw : Bytes)
    → IsCorpus t
    → find_id (stored fresh now d raw).id t ≡ none
    → Refines
        (create_new (stored fresh now d raw) (view t))
        (create_document true true fresh now d raw t)
unfolding create_document insert_document
create_document-Refines t fresh now d raw c q =
    rw q (insert-Refines t c fresh now d raw (find_hash d.content_hash t) refl q)
