-- ===== src/Api/Reads/Stored.antt =====
-- A document that an upload was answered with is there to be read.
use ragline.Base.{
  ℕ, ◌≡◌, refl, ap, sym, ◌∙◌, Bool, true, false, Option, none, some, [], ◌∷◌, Bytes, ◌⊎◌, inl, inr,
  ◌==◌, bytes_eq, bytes_eq→eq, arith, if◌then◌else◌,
}
use ragline.Store.Documents.{Document, Row, Table, find_hash, find_id}
use ragline.Store.Documents.Corpus.{IsCorpus, Unlike}
use ragline.Api.{Reply, write_error, write_json}
use ragline.Api.Upload.{
  UploadRequest, UploadResponse, HttpRequest, Server, Call, World, read_upload, upload_document,
}
use ragline.Api.Upload.Answers.{
  Uploaded, bad_request, not_stored, duplicate, queued, not_queued, row_for, with_document,
  upload_document-Uploaded,
}
use ragline.Api.Upload.Lost.{find_id-snoc}
use ragline.Api.Reads.{get_document}

-- What a search by hash came to at its first row.
head_or_tail :
    (b : Bool) (x d : Document) (o : Option Document)
    → (if b then some x else o) ≡ some d
    → ((b ≡ true) × (x ≡ d)) ⊎ ((b ≡ false) × (o ≡ some d))
head_or_tail true x d o e = inl (refl, cc)
head_or_tail false x d o e = inr (refl, e)

find_hash-hash :
    (h : Bytes) (t : Table) (d : Document)
    → find_hash h t ≡ some d
    → bytes_eq d.content_hash h ≡ true
unfolding find_hash
find_hash-hash h [] d e = cc
find_hash-hash h (r ∷ t) d e =
    elim (head_or_tail (bytes_eq r.doc.content_hash h) r.doc d (find_hash h t) e) [
      | inl (here, same) ↦ ap (λ x. bytes_eq x.content_hash h) (sym same) ∙ here
      | inr (further, rest) ↦ find_hash-hash h t d rest
    ]

Unlike-id :
    (r : Row) (h : Bytes) (t : Table) (d : Document)
    → Unlike r t
    → find_hash h t ≡ some d
    → (r.doc.id == d.id) ≡ false
unfolding find_hash
Unlike-id r h [] d u e = cc
Unlike-id r h (s ∷ t) d (a, b, u) e =
    elim (head_or_tail (bytes_eq s.doc.content_hash h) s.doc d (find_hash h t) e) [
      | inl (here, same) ↦ ap (λ x. r.doc.id == x.id) (sym same) ∙ b
      | inr (further, rest) ↦ Unlike-id r h t d u rest
    ]

eq_refl : (n : ℕ) → (n == n) ≡ true
eq_refl n = ground arith

find_id-find_hash :
    (h : Bytes) (t : Table) (d : Document)
    → IsCorpus t
    → find_hash h t ≡ some d
    → find_id d.id t ≡ some d
unfolding find_hash find_id
find_id-find_hash h [] d c e = cc
find_id-find_hash h (r ∷ t) d (u, c) e =
    elim (head_or_tail (bytes_eq r.doc.content_hash h) r.doc d (find_hash h t) e) [
      | inl (here, same) ↦
          ap (λ b. if b then some r.doc else find_id d.id t)
            (ap (λ x. x.id == d.id) same ∙ eq_refl d.id)
          ∙ ap some same
      | inr (further, rest) ↦
          ap (λ b. if b then some r.doc else find_id d.id t) (Unlike-id r h t d u rest)
          ∙ find_id-find_hash h t d c rest
    ]

-- The document under an identifier has the content of a request.
pub record Readable (sv : Server) (req : UploadRequest) (i : ℕ) (reply : Reply Document)
    : Type 0 where
  pub document : Document
  pub read : reply ≡ write_json 200 document
  pub named : document.id ≡ i
  pub same_content : document.content_hash ≡ sv.hex_digest req.content

module _ (parse_uuid : Bytes → Option ℕ) (sv : Server) (call : Call) (w : World)
    (req : UploadRequest) (error_text : Bytes) (corpus : IsCorpus w.documents) where
  new-Readable :
      parse_uuid (sv.uuid_text call.fresh) ≡ some call.fresh
      → find_id call.fresh w.documents ≡ none
      → Readable sv req call.fresh (
          get_document parse_uuid true error_text
            (sv.uuid_text call.fresh)
            (with_document sv call w req).documents)
  unfolding get_document
  new-Readable p f =
      let row = row_for sv call w req in
      record {
        document = row.doc;
        read = rw (p, find_id-snoc call.fresh w.documents row f refl) refl;
        named = refl;
        same_content = refl;
      }

  old-Readable :
      (d : Document)
      → parse_uuid (sv.uuid_text d.id) ≡ some d.id
      → find_hash (sv.hex_digest req.content) w.documents ≡ some d
      → Readable sv req d.id
          (get_document parse_uuid true error_text (sv.uuid_text d.id) w.documents)
  unfolding get_document
  old-Readable d p e =
      let hash = sv.hex_digest req.content in
      record {
        document = d;
        read = rw (p, find_id-find_hash hash w.documents d corpus e) refl;
        named = refl;
        same_content = bytes_eq→eq d.content_hash hash (find_hash-hash hash w.documents d e);
      }

-- The identifier that the answer to an upload names.
abbrev pub named_id : Reply UploadResponse → Option ℕ
named_id (write_error n e) = none
named_id (write_json n v) = some v.document_id

Uploaded-Readable :
    (parse_uuid : Bytes → Option ℕ) (sv : Server) (call : Call) (w : World) (req : UploadRequest)
    (error_text : Bytes) (i : ℕ) (u : Bytes ⊎ UploadRequest) (x : World × Reply UploadResponse)
    → Uploaded sv call w u x
    → u ≡ inr req
    → named_id x.1 ≡ some i
    → parse_uuid (sv.uuid_text i) ≡ some i
    → IsCorpus w.documents
    → find_id call.fresh w.documents ≡ none
    → Readable sv req i (get_document parse_uuid true error_text (sv.uuid_text i) x.0.documents)
Uploaded-Readable parse_uuid sv call w req error_text i u x (bad_request e) p q m c f = cc
Uploaded-Readable parse_uuid sv call w req error_text i u x (not_stored other why) p q m c f = cc
Uploaded-Readable parse_uuid sv call w req error_text i u x (not_queued other h a) p q m c f = cc
Uploaded-Readable parse_uuid sv call w req error_text i u x (duplicate other d h) p q m c f =
    let same : other ≡ req = cc in
    let id : d.id ≡ i = cc in
    rw⁻¹ same (rw⁻¹ id (old-Readable parse_uuid sv call w other error_text c d (rw id m) h))
Uploaded-Readable parse_uuid sv call w req error_text i u x (queued other h a) p q m c f =
    let same : other ≡ req = cc in
    let id : call.fresh ≡ i = cc in
    rw⁻¹ same (rw⁻¹ id (new-Readable parse_uuid sv call w other error_text c (rw id m) f))

-- The document that an upload is answered with, new or not, can be read at once under its
-- identifier, with the digest of the upload's content. The table is one without two rows of one hash
-- or one identifier, the new identifier is new, and the text of an identifier reads back.
pub upload_document-Readable :
    (parse_uuid : Bytes → Option ℕ) (sv : Server) (call : Call) (r : HttpRequest) (w : World)
    (req : UploadRequest) (error_text : Bytes) (i : ℕ)
    → read_upload sv r ≡ inr req
    → named_id (upload_document sv call r w).1 ≡ some i
    → parse_uuid (sv.uuid_text i) ≡ some i
    → IsCorpus w.documents
    → find_id call.fresh w.documents ≡ none
    → Readable sv req i (
        get_document parse_uuid true error_text
          (sv.uuid_text i)
          (upload_document sv call r w).0.documents)
upload_document-Readable parse_uuid sv call r w req error_text i p q m c f =
    Uploaded-Readable parse_uuid sv call w req error_text i (read_upload sv r)
      (upload_document sv call r w) (upload_document-Uploaded sv call r w) p q m c f
