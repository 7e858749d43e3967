-- ===== src/Api/Upload/Lost.antt =====
-- Sequences of uploads: the jobs that the topic holds, and a document whose job was not written.
use ragline.Base.{
  ℕ, zero, suc, ◌≡◌, ◌≢◌, refl, sym, ap, ◌∙◌, Bool, true, not, ◌&&◌, none, some, List, [], ◌∷◌,
  ◌++◌, Bytes, replicate, ◌⊎◌, inr, ◌==◌, if◌then◌else◌, arith, append-nil, bytes_eq_refl,
}
use ragline.Store.Documents.{
  Document, Row, Table, find_hash, find_id, insert_document, create_document,
}
use ragline.Store.Documents.Corpus.{find_hash-snoc, find_hash-snoc_some}
use ragline.Queue.{Message}
use ragline.Api.{Reply, write_json, status_of}
use ragline.Api.Upload.{
  UploadRequest, UploadResponse, HttpRequest, Server, Call, World, read_upload, response_for,
  behind_create, store_upload, upload_document,
}
use ragline.Api.Upload.Answers.{
  Uploaded, bad_request, not_stored, duplicate, queued, not_queued, row_for, message_for,
  with_document, upload_document-Uploaded,
}

-- Uploads one behind the other, each with an identifier that no document has.
pub data Uploads (sv : Server) : World → World → Type 0 where
  no_more : (w : World) → Uploads sv w w
  upload :
      (call : Call) (r : HttpRequest) (w v : World)
      → find_id call.fresh w.documents ≡ none
      → Uploads sv (upload_document sv call r w).0 v
      → Uploads sv w v

pub find_id-snoc_some :
    (i : ℕ) (t : Table) (r : Row) (d : Document)
    → find_id i t ≡ some d
    → find_id i (t ++ r ∷ []) ≡ some d
unfolding find_id
find_id-snoc_some i [] r d e = cc
find_id-snoc_some i (s ∷ t) r d e = ground (arith, find_id-snoc_some i t r d)

pub find_id-snoc :
    (i : ℕ) (t : Table) (r : Row)
    → find_id i t ≡ none
    → r.doc.id ≡ i
    → find_id i (t ++ r ∷ []) ≡ some r.doc
unfolding find_id
find_id-snoc i [] r e h = ground arith
find_id-snoc i (s ∷ t) r e h = ground (arith, find_id-snoc i t r)

-- No job of the topic is about a document.
unfoldable pub no_job : ℕ → List Message → Bool
no_job i [] = true
no_job i (m ∷ ms) = not (m.key == i) && not (m.value.document_id == i) && no_job i ms

no_job-append :
    (i : ℕ) (ms ns : List Message)
    → no_job i ms ≡ true
    → no_job i ns ≡ true
    → no_job i (ms ++ ns) ≡ true
unfolding no_job
no_job-append i [] ns h k = k
no_job-append i (m ∷ ms) ns h k = ground (arith, no_job-append i ms ns)

no_job-replicate :
    (i n : ℕ) (m : Message) → m.key ≢ i → m.value.document_id ≢ i → no_job i (replicate n m) ≡ true
unfolding no_job
no_job-replicate i zero m h k = refl
no_job-replicate i (suc n) m h k = ground (arith, no_job-replicate i n m h k)

-- A document that is stored and that no job is about.
pub record IsLost (i : ℕ) (d : Document) (w : World) : Type 0 where
  pub there : find_id i w.documents ≡ some d
  pub by_hash : find_hash d.content_hash w.documents ≡ some d
  pub without_job : no_job i w.jobs ≡ true

fresh-differs :
    (i j : ℕ) (t : Table) (d : Document) → find_id i t ≡ some d → find_id j t ≡ none → j ≢ i
fresh-differs i j t d p q e =
    absurd (let bad : some d ≡ none = sym p ∙ ap (λ k. find_id k t) (sym e) ∙ q in cc)

module _ (sv : Server) (i : ℕ) (d : Document) where
  with_document-IsLost :
      (call : Call) (w : World) (req : UploadRequest)
      → find_id call.fresh w.documents ≡ none
      → IsLost i d w
      → IsLost i d (with_document sv call w req)
  with_document-IsLost call w req f l =
      let other = fresh-differs i call.fresh w.documents d l.there f in
      record {
        there = find_id-snoc_some i w.documents (row_for sv call w req) d l.there;
        by_hash =
            find_hash-snoc_some d.content_hash w.documents (row_for sv call w req) d l.by_hash;
        without_job =
            no_job-append i w.jobs (replicate call.delivery.copies (message_for sv call w req))
              l.without_job
              (no_job-replicate i call.delivery.copies (message_for sv call w req) other other);
      }

  Uploaded-IsLost :
      (call : Call) (w : World) (u : Bytes ⊎ UploadRequest) (x : World × Reply UploadResponse)
      → Uploaded sv call w u x
      → find_id call.fresh w.documents ≡ none
      → IsLost i d w
      → IsLost i d x.0
  Uploaded-IsLost call w u x (bad_request e) f l = l
  Uploaded-IsLost call w u x (not_stored req why) f l = l
  Uploaded-IsLost call w u x (duplicate req e h) f l = l
  Uploaded-IsLost call w u x (queued req h a) f l = with_document-IsLost call w req f l
  Uploaded-IsLost call w u x (not_queued req h a) f l = with_document-IsLost call w req f l

  Uploads-IsLost : (w v : World) → Uploads sv w v → IsLost i d w → IsLost i d v
  Uploads-IsLost w v (no_more _) l = l
  Uploads-IsLost w v (upload call r _ _ f more) l =
      Uploads-IsLost (upload_document sv call r w).0 v more (
        Uploaded-IsLost call w (read_upload sv r) (upload_document sv call r w)
          (upload_document-Uploaded sv call r w) f l)

-- Status 503 means that the document is new and is in the corpus.
failed_publish :
    (sv : Server) (call : Call) (w : World) (req : UploadRequest) (u : Bytes ⊎ UploadRequest)
    (x : World × Reply UploadResponse)
    → Uploaded sv call w u x
    → u ≡ inr req
    → status_of x.1 ≡ 503
    → (x.0 ≡ with_document sv call w req)
      × (find_hash (sv.hex_digest req.content) w.documents ≡ none)
failed_publish sv call w req u x (bad_request e) p q = absurd (omega (arith, q))
failed_publish sv call w req u x (not_stored other why) p q = absurd (omega (arith, q))
failed_publish sv call w req u x (duplicate other e h) p q = absurd (omega (arith, q))
failed_publish sv call w req u x (queued other h a) p q = absurd (omega (arith, q))
failed_publish sv call w req u x (not_queued other h a) p q =
    let same : other ≡ req = cc in
    (
      ap (with_document sv call w) same,
      ap (λ k. find_hash (sv.hex_digest k.content) w.documents) (sym same) ∙ h,
    )

with_new-IsLost :
    (sv : Server) (call : Call) (w : World) (req : UploadRequest)
    → find_id call.fresh w.documents ≡ none
    → find_hash (sv.hex_digest req.content) w.documents ≡ none
    → no_job call.fresh w.jobs ≡ true
    → call.delivery.copies ≡ 0
    → IsLost call.fresh (row_for sv call w req).doc (with_document sv call w req)
with_new-IsLost sv call w req f h n z =
    let row = row_for sv call w req in
    record {
      there = find_id-snoc call.fresh w.documents row f refl;
      by_hash =
          find_hash-snoc (sv.hex_digest req.content) w.documents row h
          ∙ ap (λ b. if b then some row.doc else none) (bytes_eq_refl (sv.hex_digest req.content));
      without_job =
          ap (λ k. no_job call.fresh (w.jobs ++ replicate k (message_for sv call w req))) z
          ∙ ap (no_job call.fresh) (append-nil w.jobs)
          ∙ n;
    }

store_upload-duplicate :
    (sv : Server) (call : Call) (v : World) (req : UploadRequest) (d : Document)
    → call.insert_up ≡ true
    → call.select_up ≡ true
    → find_hash (sv.hex_digest req.content) v.documents ≡ some d
    → store_upload sv call (inr req) v ≡ (v, write_json 200 (response_for sv true d))
unfolding store_upload create_document insert_document behind_create
store_upload-duplicate sv call v req d p q h = simp (p, q, h)

-- A document whose job was not written, in answer 503, is never ingested through the interface:
-- behind any further uploads no job is about it, and the same content, uploaded again, gets 200 with
-- the document that is still pending and changes nothing, so no job is written then either. The
-- database is up at the second upload, and new identifiers are new.
pub lost_job-never_sent :
    (sv : Server) (w v : World) (call second : Call) (r s : HttpRequest) (req again : UploadRequest)
    → read_upload sv r ≡ inr req
    → read_upload sv s ≡ inr again
    → again.content ≡ req.content
    → find_id call.fresh w.documents ≡ none
    → no_job call.fresh w.jobs ≡ true
    → call.delivery.copies ≡ 0
    → status_of (upload_document sv call r w).1 ≡ 503
    → Uploads sv (upload_document sv call r w).0 v
    → second.insert_up ≡ true
    → second.select_up ≡ true
    → (upload_document sv second s v
        ≡ (v, write_json 200 (response_for sv true (row_for sv call w req).doc)))
      × (no_job call.fresh v.jobs ≡ true)
lost_job-never_sent sv w v call second r s req again a b same f n z failed run p q =
    let (after, new) =
      failed_publish sv call w req (read_upload sv r) (upload_document sv call r w)
        (upload_document-Uploaded sv call r w) a failed in
    let d = (row_for sv call w req).doc in
    let lost =
      Uploads-IsLost sv call.fresh d (upload_document sv call r w).0 v run
        (rw after (with_new-IsLost sv call w req f new n z)) in
    let found = ap (λ c. find_hash (sv.hex_digest c) v.documents) same ∙ lost.by_hash in
    (
      unfold upload_document in
          ap (λ u. store_upload sv second u v) b
          ∙ store_upload-duplicate sv second v again d p q found,
      lost.without_job,
    )
