-- ===== src/Api/Upload/Jobs.antt =====
-- The documents and the jobs behind any sequence of uploads.
use ragline.Base.{ℕ, zero, suc, ◌≡◌, refl, none, some, List, [], ◌∷◌, ◌++◌, Bytes, replicate, ◌⊎◌}
use ragline.Store.Documents.{Document, Row, Table, find_hash, find_id}
use ragline.Store.Documents.Corpus.{IsCorpus, IsCorpus-snoc}
use ragline.Queue.{Message}
use ragline.Api.{Reply}
use ragline.Api.Upload.{
  UploadRequest, UploadResponse, Server, Call, World, read_upload, upload_document,
}
use ragline.Api.Upload.Answers.{
  Uploaded, bad_request, not_stored, duplicate, queued, not_queued, row_for, message_for,
  with_document, upload_document-Uploaded,
}
use ragline.Api.Upload.Lost.{Uploads, no_more, upload, find_id-snoc, find_id-snoc_some}

-- A job whose key is the identifier of its document, which is stored with the job's title and origin.
pub record IsJobOf (t : Table) (m : Message) : Type 0 where
  pub keyed : m.key ≡ m.value.document_id
  pub document : Document
  pub there : find_id m.key t ≡ some document
  pub title : m.value.title ≡ document.title
  pub source_uri : m.value.source_uri ≡ document.source_uri

abbrev pub AllJobs : Table → List Message → Type 0
AllJobs t [] = Unit
AllJobs t (m ∷ ms) = IsJobOf t m × AllJobs t ms

-- A table without two rows of one content or one identifier, and jobs of its documents only.
pub record IsServed (w : World) : Type 0 where
  pub corpus : IsCorpus w.documents
  pub jobs : AllJobs w.documents w.jobs

AllJobs-snoc : (t : Table) (r : Row) (ms : List Message) → AllJobs t ms → AllJobs (t ++ r ∷ []) ms
AllJobs-snoc t r [] j = tt
AllJobs-snoc t r (m ∷ ms) (j, js) = (
  record {
    keyed = j.keyed;
    document = j.document;
    there = find_id-snoc_some m.key t r j.document j.there;
    title = j.title;
    source_uri = j.source_uri;
  },
  AllJobs-snoc t r ms js,
)

AllJobs-append :
    (t : Table) (ms ns : List Message) → AllJobs t ms → AllJobs t ns → AllJobs t (ms ++ ns)
AllJobs-append t [] ns j k = k
AllJobs-append t (m ∷ ms) ns (j, js) k = (j, AllJobs-append t ms ns js k)

AllJobs-replicate : (t : Table) (n : ℕ) (m : Message) → IsJobOf t m → AllJobs t (replicate n m)
AllJobs-replicate t zero m j = tt
AllJobs-replicate t (suc n) m j = (j, AllJobs-replicate t n m j)

module _ (sv : Server) where
  with_document-IsServed :
      (call : Call) (w : World) (req : UploadRequest)
      → find_hash (sv.hex_digest req.content) w.documents ≡ none
      → find_id call.fresh w.documents ≡ none
      → IsServed w
      → IsServed (with_document sv call w req)
  with_document-IsServed call w req h f s =
      let row = row_for sv call w req in
      record {
        corpus = IsCorpus-snoc row w.documents h f s.corpus;
        jobs =
            AllJobs-append (w.documents ++ row ∷ []) w.jobs
              (replicate call.delivery.copies (message_for sv call w req))
              (AllJobs-snoc w.documents row w.jobs s.jobs)
              (AllJobs-replicate (w.documents ++ row ∷ []) call.delivery.copies
                (message_for sv call w req)
                (record {
                  keyed = refl;
                  document = row.doc;
                  there = find_id-snoc call.fresh w.documents row f refl;
                  title = refl;
                  source_uri = refl;
                }));
      }

  Uploaded-IsServed :
      (call : Call) (w : World) (u : Bytes ⊎ UploadRequest) (x : World × Reply UploadResponse)
      → Uploaded sv call w u x
      → find_id call.fresh w.documents ≡ none
      → IsServed w
      → IsServed x.0
  Uploaded-IsServed call w u x (bad_request e) f s = s
  Uploaded-IsServed call w u x (not_stored req why) f s = s
  Uploaded-IsServed call w u x (duplicate req e h) f s = s
  Uploaded-IsServed call w u x (queued req h a) f s = with_document-IsServed call w req h f s
  Uploaded-IsServed call w u x (not_queued req h a) f s = with_document-IsServed call w req h f s

-- Behind any sequence of uploads whose identifiers are new, no two documents have the same content
-- hash or the same identifier, and every job in the topic has the key, the title and the origin of
-- a document that is stored, if that was so before.
pub Uploads-IsServed : (sv : Server) (w v : World) → Uploads sv w v → IsServed w → IsServed v
Uploads-IsServed sv w v (no_more _) s = s
Uploads-IsServed sv w v (upload call r _ _ f more) s =
    Uploads-IsServed sv (upload_document sv call r w).0 v more (
      Uploaded-IsServed sv call w (read_upload sv r) (upload_document sv call r w)
        (upload_document-Uploaded sv call r w) f s)
