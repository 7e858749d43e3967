-- ===== src/Api/Upload/Answers.antt =====
-- What an upload changes, by the answer that it gets.
use ragline.Base.{
  ◌≡◌, refl, Bool, true, false, Option, none, some, [], ◌∷◌, ◌++◌, Bytes, codes, replicate, ◌⊎◌,
  inl, inr, if◌then◌else◌, Bool-cases,
}
use ragline.Store.Documents.{
  Document, Row, find_hash, find_id, fresh_row, insert_document, insert_unless, behind_insert,
  create_document, Created,
}
use ragline.Queue.{Message, publish}
use ragline.Api.{Reply, write_error, write_json}
use ragline.Api.Upload.{
  UploadRequest, UploadResponse, HttpRequest, Server, Call, World, read_upload, new_document,
  job_for, response_for, behind_create, store_upload, upload_document,
}

module _ (sv : Server) (call : Call) (w : World) where
  abbrev pub row_for : UploadRequest → Row
  row_for req = fresh_row call.fresh call.now (new_document sv req) req.content

  abbrev pub message_for : UploadRequest → Message
  message_for req = record {
    topic = sv.ingest_topic;
    key = call.fresh;
    value = job_for sv call.now (row_for req).doc;
  }

  -- The world with one more document, and with the job as often as the broker wrote it.
  abbrev pub with_document : UploadRequest → World
  with_document req = record {
    documents = w.documents ++ row_for req ∷ [];
    jobs = w.jobs ++ replicate call.delivery.copies (message_for req);
  }

  abbrev pub found : UploadRequest → Option Document
  found req = find_hash (sv.hex_digest req.content) w.documents

  -- Why a document is not stored: a statement that fails, or an identifier that is taken.
  pub data Unstored (req : UploadRequest) : Type 0 where
    insert_down : call.insert_up ≡ false → Unstored req
    select_down : (d : Document) → found req ≡ some d → call.select_up ≡ false → Unstored req
    taken : (d : Document) → find_id call.fresh w.documents ≡ some d → Unstored req

  pub data Uploaded : Bytes ⊎ UploadRequest → World × Reply UploadResponse → Type 0 where
    bad_request : (e : Bytes) → Uploaded (inl e) (w, write_error 400 e)
    not_stored :
        (req : UploadRequest)
        → Unstored req
        → Uploaded (inr req) (w, write_error 500 (codes "could not store document"))
    duplicate :
        (req : UploadRequest) (d : Document)
        → found req ≡ some d
        → Uploaded (inr req) (w, write_json 200 (response_for sv true d))
    queued :
        (req : UploadRequest)
        → found req ≡ none
        → call.delivery.acknowledged ≡ true
        → Uploaded
            (inr req)
            (with_document req, write_json 202 (response_for sv false (row_for req).doc))
    not_queued :
        (req : UploadRequest)
        → found req ≡ none
        → call.delivery.acknowledged ≡ false
        → Uploaded (inr req) (
          with_document req,
          write_error 503 (codes "document stored but could not be queued for ingestion"),
        )

  published-Uploaded :
      (req : UploadRequest) (b : Bool)
      → call.delivery.acknowledged ≡ b
      → found req ≡ none
      → Uploaded (inr req) (
          behind_create sv call w.jobs
            (w.documents ++ row_for req ∷ [], Created.created (row_for req).doc))
  unfolding behind_create publish
  published-Uploaded req true h e = rw h (queued req e refl)
  published-Uploaded req false h e = rw h (not_queued req e refl)

  inserted-Uploaded :
      (req : UploadRequest) (o same_id : Option Document)
      → found req ≡ o
      → find_id call.fresh w.documents ≡ same_id
      → Uploaded (inr req) (
          behind_create sv call w.jobs (
            behind_insert call.select_up
              (sv.hex_digest req.content)
              (insert_unless o same_id (row_for req) w.documents)))
  inserted-Uploaded req (some d) o e f = elim (Bool-cases call.select_up) [
    | inl up ↦ rw (up, e) (unfold behind_create in duplicate req d e)
    | inr down ↦ rw down (unfold behind_create in not_stored req (select_down d e refl))
  ]
  inserted-Uploaded req none none e f = published-Uploaded req call.delivery.acknowledged refl e
  inserted-Uploaded req none (some d) e f = unfold behind_create in not_stored req (taken d f)

  ran-Uploaded :
      (req : UploadRequest) (b : Bool)
      → call.insert_up ≡ b
      → Uploaded (inr req) (
          behind_create sv call w.jobs (
            if b
            then behind_insert call.select_up
                (sv.hex_digest req.content)
                (insert_document (row_for req) w.documents)
            else (w.documents, Created.create_error)))
  unfolding insert_document
  ran-Uploaded req true h =
      inserted-Uploaded req (found req) (find_id call.fresh w.documents) refl refl
  ran-Uploaded req false h = unfold behind_create in not_stored req (insert_down h)

  stored-Uploaded : (req : UploadRequest) → Uploaded (inr req) (store_upload sv call (inr req) w)
  unfolding store_upload create_document
  stored-Uploaded req = ran-Uploaded req call.insert_up refl

  read-Uploaded : (u : Bytes ⊎ UploadRequest) → Uploaded u (store_upload sv call u w)
  read-Uploaded (inl e) = unfold store_upload in bad_request e
  read-Uploaded (inr req) = stored-Uploaded req

-- The answer to an upload tells what it changed. Status 400, for a body that is not a request, 500,
-- where a statement fails or the identifier is taken, and 200, for content that is in the corpus,
-- change nothing. Status 202 and 503 come with one more document, the first where the broker
-- acknowledged its job and the second where it did not.
pub upload_document-Uploaded :
    (sv : Server) (call : Call) (r : HttpRequest) (w : World)
    → Uploaded sv call w (read_upload sv r) (upload_document sv call r w)
unfolding upload_document
upload_document-Uploaded sv call r w = read-Uploaded sv call w (read_upload sv r)
