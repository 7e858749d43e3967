-- ===== src/Api/Upload.antt =====
-- internal/api/server.go: `uploadDocument`, with the table of documents and the topic of jobs that it
-- changes. The digest, the reader of JSON and the text of an identifier are arguments.
pub mod Answers
pub mod Jobs
pub mod Lost
use ragline.Base.{
  ℕ, Bool, none, true, false, not, ◌&&◌, List, [], ◌∷◌, ◌++◌, Bytes, codes, ltb, length, take,
  has_prefix, trim_space, ◌⊎◌, inl, inr, if◌then◌else◌,
}
use ragline.Store.Documents.{
  Status, Document, Table, Created, created, existing, create_error, create_document, pending,
}
use ragline.Queue.{IngestJob, Message, Delivery, publish}
use ragline.Api.{Reply, write_error, write_json}
use ragline.Api.Heading.{first_heading, path_base, is_blank}

-- `uploadRequest`
pub record UploadRequest : Type 0 where
  pub source_uri : Bytes
  pub title : Bytes
  pub content : Bytes

-- `uploadResponse`
pub record UploadResponse : Type 0 where
  pub document_id : ℕ
  pub status : Status
  pub duplicate : Bool
  pub status_url : Bytes

-- The request: the bytes of its body, whether reading fails behind them, and the headers.
pub record HttpRequest : Type 0 where
  pub body : Bytes
  pub breaks : Bool
  pub content_type : Bytes
  pub x_title : Bytes
  pub x_source_uri : Bytes

-- What the handler calls outside the repository. `decode` is `json.Unmarshal`, with the error's text.
pub record Server : Type 0 where
  pub ingest_topic : Bytes
  pub hex_digest : Bytes → Bytes
  pub decode : Bytes → Bytes ⊎ UploadRequest
  pub uuid_text : ℕ → Bytes

-- What is given at one call: which statements run, the new identifier, the time, and what the broker
-- makes of the job.
pub record Call : Type 0 where
  pub insert_up : Bool
  pub select_up : Bool
  pub fresh : ℕ
  pub now : ℕ
  pub delivery : Delivery

-- The tables and topics behind the handler.
pub record World : Type 0 where
  pub documents : Table
  pub jobs : List Message

abbrev pub max_upload : ℕ
max_upload = 8388608

-- `io.ReadAll(io.LimitReader(r.Body, n))`: reading stops at `n` bytes.
abbrev pub read_limited : ℕ → Bytes → Bool → Bytes ⊎ Bytes
read_limited n body breaks =
    if breaks && ltb (length body) n then inl (codes "unreadable body") else inr (take n body)

module _ (sv : Server) where
  abbrev pub decoded : Bytes ⊎ UploadRequest → Bytes ⊎ UploadRequest
  decoded (inl e) = inl (codes "malformed JSON: " ++ e)
  decoded (inr req) = inr req

  -- The body as a request: JSON, or the text itself with its headers.
  unfoldable pub parse_body : HttpRequest → Bytes ⊎ Bytes → Bytes ⊎ UploadRequest
  unfolding has_prefix
  parse_body r (inl e) = inl e
  parse_body r (inr body) =
      if has_prefix r.content_type (codes "application/json")
      then decoded (sv.decode body)
      else inr (record { source_uri = r.x_source_uri; title = r.x_title; content = body })

  abbrev pub title_or_content : Bytes → Bytes → Bytes
  title_or_content [] content = first_heading content
  title_or_content (c ∷ s) content = path_base (c ∷ s)

  abbrev pub title_for : Bytes → Bytes → Bytes → Bytes
  title_for [] source_uri content = title_or_content source_uri content
  title_for (c ∷ s) source_uri content = c ∷ s

  -- The content without its outer space, which must not be empty, and a title.
  unfoldable pub complete_request : Bytes ⊎ UploadRequest → Bytes ⊎ UploadRequest
  unfolding trim_space
  complete_request (inl e) = inl e
  complete_request (inr req) =
      let content = trim_space req.content in
      if is_blank content
      then inl (codes "content is empty")
      else inr (record {
        source_uri = req.source_uri;
        title = title_for req.title req.source_uri content;
        content = content;
      })

  -- The request that the body comes to, or the text of the error that goes with status 400.
  unfoldable pub read_upload : HttpRequest → Bytes ⊎ UploadRequest
  unfolding parse_body complete_request
  read_upload r = complete_request (parse_body r (read_limited max_upload r.body r.breaks))

  -- The document that is handed to `CreateDocument`.
  abbrev pub new_document : UploadRequest → Document
  new_document req = record {
    id = 0;
    source_uri = req.source_uri;
    title = req.title;
    content_hash = sv.hex_digest req.content;
    content_type = codes "text/markdown";
    byte_size = length req.content;
    status = pending;
    chunk_count = 0;
    attempts = 0;
    last_error = [];
    created_at = 0;
    ingested_at = none;
  }

  abbrev pub job_for : ℕ → Document → IngestJob
  job_for now d = record {
    document_id = d.id;
    source_uri = d.source_uri;
    title = d.title;
    attempt = 1;
    enqueued_at = now;
  }

  abbrev pub response_for : Bool → Document → UploadResponse
  response_for duplicate d = record {
    document_id = d.id;
    status = d.status;
    duplicate = duplicate;
    status_url = codes "/v1/documents/" ++ sv.uuid_text d.id;
  }

  -- Behind `CreateDocument`.
  unfoldable pub behind_create :
      Call → List Message → Table × Created → World × Reply UploadResponse
  unfolding publish
  behind_create call jobs (t, create_error) =
      (record { documents = t; jobs = jobs }, write_error 500 (codes "could not store document"))
  behind_create call jobs (t, existing d) =
      (record { documents = t; jobs = jobs }, write_json 200 (response_for true d))
  behind_create call jobs (t, created d) =
      let (jobs', sent) = publish call.delivery sv.ingest_topic (job_for call.now d) jobs in
      (
        record { documents = t; jobs = jobs' },
        if sent
            then write_json 202 (response_for false d)
            else write_error 503 (codes "document stored but could not be queued for ingestion"),
      )

  unfoldable pub store_upload : Call → Bytes ⊎ UploadRequest → World → World × Reply UploadResponse
  unfolding create_document behind_create
  store_upload call (inl e) w = (w, write_error 400 e)
  store_upload call (inr req) w = behind_create call w.jobs (
      create_document call.insert_up call.select_up call.fresh call.now (new_document req)
        req.content w.documents)

  -- `uploadDocument`
  unfoldable pub upload_document : Call → HttpRequest → World → World × Reply UploadResponse
  unfolding read_upload store_upload
  upload_document call r w = store_upload call (read_upload r) w
