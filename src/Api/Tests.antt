-- ===== src/Api/Tests.antt =====
-- Uploads and a question over a small server, and the theorems at them.
use ragline.Base.{
  ℕ, ◌≡◌, refl, Bool, true, false, [], ◌∷◌, Option, none, some, Bytes, codes, bytes_eq, inl, inr,
  pos,
}
use ragline.Store.Documents.{find_id}
use ragline.Api.{write_json}
use ragline.Api.Heading.{first_heading, path_base}
use ragline.Api.Upload.{
  UploadRequest, HttpRequest, Server, Call, World, read_upload, response_for, upload_document,
}
use ragline.Api.Upload.Answers.{Uploaded, row_for, upload_document-Uploaded}
use ragline.Api.Upload.Lost.{Uploads, no_more, upload, no_job, lost_job-never_sent}
use ragline.Api.Upload.Jobs.{IsServed, Uploads-IsServed}
use ragline.Chat.Sample.{fresh}
use ragline.Api.Ask
use ragline.Api.Ask.{client_id}
use ragline.Api.Reads.{get_document}
use ragline.Api.Reads.Stored.{Readable, upload_document-Readable}

abbrev heading_run_text : Bytes
heading_run_text = codes " intro\n# Title "

base_run : path_base (codes "docs/keys.md/") ≡ codes "keys.md"
unfolding path_base
base_run = refl

heading_run : first_heading (codes "## Key rotation\ntext") ≡ codes "Key rotation"
unfolding first_heading
heading_run = refl

abbrev read_id : Bytes → Option ℕ
read_id [] = none
read_id (c ∷ s) = some c

abbrev server : Server
server = record {
  ingest_topic = codes "ingest";
  hex_digest = λ s. s;
  decode = λ s. inl (codes "no");
  uuid_text = λ i. i ∷ [];
}

abbrev call_with : ℕ → ℕ → Bool → Call
call_with i n ok = record {
  insert_up = true;
  select_up = true;
  fresh = i;
  now = 9;
  delivery = record { copies = n; acknowledged = ok };
}

abbrev post : Bytes → HttpRequest
post s = record { body = s; breaks = false; content_type = []; x_title = []; x_source_uri = [] }

abbrev nothing : World
nothing = record { documents = []; jobs = [] }

abbrev keys_request : UploadRequest
keys_request = record { source_uri = []; title = codes "keys"; content = codes "keys" }

abbrev others : World
others = (upload_document server (call_with 4 1 true) (post (codes "other")) nothing).0

upload_document-Uploaded_example :
    Uploaded server
      (call_with 5 1 true)
      others
      (read_upload server (post (codes " keys ")))
      (upload_document server (call_with 5 1 true) (post (codes " keys ")) others)
upload_document-Uploaded_example =
    upload_document-Uploaded server (call_with 5 1 true) (post (codes " keys ")) others

-- Two documents are uploaded, the second one twice.
abbrev both : World
both = (upload_document server (call_with 5 1 true) (post (codes "keys")) others).0

abbrev third : World
third = (upload_document server (call_with 6 1 true) (post (codes "keys")) both).0

three-Uploads : Uploads server nothing third
unfolding upload_document find_id bytes_eq
three-Uploads = upload (call_with 4 1 true) (post (codes "other")) nothing third refl (
    upload (call_with 5 1 true) (post (codes "keys")) others third refl
      (upload (call_with 6 1 true) (post (codes "keys")) both third refl (no_more third)))

Uploads-IsServed_example : IsServed third
Uploads-IsServed_example =
    Uploads-IsServed server nothing third three-Uploads (record { corpus = tt; jobs = tt })

-- The document's job was not written.
abbrev lost : World
lost = (upload_document server (call_with 5 0 false) (post (codes "keys")) others).0

lost_job-never_sent_example :
    (upload_document server (call_with 6 1 true) (post (codes " keys")) lost ≡ (
      lost,
      write_json 200
          (response_for server true (row_for server (call_with 5 0 false) others keys_request).doc),
    ))
    × (no_job 5 lost.jobs ≡ true)
unfolding upload_document find_id no_job first_heading
lost_job-never_sent_example =
    lost_job-never_sent server others lost (call_with 5 0 false) (call_with 6 1 true)
      (post (codes "keys")) (post (codes " keys")) keys_request keys_request
      (unfold read_upload in refl) (unfold read_upload in refl) refl refl refl refl refl
      (no_more lost) refl refl

upload_document-Readable_example : Readable server keys_request 5 (
    get_document read_id true
      (codes "down")
      (5 ∷ [])
      (upload_document server (call_with 5 1 true) (post (codes "keys")) others).0.documents)
unfolding upload_document find_id bytes_eq first_heading
upload_document-Readable_example =
    upload_document-Readable read_id server (call_with 5 1 true) (post (codes "keys")) others
      keys_request (codes "down") 5 (unfold read_upload in refl) refl refl (tt, tt) refl

abbrev chat_server : Ask.Server
chat_server = record {
  decode_chat = λ s. inr (record {
    question = codes " Rotate keys? ";
    conversation_id = [];
    no_cache = false;
    top_n = pos 0;
    include_source_text = false;
    stream = none;
  });
  decode_search = λ s. none;
  parse_uuid = read_id;
  split_host_port = λ a. none;
  error_text = λ e. codes "failed";
}

abbrev chat_call : Ask.Call
chat_call = record {
  ensure_up = true;
  fresh = 1;
  now = 2;
  is_cancelled = λ e. false;
  error_event_fails = false;
}

abbrev chat_request : Ask.HttpRequest
chat_request = record {
  body = codes "{}";
  x_client_id = [];
  x_forwarded_for = codes "10.0.0.1, 10.0.0.2";
  remote_addr = codes "10.0.0.2:80";
  flushes = true;
}

abbrev chat_world : Ask.World ℕ
chat_world = record {
  tables = record { conversations = []; messages = []; next_id = 1 };
  chat = fresh;
}

-- The first hop is the client.
client_run : client_id chat_server chat_request ≡ codes "10.0.0.1"
unfolding client_id
client_run = refl
