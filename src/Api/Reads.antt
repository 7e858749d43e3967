-- ===== src/Api/Reads.antt =====
-- internal/api/server.go: the handlers that only read: `getDocument`, `listDocuments`,
-- `getConversation` and `readyz`. `parse_uuid` and `atoi` are arguments; a Boolean `..._up` says
-- whether a statement runs, and `error_text` is the text of its error.
pub mod Stored
use ragline.Base.{ℕ, Bool, List, Option, none, some, Bytes, codes, length, ℤ, pos, if◌then◌else◌}
use ragline.Store.Documents.{Document, Table, find_id, list_documents, count_ready, last_ingest_of}
use ragline.Store.Conversations.{Tables, history}
use ragline.Chat.Types.{Message}
use ragline.Api.{Reply, write_error, write_json}

-- The document under the identifier in the path.
abbrev pub document_reply : Option Document → Reply Document
document_reply none = write_error 404 (codes "no such document")
document_reply (some d) = write_json 200 d

abbrev pub read_document : Bool → Bytes → Option ℕ → Table → Reply Document
read_document up error_text none t = write_error 400 (codes "invalid document id")
read_document up error_text (some i) t =
    if up then document_reply (find_id i t) else write_error 500 error_text

-- `getDocument`
unfoldable pub get_document : (Bytes → Option ℕ) → Bool → Bytes → Bytes → Table → Reply Document
unfolding find_id
get_document parse_uuid up error_text id t = read_document up error_text (parse_uuid id) t

-- `listDocuments`: the value that `strconv.Atoi` returns for the limit, its error ignored.
unfoldable pub list_handler : Bool → Bytes → ℤ → Table → Reply (List Document × ℕ)
unfolding list_documents
list_handler up error_text limit t =
    let docs = list_documents limit t in
    if up then write_json 200 (docs, length docs) else write_error 500 error_text

-- `getConversation`
abbrev pub history_reply : Bytes → ℕ → Option (List Message) → Reply (ℕ × List Message)
history_reply error_text i none = write_error 500 error_text
history_reply error_text i (some ms) = write_json 200 (i, ms)

abbrev pub read_conversation : Bool → Bytes → Option ℕ → Tables → Reply (ℕ × List Message)
read_conversation up error_text none t = write_error 400 (codes "invalid conversation id")
read_conversation up error_text (some i) t = history_reply error_text i (history up i (pos 200) t)

unfoldable pub get_conversation :
    (Bytes → Option ℕ) → Bool → Bytes → Bytes → Tables → Reply (ℕ × List Message)
unfolding history
get_conversation parse_uuid up error_text id t = read_conversation up error_text (parse_uuid id) t

-- `CorpusStats`; the chunks stand in another table, and `none` is the zero time.
pub record CorpusStats : Type 0 where
  pub documents : ℕ
  pub ready_docs : ℕ
  pub chunks : ℕ
  pub last_ingest : Option ℕ

unfoldable pub corpus_stats : ℕ → Table → CorpusStats
unfolding count_ready last_ingest_of
corpus_stats chunks t = record {
  documents = length t;
  ready_docs = count_ready t;
  chunks = chunks;
  last_ingest = last_ingest_of t;
}

-- What `readyz` says.
pub data Health : Type 0 where
  postgres_down corpus_down : Health
  ready_with : CorpusStats → Health

-- `readyz`: an empty corpus is no error.
unfoldable pub readyz : Bool → Bool → ℕ → Table → ℕ × Health
unfolding corpus_stats
readyz ping_up stats_up chunks t =
    if ping_up
    then if stats_up then (200, ready_with (corpus_stats chunks t)) else (503, corpus_down)
    else (503, postgres_down)
