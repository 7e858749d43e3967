-- ===== src/Store/Documents.antt =====
-- internal/store/store.go: the table of documents, with `CreateDocument`, `Document`,
-- `ListDocuments` and the counts of `CorpusStats`. A table is its rows in the order of insertion; an
-- identifier is a number, and `uuid.Nil` is 0. A Boolean `..._up` says whether a statement runs.
pub mod Corpus
use ragline.Base.{
  ℕ, suc, ◌+◌, Bool, true, false, ◌||◌, List, [], ◌∷◌, ◌++◌, Option, none, some, Bytes, bytes_eq,
  ltb, leb, ◌==◌, if◌then◌else◌, ℤ, pos, negsuc, take,
}

-- `StatusPending`, `StatusChunking`, `StatusReady`, `StatusFailed`
pub data Status : Type 0 where
  pending chunking ready failed : Status

-- `Document`
pub record Document : Type 0 where
  pub id : ℕ
  pub source_uri : Bytes
  pub title : Bytes
  pub content_hash : Bytes
  pub content_type : Bytes
  pub byte_size : ℕ
  pub status : Status
  pub chunk_count : ℕ
  pub attempts : ℕ
  pub last_error : Bytes
  pub created_at : ℕ
  pub ingested_at : Option ℕ

-- A row: what `docCols` names, and the raw text.
pub record Row : Type 0 where
  pub doc : Document
  pub raw_content : Bytes

abbrev pub Table : Type 0
Table = List Row

-- `WHERE content_hash = $1` and `WHERE id = $1`; both columns are unique. `none` is `ErrNotFound`.
unfoldable pub find_hash : Bytes → Table → Option Document
unfolding bytes_eq
find_hash h [] = none
find_hash h (r ∷ rs) = if bytes_eq r.doc.content_hash h then some r.doc else find_hash h rs

unfoldable pub find_id : ℕ → Table → Option Document
find_id i [] = none
find_id i (r ∷ rs) = if r.doc.id == i then some r.doc else find_id i rs

-- The row that the statement writes: the columns that it does not name have their defaults.
abbrev pub fresh_row : ℕ → ℕ → Document → Bytes → Row
fresh_row id now d raw = record {
  doc = record d {
    id = id;
    status = pending;
    chunk_count = 0;
    attempts = 0;
    last_error = [];
    created_at = now;
    ingested_at = none;
  };
  raw_content = raw;
}

-- What the `INSERT` comes to: the row that it returns, no row, or an error.
pub data Inserted : Type 0 where
  returned : Document → Inserted
  no_row insert_error : Inserted

abbrev pub insert_unless : Option Document → Option Document → Row → Table → Table × Inserted
insert_unless (some e) same_id r t = (t, no_row)
insert_unless none (some e) r t = (t, insert_error)
insert_unless none none r t = (t ++ r ∷ [], returned r.doc)

-- `INSERT ... ON CONFLICT (content_hash) DO NOTHING RETURNING ...`: one hash, one row; a second row
-- with one identifier is an error.
unfoldable pub insert_document : Row → Table → Table × Inserted
unfolding find_hash find_id
insert_document r t = insert_unless (find_hash r.doc.content_hash t) (find_id r.doc.id t) r t

-- The results of `CreateDocument`: a new document, one that was there, or an error.
pub data Created : Type 0 where
  created existing : Document → Created
  create_error : Created

abbrev pub found_existing : Option Document → Created
found_existing none = create_error
found_existing (some e) = existing e

-- Behind the `INSERT`: no row means that the bytes are already in the corpus.
abbrev pub behind_insert : Bool → Bytes → Table × Inserted → Table × Created
behind_insert select_up hash (t, returned d) = (t, created d)
behind_insert select_up hash (t, insert_error) = (t, create_error)
behind_insert select_up hash (t, no_row) =
    (t, if select_up then found_existing (find_hash hash t) else create_error)

-- `CreateDocument`, with the identifier that `uuid.New` would give.
unfoldable pub create_document : Bool → Bool → ℕ → ℕ → Document → Bytes → Table → Table × Created
unfolding insert_document
create_document insert_up select_up fresh now d raw t =
    let id = if d.id == 0 then fresh else d.id in
    if insert_up
    then behind_insert select_up d.content_hash (insert_document (fresh_row id now d raw) t)
    else (t, create_error)

-- `ListDocuments`: the newest first.
unfoldable pub list_limit : ℤ → ℕ
list_limit (negsuc n) = 100
list_limit (pos n) = if n == 0 || ltb 500 n then 100 else n

unfoldable pub insert_newest : Document → List Document → List Document
insert_newest d [] = d ∷ []
insert_newest d (e ∷ es) =
    if leb e.created_at d.created_at then d ∷ e ∷ es else e ∷ insert_newest d es

unfoldable pub newest_first : Table → List Document → List Document
unfolding insert_newest
newest_first [] out = out
newest_first (r ∷ rs) out = newest_first rs (insert_newest r.doc out)

unfoldable pub list_documents : ℤ → Table → List Document
unfolding list_limit newest_first
list_documents limit t = take (list_limit limit) (newest_first t [])

-- The counts of `CorpusStats`; the chunks are counted in their own table.
abbrev pub is_ready : Status → Bool
is_ready ready = true
is_ready _ = false

unfoldable pub count_ready : Table → ℕ
count_ready [] = 0
count_ready (r ∷ rs) = (if is_ready r.doc.status then 1 else 0) + count_ready rs

abbrev pub latest_of : Option ℕ → Option ℕ → Option ℕ
latest_of none best = best
latest_of (some t) none = some t
latest_of (some t) (some best) = some (if ltb best t then t else best)

-- `max(ingested_at)`; `none` is NULL, of which `CorpusStats` makes the zero time.
unfoldable pub last_ingest_of : Table → Option ℕ
last_ingest_of [] = none
last_ingest_of (r ∷ rs) = latest_of r.doc.ingested_at (last_ingest_of rs)
