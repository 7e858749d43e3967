-- ===== src/Store/Tests.antt =====
-- Small tables and result lists, and the theorems at them.
use ragline.Base.{ℕ, map, ◌≡◌, refl, true, List, [], ◌∷◌, none, some, Bytes, codes, pos, arith}
use ragline.Chat.Types.{Message, Role}
use ragline.Chat.Steps.{last_messages}
use ragline.Store.Whole.{whole}
use ragline.Store.Documents.{Document, Table, Status, create_document, fresh_row, find_id}
use ragline.Store.Documents.Corpus.{Refines, create_new, stored, view, create_document-Refines}
use ragline.Store.Conversations.{Tables, MessageRow, history}
use ragline.Store.Conversations.Last.{messages_of, Rising, history-last_messages}
use ragline.Store.{Chunk}
use ragline.Store.Passages.{Passage, Corpus, neighbours}
use ragline.Store.Passages.Around.{RisesFrom, count_id, count_around, neighbours-around}
use ragline.Store.Fusion.{Scored, hybrid_search, is_among, scored_ids}
use ragline.Store.Fusion.Keywords.{keyword_search, keyword_search-hybrid}
use ragline.Store.Fusion.Agreed.{agreed_first, hybrid_search-agreed_first}

abbrev notes : Document
notes = record {
  id = 0;
  source_uri = [];
  title = codes "Notes";
  content_hash = codes "ab";
  content_type = codes "text/markdown";
  byte_size = 3;
  status = Status.pending;
  chunk_count = 0;
  attempts = 0;
  last_error = [];
  created_at = 0;
  ingested_at = none;
}

abbrev one_row : Table
one_row = fresh_row 4 10 (record notes { content_hash = codes "cd" }) (codes "old") ∷ []

create_document-Refines_example :
    Refines
      (create_new (stored 5 11 notes (codes "new")) (view one_row))
      (create_document true true 5 11 notes (codes "new") one_row)
unfolding find_id
create_document-Refines_example =
    create_document-Refines one_row 5 11 notes (codes "new") (tt, tt) refl

abbrev say : Role → Bytes → Message
say r s = record { role = r; content = s; citations = 2 ∷ [] }

abbrev three_rows : List MessageRow
three_rows =
    record { id = 1; conversation_id = 7; message = say Role.user (codes "a") }
    ∷ record { id = 2; conversation_id = 8; message = say Role.user (codes "b") }
    ∷ record { id = 4; conversation_id = 7; message = say Role.assistant (codes "c") }
    ∷ []

abbrev tables : Tables
tables = record {
  conversations =
      record { id = 7; client_id = codes "m"; updated_at = 1 }
      ∷ record { id = 8; client_id = codes "n"; updated_at = 1 }
      ∷ [];
  messages = three_rows;
  next_id = 5;
}

three_rows-Rising : Rising three_rows
three_rows-Rising = ((omega arith, (omega arith, tt)), ((omega arith, tt), (tt, tt)))

history-last_messages_example :
    history true 7 (pos 1) tables ≡ some (last_messages (pos 1) (messages_of 7 three_rows))
history-last_messages_example = history-last_messages 7 1 tables three_rows-Rising

abbrev matches : List (Scored ℕ)
matches = record { id = 5; score = 3 } ∷ record { id = 9; score = 8 } ∷ []

hybrid_search-agreed_first_example :
    agreed_first (hybrid_search whole 30 30 60 12 (3 ∷ 4 ∷ 5 ∷ []) matches) ≡ true
hybrid_search-agreed_first_example =
    hybrid_search-agreed_first whole 30 30 60 12 (3 ∷ 4 ∷ 5 ∷ []) matches (omega arith)
      (omega arith)

keyword_search-hybrid_example :
    hybrid_search whole 30 30 60 12 [] matches ≡ keyword_search whole 12 matches
unfolding is_among scored_ids
keyword_search-hybrid_example =
    keyword_search-hybrid whole 30 30 60 12 matches (omega arith) (refl, (refl, tt))

-- The better score comes first.
keyword_run : map (λ e. e.id) (keyword_search whole 12 matches) ≡ 9 ∷ 5 ∷ []
unfolding keyword_search
keyword_run = refl

abbrev passage : ℕ → ℕ → Passage
passage i n = record { id = i; document_id = 1; ordinal = n; heading = []; content = codes "keys" }

abbrev four_passages : Corpus
four_passages = record {
  documents = record { doc = record notes { id = 1 }; raw_content = [] } ∷ [];
  passages = passage 15 4 ∷ passage 13 2 ∷ passage 12 1 ∷ passage 11 0 ∷ [];
}

neighbours-around_example :
    (out : List (Chunk ℕ)) × (neighbours true 0 1 1 1 four_passages ≡ some out)
    × RisesFrom 0 out
    × ((k : ℕ) → count_id k out ≡ count_around 1 1 1 k four_passages.passages)
unfolding find_id
neighbours-around_example = neighbours-around 0 1 1 1 four_passages refl
