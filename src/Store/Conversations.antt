-- ===== src/Store/Conversations.antt =====
-- internal/store/store.go: the tables of conversations and messages, with `EnsureConversation`,
-- `AppendMessage` and `History`. The identifier of a message is the next number of its sequence.
pub mod Last
pub mod Appends
use ragline.Base.{
  ℕ, suc, ◌+◌, Bool, true, false, List, [], ◌∷◌, ◌++◌, Option, none, some, Bytes, leb, ◌==◌,
  if◌then◌else◌, ℤ, pos, negsuc, take,
}
use ragline.Chat.Types.{Message, Role}

pub record Conversation : Type 0 where
  pub id : ℕ
  pub client_id : Bytes
  pub updated_at : ℕ

pub record MessageRow : Type 0 where
  pub id : ℕ
  pub conversation_id : ℕ
  pub message : Message

pub record Tables : Type 0 where
  pub conversations : List Conversation
  pub messages : List MessageRow
  pub next_id : ℕ

unfoldable pub has_conversation : ℕ → List Conversation → Bool
has_conversation i [] = false
has_conversation i (c ∷ cs) = if c.id == i then true else has_conversation i cs

-- `ON CONFLICT (id) DO UPDATE SET updated_at = now()`
unfoldable pub touch : ℕ → ℕ → List Conversation → List Conversation
touch i now [] = []
touch i now (c ∷ cs) = (if c.id == i then record c { updated_at = now } else c) ∷ touch i now cs

-- `EnsureConversation`; 0 is `uuid.Nil`, and `fresh` is what `uuid.New` would give.
unfoldable pub ensure_conversation : Bool → ℕ → ℕ → ℕ → Bytes → Tables → Tables × ℕ × Bool
unfolding has_conversation touch
ensure_conversation up fresh now i client t =
    let id = if i == 0 then fresh else i in
    let new : Conversation = record { id = id; client_id = client; updated_at = now } in
    let cs =
      if has_conversation id t.conversations
      then touch id now t.conversations
      else t.conversations ++ new ∷ [] in
    if up then (record t { conversations = cs }, id, true) else (t, id, false)

-- `AppendMessage`: the conversation has to be there.
unfoldable pub append_message : Bool → ℕ → Message → Tables → Tables × Bool
unfolding has_conversation
append_message up i m t =
    let row : MessageRow = record { id = t.next_id; conversation_id = i; message = m } in
    if up
    then (if has_conversation i t.conversations
        then (record t { messages = t.messages ++ row ∷ []; next_id = suc t.next_id }, true)
        else (t, false))
    else (t, false)

-- `WHERE conversation_id = $1`
unfoldable pub of_conversation : ℕ → List MessageRow → List MessageRow
of_conversation i [] = []
of_conversation i (r ∷ rs) =
    if r.conversation_id == i then r ∷ of_conversation i rs else of_conversation i rs

-- `ORDER BY id DESC`, and `ORDER BY id ASC`
unfoldable pub insert_desc : MessageRow → List MessageRow → List MessageRow
insert_desc r [] = r ∷ []
insert_desc r (s ∷ ss) = if leb s.id r.id then r ∷ s ∷ ss else s ∷ insert_desc r ss

unfoldable pub by_id_desc : List MessageRow → List MessageRow
unfolding insert_desc
by_id_desc [] = []
by_id_desc (r ∷ rs) = insert_desc r (by_id_desc rs)

unfoldable pub insert_asc : MessageRow → List MessageRow → List MessageRow
insert_asc r [] = r ∷ []
insert_asc r (s ∷ ss) = if leb r.id s.id then r ∷ s ∷ ss else s ∷ insert_asc r ss

unfoldable pub by_id_asc : List MessageRow → List MessageRow
unfolding insert_asc
by_id_asc [] = []
by_id_asc (r ∷ rs) = insert_asc r (by_id_asc rs)

-- The columns that `History` reads back: no citations.
unfoldable pub read_rows : List MessageRow → List Message
read_rows [] = []
read_rows (r ∷ rs) =
    record { role = r.message.role; content = r.message.content; citations = [] } ∷ read_rows rs

-- The query of `History`.
unfoldable pub history_query : ℕ → ℕ → List MessageRow → List Message
unfolding of_conversation by_id_desc by_id_asc read_rows
history_query i n rows = read_rows (by_id_asc (take n (by_id_desc (of_conversation i rows))))

-- `History`; a negative `LIMIT` is an error.
unfoldable pub history : Bool → ℕ → ℤ → Tables → Option (List Message)
unfolding history_query
history up i (negsuc n) t = none
history up i (pos n) t = if up then some (history_query i n t.messages) else none
