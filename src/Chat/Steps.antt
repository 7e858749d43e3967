-- ===== src/Chat/Steps.antt =====
-- internal/chat/chat.go: what `Service.Answer` is put together from: `embedQuestion`,
-- `corpusVersion`, `hydrateCitations`, `logQuery`, the replay of a cached answer and the refusal;
-- internal/store/store.go: `History`, `AppendMessage` and `LogQuery` as far as `Answer` sees them.
use ragline.Base.{
  ℕ, zero, suc, ◌+◌, ◌-◌, ◌*◌, Bool, true, false, ◌&&◌, List, [], ◌∷◌, ◌++◌, map, Option, none,
  some, Bytes, codes, itoa, bytes_eq, ◌==◌, if◌then◌else◌, ℤ, pos, negsuc, length, drop, get_elem?,
}
use ragline.Cache.{CachedAnswer, embedding_key}
use ragline.Citations.{strip_unknown_markers}
use ragline.Store.{Chunk}
use ragline.Chat.Prompt.{snippet}
use ragline.Chat.Types.{
  Request, Citation, Usage, Event, sources, token, done, Outcome, answered, Message, user,
  assistant, QueryLog, World, CorpusStats, Service,
}

-- The local variables that `Answer` has when retrieval starts.
pub record Turn : Type 0 where
  pub req : Request
  pub question : Bytes
  pub top_n : ℤ
  pub history : List Message
  pub key : Bytes
  pub cacheable : Bool
  pub usage : Usage

abbrev pub is_empty {ℓ} : {A : Type ℓ} → List A → Bool
is_empty [] = true
is_empty (x ∷ xs) = false

-- `Store.History`: the last `n` messages, oldest first; the citations are not read back.
abbrev pub read_back : Message → Message
read_back m = record m { citations = [] }

unfoldable pub last_messages : ℤ → List Message → List Message
last_messages (pos n) ms = map read_back (drop (length ms - n) ms)
last_messages (negsuc n) ms = []

abbrev pub twice : ℤ → ℤ
twice (pos n) = pos (2 * n)
twice (negsuc n) = negsuc (2 * n + 1)

-- A write at a key of a map.
abbrev pub put {ℓ} : {A : Type ℓ} → (Bytes → Option A) → Bytes → A → Bytes → Option A
put m key a k = if bytes_eq k key then some a else m k

-- The text of `LastIngest.Unix()`; the zero time is the first of January of the year 1.
unfoldable pub unix_text : Option ℕ → Bytes
unfolding itoa
unix_text none = codes "-62135596800"
unix_text (some t) = itoa t

-- The text of `fmt.Sprintf("d%d-c%d-%d", ...)`.
unfoldable pub version_of : CorpusStats → Bytes
unfolding itoa unix_text
version_of st =
    b'd'
    ∷ (itoa st.ready_docs ++ (codes "-c" ++ (itoa st.chunks ++ b'-' ∷ unix_text st.last_ingest)))

-- `hydrateCitations`
unfoldable pub hydrate_citations : ℕ → List ℕ → List Citation
hydrate_citations i [] = []
hydrate_citations i (id ∷ ids) =
    record {
      marker = i;
      chunk_id = id;
      document_id = 0;
      title = [];
      source_uri = [];
      heading = [];
      snippet = [];
      content = [];
    }
    ∷ hydrate_citations (suc i) ids

-- `sources[m-1]` for each marker; `none` is the panic of an index out of range.
abbrev pub cons_some : Option Citation → Option (List Citation) → Option (List Citation)
cons_some (some c) (some cs) = some (c ∷ cs)
cons_some _ _ = none

unfoldable pub cited_sources : List Citation → List ℕ → Option (List Citation)
cited_sources cites [] = some []
cited_sources cites (zero ∷ ms) = none
cited_sources cites (suc m ∷ ms) = cons_some (get_elem? cites m) (cited_sources cites ms)

abbrev pub cited_ids : List Citation → List ℕ
cited_ids [] = []
cited_ids (c ∷ cs) = c.chunk_id ∷ cited_ids cs

module _ {F : Type 0} where
  -- The loop that builds `sources`.
  unfoldable pub sources_of : Bool → ℕ → List (Chunk F) → List Citation
  unfolding snippet
  sources_of include i [] = []
  sources_of include i (c ∷ cs) =
      record {
        marker = i;
        chunk_id = c.id;
        document_id = c.document_id;
        title = c.doc_title;
        source_uri = c.source_uri;
        heading = c.heading;
        snippet = snippet c.content 240;
        content = if include then c.content else [];
      }
      ∷ sources_of include (suc i) cs

  abbrev pub chunk_ids : List (Chunk F) → List ℕ
  chunk_ids [] = []
  chunk_ids (c ∷ cs) = c.id ∷ chunk_ids cs

-- The answer behind the check of its citations.
unfoldable pub checked_answer : Bytes → List ℕ → Bytes
unfolding strip_unknown_markers
checked_answer text [] = text
checked_answer text (n ∷ unknown) = strip_unknown_markers text (n ∷ unknown)

abbrev pub no_match : Bytes
no_match = codes "no documents in the corpus matched this question"

abbrev pub refusal : Bytes
refusal = codes "I could not find anything in the indexed documents that addresses this question."

module _ {F E : Type 0} (sv : Service F E) where
  -- `emit`, and `emit` with its error dropped.
  abbrev pub send : World E → Event → World E × Bool
  send w e = (record w { events = w.events ++ e ∷ [] }, sv.fails w.events e)

  abbrev pub tell : World E → Event → World E
  tell w e = (send w e).0

  -- `logQuery`
  abbrev pub log_query : World E → Turn → List ℕ → List ℕ → Usage → Bool → Bytes → World E
  log_query w t retrieved cited usage ok reason =
      let entry : QueryLog = record {
        conversation = t.req.conversation;
        question = t.question;
        answered = ok;
        refusal_reason = reason;
        retrieved = retrieved;
        cited = cited;
        usage = usage;
      } in
      record w { logs = if sv.log_up then w.logs ++ entry ∷ [] else w.logs }

  unfoldable pub history_of : Option ℕ → World E → List Message
  unfolding last_messages
  history_of none w = []
  history_of (some id) w =
      if sv.history_up then last_messages (twice sv.history_turns) (w.messages id) else []

  unfoldable pub corpus_version : Option CorpusStats → Bytes
  unfolding version_of
  corpus_version none = codes "unknown-" ++ sv.unix_base36
  corpus_version (some st) = version_of st

  -- `embedQuestion`
  abbrev pub keep_embedding : Bytes → Option E → World E → World E × Option E
  keep_embedding key none w = (w, none)
  keep_embedding key (some v) w =
      let kept = put w.embeddings key v in
      (record w { embeddings = if sv.has_cache && sv.redis_up then kept else w.embeddings }, some v)

  abbrev pub right_dim : Option E → Option E
  right_dim none = none
  right_dim (some v) = if sv.dim_of v == sv.embedding_dim then some v else none

  abbrev pub reuse : Option E → Bytes → Bytes → World E → World E × Option E
  reuse (some v) key question w = (w, some v)
  reuse none key question w = keep_embedding key (sv.embed question) w

  unfoldable pub embed_question : Bytes → World E → World E × Option E
  unfolding embedding_key
  embed_question question w =
      let key = embedding_key sv.digest question sv.embedding_model sv.embedding_dim in
      let found = right_dim (w.embeddings key) in
      reuse (if sv.has_cache && sv.redis_up then found else none) key question w

  -- Hybrid search, or keyword search where the embedding failed.
  unfoldable pub search : Option E → Bytes → Option (List (Chunk F))
  search none question = sv.keyword_search question sv.rerank_top_n
  search (some v) question = sv.hybrid_search v question sv.rerank_top_n

  -- A cached answer, replayed.
  unfoldable pub replay : Turn → CachedAnswer → World E → World E × Outcome F
  unfolding hydrate_citations
  replay t cached w =
      let usage = record t.usage { cache_hit = true } in
      let cites = hydrate_citations 1 cached.citations in
      let w = tell (tell (tell w (sources cites)) (token cached.answer)) (done usage) in
      (
        log_query w t cached.chunk_ids cached.citations usage true [],
        answered (record {
          answer = cached.answer;
          citations = cites;
          sources = [];
          retrieved = [];
          usage = usage;
          refused = false;
          reason = [];
        }),
      )

  -- The refusal where retrieval found nothing.
  unfoldable pub refuse : Turn → World E → World E × Outcome F
  refuse t w =
      let w = tell (tell w (token refusal)) (done t.usage) in
      (
        log_query w t [] [] t.usage false no_match,
        answered (record {
          answer = refusal;
          citations = [];
          sources = [];
          retrieved = [];
          usage = t.usage;
          refused = true;
          reason = no_match;
        }),
      )

  -- `AppendMessage`, where the statement runs.
  abbrev pub append_to : Bool → ℕ → Message → (ℕ → List Message) → ℕ → List Message
  append_to up id m messages k = if up && k == id then messages k ++ m ∷ [] else messages k

  -- The two messages of a turn, each by a statement of its own, whose error is dropped.
  abbrev pub append_turn : Option ℕ → Bytes → Bytes → List ℕ → (ℕ → List Message) → ℕ → List Message
  append_turn none question answer cited messages = messages
  append_turn (some id) question answer cited messages =
      let asking : Message = record { role = user; content = question; citations = [] } in
      let answering : Message = record { role = assistant; content = answer; citations = cited } in
      append_to sv.append_answer_up id answering
        (append_to sv.append_question_up id asking messages)

  abbrev pub put_answer : Bool → Bytes → CachedAnswer → World E → World E
  put_answer cacheable key a w = record w {
    answers = if cacheable && sv.redis_up then put w.answers key a else w.answers;
  }
