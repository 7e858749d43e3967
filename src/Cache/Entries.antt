-- ===== src/Cache/Entries.antt =====
-- internal/cache/cache.go: the entries of the two caches in Redis (`GetAnswer`, `PutAnswer`,
-- `GetEmbedding`, `PutEmbedding`) and the loop that drops every answer (`InvalidateAnswers`).
-- Redis is an argument, with its replies to `SCAN`, and so is `encoding/json`. A Boolean `up` says
-- whether Redis answers.
pub mod Cleared
pub mod Invalidated
use ragline.Base.{
  ℕ, zero, suc, ◌+◌, Bool, true, false, List, [], ◌∷◌, Option, none, some, Bytes, codes, has_prefix,
  if◌then◌else◌,
}
use ragline.Cache.{CachedAnswer}

-- What the cache calls of Redis, whose entries are an `R`: `GET` at a time (`none` is `redis.Nil`),
-- `SET` at a time with a time to live, and `DEL` of some keys, with the number that it returns.
pub record Redis (R : Type 0) : Type 0 where
  pub get : ℕ → Bytes → R → Option Bytes
  pub set : ℕ → ℕ → Bytes → Bytes → R → R
  pub del : List Bytes → R → R × ℕ

-- `json.Marshal` and `json.Unmarshal`; `none` is their error.
pub record Codec (A : Type 0) : Type 0 where
  pub marshal : A → Option Bytes
  pub unmarshal : Bytes → Option A

-- A result with `ErrMiss` and the errors of Redis.
pub data Lookup (A : Type 0) : Type 0 where
  hit : A → Lookup A
  miss redis_error : Lookup A

module _ {R : Type 0} (redis : Redis R) where
  module _ {A : Type 0} (json : Codec A) where
    abbrev pub parsed : Option A → Lookup A
    parsed none = miss
    parsed (some a) = hit a

    abbrev pub decoded : Option Bytes → Lookup A
    decoded none = miss
    decoded (some raw) = parsed (json.unmarshal raw)

    -- The body that `GetAnswer` and `GetEmbedding` share.
    unfoldable pub get_value : Bool → ℕ → Bytes → R → Lookup A
    get_value up now key r = if up then decoded (redis.get now key r) else redis_error

    abbrev pub put_marshalled : Bool → ℕ → ℕ → Bytes → Option Bytes → R → R × Bool
    put_marshalled up now ttl key none r = (r, true)
    put_marshalled up now ttl key (some raw) r =
        if up then (redis.set now ttl key raw r, false) else (r, true)

    -- The body that `PutAnswer` and `PutEmbedding` share: the entries, and whether there is an error.
    unfoldable pub put_value : Bool → ℕ → ℕ → Bytes → A → R → R × Bool
    put_value up now ttl key a r = put_marshalled up now ttl key (json.marshal a) r

  -- `GetAnswer`
  abbrev pub get_answer : Codec CachedAnswer → Bool → ℕ → Bytes → R → Lookup CachedAnswer
  get_answer json up now key r = get_value json up now key r

  -- `PutAnswer`
  abbrev pub put_answer : Codec CachedAnswer → Bool → ℕ → ℕ → Bytes → CachedAnswer → R → R × Bool
  put_answer json up now ttl key a r = put_value json up now ttl key a r

  -- `GetEmbedding`
  abbrev pub get_embedding : {E : Type 0} → Codec E → Bool → ℕ → Bytes → R → Lookup E
  get_embedding json up now key r = get_value json up now key r

  -- `PutEmbedding`
  abbrev pub put_embedding : {E : Type 0} → Codec E → Bool → ℕ → ℕ → Bytes → E → R → R × Bool
  put_embedding json up now ttl key v r = put_value json up now ttl key v r

-- The replies that the loop meets: the reply to the `i`-th `SCAN`, given its cursor, pattern and count (some
-- keys and the next cursor, or an error), and whether the `i`-th `DEL` runs.
pub record Server : Type 0 where
  pub scan : ℕ → ℕ → Bytes → ℕ → Option (List Bytes × ℕ)
  pub del_up : ℕ → Bool

-- How the loop ends, with what it has deleted; `scanning` is fuel that ran out.
pub data Ended : Type 0 where
  cleared clear_error scanning : ℕ → Ended

abbrev pub Again : Type 0 → Type 0
Again R = ℕ → ℕ → R → R × Ended

-- `if cursor == 0`
abbrev pub next_page : {R : Type 0} → Again R → ℕ → ℕ → R → R × Ended
next_page again zero deleted es = (es, cleared deleted)
next_page again (suc c) deleted es = again (suc c) deleted es

abbrev pub behind_del : {R : Type 0} → Again R → ℕ → ℕ → R × ℕ → R × Ended
behind_del again next deleted (es, n) = next_page again next (deleted + n) es

abbrev pub pattern_of_answers : Bytes
pattern_of_answers = codes "ans:*"

module _ {R : Type 0} (redis : Redis R) where
  -- `if len(keys) > 0`
  abbrev pub drop_page : Again R → Bool → List Bytes → ℕ → ℕ → R → R × Ended
  drop_page again up [] next deleted es = next_page again next deleted es
  drop_page again true (k ∷ keys) next deleted es =
      behind_del again next deleted (redis.del (k ∷ keys) es)
  drop_page again false (k ∷ keys) next deleted es = (es, clear_error deleted)

  abbrev pub on_page : Again R → Bool → Option (List Bytes × ℕ) → ℕ → R → R × Ended
  on_page again up none deleted es = (es, clear_error deleted)
  on_page again up (some (keys, next)) deleted es = drop_page again up keys next deleted es

  -- The loop of `InvalidateAnswers`, from its `i`-th round on.
  unfoldable pub clear_pages : Server → ℕ → ℕ → ℕ → ℕ → R → R × Ended
  clear_pages sv zero i cursor deleted es = (es, scanning deleted)
  clear_pages sv (suc fuel) i cursor deleted es =
      on_page (clear_pages sv fuel (suc i)) (sv.del_up i) (sv.scan i cursor pattern_of_answers 200)
        deleted es

  -- `InvalidateAnswers`
  unfoldable pub invalidate_answers : Server → ℕ → R → R × Ended
  unfolding clear_pages
  invalidate_answers sv fuel es = clear_pages sv fuel 0 0 0 es

-- What the pattern matches.
abbrev pub is_answer_key : Bytes → Bool
is_answer_key k = has_prefix k (codes "ans:")
