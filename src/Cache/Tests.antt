-- ===== src/Cache/Tests.antt =====
-- Runs of the cache keys on the inputs of internal/cache/cache_test.go, and of the entries.
use ragline.Base.{
  ℕ, zero, suc, ◌≡◌, refl, sym, ap, ◌∙◌, arith, true, List, [], ◌∷◌, Option, none, some, Bytes,
  codes, bytes_eq, bytes_eq→eq, bytes_eq_refl, has_prefix, ◌+◌, Bool-cases, inl, inr, if◌then◌else◌,
}
use ragline.Cache.{normalize_question, CachedAnswer}
use ragline.Cache.Entries.{Redis, Codec, Server, cleared, invalidate_answers, is_answer_key}
use ragline.Cache.Entries.Cleared.{listed, DelLaws, last, more}
use ragline.Cache.Entries.Invalidated.{AllKeys, Clears, invalidate_answers-Clears}

collapses_noise :
    normalize_question (codes "  How do I   Rotate keys?! ") ≡ codes "how do i rotate keys"
unfolding normalize_question
collapses_noise = refl

-- An encoding of texts as themselves, and of answers as their text.
abbrev plain : Codec Bytes
plain = record { marshal = λ v. some v; unmarshal = λ raw. some raw }

abbrev no_chunks : Bytes → CachedAnswer
no_chunks text = record { answer = text; chunk_ids = []; citations = []; model = [] }

abbrev answers_as_text : Codec CachedAnswer
answers_as_text = record { marshal = λ a. some a.answer; unmarshal = λ raw. some (no_chunks raw) }

-- A small Redis: a list of keys with their values, of which nothing expires.
abbrev Held : Type 0
Held = List (Bytes × Bytes)

find : Bytes → Held → Option Bytes
find k [] = none
find k ((j, raw) ∷ es) = if bytes_eq j k then some raw else find k es

remove : List Bytes → Held → Held × ℕ
unfolding listed
remove keys [] = ([], 0)
remove keys ((j, raw) ∷ es) =
    let (left, n) = remove keys es in if listed keys j then (left, n + 1) else ((j, raw) ∷ left, n)

size_of : Held → ℕ
size_of [] = 0
size_of (e ∷ es) = size_of es + 1

find-remove :
    (keys : List Bytes) (k : Bytes) (es : Held)
    → find k (remove keys es).0 ≡ (if listed keys k then none else find k es)
unfolding find remove
find-remove keys k [] = ground arith
find-remove keys k ((j, raw) ∷ es) = elim (Bool-cases (bytes_eq j k)) [
  | inl same ↦ elim (Bool-cases (listed keys j)) [
    | inl gone ↦ ground (arith, find-remove keys k es, gone, bytes_eq→eq j k same)
    | inr stays ↦ rw (← bytes_eq→eq j k same) (ground (arith, stays, bytes_eq_refl j))
  ]
  | inr other ↦ ground (arith, find-remove keys k es, other)
]

remove_count :
    (keys : List Bytes) (es : Held) → (remove keys es).1 + size_of (remove keys es).0 ≡ size_of es
unfolding remove size_of
remove_count keys [] = omega arith
remove_count keys ((j, raw) ∷ es) = ground (arith, remove_count keys es)

abbrev small_redis : Redis Held
small_redis = record {
  get = λ now k es. find k es;
  set = λ now ttl k raw es. (k, raw) ∷ es;
  del = λ keys es. ((remove keys es).0, (remove keys es).1);
}

small_redis_laws : DelLaws small_redis
small_redis_laws = record {
  size = size_of;
  get-del = λ keys now k es. find-remove keys k es;
  del_count = remove_count;
}

abbrev entry : Bytes → Bytes × Bytes
entry k = (k, codes "[1]")

abbrev four_entries : Held
four_entries =
    entry (codes "ans:a")
    ∷ entry (codes "emb:b")
    ∷ entry (codes "ans:c")
    ∷ entry (codes "rl:d")
    ∷ []

-- The first page lists one key and cursor 7, the second a key twice and cursor 0.
abbrev pages : ℕ → ℕ → Option (List Bytes × ℕ)
pages i zero = some (codes "ans:a" ∷ [], 7)
pages i (suc c) = some (codes "ans:c" ∷ codes "ans:c" ∷ [], 0)

abbrev two_pages : Server
two_pages = record { scan = λ i c pattern count. pages i c; del_up = λ i. true }

abbrev all_keys : List Bytes
all_keys = codes "ans:a" ∷ codes "ans:c" ∷ codes "ans:c" ∷ []

keys_in : Held → List Bytes
keys_in [] = []
keys_in ((j, raw) ∷ es) = j ∷ keys_in es

-- Where the scan lists the answer keys among the entries, it lists every one that is found.
found-listed :
    (keys : List Bytes) (es : Held) (k raw : Bytes)
    → AllKeys (λ j. is_answer_key j ≡ true → listed keys j ≡ true) (keys_in es)
    → is_answer_key k ≡ true
    → find k es ≡ some raw
    → listed keys k ≡ true
unfolding find keys_in
found-listed keys [] k raw all a h = cc
found-listed keys ((j, v) ∷ es) k raw (here, all) a h = elim (Bool-cases (bytes_eq j k)) [
  | inl same ↦
      let e = bytes_eq→eq j k same in ap (listed keys) (sym e) ∙ here (ap is_answer_key e ∙ a)
  | inr other ↦ found-listed keys es k raw all a (rw other at h)
]

drops_answers :
    invalidate_answers small_redis two_pages 2 four_entries
    ≡ (entry (codes "emb:b") ∷ entry (codes "rl:d") ∷ [], cleared 2)
unfolding invalidate_answers bytes_eq remove listed
drops_answers = refl

invalidate_answers-Clears_example :
    (left : Held) × (n : ℕ) × (invalidate_answers small_redis two_pages 2 four_entries
      ≡ (left, cleared n))
    × Clears small_redis small_redis_laws answers_as_text plain (λ s. s) four_entries left n
unfolding has_prefix bytes_eq listed keys_in
invalidate_answers-Clears_example =
    invalidate_answers-Clears small_redis small_redis_laws two_pages answers_as_text plain (λ s. s)
      2 2 all_keys four_entries (λ i. refl) (more refl (last refl)) (omega arith)
      (refl, (refl, (refl, tt)))
      (λ now k raw.
        found-listed all_keys four_entries k raw
          ((λ a. refl), ((λ a. cc), ((λ a. refl), ((λ a. cc), tt)))))
