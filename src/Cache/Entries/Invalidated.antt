-- ===== src/Cache/Entries/Invalidated.antt =====
-- `InvalidateAnswers`: what the two caches hold afterwards.
use ragline.Base.{
  ℕ, ◌+◌, ◌≤◌, ◌≡◌, refl, ap, ◌∙◌, Bool, true, false, List, [], ◌∷◌, Option, none, some, Bytes,
  bytes_eq, bytes_eq→eq, has_prefix, Bool-cases, inl, inr, arith, if◌then◌else◌,
}
use ragline.Cache.{CachedAnswer, answer_key, embedding_key}
use ragline.Cache.Entries.{
  Redis, Codec, miss, decoded, get_value, get_answer, get_embedding, Server, cleared,
  invalidate_answers, is_answer_key,
}
use ragline.Cache.Entries.Cleared.{listed, DelLaws, Iterates, clear_pages-Drops}

-- A test of every key of a list.
abbrev pub AllKeys : (Bytes → Type 0) → List Bytes → Type 0
AllKeys P [] = Unit
AllKeys P (k ∷ keys) = P k × AllKeys P keys

listed-answer :
    (keys : List Bytes) (k : Bytes)
    → AllKeys (λ x. is_answer_key x ≡ true) keys
    → listed keys k ≡ true
    → is_answer_key k ≡ true
unfolding listed
listed-answer [] k all h = cc
listed-answer (x ∷ keys) k (a, all) h = elim (Bool-cases (bytes_eq k x)) [
  | inl same ↦ rw (bytes_eq→eq k x same) a
  | inr other ↦ listed-answer keys k all (rw other at h)
]

answer_key-answer :
    (digest : Bytes → Bytes) (q v : Bytes) → is_answer_key (answer_key digest q v) ≡ true
unfolding answer_key has_prefix
answer_key-answer digest q v = refl

embedding_key-no_answer :
    (digest : Bytes → Bytes) (text model : Bytes) (dim : ℕ)
    → is_answer_key (embedding_key digest text model dim) ≡ false
unfolding embedding_key has_prefix
embedding_key-no_answer digest text model dim = refl

absent :
    {A : Type 0} (b : Bool) (x : Option A)
    → ((a : A) → x ≡ some a → b ≡ true)
    → (if b then none else x) ≡ none
absent true x h = refl
absent false none h = refl
absent false (some a) h = absurd (let c = h a refl in cc)

kept : {A : Type 0} (b : Bool) (x : Option A) → (b ≡ true → ⊥) → (if b then none else x) ≡ x
kept true x h = absurd (h refl)
kept false x h = refl

-- Behind `InvalidateAnswers` every answer is a miss, every embedding reads as before, and the count
-- is the number of keys that are gone.
pub record Clears {R E : Type 0} (redis : Redis R) (laws : DelLaws redis)
    (json : Codec CachedAnswer) (vectors : Codec E) (digest : Bytes → Bytes) (es left : R) (n : ℕ)
    : Type 0 where
  pub counted : n + laws.size left ≡ laws.size es
  pub answers_gone :
      (now : ℕ) (q v : Bytes) → get_answer redis json true now (answer_key digest q v) left ≡ miss
  pub embeddings_kept :
      (now dim : ℕ) (text model : Bytes)
      → get_embedding redis vectors true now (embedding_key digest text model dim) left
        ≡ get_embedding redis vectors true now (embedding_key digest text model dim) es

-- With a Redis whose `DEL` removes the keys it is given and counts them, where the deletions run and
-- the scan comes round to cursor 0 having listed every answer key that is held and no key of another
-- kind, with fuel for its calls, `InvalidateAnswers` ends without an error: every answer is a miss, every
-- embedding reads as before, and it returns the number of keys that are gone. Nothing expires meanwhile.
pub invalidate_answers-Clears :
    {R E : Type 0} (redis : Redis R) (laws : DelLaws redis) (sv : Server)
    (json : Codec CachedAnswer) (vectors : Codec E) (digest : Bytes → Bytes) (fuel calls : ℕ)
    (keys : List Bytes) (es : R)
    → ((i : ℕ) → sv.del_up i ≡ true)
    → Iterates sv 0 0 keys calls
    → calls ≤ fuel
    → AllKeys (λ x. is_answer_key x ≡ true) keys
    → ((now : ℕ) (k raw : Bytes)
        → is_answer_key k ≡ true
        → redis.get now k es ≡ some raw
        → listed keys k ≡ true)
    → (left : R) × (n : ℕ) × (invalidate_answers redis sv fuel es ≡ (left, cleared n))
      × Clears redis laws json vectors digest es left n
unfolding invalidate_answers get_value
invalidate_answers-Clears redis laws sv json vectors digest fuel calls keys es up it h all has =
    let (left, n, ends, gone) = clear_pages-Drops sv redis laws up fuel 0 0 0 calls es it h in
    (
      left,
      n,
      ends ∙ ap (λ t. (left, cleared t)) (omega arith),
      record {
        counted = gone.counted;
        answers_gone = λ now q v.
            let k = answer_key digest q v in
            ap (decoded redis json) (
              gone.reads now k
              ∙ absent (listed keys k) (redis.get now k es)
                  (λ raw. has now k raw (answer_key-answer digest q v)));
        embeddings_kept = λ now dim text model.
            let k = embedding_key digest text model dim in
            ap (decoded redis vectors) (
              gone.reads now k
              ∙ kept (listed keys k) (redis.get now k es) (λ bad.
                let c = listed-answer keys k all bad in
                let d = embedding_key-no_answer digest text model dim in cc));
      },
    )
