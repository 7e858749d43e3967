-- ===== src/Chat/Version.antt =====
-- The version of the corpus in the key of a cached answer (`corpusVersion`).
use ragline.Base.{
  ℕ, ◌≡◌, ap, sym, ◌∙◌, refl, [], ◌∷◌, ◌++◌, Bytes, arith, itoa, Option, none, some, codes, true,
  lacks, cut-first, lacks-itoa, itoa-injective,
}
use ragline.Cache.{normalize_question, answer_preimage}
use ragline.Cache.Keys.{no_zero, answer_preimage-injective}
use ragline.Chat.Types.{CorpusStats}
use ragline.Chat.Steps.{unix_text, version_of}

abbrev behind_first : Bytes → Bytes
behind_first [] = []
behind_first (c ∷ s) = s

-- A dash is no digit.
lacks-dash : (n : ℕ) → lacks b'-' (itoa n) ≡ true
lacks-dash n = lacks-itoa b'-' n (omega arith)

signed-lacks : lacks b'-' (codes "-62135596800") ≡ true → ⊥
unfolding lacks
signed-lacks h = cc

-- A second since 1970 has no sign, the zero time has one.
unix_text-injective : (a b : Option ℕ) → unix_text a ≡ unix_text b → a ≡ b
unfolding unix_text
unix_text-injective none none e = refl
unix_text-injective none (some t) e = absurd (signed-lacks (ap (lacks b'-') e ∙ lacks-dash t))
unix_text-injective (some t) none e = absurd (signed-lacks (ap (lacks b'-') (sym e) ∙ lacks-dash t))
unix_text-injective (some t) (some u) e = ap some (itoa-injective t u e)

version_of-injective : (a b : CorpusStats) → version_of a ≡ version_of b → a ≡ b
unfolding version_of
version_of-injective a b e =
    let (ready, more) =
      cut-first b'-' (itoa a.ready_docs) (itoa b.ready_docs)
        (b'c' ∷ (itoa a.chunks ++ b'-' ∷ unix_text a.last_ingest))
        (b'c' ∷ (itoa b.chunks ++ b'-' ∷ unix_text b.last_ingest)) (lacks-dash a.ready_docs)
        (lacks-dash b.ready_docs) (ap behind_first e) in
    let (chunks, last) =
      cut-first b'-' (itoa a.chunks) (itoa b.chunks) (unix_text a.last_ingest)
        (unix_text b.last_ingest) (lacks-dash a.chunks) (lacks-dash b.chunks)
        (ap behind_first more) in
    let p = itoa-injective a.ready_docs b.ready_docs ready in
    let q = itoa-injective a.chunks b.chunks chunks in
    let r = unix_text-injective a.last_ingest b.last_ingest last in
    ap (λ n. record { ready_docs = n; chunks = a.chunks; last_ingest = a.last_ingest }) p
    ∙ ap (λ n. record { ready_docs = b.ready_docs; chunks = n; last_ingest = a.last_ingest }) q
    ∙ ap (λ n. record { ready_docs = b.ready_docs; chunks = b.chunks; last_ingest = n }) r

-- Two answers, each keyed while the state of the corpus could be read, whose keys hash the same bytes
-- belong to one normalised question and to one state: as many ready documents, as many chunks, and the
-- same second since 1970 of the last ingestion or none at all. No normalised question holds a zero byte.
pub answer_preimage-corpus :
    (q r : Bytes) (a b : CorpusStats)
    → no_zero (normalize_question q) ≡ true
    → no_zero (normalize_question r) ≡ true
    → answer_preimage q (version_of a) ≡ answer_preimage r (version_of b)
    → (normalize_question q ≡ normalize_question r) × (a ≡ b)
answer_preimage-corpus q r a b h k e =
    let (same, version) = answer_preimage-injective q r (version_of a) (version_of b) h k e in
    (same, version_of-injective a b version)
