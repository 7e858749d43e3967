-- ===== src/Cache/Keys.antt =====
-- The cache keys: what two questions with one key have in common.
use ragline.Base.{lacks, cut-first, ◌≡◌, Bool, true, Bytes}
use ragline.Cache.{normalize_question, answer_preimage}

-- A text without a zero byte.
unfoldable pub no_zero : Bytes → Bool
unfolding lacks
no_zero s = lacks 0 s

-- Two pairs of a question and a corpus version that hash the same bytes have the same normalised
-- question and the same version, where no normalised question holds a zero byte.
pub answer_preimage-injective :
    (q r v w : Bytes)
    → no_zero (normalize_question q) ≡ true
    → no_zero (normalize_question r) ≡ true
    → answer_preimage q v ≡ answer_preimage r w
    → (normalize_question q ≡ normalize_question r) × (v ≡ w)
unfolding answer_preimage no_zero
answer_preimage-injective q r v w hq hr e =
    cut-first 0 (normalize_question q) (normalize_question r) v w hq hr e
