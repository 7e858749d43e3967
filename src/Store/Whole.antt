-- ===== src/Store/Whole.antt =====
-- Scores that are whole numbers, for the runs at concrete inputs.
use ragline.Base.{ℕ, ◌≡◌, true, false, arith, ltb}
use ragline.Store.{Floats}

pub irrefl : (a : ℕ) → ltb a a ≡ false
irrefl a = ground arith

pub trans : (a b c : ℕ) → ltb b a ≡ true → ltb c b ≡ true → ltb c a ≡ true
trans a b c p q = ground arith

pub not_trans : (a b c : ℕ) → ltb b a ≡ false → ltb c b ≡ false → ltb c a ≡ false
not_trans a b c p q = ground arith

abbrev pub whole : Floats
whole = record {
  F = ℕ;
  zero_score = 0;
  gt = λ a b. ltb b a;
  gt_irrefl = irrefl;
  gt_trans = trans;
  not-gt_trans = not_trans;
}
