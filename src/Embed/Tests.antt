-- ===== src/Embed/Tests.antt =====
-- A batch that comes back short, and the theorem at a full one.
use ragline.Base.{ℕ, ◌+◌, ◌*◌, ◌/◌, ◌≡◌, refl, List, [], ◌∷◌, Option, some, Bytes, ◌==◌}
use ragline.Embed.{Arithmetic, embed_failed, wrong_count, embed_batch}

abbrev numbers : Arithmetic
numbers = record {
  F = ℕ;
  zero_float = 0;
  add = λ a b. a + b;
  mul = λ a b. a * b;
  div = λ a b. a / b;
  sqrt = λ a. a;
  is_zero = λ a. a == 0;
}

abbrev sent : List Bytes → Option Bytes
sent ts = some []

abbrev two_vectors : Bytes → Option (List (List ℕ))
two_vectors raw = some ((3 ∷ 4 ∷ []) ∷ (0 ∷ 0 ∷ []) ∷ [])

short : embed_batch numbers sent two_vectors ([] ∷ [] ∷ [] ∷ []) ≡ embed_failed (wrong_count 3 2)
unfolding embed_batch
short = refl
