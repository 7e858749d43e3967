-- ===== src/Base/Digits.antt =====
-- What a number's digits spell, and the parts of a text around a separator.
use Prim.Native.Nat.{ℕ, zero, suc, ◌+◌, ◌/◌, ◌%◌, ◌≤◌, ◌<◌}
use mathlib.Core.Path.{◌≡◌, refl, sym, ap, ap₂, ◌∙◌}
use native.Mathlib.Omega.{arith}
use mathlib.Core.Bool.{Bool, true, not, ◌&&◌}
use mathlib.Core.Logic.{inl, inr}
use mathlib.Core.List.{[], ◌∷◌, ◌++◌}
use ragline.Base.Tests.{ltb, ◌==◌, Bool-cases}
use ragline.Base.Text.{Bytes, value, digits_of, itoa}

-- A text without some byte.
unfoldable pub lacks : ℕ → Bytes → Bool
lacks x [] = true
lacks x (c ∷ s) = not (c == x) && lacks x s

abbrev hd : Bytes → ℕ
hd [] = 0
hd (c ∷ s) = c

abbrev tl : Bytes → Bytes
tl [] = []
tl (c ∷ s) = s

-- Two texts that are cut at the first separator have the same parts.
pub cut-first :
    (x : ℕ) (a b s t : Bytes)
    → lacks x a ≡ true
    → lacks x b ≡ true
    → a ++ x ∷ s ≡ b ++ x ∷ t
    → (a ≡ b) × (s ≡ t)
unfolding lacks
cut-first x [] [] s t ha hb e = (refl, ap tl e)
cut-first x [] (d ∷ b) s t ha hb e = let head : x ≡ d = ap hd e in ground arith
cut-first x (c ∷ a) [] s t ha hb e = let head : c ≡ x = ap hd e in ground arith
cut-first x (c ∷ a) (d ∷ b) s t ha hb e =
    let head : c ≡ d = ap hd e in
    let (same, rest) = cut-first x a b s t (ground arith) (ground arith) (ap tl e) in
    (ap₂ (◌∷◌) head same, rest)

value-digits_of : (f n : ℕ) (out : Bytes) → n < f → value 0 (digits_of f n out) ≡ value n out
unfolding value digits_of
value-digits_of zero n out h = absurd (omega (arith, h))
value-digits_of (suc f) n out h = elim (Bool-cases (ltb n 10)) [
  | inl small ↦
      rw small
        (let lt : n < 10 = ground (arith, small) in ap (λ k. value k out) (omega (arith, lt)))
  | inr large ↦ rw large (
      let ge : 10 ≤ n = ground (arith, large) in
      value-digits_of f (n / 10) ((b'0' + n % 10) ∷ out) (omega (arith, h, ge))
      ∙ ap (λ k. value k out) (omega arith))
]

-- The digits of a number spell it.
pub value-itoa : (n : ℕ) → value 0 (itoa n) ≡ n
unfolding itoa value
value-itoa n = value-digits_of (n + 1) n [] (omega arith)

pub itoa-injective : (m n : ℕ) → itoa m ≡ itoa n → m ≡ n
itoa-injective m n e = sym (value-itoa m) ∙ ap (value 0) e ∙ value-itoa n

lacks-digits_of :
    (x f n : ℕ) (out : Bytes) → x < b'0' → lacks x out ≡ true → lacks x (digits_of f n out) ≡ true
unfolding digits_of lacks
lacks-digits_of x zero n out h a = a
lacks-digits_of x (suc f) n out h a =
    let more : lacks x ((b'0' + n % 10) ∷ out) ≡ true = ground (arith, a, h) in
    elim (Bool-cases (ltb n 10)) [
      | inl small ↦ rw small more
      | inr large ↦ rw large (lacks-digits_of x f (n / 10) ((b'0' + n % 10) ∷ out) h more)
    ]

-- No digit stands before `0`.
pub lacks-itoa : (x n : ℕ) → x < b'0' → lacks x (itoa n) ≡ true
unfolding itoa lacks
lacks-itoa x n h = lacks-digits_of x (n + 1) n [] h refl
