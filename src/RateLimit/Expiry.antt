-- ===== src/RateLimit/Expiry.antt =====
-- The expiry of an idle bucket: dropping the key changes no answer.
use native.Mathlib.Nat.{mul-le-mul_right}
use ragline.Base.{
  ℕ, ◌+◌, ◌-◌, ◌*◌, ◌≤◌, ◌<◌, ◌≡◌, refl, sym, ap, ◌∙◌, none, some, Option, arith, leb, Bool-cases,
  inl, inr,
}
use ragline.RateLimit.{
  Bucket, second, ttl, ceil_div, refilled, take_tokens, token_bucket_script, live,
}

-- What the script leaves at a key.
pub record IsBucket (capacity rate : ℕ) (b : Bucket) : Type 0 where
  pub fits : b.tokens ≤ capacity
  pub lasts : b.expires ≡ b.ts + ttl capacity rate

le-ceil_div : (a b : ℕ) → 0 < b → a ≤ ceil_div a b * b
le-ceil_div a b h = grind arith

-- In the time to live a bucket refills twice.
twice_refilled : (capacity rate : ℕ) → 0 < rate → 2 * capacity ≤ ttl capacity rate * rate
twice_refilled capacity rate h =
    grind (arith, le-ceil_div (2 * capacity) (rate * second) (grind arith))

full_after : (capacity rate d : ℕ) → 0 < rate → ttl capacity rate ≤ d → capacity ≤ d * rate
full_after capacity rate d h k =
    omega (arith, twice_refilled capacity rate h, mul-le-mul_right rate k)

pub refilled-expired :
    (capacity rate now : ℕ) (b : Bucket)
    → 0 < rate
    → IsBucket capacity rate b
    → b.expires ≤ now
    → refilled capacity rate now (some b) ≡ capacity
unfolding refilled
refilled-expired capacity rate now b h v e =
    let long : ttl capacity rate ≤ now - b.ts = omega (arith, v.lasts) in
    omega (arith, full_after capacity rate (now - b.ts) h long)

refilled-none : (capacity rate now : ℕ) → refilled capacity rate now none ≡ capacity
unfolding refilled
refilled-none capacity rate now = ground arith

pub refilled-live :
    (capacity rate now : ℕ) (b : Bucket)
    → 0 < rate
    → IsBucket capacity rate b
    → refilled capacity rate now (live now (some b)) ≡ refilled capacity rate now (some b)
refilled-live capacity rate now b h v = elim (Bool-cases (leb b.expires now)) [
  | inl gone ↦ rw gone (
      refilled-none capacity rate now
      ∙ sym (refilled-expired capacity rate now b h v (ground arith)))
  | inr there ↦ rw there
]

pub token_bucket_script-take :
    (capacity rate now requested : ℕ) (state : Option Bucket)
    → token_bucket_script capacity rate now requested state
      ≡ take_tokens capacity rate now requested (refilled capacity rate now state)
unfolding token_bucket_script
token_bucket_script-take capacity rate now requested state = refl

-- A key that Redis has dropped answers like the bucket that it held, and leaves the same bucket: an
-- expiry grants nothing and takes nothing. The bucket is one that the script left, at a positive rate.
pub script-live :
    (capacity rate now requested : ℕ) (b : Bucket)
    → 0 < rate
    → IsBucket capacity rate b
    → token_bucket_script capacity rate now requested (live now (some b))
      ≡ token_bucket_script capacity rate now requested (some b)
script-live capacity rate now requested b h v =
    rw (token_bucket_script-take, token_bucket_script-take)
      (ap (take_tokens capacity rate now requested) (refilled-live capacity rate now b h v))

-- The script leaves such a bucket.
pub script-IsBucket :
    (capacity rate now requested : ℕ) (state : Option Bucket)
    → IsBucket capacity rate (token_bucket_script capacity rate now requested state).0
unfolding token_bucket_script
script-IsBucket capacity rate now requested state = record { fits = ground arith; lasts = refl }
