-- ===== src/RateLimit/Clients.antt =====
-- One call of `Allow`, by its bucket; other clients' buckets are left alone.
use ragline.Base.{
  ℕ, ◌≤◌, ◌<◌, ◌≡◌, ◌≢◌, Bool, true, ◌++◌, Option, some, Bytes, codes, arith, bytes_eq_refl,
  bytes_eq→eq, ℤ, is_positive, leb,
}
use ragline.RateLimit.{
  Bucket, Reply, token, refilled, take_tokens, Redis, live, wait_of, rate_of, capacity_of, allow,
}

abbrev pub key_of : Bytes → Bytes
key_of client_id = codes "rl:" ++ client_id

key_of_injective : (a b : Bytes) → key_of a ≡ key_of b → a ≡ b
key_of_injective a b e = ground arith

-- A call of `Allow` for one client, whatever its outcome, leaves the bucket of every other client.
pub allow_isolates :
    (up : Bool) (now : ℕ) (a b : Bytes) (per_minute burst : ℤ) (r : Redis)
    → a ≢ b
    → (allow up now a per_minute burst r).0 (key_of b) ≡ r (key_of b)
unfolding allow
allow_isolates up now a b per_minute burst r h =
    ground (arith, bytes_eq→eq (key_of b) (key_of a), key_of_injective b a)

pub rate_of-pos : (per_minute : ℤ) → is_positive per_minute ≡ true → 0 < rate_of per_minute
rate_of-pos per_minute positive = ground arith

pub token-le-capacity_of :
    (per_minute burst : ℤ) → is_positive per_minute ≡ true → token ≤ capacity_of per_minute burst
token-le-capacity_of per_minute burst positive = ground arith

-- The tokens that a call finds.
abbrev pub found : ℤ → ℤ → ℕ → Bytes → Redis → ℕ
found per_minute burst now client_id r =
    refilled (capacity_of per_minute burst) (rate_of per_minute) now
      (live now (r (key_of client_id)))

refilled-le-capacity :
    (capacity rate now : ℕ) (state : Option Bucket) → refilled capacity rate now state ≤ capacity
unfolding refilled
refilled-le-capacity capacity rate now state = omega arith

pub found-le-capacity :
    (per_minute burst : ℤ) (now : ℕ) (id : Bytes) (r : Redis)
    → found per_minute burst now id r ≤ capacity_of per_minute burst
found-le-capacity per_minute burst now id r =
    refilled-le-capacity (capacity_of per_minute burst) (rate_of per_minute) now
      (live now (r (key_of id)))

-- What the call's script leaves and replies.
abbrev pub outcome : ℤ → ℤ → ℕ → Bytes → Redis → Bucket × Reply
outcome per_minute burst now client_id r =
    take_tokens (capacity_of per_minute burst) (rate_of per_minute) now token
      (found per_minute burst now client_id r)

module _ (per_minute burst : ℤ) (positive : is_positive per_minute ≡ true) (now : ℕ)
    (client_id : Bytes) (r : Redis) where
  pub allow-ok :
      (allow true now client_id per_minute burst r).1.ok
      ≡ leb token (found per_minute burst now client_id r)
  unfolding allow take_tokens
  allow-ok = rw positive

  pub allow-key :
      (allow true now client_id per_minute burst r).0 (key_of client_id)
      ≡ some (outcome per_minute burst now client_id r).0
  unfolding allow
  allow-key = rw (positive, bytes_eq_refl (key_of client_id))

  pub allow-retry_after :
      (allow true now client_id per_minute burst r).1.retry_after
      ≡ wait_of (rate_of per_minute) (outcome per_minute burst now client_id r).1
  unfolding allow
  allow-retry_after = rw positive
