-- ===== src/RateLimit/Window.antt =====
-- How many requests a client gets through: never more than its burst and the refill of the time.
use ragline.Base.{
  ℕ, ◌+◌, ◌-◌, ◌*◌, ◌≤◌, ◌≡◌, refl, true, List, [], ◌∷◌, some, Bytes, arith, ℤ, is_positive, leb,
  if◌then◌else◌,
}
use ragline.RateLimit.{Bucket, token, refilled, take_tokens, Redis, rate_of, capacity_of, allow}
use ragline.RateLimit.Expiry.{IsBucket, refilled-live}
use ragline.RateLimit.Clients.{
  rate_of-pos, found, outcome, key_of, found-le-capacity, allow-ok, allow-key,
}

-- How many of one client's calls are let through, the first at `now + g` for the first gap `g`, each
-- of the others one gap after the call before it.
unfoldable pub admitted : ℤ → ℤ → Bytes → ℕ → Redis → List ℕ → ℕ
admitted per_minute burst id now r [] = 0
admitted per_minute burst id now r (g ∷ gs) =
    let (r', v) = allow true (now + g) id per_minute burst r in
    (if v.ok then 1 else 0) + admitted per_minute burst id (now + g) r' gs

abbrev pub total : List ℕ → ℕ
total [] = 0
total (g ∷ gs) = g + total gs

-- The tokens of the script's outcome: what was found, less one token if the call is let through.
take_tokens-left :
    (capacity rate now tokens : ℕ)
    → (take_tokens capacity rate now token tokens).0.tokens
        + (if leb token tokens then token else 0)
      ≡ tokens
unfolding take_tokens
take_tokens-left capacity rate now tokens = ground arith

take_tokens-ts :
    (capacity rate now tokens : ℕ) → (take_tokens capacity rate now token tokens).0.ts ≡ now
unfolding take_tokens
take_tokens-ts capacity rate now tokens = refl

take_tokens-IsBucket :
    (capacity rate now tokens : ℕ)
    → tokens ≤ capacity
    → IsBucket capacity rate (take_tokens capacity rate now token tokens).0
unfolding take_tokens
take_tokens-IsBucket capacity rate now tokens h = record { fits = ground arith; lasts = refl }

refilled-gap :
    (capacity rate g : ℕ) (b : Bucket)
    → refilled capacity rate (b.ts + g) (some b) ≤ b.tokens + g * rate
unfolding refilled
refilled-gap capacity rate g b = let e : b.ts + g - b.ts ≡ g = omega arith in rw e (omega arith)

module _ (per_minute burst : ℤ) (positive : is_positive per_minute ≡ true) (id : Bytes) where
  abbrev speed : ℕ
  speed = rate_of per_minute

  abbrev size : ℕ
  size = capacity_of per_minute burst

  -- Each call pays for itself: a request let through takes one token out of what was found.
  admitted_step :
      (now g : ℕ) (r : Redis) (gs : List ℕ)
      → admitted per_minute burst id now r (g ∷ gs) * token
          + (outcome per_minute burst (now + g) id r).0.tokens
        ≡ found per_minute burst (now + g) id r
          + admitted per_minute burst id (now + g) (allow true (now + g) id per_minute burst r).0 gs
            * token
  unfolding admitted
  admitted_step now g r gs = ground (
    arith,
    allow-ok per_minute burst positive (now + g) id r,
    take_tokens-left size speed (now + g) (found per_minute burst (now + g) id r),
  )

  found-le-size : (now : ℕ) (r : Redis) → found per_minute burst now id r ≤ size
  found-le-size now r = found-le-capacity per_minute burst now id r

  -- Behind a call, the bucket `b` that it left.
  found_after :
      (g : ℕ) (r : Redis) (b : Bucket)
      → r (key_of id) ≡ some b
      → IsBucket size speed b
      → found per_minute burst (b.ts + g) id r ≤ b.tokens + g * speed
  found_after g r b e v =
      rw (e, refilled-live size speed (b.ts + g) b (rate_of-pos per_minute positive) v)
        (refilled-gap size speed g b)

  admitted_after :
      (gs : List ℕ) (now : ℕ) (r : Redis) (b : Bucket)
      → r (key_of id) ≡ some b
      → IsBucket size speed b
      → b.ts ≡ now
      → admitted per_minute burst id now r gs * token ≤ b.tokens + total gs * speed
  admitted_after [] now r b e v at = unfold admitted in omega arith
  admitted_after (g ∷ gs) now r b e v at =
      let t = found per_minute burst (now + g) id r in
      let b' = (outcome per_minute burst (now + g) id r).0 in
      let found_here : t ≤ b.tokens + g * speed = rw (← at) (found_after g r b e v) in
      let rest =
        admitted_after gs (now + g) (allow true (now + g) id per_minute burst r).0 b'
          (allow-key per_minute burst positive (now + g) id r)
          (take_tokens-IsBucket size speed (now + g) t (found-le-size (now + g) r))
          (take_tokens-ts size speed (now + g) t) in
      omega (arith, admitted_step now g r gs, found_here, rest)

-- Of a client's calls, the first at any time and whatever bucket it finds, no more are let through
-- than its burst and what `perMinute` tokens a minute refill between the first call and the last,
-- counted in grains. The rate limit is on, Redis answers, and the calls are in the order of time.
pub admitted-le :
    (per_minute burst : ℤ) (id : Bytes) (now g : ℕ) (r : Redis) (gs : List ℕ)
    → is_positive per_minute ≡ true
    → admitted per_minute burst id now r (g ∷ gs) * token
      ≤ capacity_of per_minute burst + total gs * rate_of per_minute
admitted-le per_minute burst id now g r gs positive =
    let size = capacity_of per_minute burst in
    let t = found per_minute burst (now + g) id r in
    let full : t ≤ size = found-le-size per_minute burst positive id (now + g) r in
    let rest =
      admitted_after per_minute burst positive id gs (now + g)
        (allow true (now + g) id per_minute burst r).0 (outcome per_minute burst (now + g) id r).0
        (allow-key per_minute burst positive (now + g) id r)
        (take_tokens-IsBucket size (rate_of per_minute) (now + g) t full)
        (take_tokens-ts size (rate_of per_minute) (now + g) t) in
    omega (arith, admitted_step per_minute burst positive id now g r gs, full, rest)
