-- ===== src/RateLimit/Retry.antt =====
-- The advice to a client that was refused: the wait is enough, and the limiter fails open.
use native.Mathlib.Nat.{mul-le-mul_right, div-add-mod', mod-lt}
use ragline.Base.{
  ℕ, ◌+◌, ◌-◌, ◌*◌, ◌/◌, ◌≤◌, ◌<◌, ◌≡◌, refl, sym, ◌∙◌, Bool, true, false, ◌&&◌, none, some, Bytes,
  arith, ℤ, is_positive, leb, ltb, min, if◌then◌else◌,
}
use ragline.RateLimit.{
  Bucket, token, second, refilled, take_tokens, Redis, wait_of, rate_of, capacity_of, allow,
  check_rate_limit, client_or_anonymous, retry_after_header,
}
use ragline.RateLimit.Expiry.{IsBucket, refilled-live}
use ragline.RateLimit.Clients.{
  rate_of-pos, token-le-capacity_of, found, outcome, found-le-capacity, allow-ok, allow-key,
  allow-retry_after,
}

-- A refusal leaves the tokens that it found, and names what is lacking.
take_tokens_refused :
    (capacity rate now tokens : ℕ)
    → leb token tokens ≡ false
    → 0 < rate
    → ((take_tokens capacity rate now token tokens).0.tokens ≡ tokens)
      × ((take_tokens capacity rate now token tokens).1.lacking + tokens ≡ token)
unfolding take_tokens
take_tokens_refused capacity rate now tokens h pos = (ground arith, ground arith)

-- After the whole seconds of the header the refill has made up what was lacking.
header_refills :
    (lacking rate d : ℕ)
    → 0 < rate
    → retry_after_header (lacking / rate) * second ≤ d
    → lacking ≤ d * rate
header_refills lacking rate d pos h =
    let longer : lacking / rate + 1 ≤ d = omega arith in
    omega (arith, mul-le-mul_right rate longer, div-add-mod' lacking rate, mod-lt lacking pos)

refilled-later :
    (capacity rate now later : ℕ) (b : Bucket)
    → b.ts ≡ now
    → refilled capacity rate later (some b) ≡ min capacity (b.tokens + (later - now) * rate)
unfolding refilled
refilled-later capacity rate now later b at = rw at

refused_facts :
    (capacity rate now tokens : ℕ)
    → tokens ≤ capacity
    → IsBucket capacity rate (take_tokens capacity rate now token tokens).0
      × ((take_tokens capacity rate now token tokens).0.ts ≡ now)
unfolding take_tokens
refused_facts capacity rate now tokens h = (record { fits = ground arith; lasts = refl }, refl)

module _ (per_minute burst : ℤ) (id : Bytes) (now later : ℕ) (r : Redis)
    (positive : is_positive per_minute ≡ true)
    (refused : (allow true now id per_minute burst r).1.ok ≡ false)
    (waited : now + retry_after_header (allow true now id per_minute burst r).1.retry_after * second
      ≤ later) where
  abbrev speed : ℕ
  speed = rate_of per_minute

  abbrev size : ℕ
  size = capacity_of per_minute burst

  abbrev tokens : ℕ
  tokens = found per_minute burst now id r

  abbrev left : Bucket
  left = (outcome per_minute burst now id r).0

  few : leb token tokens ≡ false
  few = sym (allow-ok per_minute burst positive now id r) ∙ refused

  enough : token ≤ left.tokens + (later - now) * speed
  enough =
      let (kept, lacks) =
        take_tokens_refused size speed now tokens few (rate_of-pos per_minute positive) in
      let lacking = (outcome per_minute burst now id r).1.lacking in
      omega (
        arith,
        header_refills lacking speed (later - now) (rate_of-pos per_minute positive)
            (omega (arith, allow-retry_after per_minute burst positive now id r)),
        kept,
        lacks,
      )

  found_later :
      found per_minute burst later id (allow true now id per_minute burst r).0
      ≡ min size (left.tokens + (later - now) * speed)
  found_later =
      let (v, at) =
        refused_facts size speed now tokens (found-le-capacity per_minute burst now id r) in
      rw
        (
          allow-key per_minute burst positive now id r,
          refilled-live size speed later left (rate_of-pos per_minute positive) v,
        )
        (refilled-later size speed now later left at)

  admitted_later :
      (allow true later id per_minute burst (allow true now id per_minute burst r).0).1.ok ≡ true
  admitted_later =
      allow-ok per_minute burst positive later id (allow true now id per_minute burst r).0
      ∙ rw found_later (ground (arith, enough, token-le-capacity_of per_minute burst positive))

-- A client that was refused and then waits the seconds of the `Retry-After` header, with no call in
-- between, is let through. The rate limit is on and Redis answers.
pub retry_after_header-admits :
    (per_minute burst : ℤ) (id : Bytes) (now later : ℕ) (r : Redis)
    → is_positive per_minute ≡ true
    → (allow true now id per_minute burst r).1.ok ≡ false
    → now + retry_after_header (allow true now id per_minute burst r).1.retry_after * second ≤ later
    → (allow true later id per_minute burst (allow true now id per_minute burst r).0).1.ok ≡ true
retry_after_header-admits = admitted_later

-- `checkRateLimit` refuses exactly when there is a cache, Redis answers, a rate is set and the
-- client's bucket, refilled, holds less than a token; in every other case, an unreachable Redis
-- included, the request goes on.
pub check_rate_limit-refuses :
    (has_cache up : Bool) (now : ℕ) (id : Bytes) (per_minute burst : ℤ) (r : Redis)
    → (check_rate_limit has_cache up now id per_minute burst r).1 ≡ (
        if has_cache
          && up
          && is_positive per_minute
          && ltb (found per_minute burst now (client_or_anonymous id) r) token
        then some (
            wait_of
              (rate_of per_minute)
              (outcome per_minute burst now (client_or_anonymous id) r).1)
        else none)
unfolding check_rate_limit
check_rate_limit-refuses has_cache up now id per_minute burst r = ground arith
