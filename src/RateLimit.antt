-- ===== src/RateLimit.antt =====
-- internal/cache/cache.go: the token bucket (`tokenBucketScript`, `Cache.Allow`), with its caller in
-- internal/chat/chat.go (`checkRateLimit`) and the header that internal/api/server.go answers with
-- (`writeChatError`).
--
-- The script computes in floating point; here the numbers are exact. Times are nanoseconds, and a
-- token is divided into 60 * 10^9 grains, so that `perMinute` tokens a minute are `perMinute` grains
-- a nanosecond.
pub mod Expiry
pub mod Window
pub mod Retry
pub mod Clients
mod Tests
use ragline.Base.{
  ℕ, ◌+◌, ◌-◌, ◌*◌, ◌/◌, ◌^◌, Bool, true, false, Option, none, some, List, [], ◌∷◌, ◌++◌, Bytes,
  codes, bytes_eq, min, leb, ltb, ◌==◌, if◌then◌else◌, ℤ, pos_part, is_positive,
}

abbrev pub second : ℕ
second = 10 ^ 9

abbrev pub token : ℕ
token = 60 * second

-- The hash at the client's key, and the time at which Redis drops it.
pub record Bucket : Type 0 where
  pub tokens : ℕ
  pub ts : ℕ
  pub expires : ℕ

-- What the script returns: `retry_after` is `lacking` grains at the refill rate.
pub record Reply : Type 0 where
  pub allowed : Bool
  pub tokens : ℕ
  pub lacking : ℕ

-- `math.ceil(capacity / rate * 2) + 1` seconds, for `rate` grains a nanosecond.
abbrev pub ceil_div : ℕ → ℕ → ℕ
ceil_div a b = (a + (b - 1)) / b

abbrev pub ttl : ℕ → ℕ → ℕ
ttl capacity rate = (ceil_div (2 * capacity) (rate * second) + 1) * second

-- `tokens == nil`: a bucket that is not there is full as of now.
unfoldable pub stored_tokens : ℕ → Option Bucket → ℕ
stored_tokens capacity none = capacity
stored_tokens capacity (some b) = b.tokens

unfoldable pub stored_ts : ℕ → Option Bucket → ℕ
stored_ts now none = now
stored_ts now (some b) = b.ts

-- `math.min(capacity, tokens + math.max(0, now - ts) * rate)`; `-` stops at 0.
unfoldable pub refilled : ℕ → ℕ → ℕ → Option Bucket → ℕ
unfolding stored_tokens stored_ts
refilled capacity rate now state =
    min capacity (stored_tokens capacity state + (now - stored_ts now state) * rate)

-- The script behind the refill: take the tokens that were asked for, if they are there.
unfoldable pub take_tokens : ℕ → ℕ → ℕ → ℕ → ℕ → Bucket × Reply
take_tokens capacity rate now requested tokens =
    let allowed = leb requested tokens in
    let left = if allowed then tokens - requested else tokens in
    (
      record { tokens = left; ts = now; expires = now + ttl capacity rate },
      record {
        allowed = allowed;
        tokens = left;
        lacking = if allowed then 0 else if ltb 0 rate then requested - left else 0;
      },
    )

-- `tokenBucketScript`: the new hash and the reply.
unfoldable pub token_bucket_script : ℕ → ℕ → ℕ → ℕ → Option Bucket → Bucket × Reply
unfolding refilled take_tokens
token_bucket_script capacity rate now requested state =
    take_tokens capacity rate now requested (refilled capacity rate now state)

-- Redis: the buckets by key; a key is gone when its time has come.
abbrev pub Redis : Type 0
Redis = Bytes → Option Bucket

abbrev pub live : ℕ → Option Bucket → Option Bucket
live now none = none
live now (some b) = if leb b.expires now then none else some b

abbrev pub store_at : Redis → Bytes → Bucket → Redis
store_at r key b j = if bytes_eq j key then some b else r j

-- The results of `Allow`: `ok`, `retryAfter` in nanoseconds, and whether there was an error.
pub record Verdict : Type 0 where
  pub ok : Bool
  pub retry_after : ℕ
  pub failed : Bool

-- `time.Duration(secs * float64(time.Second))` cuts the fraction off.
abbrev pub wait_of : ℕ → Reply → ℕ
wait_of rate reply = reply.lacking / rate

abbrev pub burst_of : ℤ → ℤ → ℤ
burst_of per_minute burst = if is_positive burst then burst else per_minute

-- The arguments of the script: tokens a minute are grains a nanosecond, the burst is in grains.
abbrev pub rate_of : ℤ → ℕ
rate_of per_minute = pos_part per_minute

abbrev pub capacity_of : ℤ → ℤ → ℕ
capacity_of per_minute burst = pos_part (burst_of per_minute burst) * token

-- `Allow`, where `up` says whether Redis answers.
unfoldable pub allow : Bool → ℕ → Bytes → ℤ → ℤ → Redis → Redis × Verdict
unfolding token_bucket_script
allow up now client_id per_minute burst r =
    let key = codes "rl:" ++ client_id in
    let rate = rate_of per_minute in
    let capacity = capacity_of per_minute burst in
    let (b, reply) = token_bucket_script capacity rate now token (live now (r key)) in
    if is_positive per_minute
    then (if up
        then (
          store_at r key b,
          record { ok = reply.allowed; retry_after = wait_of rate reply; failed = false },
        )
        else (r, record { ok = true; retry_after = 0; failed = true }))
    else (r, record { ok = true; retry_after = 0; failed = false })

abbrev client_or_anonymous : Bytes → Bytes
client_or_anonymous [] = codes "anonymous"
client_or_anonymous (c ∷ s) = c ∷ s

-- `checkRateLimit`: `some wait` is `ErrRateLimited`; a service without a cache limits nothing.
unfoldable pub check_rate_limit : Bool → Bool → ℕ → Bytes → ℤ → ℤ → Redis → Redis × Option ℕ
unfolding allow
check_rate_limit has_cache up now client_id per_minute burst r =
    let (r', v) = allow up now (client_or_anonymous client_id) per_minute burst r in
    if has_cache
    then (if is_positive per_minute
        then (r', if v.failed then none else if v.ok then none else some v.retry_after)
        else (r, none))
    else (r, none)

-- `Retry-After` in `writeChatError`: whole seconds, and one more.
abbrev pub retry_after_header : ℕ → ℕ
retry_after_header wait = wait / second + 1
