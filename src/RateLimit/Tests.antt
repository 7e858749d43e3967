-- ===== src/RateLimit/Tests.antt =====
-- Runs of the rate limiter, and the theorems at inputs.
use ragline.Base.{
  ◌+◌, ◌*◌, ◌≤◌, ◌≡◌, refl, true, ◌&&◌, ltb, if◌then◌else◌, [], ◌∷◌, ◌++◌, none, some, codes,
  bytes_eq, arith, pos, negsuc, is_positive, replicate,
}
use ragline.RateLimit.{
  Bucket, Redis, token, second, ttl, live, wait_of, rate_of, capacity_of, token_bucket_script,
  allow, check_rate_limit, client_or_anonymous,
}
use ragline.RateLimit.Expiry.{script-live}
use ragline.RateLimit.Window.{admitted, total, admitted-le}
use ragline.RateLimit.Retry.{retry_after_header-admits, check_rate_limit-refuses}
use ragline.RateLimit.Clients.{found, outcome}

abbrev no_keys : Redis
no_keys _ = none

-- 30 requests a minute with a burst of 10: of twelve at once ten pass, and one more 2 s later.
burst_of_ten :
    admitted (pos 30) (pos 10) (codes "m") 0 no_keys (replicate 12 0 ++ (2 * second) ∷ 0 ∷ []) ≡ 11
unfolding admitted allow bytes_eq
burst_of_ten = refl

abbrev idle : Bucket
idle = record { tokens = 0; ts = 5; expires = 5 + ttl (10 * token) 30 }

script-live_example :
    token_bucket_script (10 * token) 30 (100 * second) token (live (100 * second) (some idle))
    ≡ token_bucket_script (10 * token) 30 (100 * second) token (some idle)
script-live_example =
    script-live (10 * token) 30 (100 * second) token idle (omega arith)
      (record { fits = omega arith; lasts = refl })

admitted-le_example :
    admitted (pos 30) (negsuc 0) (codes "m") 0 no_keys (0 ∷ 7 ∷ second ∷ []) * token
    ≤ capacity_of (pos 30) (negsuc 0) + total (7 ∷ second ∷ []) * rate_of (pos 30)
admitted-le_example = admitted-le (pos 30) (negsuc 0) (codes "m") 0 0 no_keys (7 ∷ second ∷ []) refl

-- The one token of this client is taken.
abbrev spent : Redis
spent _ = some (record { tokens = 7; ts = 0; expires = ttl token 30 })

retry_after_header-admits_example :
    (allow true
      (3 * second)
      (codes "m")
      (pos 30)
      (pos 1)
      (allow true second (codes "m") (pos 30) (pos 1) spent).0).1.ok
    ≡ true
unfolding allow
retry_after_header-admits_example =
    retry_after_header-admits (pos 30) (pos 1) (codes "m") second (3 * second) spent refl refl
      (omega arith)

check_rate_limit-refuses_example :
    (check_rate_limit true true second [] (pos 30) (pos 1) spent).1 ≡ (
      if true
        && true
        && is_positive (pos 30)
        && ltb (found (pos 30) (pos 1) second (client_or_anonymous []) spent) token
      then some (
          wait_of
            (rate_of (pos 30))
            (outcome (pos 30) (pos 1) second (client_or_anonymous []) spent).1)
      else none)
check_rate_limit-refuses_example =
    check_rate_limit-refuses true true second [] (pos 30) (pos 1) spent
