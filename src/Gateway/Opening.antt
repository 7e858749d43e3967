-- ===== src/Gateway/Opening.antt =====
-- Which attempt opens the store, and when the gateway serves.
use ragline.Base.{ℕ, suc, ◌+◌, ◌<◌, ◌≡◌, Bool, true, false}
use ragline.Config.{Config, ConfigError, Loaded, loaded, invalid}
use ragline.Api.Heading.{is_blank}
use ragline.Gateway.{
  Opened, opened, interrupted, never_opened, max_attempts, Outside, Started, exits, serves,
  configuration, no_api_key, postgres, migrate, with_services,
}

abbrev pub is_opened : Opened → Bool
is_opened (opened k) = true
is_opened _ = false

module _ (opens ctx_done : ℕ → Bool) where
  -- The attempts from `k` up to `m` all failed, and the context lasted.
  pub data AllFailed (m : ℕ) : ℕ → Type 0 where
    no_attempt : AllFailed m m
    failed_first :
        (k : ℕ) → opens k ≡ false → ctx_done k ≡ false → AllFailed m (suc k) → AllFailed m k

  -- How `r` attempts from `k` on end.
  pub data Ended (r k : ℕ) : Opened → Type 0 where
    first_success : (m : ℕ) → m < k + r → AllFailed m k → opens m ≡ true → Ended r k (opened m)
    stopped :
        (m : ℕ)
        → m < k + r
        → AllFailed m k
        → opens m ≡ false
        → ctx_done m ≡ true
        → Ended r k (interrupted m)
    all_failed : AllFailed (k + r) k → Ended r k never_opened

-- How the start of the process ends, by what `Load` returned.
pub data Starts {V : Type 0} (o : Outside) : Loaded V → Started V → Type 0 where
  bad_configuration : (e : ConfigError) → Starts o (invalid e) (exits (configuration e))
  key_missing :
      (c : Config V) → is_blank c.gemini_api_key ≡ true → Starts o (loaded c) (exits no_api_key)
  no_store :
      (c : Config V) (x : Opened)
      → is_blank c.gemini_api_key ≡ false
      → Ended o.opens o.ctx_done max_attempts 0 x
      → is_opened x ≡ false
      → Starts o (loaded c) (exits postgres)
  not_migrated :
      (c : Config V) (k : ℕ)
      → Ended o.opens o.ctx_done max_attempts 0 (opened k)
      → o.migrates ≡ false
      → Starts o (loaded c) (exits migrate)
  served :
      (c : Config V) (k : ℕ)
      → is_blank c.gemini_api_key ≡ false
      → Ended o.opens o.ctx_done max_attempts 0 (opened k)
      → o.migrates ≡ true
      → Starts o (loaded c) (serves (with_services o c))
