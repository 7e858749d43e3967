-- ===== src/Gateway.antt =====
-- cmd/gateway/main.go: `openStoreWithRetry` and what `main` does before it serves. Attempt `k` to
-- open the store succeeds if `opens k`, and the context ends in the wait behind it if `ctx_done k`.
pub mod Opening
pub mod Degraded
mod Tests
use ragline.Base.{
  ℕ, zero, suc, ◌+◌, ◌*◌, Bool, true, false, not, Option, none, some, Bytes, List, [], ◌∷◌,
  if◌then◌else◌, ℤ,
}
use ragline.Config.{Config, ConfigError, Loaded, loaded, invalid}
use ragline.Chat.Types.{Service}

-- How `openStoreWithRetry` ends, with the number of waits of two seconds before it.
pub data Opened : Type 0 where
  opened interrupted : ℕ → Opened
  never_opened : Opened

abbrev pub max_attempts : ℕ
max_attempts = 30

module _ (opens ctx_done : ℕ → Bool) where
  -- The loop from attempt `k` on, with `r` attempts left.
  unfoldable pub open_loop : ℕ → ℕ → Opened
  open_loop zero k = never_opened
  open_loop (suc r) k =
      let rest = open_loop r (suc k) in
      if opens k then opened k else if ctx_done k then interrupted k else rest

  -- `openStoreWithRetry`
  unfoldable pub open_store_with_retry : Opened
  unfolding open_loop
  open_store_with_retry = open_loop max_attempts 0

-- The steps at which `main` leaves with status 1.
pub data Exit : Type 0 where
  configuration : ConfigError → Exit
  no_api_key postgres migrate : Exit

-- A gateway that serves: its configuration, the scorer of the store, whether it has a cache, and
-- whether the topics were created.
pub record Gateway (V : Type 0) : Type 0 where
  pub config : Config V
  pub keyword_ranking : Bytes
  pub has_cache : Bool
  pub topics_created : Bool

pub data Started (V : Type 0) : Type 0 where
  exits : Exit → Started V
  serves : Gateway V → Started V

-- What answers at the start of the process.
pub record Outside : Type 0 where
  pub opens : ℕ → Bool
  pub ctx_done : ℕ → Bool
  pub migrates : Bool
  pub redis_answers : Bool
  pub creates_topics : Bool

module _ {V : Type 0} (o : Outside) where
  -- An unavailable Redis and a broker that creates no topics are only logged.
  abbrev pub with_services : Config V → Gateway V
  with_services c = record {
    config = c;
    keyword_ranking = c.keyword_ranking;
    has_cache = o.redis_answers;
    topics_created = o.creates_topics;
  }

  abbrev pub behind_open : Config V → Opened → Started V
  behind_open c (opened k) = if o.migrates then serves (with_services c) else exits migrate
  behind_open c (interrupted k) = exits postgres
  behind_open c never_opened = exits postgres

  abbrev pub with_key : Config V → Bytes → Started V
  with_key c [] = exits no_api_key
  with_key c (b ∷ key) = behind_open c (open_store_with_retry o.opens o.ctx_done)

  -- `main`, up to the server.
  unfoldable pub main : Loaded V → Started V
  unfolding open_store_with_retry
  main (invalid e) = exits (configuration e)
  main (loaded c) = with_key c c.gemini_api_key

-- `chatSvc`: the fields that come from the configuration and from Redis, over a service that has the
-- rest.
unfoldable pub chat_service : {V F E : Type 0} → Gateway V → Service F E → Service F E
chat_service g sv = record sv {
  has_cache = g.has_cache;
  per_minute = g.config.rate_limit_per_minute;
  burst = g.config.rate_limit_burst;
  context_top_n = g.config.context_top_n;
  rerank_top_n = g.config.rerank_top_n;
  history_turns = g.config.history_turns;
  embedding_model = g.config.embedding_model;
  llm_model = g.config.generation_model;
}
