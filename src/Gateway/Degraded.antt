-- ===== src/Gateway/Degraded.antt =====
-- A gateway that starts without Redis.
use ragline.Base.{
  ℕ, ◌≡◌, refl, ap, ℤ, ◌∙◌, Bool, true, false, ◌&&◌, not, none, Bytes, [], ◌∷◌, trim_space,
  if◌then◌else◌,
}
use ragline.Config.{Config, Loaded, loaded, invalid}
use ragline.Api.Heading.{is_blank}
use ragline.RateLimit.{Redis, check_rate_limit}
use ragline.Chat.Types.{Service, Request, World}
use ragline.Chat.Answer.{answer, ask, admit, serve, retrieve, lookup, turn_of}
use ragline.Gateway.{
  Opened, Outside, Started, Gateway, exits, migrate, serves, with_services, behind_open, with_key,
  open_store_with_retry, main, chat_service,
}

-- The same start without a cache.
abbrev without_cache : {V : Type 0} → Started V → Started V
without_cache (exits e) = exits e
without_cache (serves g) = serves (record g { has_cache = false })

abbrev with_redis : Outside → Bool → Outside
with_redis o b = record o { redis_answers = b }

module _ {V : Type 0} (o : Outside) where
  migrated-down :
      (b : Bool) (c : Config V)
      → (if b then serves (with_services (with_redis o false) c) else exits migrate)
        ≡ without_cache (if b then serves (with_services (with_redis o true) c) else exits migrate)
  migrated-down true c = refl
  migrated-down false c = refl

  behind_open-down :
      (c : Config V) (x : Opened)
      → behind_open (with_redis o false) c x ≡ without_cache (behind_open (with_redis o true) c x)
  behind_open-down c (Opened.opened k) = migrated-down o.migrates c
  behind_open-down c (Opened.interrupted k) = refl
  behind_open-down c Opened.never_opened = refl

  with_key-down :
      (c : Config V) (key : Bytes)
      → with_key (with_redis o false) c key ≡ without_cache (with_key (with_redis o true) c key)
  with_key-down c [] = refl
  with_key-down c (b ∷ key) = behind_open-down c (open_store_with_retry o.opens o.ctx_done)

  main-down :
      (l : Loaded V) → main (with_redis o false) l ≡ without_cache (main (with_redis o true) l)
  unfolding main
  main-down (invalid x) = refl
  main-down (loaded c) = with_key-down c c.gemini_api_key

-- A service without a cache limits nobody.
check_rate_limit-none :
    (b up : Bool) (now : ℕ) (id : Bytes) (per_minute burst : ℤ) (r : Redis)
    → b ≡ false
    → check_rate_limit b up now id per_minute burst r ≡ (r, none)
unfolding check_rate_limit
check_rate_limit-none true up now id per_minute burst r h = cc
check_rate_limit-none false up now id per_minute burst r h = refl

and_false : (a b c : Bool) → c ≡ false → (a && b && c) ≡ false
and_false true true c h = h
and_false true false c h = refl
and_false false b c h = refl

module _ {F E : Type 0} (sv : Service F E) (h : sv.has_cache ≡ false) where
  lookup-none : (b : Bool) (key : Bytes) (w : World E) → b ≡ false → lookup sv b key w ≡ none
  lookup-none true key w e = cc
  lookup-none false key w e = refl

  turn_of-cacheable :
      (req : Request) (q : Bytes) (w : World E) → (turn_of sv req q w).cacheable ≡ false
  unfolding turn_of
  turn_of-cacheable req q w = and_false _ (not req.no_cache) sv.has_cache h

  admit-retrieve :
      (req : Request) (q : Bytes) (w : World E)
      → admit sv req q none w ≡ retrieve sv (turn_of sv req q w) w
  unfolding admit serve
  admit-retrieve req q w =
      let t = turn_of sv req q w in
      ap (λ o. serve sv t o w) (lookup-none t.cacheable t.key w (turn_of-cacheable req q w))

  ask-retrieve :
      (req : Request) (c : ℕ) (s : Bytes) (w : World E)
      → ask sv req (c ∷ s) w ≡ retrieve sv (turn_of sv req (c ∷ s) w) w
  unfolding ask
  ask-retrieve req c s w =
      ap (λ x. admit sv req (c ∷ s) x.1 (record w { redis = x.0 }))
        (check_rate_limit-none sv.has_cache sv.redis_up sv.now req.client_id sv.per_minute sv.burst
          w.redis h)
      ∙ admit-retrieve req (c ∷ s) w

  ask-nonblank :
      (req : Request) (q : Bytes) (w : World E)
      → is_blank q ≡ false
      → ask sv req q w ≡ retrieve sv (turn_of sv req q w) w
  ask-nonblank req [] w e = cc
  ask-nonblank req (c ∷ s) w e = ask-retrieve req c s w

-- Where a gateway serves with a Redis that answers at its start, it serves as well with one that does
-- not, all else being the same, with the same configuration and no cache; then a question that is not blank goes straight to
-- retrieval, whatever the limits are and whatever is cached.
pub answer-degraded :
    {V F E : Type 0} (o : Outside) (l : Loaded V) (g : Gateway V) (sv : Service F E) (req : Request)
    (w : World E)
    → main (record o { redis_answers = true }) l ≡ serves g
    → is_blank (trim_space req.question) ≡ false
    → (main (record o { redis_answers = false }) l ≡ serves (record g { has_cache = false }))
      × (answer (chat_service (record g { has_cache = false }) sv) req w
          ≡ retrieve
              (chat_service (record g { has_cache = false }) sv)
              (turn_of
                (chat_service (record g { has_cache = false }) sv)
                req
                (trim_space req.question)
                w)
              w)
unfolding answer chat_service
answer-degraded o l g sv req w e q = (
  main-down o l ∙ ap without_cache e,
  ask-nonblank (chat_service (record g { has_cache = false }) sv) refl req (trim_space req.question)
      w q,
)
