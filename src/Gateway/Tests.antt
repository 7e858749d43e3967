-- ===== src/Gateway/Tests.antt =====
-- A store that opens at the third attempt, and the theorems at such a start.
use ragline.Base.{
  ◌≡◌, refl, true, false, [], none, some, Bytes, codes, trim_space, bytes_eq, ltb, not,
  if◌then◌else◌,
}
use ragline.Config.{Parsers, Loaded, load, read_config}
use ragline.Chat.Sample.{service, request, fresh}
use ragline.Chat.Answer.{answer, retrieve, turn_of}
use ragline.Gateway.{
  serves, opened, open_store_with_retry, Outside, Gateway, with_services, main, chat_service,
}
use ragline.Gateway.Degraded.{answer-degraded}

abbrev parsers : Parsers Bytes
parsers = record {
  atoi = λ s. none;
  parse_float = λ s. some s;
  parse_duration = λ s. none;
  float_of = λ s. s;
}

abbrev only_key : Bytes → Bytes
only_key k = if bytes_eq k (codes "GEMINI_API_KEY") then codes "k" else []

-- PostgreSQL answers from the third attempt on, Redis never.
abbrev outside : Outside
outside = record {
  opens = λ k. not (ltb k 2);
  ctx_done = λ k. false;
  migrates = true;
  redis_answers = false;
  creates_topics = false;
}

third_attempt : open_store_with_retry outside.opens outside.ctx_done ≡ opened 2
unfolding open_store_with_retry
third_attempt = refl

abbrev start : Loaded Bytes
start = load parsers only_key

abbrev gateway : Gateway Bytes
gateway = with_services outside (read_config parsers only_key)

answer-degraded_example :
    (main (record outside { redis_answers = false }) start
      ≡ serves (record gateway { has_cache = false }))
    × (answer (chat_service (record gateway { has_cache = false }) service) request fresh
        ≡ retrieve
            (chat_service (record gateway { has_cache = false }) service)
            (turn_of
              (chat_service (record gateway { has_cache = false }) service)
              request
              (trim_space request.question)
              fresh)
            fresh)
unfolding main load bytes_eq trim_space
answer-degraded_example =
    answer-degraded outside start (record gateway { has_cache = true }) service request fresh refl
      refl
