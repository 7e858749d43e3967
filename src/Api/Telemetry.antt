-- ===== src/Api/Telemetry.antt =====
-- internal/api/server.go: `stats` and `healthz`. `parse_duration` is an argument and gives seconds; a
-- negative window is none.
use ragline.Base.{ℕ, ◌-◌, ◌*◌, Bool, List, [], ◌∷◌, Option, none, some, Bytes, codes, if◌then◌else◌}
use ragline.Store.Documents.{Table}
use ragline.Store.Telemetry.{LogRow, Stats, read_stats}
use ragline.Api.{Reply, write_error, write_json}
use ragline.Api.Reads.{CorpusStats, corpus_stats}

-- The body of the reply.
pub record StatsReply : Type 0 where
  pub window : ℕ
  pub queries : Stats
  pub corpus : CorpusStats

abbrev pub day : ℕ
day = 24 * 3600

abbrev pub or_day : Option ℕ → ℕ
or_day none = day
or_day (some d) = d

-- The window that the query names, or a day.
unfoldable pub window_of : (Bytes → Option ℕ) → Bytes → ℕ
window_of parse_duration [] = day
window_of parse_duration (c ∷ v) = or_day (parse_duration (c ∷ v))

abbrev pub no_corpus : CorpusStats
no_corpus = record { documents = 0; ready_docs = 0; chunks = 0; last_ingest = none }

abbrev pub stats_reply : Bytes → ℕ → CorpusStats → Option Stats → Reply StatsReply
stats_reply error_text window corpus none = write_error 500 error_text
stats_reply error_text window corpus (some st) =
    write_json 200 (record { window = window; queries = st; corpus = corpus })

-- `stats`; an error of the counts is dropped.
unfoldable pub stats_handler :
    (Bytes → Option ℕ)
    → Bool
    → Bool
    → Bytes
    → Bytes
    → ℕ
    → List LogRow
    → ℕ
    → Table
    → Reply StatsReply
unfolding window_of read_stats corpus_stats
stats_handler parse_duration stats_up counts_up error_text v now logs chunks docs =
    let window = window_of parse_duration v in
    stats_reply error_text window (if counts_up then corpus_stats chunks docs else no_corpus)
      (read_stats stats_up now window logs)

-- `healthz`, with the start of the server in seconds.
unfoldable pub healthz : ℕ → ℕ → Reply (Bytes × ℕ)
healthz started now = write_json 200 (codes "ok", now - started)
