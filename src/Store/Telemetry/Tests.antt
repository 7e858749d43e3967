-- ===== src/Store/Telemetry/Tests.antt =====
-- Four answered questions, of which one is older than the window.
use ragline.Base.{ℕ, ◌≤◌, ◌≡◌, refl, arith, true, false, List, [], ◌∷◌, some}
use ragline.Store.Telemetry.{LogRow, since_then, insert_log, Stats, read_stats}
use ragline.Store.Telemetry.Percentiles.{IsPercentile, totals, first_tokens, read_stats-percentiles}

abbrev log : ℕ → ℕ → LogRow
log at ms = record {
  created_at = at;
  answered = true;
  cache_hit = false;
  total_ms = ms;
  ttft_ms = 10;
  prompt_tokens = 100;
  output_tokens = 20;
}

abbrev logs : List LogRow
logs = log 10 1 ∷ log 95 900 ∷ log 96 300 ∷ log 97 400 ∷ []

abbrev times_of : Stats → ℕ × ℕ × ℕ
times_of st = (st.queries, st.p50_total_ms, st.p95_total_ms)

recent :
    (st : Stats) × (read_stats true 100 60 (insert_log true (log 98 350) logs) ≡ some st)
    × (times_of st ≡ (4, 350, 900))
unfolding read_stats insert_log
recent = (_, refl, refl)

read_stats-percentiles_example :
    (st : Stats) × (read_stats true 100 60 logs ≡ some st)
    × IsPercentile 1 2 (totals (since_then 100 60 logs)) st.p50_total_ms
    × IsPercentile 19 20 (totals (since_then 100 60 logs)) st.p95_total_ms
    × (st.p50_total_ms ≤ st.p95_total_ms)
    × IsPercentile 1 2 (first_tokens (since_then 100 60 logs)) st.p50_ttft_ms
unfolding since_then
read_stats-percentiles_example = read_stats-percentiles 100 60 logs (omega arith)
