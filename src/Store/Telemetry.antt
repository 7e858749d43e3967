-- ===== src/Store/Telemetry.antt =====
-- internal/store/store.go: the table of the answered questions, with `LogQuery` and `Stats`. A rate and a
-- mean are the two numbers that are divided; the costs in dollars are left out.
pub mod Percentiles
mod Tests
use ragline.Base.{
  ℕ, ◌+◌, ◌-◌, ◌*◌, ◌/◌, Bool, true, false, List, [], ◌∷◌, ◌++◌, Option, none, some, length, get_or,
  map, leb, ltb, if◌then◌else◌,
}

-- A row of `query_logs`, as far as `Stats` reads it.
pub record LogRow : Type 0 where
  pub created_at : ℕ
  pub answered : Bool
  pub cache_hit : Bool
  pub total_ms : ℕ
  pub ttft_ms : ℕ
  pub prompt_tokens : ℕ
  pub output_tokens : ℕ

-- `LogQuery`
unfoldable pub insert_log : Bool → LogRow → List LogRow → List LogRow
insert_log up l logs = if up then logs ++ l ∷ [] else logs

-- `WHERE created_at > now() - $1::interval`
unfoldable pub since_then : ℕ → ℕ → List LogRow → List LogRow
since_then now since [] = []
since_then now since (l ∷ ls) =
    let rest = since_then now since ls in if ltb now (l.created_at + since) then l ∷ rest else rest

-- `WITHIN GROUP (ORDER BY ...)`
unfoldable pub insert_ms : ℕ → List ℕ → List ℕ
insert_ms m [] = m ∷ []
insert_ms m (n ∷ ns) = let rest = insert_ms m ns in if leb m n then m ∷ n ∷ ns else n ∷ rest

unfoldable pub sort_ms : List ℕ → List ℕ
unfolding insert_ms
sort_ms [] = []
sort_ms (m ∷ ms) = insert_ms m (sort_ms ms)

-- `percentile_disc` of `num / den`: the first value up to which that share of the rows lies. A value out
-- of range is `NULL`, which `COALESCE` makes 0.
abbrev pub disc_index : ℕ → ℕ → ℕ → ℕ
disc_index num den n = (num * n + (den - 1)) / den - 1

unfoldable pub percentile_disc : ℕ → ℕ → List ℕ → ℕ
unfolding sort_ms
percentile_disc num den ms = get_or (sort_ms ms) (disc_index num den (length ms)) 0

unfoldable pub count_true : List Bool → ℕ
count_true [] = 0
count_true (b ∷ bs) = (if b then 1 else 0) + count_true bs

unfoldable pub sum_of : List ℕ → ℕ
sum_of [] = 0
sum_of (n ∷ ns) = n + sum_of ns

-- `Stats`
pub record Stats : Type 0 where
  pub queries : ℕ
  pub cache_hits : ℕ
  pub p50_total_ms : ℕ
  pub p95_total_ms : ℕ
  pub p50_ttft_ms : ℕ
  pub prompt_tokens : ℕ
  pub output_tokens : ℕ
  pub refusals : ℕ

abbrev pub not_answered : LogRow → Bool
not_answered l = if l.answered then false else true

abbrev pub stats_of : List LogRow → Stats
stats_of ls = record {
  queries = length ls;
  cache_hits = count_true (map (λ l. l.cache_hit) ls);
  p50_total_ms = percentile_disc 1 2 (map (λ l. l.total_ms) ls);
  p95_total_ms = percentile_disc 19 20 (map (λ l. l.total_ms) ls);
  p50_ttft_ms = percentile_disc 1 2 (map (λ l. l.ttft_ms) ls);
  prompt_tokens = sum_of (map (λ l. l.prompt_tokens) ls);
  output_tokens = sum_of (map (λ l. l.output_tokens) ls);
  refusals = count_true (map not_answered ls);
}

-- `Stats`, the method.
unfoldable pub read_stats : Bool → ℕ → ℕ → List LogRow → Option Stats
unfolding since_then percentile_disc count_true sum_of
read_stats up now since logs = if up then some (stats_of (since_then now since logs)) else none
