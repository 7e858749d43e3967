-- ===== src/Store/Telemetry/Percentiles.antt =====
-- The percentiles that `Stats` reports.
use ragline.Base.{
  ℕ, zero, suc, ◌+◌, ◌*◌, ◌≤◌, ◌<◌, ◌≡◌, refl, true, List, [], ◌∷◌, some, arith, length, length-map,
  get_or, map, leb, ltb, if◌then◌else◌, Bool-cases, inl, inr,
}
use ragline.Store.Telemetry.{
  LogRow, insert_ms, sort_ms, percentile_disc, disc_index, since_then, Stats, read_stats, stats_of,
}

-- How many values are at most, and how many are below a number.
pub count_le : ℕ → List ℕ → ℕ
count_le v [] = 0
count_le v (m ∷ ms) = (if leb m v then 1 else 0) + count_le v ms

pub count_lt : ℕ → List ℕ → ℕ
count_lt v [] = 0
count_lt v (m ∷ ms) = (if ltb m v then 1 else 0) + count_lt v ms

-- Ascending from a lower bound on.
abbrev Ascends : ℕ → List ℕ → Type 0
Ascends lo [] = Unit
Ascends lo (m ∷ ms) = (lo ≤ m) × Ascends m ms

Ascends-insert : (lo m : ℕ) (ms : List ℕ) → lo ≤ m → Ascends lo ms → Ascends lo (insert_ms m ms)
unfolding insert_ms
Ascends-insert lo m [] h a = (h, tt)
Ascends-insert lo m (n ∷ ns) h (b, a) = elim (Bool-cases (leb m n)) [
  | inl small ↦ rw small (h, (ground arith, a))
  | inr large ↦ rw large (b, Ascends-insert n m ns (ground arith) a)
]

sort_ms-Ascends : (ms : List ℕ) → Ascends 0 (sort_ms ms)
unfolding sort_ms
sort_ms-Ascends [] = tt
sort_ms-Ascends (m ∷ ms) = Ascends-insert 0 m (sort_ms ms) (omega arith) (sort_ms-Ascends ms)

insert-counts :
    (v m : ℕ) (ms : List ℕ)
    → (count_le v (insert_ms m ms) ≡ (if leb m v then 1 else 0) + count_le v ms)
      × (count_lt v (insert_ms m ms) ≡ (if ltb m v then 1 else 0) + count_lt v ms)
      × (length (insert_ms m ms) ≡ suc (length ms))
unfolding insert_ms count_le count_lt
insert-counts v m [] = (refl, refl, refl)
insert-counts v m (n ∷ ns) =
    let (le, lt, len) = insert-counts v m ns in
    (ground (arith, le), ground (arith, lt), ground (arith, len))

sort-counts :
    (v : ℕ) (ms : List ℕ)
    → (count_le v (sort_ms ms) ≡ count_le v ms)
      × (count_lt v (sort_ms ms) ≡ count_lt v ms)
      × (length (sort_ms ms) ≡ length ms)
unfolding sort_ms count_le count_lt
sort-counts v [] = (refl, refl, refl)
sort-counts v (m ∷ ms) =
    let (le, lt, len) = sort-counts v ms in
    let (le', lt', len') = insert-counts v m (sort_ms ms) in
    (omega (arith, le, le'), omega (arith, lt, lt'), omega (arith, len, len'))

-- No value of an ascending list lies below its bound.
none_below : (v lo : ℕ) (ms : List ℕ) → v ≤ lo → Ascends lo ms → count_lt v ms ≡ 0
unfolding count_lt
none_below v lo [] h a = refl
none_below v lo (m ∷ ms) h (b, a) = ground (arith, none_below v m ms (omega arith) a)

get-Ascends : (lo : ℕ) (ms : List ℕ) (i : ℕ) → i < length ms → Ascends lo ms → lo ≤ get_or ms i 0
get-Ascends lo [] i h a = absurd (omega arith)
get-Ascends lo (m ∷ ms) zero h (b, a) = b
get-Ascends lo (m ∷ ms) (suc i) h (b, a) =
    let deep = get-Ascends m ms i (omega arith) a in omega (arith, deep)

-- The value at a position: up to it lie at least the values in front, below it no more than those.
get-counts :
    (lo : ℕ) (ms : List ℕ) (i : ℕ)
    → i < length ms
    → Ascends lo ms
    → (suc i ≤ count_le (get_or ms i 0) ms) × (count_lt (get_or ms i 0) ms ≤ i)
unfolding count_le count_lt
get-counts lo [] i h a = absurd (omega arith)
get-counts lo (m ∷ ms) zero h (b, a) =
    (ground arith, ground (arith, none_below m m ms (omega arith) a))
get-counts lo (m ∷ ms) (suc i) h (b, a) =
    let (le, lt) = get-counts m ms i (omega arith) a in
    let above = get-Ascends m ms i (omega arith) a in
    (ground (arith, le, above), ground (arith, lt, above))

get-rises :
    (lo : ℕ) (ms : List ℕ) (i j : ℕ)
    → i ≤ j
    → j < length ms
    → Ascends lo ms
    → get_or ms i 0 ≤ get_or ms j 0
get-rises lo [] i j h k a = absurd (omega arith)
get-rises lo (m ∷ ms) zero zero h k a = omega arith
get-rises lo (m ∷ ms) zero (suc j) h k (b, a) = get-Ascends m ms j (omega arith) a
get-rises lo (m ∷ ms) (suc i) zero h k a = absurd (omega arith)
get-rises lo (m ∷ ms) (suc i) (suc j) h k (b, a) = get-rises m ms i j (omega arith) (omega arith) a

-- The share `num / den` of the values is at most `v`, and less than that share is below it.
pub record IsPercentile (num den : ℕ) (ms : List ℕ) (v : ℕ) : Type 0 where
  pub reaches : num * length ms ≤ den * count_le v ms
  pub first : den * count_lt v ms < num * length ms

module _ (ms : List ℕ) (some_ms : 0 < length ms) where
  at_rank :
      (i : ℕ)
      → i < length ms
      → (suc i ≤ count_le (get_or (sort_ms ms) i 0) ms)
        × (count_lt (get_or (sort_ms ms) i 0) ms ≤ i)
  at_rank i h =
      let v = get_or (sort_ms ms) i 0 in
      let (le, lt, len) = sort-counts v ms in
      let (reach, below) = get-counts 0 (sort_ms ms) i (omega (arith, len)) (sort_ms-Ascends ms) in
      (omega (arith, le, reach), omega (arith, lt, below))

  median : IsPercentile 1 2 ms (percentile_disc 1 2 ms)
  unfolding percentile_disc
  median =
      let (le, lt) = at_rank (disc_index 1 2 (length ms)) (omega arith) in
      record { reaches = omega (arith, le); first = omega (arith, lt) }

  slow_tail : IsPercentile 19 20 ms (percentile_disc 19 20 ms)
  unfolding percentile_disc
  slow_tail =
      let (le, lt) = at_rank (disc_index 19 20 (length ms)) (omega arith) in
      record { reaches = omega (arith, le); first = omega (arith, lt) }

  median-le : percentile_disc 1 2 ms ≤ percentile_disc 19 20 ms
  unfolding percentile_disc
  median-le =
      let (_, _, len) = sort-counts 0 ms in
      get-rises 0 (sort_ms ms) (disc_index 1 2 (length ms)) (disc_index 19 20 (length ms))
        (omega arith) (omega (arith, len)) (sort_ms-Ascends ms)

abbrev pub totals : List LogRow → List ℕ
totals ls = map (λ l. l.total_ms) ls

abbrev pub first_tokens : List LogRow → List ℕ
first_tokens ls = map (λ l. l.ttft_ms) ls

-- Where questions were logged in the window, half of them took at most the reported median and fewer than
-- half took less, nineteen in twenty took at most the reported 95th percentile and fewer took less, the
-- first never exceeds the second, and the median of the times to the first token is one too.
pub read_stats-percentiles :
    (now since : ℕ) (logs : List LogRow)
    → 0 < length (since_then now since logs)
    → (st : Stats) × (read_stats true now since logs ≡ some st)
      × IsPercentile 1 2 (totals (since_then now since logs)) st.p50_total_ms
      × IsPercentile 19 20 (totals (since_then now since logs)) st.p95_total_ms
      × (st.p50_total_ms ≤ st.p95_total_ms)
      × IsPercentile 1 2 (first_tokens (since_then now since logs)) st.p50_ttft_ms
unfolding read_stats
read_stats-percentiles now since logs h =
    let ls = since_then now since logs in
    let timed : 0 < length (totals ls) = omega (arith, length-map ls (λ l. l.total_ms)) in
    let begun : 0 < length (first_tokens ls) = omega (arith, length-map ls (λ l. l.ttft_ms)) in
    (
      stats_of ls,
      refl,
      median (totals ls) timed,
      slow_tail (totals ls) timed,
      median-le (totals ls) timed,
      median (first_tokens ls) begun,
    )
