-- ===== src/Metrics.antt =====
-- The latency histograms of src/metrics/metrics.cpp. An update of an atomic field is one step.
mod Merge
mod Buckets
mod Percentile
mod Examples
use kvtier.Prelude.{
  ℕ, zero, suc, ◌+◌, ◌*◌, ◌/◌, ◌^◌, Bool, true, false, ◌||◌, List, [], ◌∷◌, ◌==◌, ltb, leb,
  if◌then◌else◌, get_or, set, replicate,
}
use kvtier.Common.{u64}

abbrev pub kv_hist_buckets : ℕ
kv_hist_buckets = 32

pub record KvHist : Type 0 where
  pub count : List ℕ
  pub n : ℕ
  pub total_ns : ℕ
  pub min_ns : ℕ
  pub max_ns : ℕ

unfoldable pub kv_hist_init : KvHist
kv_hist_init = record {
  count = replicate kv_hist_buckets 0;
  n = 0;
  total_ns = 0;
  min_ns = 0;
  max_ns = 0;
}

-- `63 - __builtin_clzll(ns)`: the place of the highest bit that is set
unfoldable pub high_bit : ℕ → ℕ → ℕ
high_bit zero ns = 0
high_bit (suc fuel) ns = let rest = high_bit fuel (ns / 2) in if ltb ns 2 then 0 else suc rest

unfoldable pub hist_bucket : ℕ → ℕ
hist_bucket ns =
    let b = if ns == 0 then 0 else high_bit 64 ns in if leb kv_hist_buckets b then 31 else b

-- the loop that lowers `min_ns`, where 0 says that there is no sample yet
abbrev pub min_step : ℕ → ℕ → ℕ
min_step cur ns = if (cur == 0) || ltb ns cur then ns else cur

-- the loop that raises `max_ns`
abbrev pub max_step : ℕ → ℕ → ℕ
max_step cur ns = if ltb cur ns then ns else cur

unfoldable pub kv_hist_sample : KvHist → ℕ → KvHist
kv_hist_sample h ns =
    let b = hist_bucket ns in
    record {
      count = set h.count b (u64 (get_or h.count b 0 + 1));
      n = u64 (h.n + 1);
      total_ns = u64 (h.total_ns + ns);
      min_ns = min_step h.min_ns ns;
      max_ns = max_step h.max_ns ns;
    }

unfoldable pub add_counts : List ℕ → List ℕ → List ℕ
add_counts [] src = []
add_counts (d ∷ dst) [] = d ∷ dst
add_counts (d ∷ dst) (s ∷ src) = u64 (d + s) ∷ add_counts dst src

unfoldable pub kv_hist_merge : KvHist → KvHist → KvHist
kv_hist_merge dst src = record {
  count = add_counts dst.count src.count;
  n = u64 (dst.n + src.n);
  total_ns = u64 (dst.total_ns + src.total_ns);
  min_ns = if src.min_ns == 0 then dst.min_ns else min_step dst.min_ns src.min_ns;
  max_ns = if src.max_ns == 0 then dst.max_ns else max_step dst.max_ns src.max_ns;
}

-- the upper edge of a bucket, and the lower one of the last
abbrev pub bucket_edge : ℕ → ℕ
bucket_edge i = if ltb (i + 1) kv_hist_buckets then 2 ^ (i + 1) else 2 ^ i

-- the loop of `kv_hist_percentile` from the bucket `i` on
unfoldable pub percentile_from : ℕ → ℕ → ℕ → List ℕ → ℕ
percentile_from target acc i [] = 0
percentile_from target acc i (c ∷ counts) =
    let sum = u64 (acc + c) in
    let rest = percentile_from target sum (suc i) counts in
    if leb target sum then bucket_edge i else rest

unfoldable pub kv_hist_percentile : KvHist → ℕ → ℕ
kv_hist_percentile h pct =
    if ltb 100 pct
    then 0
    else if h.n == 0
    then 0
    else percentile_from (u64 (h.n * pct + 99) / 100) 0 0 h.count

unfoldable pub kv_hist_avg : KvHist → ℕ
kv_hist_avg h = if h.n == 0 then 0 else h.total_ns / h.n

abbrev pub kv_hist_max : KvHist → ℕ
kv_hist_max h = h.max_ns

abbrev pub kv_hist_count : KvHist → ℕ
kv_hist_count h = h.n
