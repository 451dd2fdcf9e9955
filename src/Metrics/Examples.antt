-- ===== src/Metrics/Examples.antt =====
-- src/metrics/metrics.cpp on a few samples.
use kvtier.Prelude.{
  ℕ, suc, ◌*◌, ◌^◌, ◌<◌, ◌≤◌, ◌≡◌, refl, [], ◌∷◌, ◌++◌, take, replicate, ◌⊎◌, arith,
}
use kvtier.Metrics.{
  KvHist, high_bit, hist_bucket, kv_hist_init, kv_hist_sample, kv_hist_merge, kv_hist_percentile,
  percentile_from, kv_hist_avg,
}
use kvtier.Metrics.Merge.{sample_all, kv_hist_merge_lem}
use kvtier.Metrics.Percentile.{IsEdge, total_count, kv_hist_percentile_lem}

buckets :
    (hist_bucket 0 ≡ 0)
    × (hist_bucket 1 ≡ 0)
    × (hist_bucket 1023 ≡ 9)
    × (hist_bucket 1024 ≡ 10)
    × (hist_bucket (2 ^ 40) ≡ 31)
unfolding hist_bucket high_bit
buckets = (refl, refl, refl, refl, refl)

-- a sample of 0 is the least one, until the next one takes its place
least : (sample_all kv_hist_init (5 ∷ 0 ∷ [])).min_ns ≡ 0
unfolding kv_hist_init kv_hist_sample
least = refl

least_lost : (sample_all kv_hist_init (5 ∷ 0 ∷ 9 ∷ [])).min_ns ≡ 9
unfolding kv_hist_init kv_hist_sample
least_lost = refl

kv_hist_merge_lem_example :
    kv_hist_merge (sample_all kv_hist_init (5 ∷ 1000 ∷ [])) (sample_all kv_hist_init (3 ∷ 70 ∷ []))
    ≡ sample_all kv_hist_init (5 ∷ 1000 ∷ 3 ∷ 70 ∷ [])
kv_hist_merge_lem_example =
    kv_hist_merge_lem (5 ∷ 1000 ∷ []) (3 ∷ 70 ∷ []) (omega arith, (omega arith, tt))

-- ten samples, three of them in the last bucket but one
abbrev hist : KvHist
hist = record {
  count = 4 ∷ 3 ∷ (replicate 28 0 ++ (3 ∷ 0 ∷ []));
  n = 10;
  total_ns = 100;
  min_ns = 1;
  max_ns = 50;
}

percentiles :
    (kv_hist_percentile hist 50 ≡ 4)
    × (kv_hist_percentile hist 99 ≡ 2 ^ 31)
    × (kv_hist_avg hist ≡ 10)
unfolding kv_hist_percentile percentile_from kv_hist_avg
percentiles = (refl, refl, refl)

kv_hist_percentile_lem_example :
    (k : ℕ) × IsEdge k (kv_hist_percentile hist 50)
    × (hist.n * 50 ≤ total_count (take (suc k) hist.count) * 100)
    × ((k ≡ 0) ⊎ (total_count (take k hist.count) * 100 < hist.n * 50))
kv_hist_percentile_lem_example =
    kv_hist_percentile_lem hist 50 refl refl (omega arith) (omega arith) (omega arith)
