-- ===== src/Metrics/Merge.antt =====
-- `kv_hist_merge` of src/metrics/metrics.cpp against the samples of both histograms.
use kvtier.Prelude.{
  ℕ, zero, suc, ◌+◌, ◌^◌, ◌<◌, ◌≡◌, refl, ◌∙◌, ap, sym, List, [], ◌∷◌, ◌++◌, ◌==◌, if◌then◌else◌,
  length, get_or, set, replicate, length-set, arith,
}
use kvtier.Common.{u64}
use kvtier.Metrics.{
  KvHist, kv_hist_buckets, kv_hist_init, kv_hist_sample, kv_hist_merge, hist_bucket, min_step,
  max_step, add_counts,
}

-- a histogram after samples, one after the other
abbrev pub sample_all : KvHist → List ℕ → KvHist
sample_all h [] = h
sample_all h (ns ∷ rest) = sample_all (kv_hist_sample h ns) rest

abbrev pub AllPos : List ℕ → Type 0
AllPos [] = Unit
AllPos (ns ∷ rest) = (0 < ns) × AllPos rest

-- counts that fit 64 bits
Fits : List ℕ → Type 0
Fits [] = Unit
Fits (c ∷ cs) = (c < 2 ^ 64) × Fits cs

Fits-set : (cs : List ℕ) (b v : ℕ) → v < 2 ^ 64 → Fits cs → Fits (set cs b v)
unfolding Fits
Fits-set [] b v l w = w
Fits-set (c ∷ cs) zero v l (h, w) = (l, w)
Fits-set (c ∷ cs) (suc b) v l (h, w) = (h, Fits-set cs b v l w)

record IsHist (h : KvHist) : Type 0 where
  len : length h.count ≡ kv_hist_buckets
  counts : Fits h.count
  n : h.n < 2 ^ 64
  total_ns : h.total_ns < 2 ^ 64

init-IsHist : IsHist kv_hist_init
unfolding kv_hist_init Fits
init-IsHist = record { len = refl; counts = fits_zero 32; n = omega arith; total_ns = omega arith }
  where
    fits_zero : (k : ℕ) → Fits (replicate k 0)
    fits_zero zero = tt
    fits_zero (suc k) = (omega arith, fits_zero k)

sample-IsHist : (h : KvHist) (ns : ℕ) → IsHist h → IsHist (kv_hist_sample h ns)
unfolding kv_hist_sample
sample-IsHist h ns w =
    let b = hist_bucket ns in
    let v = u64 (get_or h.count b 0 + 1) in
    record {
      len = length-set h.count b v ∙ w.len;
      counts = Fits-set h.count b v (omega arith) w.counts;
      n = omega arith;
      total_ns = omega arith;
    }

all-IsHist : (h : KvHist) (xs : List ℕ) → IsHist h → IsHist (sample_all h xs)
all-IsHist h [] w = w
all-IsHist h (x ∷ xs) w = all-IsHist (kv_hist_sample h x) xs (sample-IsHist h x w)

add_counts-set :
    (ds ss : List ℕ) (b : ℕ)
    → length ds ≡ length ss
    → add_counts ds (set ss b (u64 (get_or ss b 0 + 1)))
      ≡ set (add_counts ds ss) b (u64 (get_or (add_counts ds ss) b 0 + 1))
unfolding add_counts
add_counts-set [] [] b e = refl
add_counts-set [] (s ∷ ss) b e = absurd (omega (arith, e))
add_counts-set (d ∷ ds) [] b e = absurd (omega (arith, e))
add_counts-set (d ∷ ds) (s ∷ ss) zero e =
    let q : u64 (d + u64 (s + 1)) ≡ u64 (u64 (d + s) + 1) = omega arith in
    ap (λ (x : ℕ). x ∷ add_counts ds ss) q
add_counts-set (d ∷ ds) (s ∷ ss) (suc b) e =
    ap (◌∷◌ (u64 (d + s))) (add_counts-set ds ss b (omega (arith, e)))

add_counts_zero : (ds : List ℕ) → Fits ds → (k : ℕ) → add_counts ds (replicate k 0) ≡ ds
unfolding add_counts Fits
add_counts_zero [] w k = refl
add_counts_zero (d ∷ ds) w zero = refl
add_counts_zero (d ∷ ds) (l, w) (suc k) =
    let q : u64 (d + 0) ≡ d = omega (arith, l) in
    ap (λ (x : ℕ). x ∷ add_counts ds (replicate k 0)) q ∙ ap (◌∷◌ d) (add_counts_zero ds w k)

length-add_counts : (ds ss : List ℕ) → length (add_counts ds ss) ≡ length ds
unfolding add_counts
length-add_counts [] ss = refl
length-add_counts (d ∷ ds) [] = refl
length-add_counts (d ∷ ds) (s ∷ ss) = ap suc (length-add_counts ds ss)

min_merge :
    (d s y : ℕ)
    → 0 < y
    → (if min_step s y == 0 then d else min_step d (min_step s y))
      ≡ min_step (if s == 0 then d else min_step d s) y
min_merge d s y l = ground (arith, l)

max_merge :
    (d s y : ℕ)
    → 0 < y
    → (if max_step s y == 0 then d else max_step d (max_step s y))
      ≡ max_step (if s == 0 then d else max_step d s) y
max_merge d s y l = ground (arith, l)

merge_sample :
    (d s : KvHist) (y : ℕ)
    → length d.count ≡ length s.count
    → 0 < y
    → kv_hist_merge d (kv_hist_sample s y) ≡ kv_hist_sample (kv_hist_merge d s) y
unfolding kv_hist_merge kv_hist_sample
merge_sample d s y e l =
    let n : u64 (d.n + u64 (s.n + 1)) ≡ u64 (u64 (d.n + s.n) + 1) = omega arith in
    let t : u64 (d.total_ns + u64 (s.total_ns + y)) ≡ u64 (u64 (d.total_ns + s.total_ns) + y) =
      omega arith in
    λ i. record {
      count = add_counts-set d.count s.count (hist_bucket y) e i;
      n = n i;
      total_ns = t i;
      min_ns = min_merge d.min_ns s.min_ns y l i;
      max_ns = max_merge d.max_ns s.max_ns y l i;
    }

merge_all :
    (d s : KvHist) (ys : List ℕ)
    → IsHist d
    → IsHist s
    → AllPos ys
    → kv_hist_merge d (sample_all s ys) ≡ sample_all (kv_hist_merge d s) ys
merge_all d s [] v w p = refl
merge_all d s (y ∷ ys) v w (l, p) =
    merge_all d (kv_hist_sample s y) ys v (sample-IsHist s y w) p
    ∙ ap (λ (h : KvHist). sample_all h ys) (merge_sample d s y (v.len ∙ sym w.len) l)

merge_init : (d : KvHist) → IsHist d → kv_hist_merge d kv_hist_init ≡ d
unfolding kv_hist_merge kv_hist_init
merge_init d w =
    let n : u64 (d.n + 0) ≡ d.n = omega (arith, w.n) in
    let t : u64 (d.total_ns + 0) ≡ d.total_ns = omega (arith, w.total_ns) in
    λ i. record {
      count = add_counts_zero d.count w.counts 32 i;
      n = n i;
      total_ns = t i;
      min_ns = d.min_ns;
      max_ns = d.max_ns;
    }

sample_append :
    (h : KvHist) (xs ys : List ℕ) → sample_all h (xs ++ ys) ≡ sample_all (sample_all h xs) ys
sample_append h [] ys = refl
sample_append h (x ∷ xs) ys = sample_append (kv_hist_sample h x) xs ys

-- Merging the histogram of some samples with the histogram of others, none of which is 0, gives
-- the histogram of all of them, one after the other.
pub kv_hist_merge_lem :
    (xs ys : List ℕ)
    → AllPos ys
    → kv_hist_merge (sample_all kv_hist_init xs) (sample_all kv_hist_init ys)
      ≡ sample_all kv_hist_init (xs ++ ys)
kv_hist_merge_lem xs ys p =
    let v = all-IsHist kv_hist_init xs init-IsHist in
    merge_all (sample_all kv_hist_init xs) kv_hist_init ys v init-IsHist p
    ∙ ap (λ (h : KvHist). sample_all h ys) (merge_init (sample_all kv_hist_init xs) v)
    ∙ sym (sample_append kv_hist_init xs ys)
