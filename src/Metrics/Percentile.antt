-- ===== src/Metrics/Percentile.antt =====
-- `kv_hist_percentile` of src/metrics/metrics.cpp against the counts of the buckets.
use kvtier.Prelude.{
  ℕ, zero, suc, ◌+◌, ◌*◌, ◌/◌, ◌^◌, ◌<◌, ◌≤◌, ◌≡◌, refl, ◌∙◌, ap, true, false, List, [], ◌∷◌, ◌==◌,
  ltb, leb, leb→le, length, take, ◌↔◌, ◌⊎◌, inl, inr, Bool-cases, arith,
}
use native.Mathlib.Nat.{mod-eq_of_lt, mul-le-mul_left}
use kvtier.Common.{u64}
use kvtier.Metrics.Buckets.{hist_bucket-le}
use kvtier.Metrics.{
  KvHist, kv_hist_buckets, hist_bucket, bucket_edge, percentile_from, kv_hist_percentile,
}

abbrev pub total_count : List ℕ → ℕ
total_count [] = 0
total_count (c ∷ cs) = c + total_count cs

percentile_hit :
    (target acc i c : ℕ) (counts : List ℕ)
    → acc + c < 2 ^ 64
    → leb target (acc + c) ≡ true
    → percentile_from target acc i (c ∷ counts) ≡ bucket_edge i
unfolding percentile_from
percentile_hit target acc i c counts b g =
    let sum : u64 (acc + c) ≡ acc + c = mod-eq_of_lt b in rw (sum, g) refl

percentile_miss :
    (target acc i c : ℕ) (counts : List ℕ)
    → acc + c < 2 ^ 64
    → leb target (acc + c) ≡ false
    → percentile_from target acc i (c ∷ counts) ≡ percentile_from target (acc + c) (suc i) counts
unfolding percentile_from
percentile_miss target acc i c counts b g =
    let sum : u64 (acc + c) ≡ acc + c = mod-eq_of_lt b in rw (sum, g) refl

some_left :
    (counts : List ℕ) (sum target : ℕ)
    → target ≤ sum + total_count counts
    → sum < target
    → 0 < length counts
some_left [] sum target t lt = absurd (omega (arith, t, lt))
some_left (x ∷ xs) sum target t lt = omega arith

none_taken : (counts : List ℕ) (k : ℕ) → k ≡ 0 → total_count (take k counts) ≡ 0
none_taken counts zero e = refl
none_taken counts (suc k) e = absurd (omega (arith, e))

-- the loop ends at the first bucket that brings the sum to the target
percentile_from_lem :
    (target acc i : ℕ) (counts : List ℕ)
    → acc + total_count counts < 2 ^ 64
    → target ≤ acc + total_count counts
    → 0 < length counts
    → (k : ℕ) × (k < length counts)
      × (percentile_from target acc i counts ≡ bucket_edge (i + k))
      × (target ≤ acc + total_count (take (suc k) counts))
      × ((k ≡ 0) ⊎ (acc + total_count (take k counts) < target))
percentile_from_lem target acc i [] b t l = absurd (omega (arith, l))
percentile_from_lem target acc i (c ∷ counts) b t l =
    let fits : acc + c < 2 ^ 64 = omega (arith, b) in
    elim (Bool-cases (leb target (acc + c))) [
      | inl g ↦
          let edge : bucket_edge i ≡ bucket_edge (i + 0) = ap bucket_edge (omega arith) in
          (
            0,
            omega arith,
            percentile_hit target acc i c counts fits g ∙ edge,
            omega (arith, leb→le target (acc + c) g),
            inl refl,
          )
      | inr g ↦
          let lt : acc + c < target = ground (arith, g) in
          let more = some_left counts (acc + c) target (omega (arith, t)) lt in
          let (k, kl, e, ge, before) =
            percentile_from_lem target (acc + c) (suc i) counts (omega (arith, b))
              (omega (arith, t)) more in
          let edge : bucket_edge (suc i + k) ≡ bucket_edge (i + suc k) =
            ap bucket_edge (omega arith) in
          (
            suc k,
            omega (arith, kl),
            percentile_miss target acc i c counts fits g ∙ e ∙ edge,
            omega (arith, ge),
            inr (elim before [
              | inl z ↦ omega (arith, none_taken counts k z, lt)
              | inr q ↦ omega (arith, q)
            ]),
          )
    ]

-- a value that is above the samples of the buckets up to `k`, and at most those of the later ones;
-- for the last bucket its lower edge
abbrev pub IsEdge : ℕ → ℕ → Type 0
IsEdge k v =
    ((k < 31) × (v ≡ 2 ^ (k + 1)) × ((x : ℕ) → (hist_bucket x ≤ k) ↔ (x < v)))
    ⊎ ((k ≡ 31) × (v ≡ 2 ^ 31))

bucket_edge-IsEdge : (k v : ℕ) → k < 32 → v ≡ bucket_edge k → IsEdge k v
bucket_edge-IsEdge k v l e = elim (Bool-cases (ltb (k + 1) kv_hist_buckets)) [
  | inl c ↦
      let lt : k < 31 = ground (arith, c) in
      let e' : v ≡ 2 ^ (k + 1) = rw c at e in inl (lt, e', λ x. rw e' (hist_bucket-le k x lt))
  | inr c ↦
      let last : k ≡ 31 = ground (arith, c, l) in
      let e' : v ≡ 2 ^ k = rw c at e in inr (last, e' ∙ ap (λ (j : ℕ). 2 ^ j) last)
]

-- For a histogram of 32 buckets that is not empty, whose n is the sum of its counts, with 100 n
-- + 99 below 2^64, and a percentage up to 100: kv_hist_percentile gives the edge of the first
-- bucket up to which there are that percentage of the samples. For bucket k below 31 the edge is
-- 2^(k + 1), and the samples that hist_bucket puts into the buckets up to k are exactly those
-- below it; for bucket 31 it is 2^31.
pub kv_hist_percentile_lem :
    (h : KvHist) (pct : ℕ)
    → length h.count ≡ 32
    → h.n ≡ total_count h.count
    → 0 < h.n
    → h.n * 100 + 99 < 2 ^ 64
    → pct ≤ 100
    → (k : ℕ) × IsEdge k (kv_hist_percentile h pct)
      × (h.n * pct ≤ total_count (take (suc k) h.count) * 100)
      × ((k ≡ 0) ⊎ (total_count (take k h.count) * 100 < h.n * pct))
unfolding kv_hist_percentile
kv_hist_percentile_lem h pct len e pos b p =
    let x = h.n * pct in
    let le : x ≤ h.n * 100 = mul-le-mul_left h.n p in
    let target = u64 (x + 99) / 100 in
    let t : u64 (x + 99) ≡ x + 99 = mod-eq_of_lt (omega (arith, le, b)) in
    let counted : 0 < length h.count =
      some_left h.count 0 1 (omega (arith, e, pos)) (omega arith) in
    let (k, kl, q, ge, before) =
      percentile_from_lem target 0 0 h.count (omega (arith, e, b)) (omega (arith, t, le, e))
        counted in
    let from_zero : 0 + k ≡ k = omega arith in
    let edge = ap bucket_edge from_zero in
    let z : (h.n == 0) ≡ false = ground (arith, pos) in
    let y : ltb 100 pct ≡ false = ground (arith, p) in
    (
      k,
      bucket_edge-IsEdge k (kv_hist_percentile h pct) (omega (arith, kl, len))
          (rw (y, z, kv_hist_percentile) (q ∙ edge)),
      omega (arith, ge, t),
      elim before [ inl a ↦ inl a | inr a ↦ inr (omega (arith, a, t)) ],
    )
