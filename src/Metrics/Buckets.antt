-- ===== src/Metrics/Buckets.antt =====
-- Which samples src/metrics/metrics.cpp counts in which bucket.
use native.Mathlib.Nat.{pow-suc, pow-le-pow_right}
use native.Mathlib.Decide.{dec_lt}
use kvtier.Prelude.{
  ℕ, zero, suc, ◌+◌, ◌/◌, ◌^◌, ◌≤◌, ◌<◌, ◌≡◌, refl, ap, ◌⊎◌, ◌↔◌, inl, inr, ltb, ltb→lt, Bool-cases,
  ◌==◌, ==_iff, leb, leb→le, arith,
}
use kvtier.Metrics.{high_bit, hist_bucket}

high_bit_low : (fuel x : ℕ) → 0 < x → 2 ^ high_bit fuel x ≤ x
unfolding high_bit
high_bit_low zero x l = omega arith
high_bit_low (suc fuel) x l = elim (Bool-cases (ltb x 2)) [
  | inl c ↦ rw c (omega arith)
  | inr c ↦
      let more : 2 ≤ x = ground (arith, c) in
      let half = high_bit_low fuel (x / 2) (omega arith) in
      rw c (omega (arith, half, pow-suc 2 (high_bit fuel (x / 2))))
]

high_bit_high : (fuel x : ℕ) → (x < 2 ^ suc (high_bit fuel x)) ⊎ (high_bit fuel x ≡ fuel)
unfolding high_bit
high_bit_high zero x = inr refl
high_bit_high (suc fuel) x = elim (Bool-cases (ltb x 2)) [
  | inl c ↦ rw c (inl (omega (arith, ltb→lt x 2 c)))
  | inr c ↦ rw c (elim (high_bit_high fuel (x / 2)) [
    | inl l ↦ inl (omega (arith, l, pow-suc 2 (suc (high_bit fuel (x / 2)))))
    | inr e ↦ inr (ap suc e)
  ])
]

-- the highest bit is at most `k` for the numbers below `2 ^ (k + 1)`
high_bit-le : (k x : ℕ) → k < 64 → 0 < x → (high_bit 64 x ≤ k) ↔ (x < 2 ^ (k + 1))
high_bit-le k x s l =
    let b : ℕ = high_bit 64 x in
    (
      λ h. elim (high_bit_high 64 x) [
        | inl u ↦
            omega (
              arith,
              u,
              pow-le-pow_right {n = 2} (omega arith) {i = suc b} {j = k + 1} (omega arith),
            )
        | inr e ↦ absurd (omega (arith, e, h, s))
      ],
      λ u. elim (dec_lt k b) [
        | yes p ↦ absurd (
            omega (
              arith,
              high_bit_low 64 x l,
              u,
              pow-le-pow_right {n = 2} (omega arith) {i = k + 1} {j = b} (omega arith),
            ))
        | no p ↦ omega arith
      ],
    )

-- a bucket but the last is at most `k` for the samples below its upper edge
pub hist_bucket-le : (k x : ℕ) → k < 31 → (hist_bucket x ≤ k) ↔ (x < 2 ^ (k + 1))
unfolding hist_bucket
hist_bucket-le k x s = elim (Bool-cases (x == 0)) [
  | inl z ↦
      let e : x ≡ 0 = (==_iff x 0).0 z in
      rw z (
        λ h.
            omega
              (arith, e, pow-le-pow_right {n = 2} (omega arith) {i = 0} {j = k + 1} (omega arith)),
        λ u. omega arith,
      )
  | inr z ↦
      let some_time : 0 < x = ground (arith, z) in
      let (to, from) = high_bit-le k x (omega arith) some_time in
      elim (Bool-cases (leb 32 (high_bit 64 x))) [
        | inl c ↦
            rw (z, c)
              (
                λ h. absurd (omega (arith, h, s)),
                λ u. absurd (omega (arith, from u, s, leb→le 32 (high_bit 64 x) c)),
              )
        | inr c ↦ rw (z, c) (to, from)
      ]
]
