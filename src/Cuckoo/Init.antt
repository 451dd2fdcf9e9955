-- ===== src/Cuckoo/Init.antt =====
-- `kv_cuckoo_init` of src/cuckoo.cpp: the doubling loop ends, and the filter is well formed.
use native.Mathlib.Nat.{pow-suc, pow-le-pow_right}
use native.Mathlib.Decide.{dec_lt}
use kvtier.Prelude.{
  ℕ, zero, suc, ◌+◌, ◌*◌, ◌%◌, ◌^◌, ◌≤◌, ◌<◌, ◌≡◌, refl, ◌≢◌, ◌⊎◌, ◌/◌, ap, inl, inr, some, [],
  arith, ltb, ltb→lt, Bool-cases, length, get_or, replicate, length-replicate, get_or-replicate,
}
use kvtier.Cuckoo.{Cuckoo, grow, buckets_needed, kv_cuckoo_init}
use kvtier.Cuckoo.Bucket.{IsBytes}
use kvtier.Cuckoo.Kicks.{IsShaped}

two_pow-le : (j : ℕ) → j ≤ 26 → 2 ^ j ≤ 2 ^ 26
two_pow-le j h = pow-le-pow_right {n = 2} (omega arith) h

pow_below : (j : ℕ) → 2 ^ j < 2 ^ 26 → j < 26
pow_below j h = elim (dec_lt j 26) [
  | yes p ↦ p
  | no p ↦
      absurd (omega (arith, pow-le-pow_right {n = 2} (omega arith) {i = 26} {j = j} (omega arith)))
]

-- the least power of two from `2 ^ j` on that reaches `need`
grow-IsPow2 :
    (fuel j need : ℕ)
    → need ≤ 2 ^ 26
    → j ≤ 26
    → 26 < j + fuel
    → (m : ℕ) × (grow fuel need (2 ^ j) ≡ some (2 ^ m))
      × (need ≤ 2 ^ m)
      × ((m ≡ j) ⊎ ((half : ℕ) × (2 ^ m ≡ 2 * half) × (half < need)))
unfolding grow
grow-IsPow2 zero j need h b f = absurd (omega arith)
grow-IsPow2 (suc fuel) j need h b f = elim (Bool-cases (ltb (2 ^ j) need)) [
  | inr enough ↦ (j, rw enough, ground (arith, enough), inl refl)
  | inl short ↦
      let less : j < 26 = pow_below j (omega (arith, ltb→lt (2 ^ j) need short)) in
      let next : 2 ^ j * 2 % 2 ^ 32 ≡ 2 ^ suc j =
        omega (arith, pow-suc 2 j, two_pow-le (suc j) (omega arith)) in
      let (m, e, q, least) = grow-IsPow2 fuel (suc j) need h (omega arith) (omega arith) in
      (
        m,
        rw (short, next) e,
        q,
        inr (elim least [
          | inl here ↦ (
            2 ^ j,
            omega (arith, ap (λ (x : ℕ). 2 ^ x) here, pow-suc 2 j),
            ltb→lt (2 ^ j) need short,
          )
          | inr l ↦ l
        ]),
      )
]

replicate-IsBytes : (n : ℕ) → IsBytes (replicate n 0)
replicate-IsBytes n s = omega (arith, get_or-replicate {A = ℕ} n s 0)

empty-IsBytes : (n i : ℕ) → IsBytes (get_or (replicate n (replicate 4 0)) i [])
empty-IsBytes zero i s = omega arith
empty-IsBytes (suc n) zero s = replicate-IsBytes 4 s
empty-IsBytes (suc n) (suc i) s = empty-IsBytes n i s

empty_slots : (n i : ℕ) → i < n → length {A = ℕ} (get_or (replicate n (replicate 4 0)) i []) ≡ 4
empty_slots zero i h = absurd (omega arith)
empty_slots (suc n) zero h = refl
empty_slots (suc n) (suc i) h = empty_slots n i (omega arith)

buckets_needed-le : (n : ℕ) → buckets_needed n ≤ 2 ^ 26
unfolding buckets_needed
buckets_needed-le n = omega arith

pub empty-IsShaped : (m : ℕ) → IsShaped m (replicate (2 ^ m) (replicate 4 0))
empty-IsShaped m = record {
  width = length-replicate (2 ^ m) (replicate 4 0);
  slots = empty_slots (2 ^ m);
  bytes = empty-IsBytes (2 ^ m);
}

-- For every 32-bit number of entries but 0 the doubling loop of kv_cuckoo_init ends within its
-- fuel, and gives an empty, well-formed filter of a power of two buckets. Let x be 100 times a
-- quarter of the entries, rounded down, modulo 2^32, to which it wraps from 171798692 entries
-- on: 85 times the number of buckets is greater than x, and unless the buckets are 16 it is at
-- most twice x.
pub kv_cuckoo_init_lem :
    (n_entries : ℕ)
    → n_entries < 2 ^ 32
    → n_entries ≢ 0
    → (cf : Cuckoo) × (k : ℕ) × (kv_cuckoo_init n_entries ≡ some cf)
      × (cf.n_buckets ≡ 2 ^ k)
      × (n_entries / 4 * 100 % 2 ^ 32 < 85 * cf.n_buckets)
      × ((cf.n_buckets ≡ 16) ⊎ (85 * cf.n_buckets ≤ 2 * (n_entries / 4 * 100 % 2 ^ 32)))
      × (cf.count ≡ 0)
      × IsShaped k cf.buckets
unfolding kv_cuckoo_init buckets_needed
kv_cuckoo_init_lem n_entries h nz =
    let need : ℕ = buckets_needed n_entries in
    let (m, g, q, least) =
      grow-IsPow2 32 4 need (buckets_needed-le n_entries) (omega arith) (omega arith) in
    let cf : Cuckoo = record {
      n_buckets = 2 ^ m;
      count = 0;
      buckets = replicate (2 ^ m) (replicate 4 0);
    } in
    (
      cf,
      m,
      ground (arith, g),
      refl,
      omega (arith, q),
      elim least [
        | inl here ↦ inl (ap (λ (x : ℕ). 2 ^ x) here)
        | inr (half, e, l) ↦ inr (omega (arith, e, l))
      ],
      refl,
      empty-IsShaped m,
    )
