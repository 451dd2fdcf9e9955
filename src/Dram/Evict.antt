-- ===== src/Dram/Evict.antt =====
-- The rounds of `sieve_evict` of src/dram.cpp, and its loop.
use kvtier.Prelude.{
  ℕ, zero, suc, ◌+◌, ◌*◌, ◌^◌, ◌<◌, ◌≤◌, ◌≡◌, refl, ◌∙◌, ap, sym, subst, true, false, Bool, List,
  [], ◌∷◌, ◌&&◌, not, ltb, ltb→lt, inl, inr, Bool-cases, arith,
}
use native.Mathlib.Nat.{mod-eq_of_lt}
use kvtier.Dram.Types.{DramEntry, DramShard, DramCache, entry_at, entry_total, total_at}
use kvtier.Dram.{sieve_at, sieve_round, sieve_loop, sieve_evict, is_empty}
use kvtier.Dram.Queue.{Mem, sum_of, sum_of-unlink}
use kvtier.Dram.Sieve.{queue_bytes, IsShard, weight, flag-le, rounds}
use kvtier.Dram.Rounds.{sieve_round_lem}

not_empty : (p : ℕ) (xs : List ℕ) → Mem p xs → is_empty xs ≡ false
not_empty p [] m = absurd m
not_empty p (x ∷ xs) m = refl

weight_pos : (heap : List DramEntry) (p : ℕ) → 1 ≤ weight heap p
weight_pos heap p = elim (Bool-cases (entry_at heap p).visited) [
  | inl v ↦ rw v (omega arith)
  | inr v ↦ rw v (omega arith)
]

-- what the loop leaves
record IsEvicted (d : DramCache) (sh : DramShard) (protect : ℕ) (r : DramCache × DramShard)
    : Type 0 where
  shard : IsShard r.0.heap r.1
  keeps : Mem protect r.1.queue
  within : r.1.bytes ≤ sh.budget

pub loop_stops :
    (guard : ℕ) (d : DramCache) (sh : DramShard) (protect : ℕ)
    → (ltb sh.budget sh.bytes && not (is_empty sh.queue)) ≡ false
    → sieve_loop (suc guard) d sh protect ≡ (d, sh)
unfolding sieve_loop
loop_stops guard d sh protect e =
    ap
      (λ (b : Bool). elim b as (λ _. DramCache × DramShard) [
        | true ↦ sieve_loop guard (sieve_round d sh protect).0 (sieve_round d sh protect).1 protect
        | false ↦ (d, sh)
      ])
      e

pub loop_goes :
    (guard : ℕ) (d : DramCache) (sh : DramShard) (protect : ℕ)
    → (ltb sh.budget sh.bytes && not (is_empty sh.queue)) ≡ true
    → sieve_loop (suc guard) d sh protect
      ≡ sieve_loop guard (sieve_round d sh protect).0 (sieve_round d sh protect).1 protect
unfolding sieve_loop
loop_goes guard d sh protect e =
    ap
      (λ (b : Bool). elim b as (λ _. DramCache × DramShard) [
        | true ↦ sieve_loop guard (sieve_round d sh protect).0 (sieve_round d sh protect).1 protect
        | false ↦ (d, sh)
      ])
      e

sieve_loop_lem :
    (guard : ℕ) (d : DramCache) (sh : DramShard) (protect : ℕ)
    → IsShard d.heap sh
    → Mem protect sh.queue
    → total_at d.heap protect ≤ sh.budget
    → queue_bytes d.heap sh.queue < 2 ^ 64
    → rounds d sh protect ≤ guard
    → IsEvicted d sh protect (sieve_loop guard d sh protect)
sieve_loop_lem zero d sh protect w m fits small g =
    absurd (
      omega (arith, g, sum_of-unlink (weight d.heap) protect sh.queue m, weight_pos d.heap protect))
sieve_loop_lem (suc guard) d sh protect w m fits small g =
    let n = not_empty protect sh.queue m in
    elim (Bool-cases (ltb sh.budget sh.bytes)) [
      | inr f ↦
          subst (IsEvicted d sh protect) (sym (loop_stops guard d sh protect (rw f refl)))
            (record { shard = w; keeps = m; within = ground (arith, f) })
      | inl t ↦
          let bytes : sh.bytes ≡ queue_bytes d.heap sh.queue = w.bytes ∙ mod-eq_of_lt small in
          let over = ltb→lt sh.budget sh.bytes t in
          let r = sieve_round d sh protect in
          let q = sieve_round_lem d sh protect w m n (omega (arith, bytes, over, fits)) in
          let rest =
            sieve_loop_lem guard r.0 r.1 protect q.shard q.keeps
              (omega (arith, q.total protect, q.budget, fits)) (omega (arith, q.less, small))
              (omega (arith, q.fewer, g)) in
          subst (IsEvicted d sh protect) (sym (loop_goes guard d sh protect (rw (t, n) refl)))
            (record {
              shard = rest.shard;
              keeps = rest.keeps;
              within = omega (arith, rest.within, q.budget);
            })
    ]

-- the whole of `sieve_evict`, when its rounds are enough
pub sieve_evict_lem :
    (d : DramCache) (sh : DramShard) (protect : ℕ)
    → IsShard d.heap sh
    → Mem protect sh.queue
    → total_at d.heap protect ≤ sh.budget
    → queue_bytes d.heap sh.queue < 2 ^ 64
    → 2 * sum_of (weight d.heap) sh.queue + 1 ≤ 4096
    → ((sieve_evict d sh protect).1.bytes ≤ sh.budget)
      × Mem protect (sieve_evict d sh protect).1.queue
      × IsShard (sieve_evict d sh protect).0.heap (sieve_evict d sh protect).1
unfolding sieve_evict
sieve_evict_lem d sh protect w m fits small g =
    let r =
      sieve_loop_lem 4096 d sh protect w m fits small
        (omega (arith, g, flag-le (sieve_at sh) protect)) in
    let n = not_empty protect (sieve_loop 4096 d sh protect).1.queue r.keeps in
    rw n (r.within, r.keeps, r.shard)

pub entry_total-lt : (n_records buf_len : ℕ) → entry_total n_records buf_len < 2 ^ 32
unfolding entry_total
entry_total-lt n_records buf_len = omega arith
