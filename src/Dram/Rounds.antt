-- ===== src/Dram/Rounds.antt =====
-- The rounds of `sieve_evict` of src/dram.cpp.
use kvtier.Prelude.{
  ℕ, suc, ◌+◌, ◌<◌, ◌≡◌, ◌≢◌, refl, ◌∙◌, ap, sym, subst, true, false, List, ◌==◌, ==_iff,
  if◌then◌else◌, inl, inr, Bool-cases, length, set, get_or-set_self, get_or-set_ne, length-set,
  ℕ_discrete, arith,
}
use kvtier.Common.{u64}
use kvtier.Dram.Types.{DramEntry, DramShard, DramCache, no_entry, entry_at, entry_total, total_at}
use kvtier.Dram.{
  snext, unlink, queue_unlink, bucket_unlink, sub64, entry_free, sieve_at, sieve_drop, sieve_round,
  is_empty,
}
use kvtier.Dram.Queue.{
  Mem, NoDup, sum_of, unlink_other, unlink_gone, sum_of-unlink, sum_of_ext, snext-Mem, snext_ne,
}
use kvtier.Dram.Sieve.{
  queue_bytes, IsShard, IsShard-unlink, weight, flag-le, IsRound, sieve_at-Mem, skip-IsRound,
  entry_free-heap,
}

-- `e->visited = 0`
abbrev cleared : List DramEntry → ℕ → List DramEntry
cleared heap e = set heap e (record (entry_at heap e) { visited = false })

cleared_self :
    (heap : List DramEntry) (e : ℕ)
    → e < length heap
    → entry_at (cleared heap e) e ≡ record (entry_at heap e) { visited = false }
cleared_self heap e l =
    get_or-set_self heap e (record (entry_at heap e) { visited = false }) no_entry l

cleared_other :
    (heap : List DramEntry) (e q : ℕ) → e ≢ q → entry_at (cleared heap e) q ≡ entry_at heap q
cleared_other heap e q ne =
    get_or-set_ne heap e q (record (entry_at heap e) { visited = false }) no_entry ne

cleared_total :
    (heap : List DramEntry) (e q : ℕ)
    → e < length heap
    → total_at (cleared heap e) q ≡ total_at heap q
cleared_total heap e q l = elim (ℕ_discrete e q) [
  | yes a ↦
      subst (λ (x : ℕ). total_at (cleared heap e) x ≡ total_at heap x) a
        (ap (λ (x : DramEntry). entry_total x.n_records x.buf_len) (cleared_self heap e l))
  | no a ↦ ap (λ (x : DramEntry). entry_total x.n_records x.buf_len) (cleared_other heap e q a)
]

cleared-weight :
    (heap : List DramEntry) (e : ℕ) (queue : List ℕ)
    → e < length heap
    → NoDup queue
    → Mem e queue
    → (entry_at heap e).visited ≡ true
    → sum_of (weight heap) queue ≡ suc (sum_of (weight (cleared heap e)) queue)
cleared-weight heap e queue l w m v =
    let same : sum_of (weight (cleared heap e)) (unlink e queue)
        ≡ sum_of (weight heap) (unlink e queue) =
      sum_of_ext (weight (cleared heap e)) (weight heap) (unlink e queue) (λ q n.
        (let ne : e ≢ q =
            λ a. unlink_gone e queue w (subst (λ (x : ℕ). Mem x (unlink e queue)) (sym a) n) in
          ap (λ (x : DramEntry). if x.visited then 2 else 1) (cleared_other heap e q ne))) in
    let a : weight heap e ≡ 2 = rw v refl in
    let b : weight (cleared heap e) e ≡ 1 = rw (cleared_self heap e l) refl in
    omega (
      arith,
      same,
      a,
      b,
      sum_of-unlink (weight heap) e queue m,
      sum_of-unlink (weight (cleared heap e)) e queue m,
    )

visit-IsRound :
    (d : DramCache) (sh : DramShard) (protect e : ℕ)
    → IsShard d.heap sh
    → Mem protect sh.queue
    → Mem e sh.queue
    → (entry_at d.heap e).visited ≡ true
    → IsRound d sh protect
        (record d { heap = cleared d.heap e }, record sh { s_hand = snext e sh.queue })
visit-IsRound d sh protect e w mp m v =
    let l = w.allocated e m in
    let heap' = cleared d.heap e in
    let sums : queue_bytes heap' sh.queue ≡ queue_bytes d.heap sh.queue =
      sum_of_ext (total_at heap') (total_at d.heap) sh.queue (λ q _. cleared_total d.heap e q l) in
    let len : length heap' ≡ length d.heap =
      length-set d.heap e (record (entry_at d.heap e) { visited = false }) in
    record {
      shard = record {
        nodup = w.nodup;
        allocated = λ p n. omega (arith, w.allocated p n, len);
        hand = λ h q. snext-Mem e h sh.queue q;
        bytes = w.bytes ∙ ap u64 (sym sums);
      };
      budget = refl;
      keeps = mp;
      total = λ q. cleared_total d.heap e q l;
      less = omega (arith, sums);
      fewer = omega (
        arith,
        cleared-weight d.heap e sh.queue l w.nodup m v,
        flag-le (sieve_at (record sh { s_hand = snext e sh.queue })) protect,
      );
    }

module _ (d : DramCache) (sh : DramShard) (e : ℕ) where
  drop_heap : (sieve_drop d sh e).0.heap ≡ d.heap
  unfolding sieve_drop
  drop_heap =
      entry_free-heap (record d { evictions = u64 (d.evictions + 1) })
        (record (queue_unlink (bucket_unlink d sh e) e) { s_hand = snext e sh.queue }) e

  drop_queue : (sieve_drop d sh e).1.queue ≡ unlink e sh.queue
  unfolding sieve_drop entry_free queue_unlink bucket_unlink
  drop_queue = refl

  drop_hand : (sieve_drop d sh e).1.s_hand ≡ snext e sh.queue
  unfolding sieve_drop entry_free queue_unlink bucket_unlink
  drop_hand = refl

  drop_bytes : (sieve_drop d sh e).1.bytes ≡ sub64 sh.bytes (total_at d.heap e)
  unfolding sieve_drop entry_free queue_unlink bucket_unlink
  drop_bytes = refl

  drop_budget : (sieve_drop d sh e).1.budget ≡ sh.budget
  unfolding sieve_drop entry_free queue_unlink bucket_unlink
  drop_budget = refl

  drop_sum :
      (f : List DramEntry → ℕ → ℕ)
      → sum_of (f (sieve_drop d sh e).0.heap) (sieve_drop d sh e).1.queue
        ≡ sum_of (f d.heap) (unlink e sh.queue)
  drop_sum f =
      ap (λ (x : List DramEntry). sum_of (f x) (sieve_drop d sh e).1.queue) drop_heap
      ∙ ap (sum_of (f d.heap)) drop_queue

drop-IsRound :
    (d : DramCache) (sh : DramShard) (protect e : ℕ)
    → IsShard d.heap sh
    → Mem protect sh.queue
    → Mem e sh.queue
    → e ≢ protect
    → (entry_at d.heap e).visited ≡ false
    → IsRound d sh protect (sieve_drop d sh e)
drop-IsRound d sh protect e w mp m ne v =
    let r = sieve_drop d sh e in
    let one : weight d.heap e ≡ 1 = rw v refl in
    record {
      shard =
          subst (λ (x : List DramEntry). IsShard x r.1) (sym (drop_heap d sh e))
            (IsShard-unlink d.heap sh r.1 e w m (drop_queue d sh e)
              (λ h q.
                (let n = sym (drop_hand d sh e) ∙ q in
                  unlink_other e h sh.queue (snext_ne e h sh.queue w.nodup n)
                    (snext-Mem e h sh.queue n)))
              (drop_bytes d sh e));
      budget = drop_budget d sh e;
      keeps = rw (drop_queue d sh e) (unlink_other e protect sh.queue ne mp);
      total = λ q. ap (λ (x : List DramEntry). total_at x q) (drop_heap d sh e);
      less = omega (arith, drop_sum d sh e total_at, sum_of-unlink (total_at d.heap) e sh.queue m);
      fewer = omega (
        arith,
        one,
        drop_sum d sh e weight,
        sum_of-unlink (weight d.heap) e sh.queue m,
        flag-le (sieve_at r.1) protect,
      );
    }

step_visited :
    (d : DramCache) (sh : DramShard) (protect : ℕ)
    → (sieve_at sh == protect) ≡ false
    → (entry_at d.heap (sieve_at sh)).visited ≡ true
    → IsRound d sh protect (
      record d { heap = cleared d.heap (sieve_at sh) },
      record sh { s_hand = snext (sieve_at sh) sh.queue },
    )
    → IsRound d sh protect (sieve_round d sh protect)
unfolding sieve_round
step_visited d sh protect t v w = rw (sieve_round, t, v) w

step_drop :
    (d : DramCache) (sh : DramShard) (protect : ℕ)
    → (sieve_at sh == protect) ≡ false
    → (entry_at d.heap (sieve_at sh)).visited ≡ false
    → IsRound d sh protect (sieve_drop d sh (sieve_at sh))
    → IsRound d sh protect (sieve_round d sh protect)
unfolding sieve_round
step_drop d sh protect t v w = rw (sieve_round, t, v) w

pub sieve_round_lem :
    (d : DramCache) (sh : DramShard) (protect : ℕ)
    → IsShard d.heap sh
    → Mem protect sh.queue
    → is_empty sh.queue ≡ false
    → total_at d.heap protect < queue_bytes d.heap sh.queue
    → IsRound d sh protect (sieve_round d sh protect)
unfolding sieve_round
sieve_round_lem d sh protect w m n l =
    let e = sieve_at sh in
    let at = sieve_at-Mem d.heap sh w n in
    elim (Bool-cases (e == protect)) [
      | inl t ↦ rw t (skip-IsRound d sh protect w m l ((==_iff e protect).0 t))
      | inr t ↦
          let ne : e ≢ protect = λ q. cc (t, (==_iff e protect).1 q) in
          elim (Bool-cases (entry_at d.heap e).visited) [
            | inl v ↦ step_visited d sh protect t v (visit-IsRound d sh protect e w m at v)
            | inr v ↦ step_drop d sh protect t v (drop-IsRound d sh protect e w m at ne v)
          ]
    ]
