-- ===== src/Dram/Stays.antt =====
-- What the calls of src/dram.cpp leave alone: the other shards, and the protected entry of
-- `sieve_evict`, which stays first in its bucket.
use kvtier.Prelude.{
  ℕ, zero, suc, ◌+◌, ◌≡◌, ◌≢◌, refl, ◌∙◌, ap, sym, subst, false, Option, List, [], ◌∷◌, ◌==◌,
  ==_iff, ◌&&◌, not, ltb, inl, inr, Bool-cases, get_or, set, get_or-set_ne, get_or-set_cases,
  ℕ_discrete,
}
use kvtier.Common.{u64}
use kvtier.Dram.Types.{
  DramEntry, DramShard, DramCache, Block, in_arena, on_heap, entry_at, no_entry, entry_total,
  kv_dram_n_classes,
}
use kvtier.Dram.Sieve.{entry_free-heap}
use kvtier.Dram.Evict.{loop_stops, loop_goes}
use kvtier.Dram.{
  snext, unlink, queue_unlink, bucket_unlink, bucket_of, sub64, class_free, entry_free, sieve_at,
  sieve_drop, sieve_round, sieve_loop, sieve_evict, is_empty,
}

-- the fields of the cache that no operation on one shard writes
pub record IsFrame (d d' : DramCache) : Type 0 where
  pub n_shards : d'.n_shards ≡ d.n_shards
  pub shards : d'.shards ≡ d.shards

pub IsFrame-trans : {a b c : DramCache} → IsFrame a b → IsFrame b c → IsFrame a c
IsFrame-trans v w = record { n_shards = w.n_shards ∙ v.n_shards; shards = w.shards ∙ v.shards }

class_free-IsFrame : (d : DramCache) (b : Block) (cls : ℕ) → IsFrame d (class_free d b cls)
unfolding class_free
class_free-IsFrame d (in_arena p) cls = elim (Bool-cases (ltb cls kv_dram_n_classes)) [
  | inl t ↦ rw t (record { n_shards = refl; shards = refl })
  | inr t ↦ rw t (record { n_shards = refl; shards = refl })
]
class_free-IsFrame d on_heap cls = record { n_shards = refl; shards = refl }

pub entry_free-IsFrame : (d : DramCache) (sh : DramShard) (p : ℕ) → IsFrame d (entry_free d sh p).0
unfolding entry_free
entry_free-IsFrame d sh p =
    let e = entry_at d.heap p in
    let total = entry_total e.n_records e.buf_len in
    let d' = record d { bytes = sub64 d.bytes total; entries = sub64 d.entries 1 } in
    elim (Bool-cases e.external) [
      | inl t ↦ rw t (record { n_shards = refl; shards = refl })
      | inr t ↦
          (let w = class_free-IsFrame d' e.block e.size_class in
            rw t (record { n_shards = w.n_shards; shards = w.shards }))
    ]

-- the entry `p` is first in the bucket `b`, and is `e` but for `visited`
pub record IsFirst (p b : ℕ) (e : DramEntry) (d : DramCache) (sh : DramShard) : Type 0 where
  pub rest : List ℕ
  pub bucket : get_or sh.buckets b [] ≡ p ∷ rest
  pub entry : record (entry_at d.heap p) { visited = false } ≡ e

-- what a round of `sieve_evict` leaves alone
record IsQuiet (p b : ℕ) (e : DramEntry) (d : DramCache) (r : DramCache × DramShard) : Type 0 where
  frame : IsFrame d r.0
  first : IsFirst p b e r.0 r.1

unlink_first : (x p : ℕ) (rest : List ℕ) → x ≢ p → unlink x (p ∷ rest) ≡ p ∷ unlink x rest
unfolding unlink
unlink_first x p rest ne = elim (Bool-cases (p == x)) [
  | inl t ↦ absurd (ne (sym ((==_iff p x).0 t)))
  | inr t ↦ rw t refl
]

bucket_first :
    (p b c x : ℕ) (rest : List ℕ) (buckets : List (List ℕ))
    → x ≢ p
    → get_or buckets b [] ≡ p ∷ rest
    → (more : List ℕ) × (get_or (set buckets c (unlink x (get_or buckets c []))) b [] ≡ p ∷ more)
bucket_first p b c x rest buckets ne e = elim (ℕ_discrete c b) [
  | no a ↦ (rest, get_or-set_ne buckets c b (unlink x (get_or buckets c [])) [] a ∙ e)
  | yes a ↦ elim (get_or-set_cases buckets c b (unlink x (get_or buckets c [])) []) [
    | inr q ↦ (rest, q ∙ e)
    | inl q ↦ (
      unlink x rest,
      q
          ∙ ap (λ (k : ℕ). unlink x (get_or buckets k [])) a
          ∙ ap (unlink x) e
          ∙ unlink_first x p rest ne,
    )
  ]
]

freed_buckets :
    (d : DramCache) (sh : DramShard) (x : ℕ) → (entry_free d sh x).1.buckets ≡ sh.buckets
unfolding entry_free
freed_buckets d sh x = refl

unlinked_buckets :
    (d : DramCache) (sh : DramShard) (x b : ℕ)
    → get_or (queue_unlink (bucket_unlink d sh x) x).buckets b []
      ≡ get_or
          (set sh.buckets (bucket_of (entry_at d.heap x).prefix_id (entry_at d.heap x).group_idx) (
            unlink x (
              get_or sh.buckets
                (bucket_of (entry_at d.heap x).prefix_id (entry_at d.heap x).group_idx)
                [])))
          b
          []
unfolding queue_unlink bucket_unlink
unlinked_buckets d sh x b = refl

module _ (p b : ℕ) (e : DramEntry) (d : DramCache) (sh : DramShard) (w : IsFirst p b e d sh) where
  skip-IsQuiet : (h : Option ℕ) → IsQuiet p b e d (d, record sh { s_hand = h })
  skip-IsQuiet h = record {
    frame = record { n_shards = refl; shards = refl };
    first = record { rest = w.rest; bucket = w.bucket; entry = w.entry };
  }

  visit-IsQuiet :
      (x : ℕ) (h : Option ℕ)
      → x ≢ p
      → IsQuiet p b e d (
        record d { heap = set d.heap x (record (entry_at d.heap x) { visited = false }) },
        record sh { s_hand = h },
      )
  visit-IsQuiet x h ne = record {
    frame = record { n_shards = refl; shards = refl };
    first = record {
      rest = w.rest;
      bucket = w.bucket;
      entry =
          ap (λ (y : DramEntry). record y { visited = false })
            (get_or-set_ne d.heap x p (record (entry_at d.heap x) { visited = false }) no_entry ne)
          ∙ w.entry;
    };
  }

  drop-IsQuiet : (x : ℕ) → x ≢ p → IsQuiet p b e d (sieve_drop d sh x)
  unfolding sieve_drop
  drop-IsQuiet x ne =
      let y = entry_at d.heap x in
      let d' = record d { evictions = u64 (d.evictions + 1) } in
      let sh' = record (queue_unlink (bucket_unlink d sh x) x) { s_hand = snext x sh.queue } in
      let (more, q) =
        bucket_first p b (bucket_of y.prefix_id y.group_idx) x w.rest sh.buckets ne w.bucket in
      let f = entry_free-IsFrame d' sh' x in
      record {
        frame = record { n_shards = f.n_shards; shards = f.shards };
        first = record {
          rest = more;
          bucket =
              ap (λ (z : List (List ℕ)). get_or z b []) (freed_buckets d' sh' x)
              ∙ unlinked_buckets d sh x b
              ∙ q;
          entry =
              ap (λ (z : List DramEntry). record (entry_at z p) { visited = false })
                (entry_free-heap d' sh' x)
              ∙ w.entry;
        };
      }

  round-IsQuiet : IsQuiet p b e d (sieve_round d sh p)
  unfolding sieve_round
  round-IsQuiet =
      let x = sieve_at sh in
      elim (Bool-cases (x == p)) [
        | inl t ↦ rw (sieve_round, t) (skip-IsQuiet (snext x sh.queue))
        | inr t ↦
            let ne : x ≢ p = λ q. cc (t, (==_iff x p).1 q) in
            elim (Bool-cases (entry_at d.heap x).visited) [
              | inl v ↦ rw (sieve_round, t, v) (visit-IsQuiet x (snext x sh.queue) ne)
              | inr v ↦ rw (sieve_round, t, v) (drop-IsQuiet x ne)
            ]
      ]

loop-IsQuiet :
    (guard p b : ℕ) (e : DramEntry) (d : DramCache) (sh : DramShard)
    → IsFirst p b e d sh
    → IsQuiet p b e d (sieve_loop guard d sh p)
unfolding sieve_loop
loop-IsQuiet zero p b e d sh w = skip-IsQuiet p b e d sh w sh.s_hand
loop-IsQuiet (suc guard) p b e d sh w =
    elim (Bool-cases (ltb sh.budget sh.bytes && not (is_empty sh.queue))) [
      | inr f ↦
          subst (IsQuiet p b e d) (sym (loop_stops guard d sh p f))
            (skip-IsQuiet p b e d sh w sh.s_hand)
      | inl t ↦
          let r = sieve_round d sh p in
          let q = round-IsQuiet p b e d sh w in
          let rest = loop-IsQuiet guard p b e r.0 r.1 q.first in
          subst (IsQuiet p b e d) (sym (loop_goes guard d sh p t))
            (record { frame = IsFrame-trans q.frame rest.frame; first = rest.first })
    ]

pub sieve_evict_quiet :
    (p b : ℕ) (e : DramEntry) (d : DramCache) (sh : DramShard)
    → IsFirst p b e d sh
    → IsFrame d (sieve_evict d sh p).0 × IsFirst p b e (sieve_evict d sh p).0 (sieve_evict d sh p).1
unfolding sieve_evict
sieve_evict_quiet p b e d sh w =
    let q = loop-IsQuiet 4096 p b e d sh w in
    let r = sieve_loop 4096 d sh p in
    elim (Bool-cases (is_empty r.1.queue)) [
      | inr f ↦ rw f (q.frame, q.first)
      | inl f ↦
          rw f (
            q.frame,
            record { rest = q.first.rest; bucket = q.first.bucket; entry = q.first.entry },
          )
    ]
