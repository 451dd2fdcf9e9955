-- ===== src/Dram.antt =====
-- The DRAM cache of src/dram.cpp: shards with a hash table and a queue each, and the SIEVE
-- eviction that keeps a shard's bytes within its budget.
pub mod Types
pub mod Ops
mod Queue
mod Sieve
mod Rounds
mod Evict
mod Stays
mod Link
mod Put
mod Hit
mod Roundtrip
mod Examples
use kvtier.Prelude.{
  ℕ, zero, suc, ◌+◌, ◌-◌, ◌*◌, ◌/◌, ◌%◌, ◌^◌, bit_and, bit_xor, Bool, true, false, ◌||◌, ◌&&◌, not,
  Option, none, some, List, [], ◌∷◌, ◌++◌, ◌==◌, ltb, leb, if◌then◌else◌, length, get_or, set,
  replicate, take, ℤ, pos, neg,
}
use kvtier.Common.{u32, u64, kv_eok, kv_enomem, kv_enoent, kv_efull, kv_einval, min_of}
use kvtier.Hash.{hash_mix64}
use kvtier.Dram.Types.{
  DramRec, DramEntry, DramShard, DramCache, Block, in_arena, on_heap, no_entry, no_shard, entry_at,
  entry_total, kv_dram_n_classes, kv_dram_n_shards, kv_dram_shard_buckets, kv_dram_backend_max,
  kv_dram_default_entry_max,
}

abbrev pub class_cap : List ℕ
class_cap = 4096 ∷ 16384 ∷ 65536 ∷ 262144 ∷ 1048576 ∷ 8388608 ∷ []

-- the loop over the classes, from the class `c` on
unfoldable pub pick_from : ℕ → ℕ → List ℕ → ℕ
pick_from total c [] = c
pick_from total c (max_len ∷ rest) =
    let next = pick_from total (suc c) rest in if leb total max_len then c else next

unfoldable pub pick_class : ℕ → ℕ
pick_class total = pick_from total 0 class_cap

abbrev pub cap_of : ℕ → ℕ
cap_of cls = get_or class_cap cls 0

-- `malloc_ok` says whether `malloc` gives a block
unfoldable pub class_alloc : Bool → DramCache → ℕ → DramCache × Option Block
class_alloc malloc_ok d cls =
    let from_heap : Option Block = if malloc_ok then some on_heap else none in
    if ltb cls kv_dram_n_classes
    then elim (get_or d.freelists cls []) [
      | p ∷ rest ↦ (record d { freelists = set d.freelists cls rest }, some (in_arena p))
      | [] ↦
          if leb (d.bump + cap_of cls) d.arena_len
          then (record d { bump = d.bump + cap_of cls }, some (in_arena d.bump))
          else (d, from_heap)
    ]
    else (d, from_heap)

-- `free` on a block of the heap leaves nothing to record
unfoldable pub class_free : DramCache → Block → ℕ → DramCache
class_free d b cls = elim b [
  | in_arena p ↦
      if ltb cls kv_dram_n_classes
      then record d { freelists = set d.freelists cls (p ∷ get_or d.freelists cls []) }
      else d
  | on_heap ↦ d
]

-- the entry after `p` on the queue
unfoldable pub snext : ℕ → List ℕ → Option ℕ
snext p [] = none
snext p (x ∷ xs) =
    let rest = snext p xs in if x == p then elim xs [ [] ↦ none | y ∷ ys ↦ some y ] else rest

-- a list of entries without `p`
unfoldable pub unlink : ℕ → List ℕ → List ℕ
unlink p [] = []
unlink p (x ∷ xs) = let rest = unlink p xs in if x == p then xs else x ∷ rest

abbrev pub hand_is : ℕ → Option ℕ → Bool
hand_is p none = false
hand_is p (some h) = h == p

unfoldable pub queue_unlink : DramShard → ℕ → DramShard
queue_unlink sh e = record sh {
  queue = unlink e sh.queue;
  s_hand = if hand_is e sh.s_hand then snext e sh.queue else sh.s_hand;
}

unfoldable pub queue_push_tail : DramShard → ℕ → DramShard
queue_push_tail sh e = record sh { queue = sh.queue ++ (e ∷ []) }

-- `a -= b` on a `uint64_t`
abbrev pub sub64 : ℕ → ℕ → ℕ
sub64 a b = u64 (a + 2 ^ 64 - b)

unfoldable pub entry_free : DramCache → DramShard → ℕ → DramCache × DramShard
entry_free d sh p =
    let e = entry_at d.heap p in
    let total = entry_total e.n_records e.buf_len in
    let d' = record d { bytes = sub64 d.bytes total; entries = sub64 d.entries 1 } in
    (
      if e.external then d' else class_free d' e.block e.size_class,
      record sh { bytes = sub64 sh.bytes total },
    )

unfoldable pub key_hash : ℕ → ℕ → ℕ
key_hash prefix_id group_idx = hash_mix64 (bit_xor prefix_id (u64 (group_idx * 2 ^ 32)))

unfoldable pub bucket_of : ℕ → ℕ → ℕ
bucket_of prefix_id group_idx =
    bit_and (u32 (key_hash prefix_id group_idx)) (kv_dram_shard_buckets - 1)

unfoldable pub bucket_unlink : DramCache → DramShard → ℕ → DramShard
bucket_unlink d sh p =
    let e = entry_at d.heap p in
    let b = bucket_of e.prefix_id e.group_idx in
    record sh { buckets = set sh.buckets b (unlink p (get_or sh.buckets b [])) }

-- where a round of `sieve_evict` starts, on a queue that is not empty
unfoldable pub sieve_at : DramShard → ℕ
sieve_at sh = elim sh.s_hand [ some e ↦ e | none ↦ get_or sh.queue 0 0 ]

-- the end of a round of `sieve_evict`: the entry leaves the shard
unfoldable pub sieve_drop : DramCache → DramShard → ℕ → DramCache × DramShard
sieve_drop d sh e =
    let next = snext e sh.queue in
    let sh' = record (queue_unlink (bucket_unlink d sh e) e) { s_hand = next } in
    entry_free (record d { evictions = u64 (d.evictions + 1) }) sh' e

unfoldable pub sieve_round : DramCache → DramShard → ℕ → DramCache × DramShard
sieve_round d sh protect =
    let e = sieve_at sh in
    if e == protect
    then (d, record sh { s_hand = snext e sh.queue })
    else if (entry_at d.heap e).visited
    then (
      record d { heap = set d.heap e (record (entry_at d.heap e) { visited = false }) },
      record sh { s_hand = snext e sh.queue },
    )
    else sieve_drop d sh e

abbrev pub is_empty : List ℕ → Bool
is_empty [] = true
is_empty (x ∷ xs) = false

-- the loop of `sieve_evict` while `guard` has rounds left
unfoldable pub sieve_loop : ℕ → DramCache → DramShard → ℕ → DramCache × DramShard
sieve_loop zero d sh protect = (d, sh)
sieve_loop (suc guard) d sh protect = elim (ltb sh.budget sh.bytes && not (is_empty sh.queue)) [
  | true ↦ let (d', sh') = sieve_round d sh protect in sieve_loop guard d' sh' protect
  | false ↦ (d, sh)
]

unfoldable pub sieve_evict : DramCache → DramShard → ℕ → DramCache × DramShard
sieve_evict d sh protect =
    let (d', sh') = sieve_loop 4096 d sh protect in
    (d', if is_empty sh'.queue then record sh' { s_hand = none } else sh')
