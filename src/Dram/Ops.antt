-- ===== src/Dram/Ops.antt =====
-- The calls of src/dram.cpp that take a whole cache: `dram_init`, `dram_get`, `dram_put`,
-- `dram_invalidate` and `dram_stat`. Each runs under the mutex of one shard.
use kvtier.Prelude.{
  ◌^◌, ℕ, zero, suc, ◌+◌, ◌*◌, ◌/◌, ◌%◌, Bool, true, false, ◌||◌, ◌&&◌, not, Option, none, some,
  List, [], ◌∷◌, ◌++◌, ◌==◌, ltb, leb, if◌then◌else◌, length, get_or, set, replicate, take, ℤ, neg,
}
use kvtier.Common.{u64, kv_eok, kv_enomem, kv_enoent, kv_efull, kv_einval, min_of}
use kvtier.Dram.Types.{
  DramRec, DramEntry, DramShard, DramCache, Block, in_arena, on_heap, no_shard, entry_at,
  entry_size, entry_total, kv_dram_n_classes, kv_dram_n_shards, kv_dram_shard_buckets,
  kv_dram_backend_max, kv_dram_default_entry_max,
}
use kvtier.Dram.{
  pick_class, class_alloc, queue_unlink, queue_push_tail, entry_free, key_hash, bucket_of,
  bucket_unlink, sieve_evict,
}

-- `while (n_shards > 1 && budget / n_shards < 1024 * 1024) n_shards >>= 1`
unfoldable pub shard_count : ℕ → ℕ → ℕ → ℕ
shard_count zero budget n = n
shard_count (suc fuel) budget n =
    let rest = shard_count fuel budget (n / 2) in
    if ltb 1 n && ltb (budget / n) (1024 * 1024) then rest else n

-- what `arena_map` gets from the system: the backend, 0 when there is no memory, and the bytes from
-- the arena on to the end of the mapping
pub record Mapping : Type 0 where
  pub backend : ℕ
  pub arena_len : ℕ

-- the cache is null when there is no budget or an error
unfoldable pub dram_init : (ℕ → ℕ → Mapping) → ℕ → ℕ → ℕ → ℤ × Option DramCache
dram_init arena_map budget entry_max backend_req =
    if budget == 0
    then (kv_eok, none)
    else if ltb kv_dram_backend_max backend_req
    then (neg kv_einval, none)
    else let n = shard_count 6 budget kv_dram_n_shards in
      let m = arena_map budget backend_req in
      if m.backend == 0 then (neg kv_enomem, none) else (
        kv_eok,
        some (record {
          budget = budget;
          shard_budget = budget / n;
          entry_max = if entry_max == 0 then kv_dram_default_entry_max else min_of entry_max budget;
          backend = m.backend;
          n_shards = n;
          arena_len = m.arena_len;
          bump = 0;
          freelists = replicate kv_dram_n_classes [];
          hits = 0;
          misses = 0;
          evictions = 0;
          entries = 0;
          bytes = 0;
          shards = replicate n (record {
            budget = budget / n;
            buckets = replicate kv_dram_shard_buckets [];
            queue = [];
            s_hand = none;
            bytes = 0;
          });
          heap = [];
        }),
      )

unfoldable pub shard_of : DramCache → ℕ → ℕ → ℕ
shard_of d prefix_id group_idx = key_hash prefix_id group_idx % d.n_shards

abbrev pub shard_at : DramCache → ℕ → DramShard
shard_at d i = get_or d.shards i no_shard

-- the loop of `entry_find` along a bucket
unfoldable pub chain_find : List DramEntry → List ℕ → ℕ → ℕ → Option ℕ
chain_find heap [] prefix_id group_idx = none
chain_find heap (p ∷ ps) prefix_id group_idx =
    let e = entry_at heap p in
    let rest = chain_find heap ps prefix_id group_idx in
    if e.prefix_id == prefix_id && e.group_idx == group_idx then some p else rest

unfoldable pub entry_find : DramCache → DramShard → ℕ → ℕ → ℕ → Option ℕ
entry_find d sh b prefix_id group_idx =
    chain_find d.heap (get_or sh.buckets b []) prefix_id group_idx

abbrev pub put_shard : ℕ → DramCache × DramShard → DramCache
put_shard i (d, sh) = record d { shards = set d.shards i sh }

-- what a hit hands out
pub record DramHit : Type 0 where
  pub buf : List ℕ
  pub recs : List DramRec

-- the entry is too old, of another version, or absent
abbrev pub is_stale : ℕ → ℕ → DramEntry → Bool
is_stale now expect_ver e =
    not (e.ver == expect_ver) || (not (e.expire_ts == 0) && ltb e.expire_ts now)

abbrev pub dram_miss : DramCache → ℤ × Option DramHit × DramCache
dram_miss d = (neg kv_enoent, none, record d { misses = u64 (d.misses + 1) })

-- `now` is `now_s()`, and `alloc_ok` says whether `aligned_alloc` gives a buffer
unfoldable pub dram_get : Bool → ℕ → DramCache → ℕ → ℕ → ℕ → ℕ → ℤ × Option DramHit × DramCache
dram_get alloc_ok now d prefix_id group_idx expect_ver rec_cap =
    let sh = shard_at d (shard_of d prefix_id group_idx) in
    elim (entry_find d sh (bucket_of prefix_id group_idx) prefix_id group_idx) [
      | none ↦ dram_miss d
      | some p ↦
          let e = entry_at d.heap p in
          if is_stale now expect_ver e
          then dram_miss d
          else if not alloc_ok
          then (neg kv_enomem, none, d)
          else (
            kv_eok,
            some (record {
              buf = take e.buf_len e.buf;
              recs = take (if ltb e.n_records rec_cap then e.n_records else rec_cap) e.recs;
            }),
            record d { heap = set d.heap p (record e { visited = true }); hits = u64 (d.hits + 1) },
          )
    ]

-- an entry leaves its bucket, the queue and the counts
unfoldable pub entry_drop : DramCache → DramShard → ℕ → DramCache × DramShard
entry_drop d sh p = entry_free d (queue_unlink (bucket_unlink d sh p) p) p

-- a new entry of the heap enters its bucket, the queue and the counts
unfoldable pub entry_link : DramCache → DramShard → DramEntry → DramCache × DramShard
entry_link d sh e =
    let p = length d.heap in
    let total = entry_total e.n_records e.buf_len in
    let b = bucket_of e.prefix_id e.group_idx in
    let chained = record sh { buckets = set sh.buckets b (p ∷ get_or sh.buckets b []) } in
    (
      record d {
        heap = d.heap ++ (e ∷ []);
        bytes = u64 (d.bytes + total);
        entries = u64 (d.entries + 1);
      },
      record (queue_push_tail chained p) { bytes = u64 (sh.bytes + total) },
    )

pub record DramPut : Type 0 where
  pub prefix_id : ℕ
  pub group_idx : ℕ
  pub ver : ℕ
  pub expire_ts : ℕ
  pub buf_len : ℕ
  pub buf : List ℕ
  pub n_recs : ℕ
  pub recs : List DramRec

abbrev pub new_entry : DramPut → ℕ → Block → DramEntry
new_entry r cls block = record {
  prefix_id = r.prefix_id;
  group_idx = r.group_idx;
  ver = r.ver;
  expire_ts = r.expire_ts;
  buf_len = r.buf_len;
  n_records = r.n_recs;
  external = leb kv_dram_n_classes cls || elim block [ on_heap ↦ true | in_arena p ↦ false ];
  visited = false;
  size_class = cls;
  block = block;
  recs = take r.n_recs r.recs;
  buf = take r.buf_len r.buf;
}

-- `dram_put` once an older entry of the key is gone. Where the size wraps in `entry_total` the block
-- is too short: the records and bytes are copied over its end, and no result is defined (`none`).
unfoldable pub put_new : Bool → DramCache → DramShard → DramPut → Option ℤ × (DramCache × DramShard)
put_new malloc_ok d sh r =
    let cls = pick_class (entry_total r.n_recs r.buf_len) in
    let (d', block) = class_alloc malloc_ok d cls in
    elim block [
      | none ↦ (some kv_efull, (d', sh))
      | some b ↦
          let (d₂, sh₂) = entry_link d' sh (new_entry r cls b) in
          if leb (2 ^ 32) (entry_size r.n_recs r.buf_len)
          then (none, (d', sh))
          else (some kv_eok, sieve_evict d₂ sh₂ (length d'.heap))
    ]

unfoldable pub dram_put : Bool → DramCache → DramPut → Option ℤ × DramCache
dram_put malloc_ok d r =
    let total = entry_total r.n_recs r.buf_len in
    let i = shard_of d r.prefix_id r.group_idx in
    let sh = shard_at d i in
    if (r.buf_len == 0) || ltb d.entry_max total || ltb d.budget total
    then (some kv_efull, d)
    else elim (entry_find d sh (bucket_of r.prefix_id r.group_idx) r.prefix_id r.group_idx) [
      | some old ↦
          if leb r.ver (entry_at d.heap old).ver
          then (some kv_eok, d)
          else let (d', sh') = entry_drop d sh old in
            let (rc, w) = put_new malloc_ok d' sh' r in (rc, put_shard i w)
      | none ↦ let (rc, w) = put_new malloc_ok d sh r in (rc, put_shard i w)
    ]

unfoldable pub dram_invalidate : DramCache → ℕ → ℕ → DramCache
dram_invalidate d prefix_id group_idx =
    let i = shard_of d prefix_id group_idx in
    let sh = shard_at d i in
    elim (entry_find d sh (bucket_of prefix_id group_idx) prefix_id group_idx) [
      | none ↦ d
      | some p ↦ put_shard i (entry_drop d sh p)
    ]

-- the keys that `dram_stat` compares with
pub data DramKey : Type 0 where
  dram_hits dram_misses dram_evictions dram_entries dram_bytes dram_backend other_key : DramKey

unfoldable pub dram_stat : Option DramCache → DramKey → ℕ
dram_stat none key = 0
dram_stat (some d) dram_hits = d.hits
dram_stat (some d) dram_misses = d.misses
dram_stat (some d) dram_evictions = d.evictions
dram_stat (some d) dram_entries = d.entries
dram_stat (some d) dram_bytes = d.bytes
dram_stat (some d) dram_backend = d.backend
dram_stat (some d) other_key = 0
