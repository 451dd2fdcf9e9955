-- ===== src/Dram/Examples.antt =====
-- src/dram.cpp on a cache of one shard with one entry.
use kvtier.Prelude.{
  ◌*◌, ◌≡◌, refl, ◌∙◌, sym, true, false, some, none, [], ◌∷◌, replicate, inl, arith,
}
use kvtier.Common.{kv_eok}
use kvtier.Dram.Types.{
  DramEntry, DramShard, DramCache, in_arena, entry_total, kv_dram_shard_buckets,
}
use kvtier.Hash.{hash_mix64}
use kvtier.Dram.{pick_class, pick_from, bucket_of, key_hash}
use kvtier.Dram.Ops.{DramPut, shard_count, shard_of, entry_find, chain_find, dram_put, dram_get}
use kvtier.Dram.Hit.{IsCache, IsRequest}
use kvtier.Dram.Roundtrip.{present, dram_get-dram_put}

-- an entry of 1000 bytes that was read
abbrev first_entry : DramEntry
first_entry = record {
  prefix_id = 7;
  group_idx = 0;
  ver = 1;
  expire_ts = 0;
  buf_len = 1000;
  n_records = 0;
  external = false;
  visited = true;
  size_class = 0;
  block = in_arena 0;
  recs = [];
  buf = replicate 1000 3;
}

abbrev shard : DramShard
shard = record {
  budget = 1500;
  buckets = replicate kv_dram_shard_buckets (0 ∷ []);
  queue = 0 ∷ [];
  s_hand = none;
  bytes = 1056;
}

abbrev cache : DramCache
cache = record {
  budget = 100000;
  shard_budget = 1500;
  entry_max = 1400;
  backend = 1;
  n_shards = 1;
  arena_len = 8192;
  bump = 4096;
  freelists = replicate 6 [];
  hits = 0;
  misses = 0;
  evictions = 0;
  entries = 1;
  bytes = 1056;
  shards = shard ∷ [];
  heap = first_entry ∷ [];
}

-- a newer version of the same entry
abbrev request : DramPut
request = record {
  prefix_id = 7;
  group_idx = 0;
  ver = 2;
  expire_ts = 0;
  buf_len = 4;
  buf = 1 ∷ 2 ∷ 3 ∷ 4 ∷ [];
  n_recs = 1;
  recs = record { layer_id = 0; off = 0; len = 4 } ∷ [];
}

-- an entry that does not fit beside the first one
abbrev large : DramPut
large = record {
  prefix_id = 9;
  group_idx = 0;
  ver = 1;
  expire_ts = 0;
  buf_len = 800;
  buf = replicate 800 5;
  n_recs = 0;
  recs = [];
}

total_first : (entry_total 0 1000 ≡ 1056) × (entry_total 0 800 ≡ 856) × (entry_total 1 4 ≡ 72)
unfolding entry_total
total_first = (refl, refl, refl)

classes : (pick_class 1056 ≡ 0) × (pick_class 4097 ≡ 1) × (pick_class 8388609 ≡ 6)
unfolding pick_class pick_from
classes = (refl, refl, refl)

-- 10 MB are cut into eight shards
shards_of : shard_count 6 (10 * 1024 * 1024) 64 ≡ 8
unfolding shard_count
shards_of = refl

cache-IsCache : IsCache cache
cache-IsCache = record {
  some_shard = omega arith;
  shards = refl;
  buckets = λ i l. (let e : i ≡ 0 = omega (arith, l) in rw e refl);
}

request-IsRequest : IsRequest 100 8 request
request-IsRequest = record {
  some_bytes = λ e. omega (arith, e);
  buf = refl;
  recs = refl;
  recs_le = omega arith;
  expire = inl refl;
}

old_found : present cache request ≡ some 0
unfolding entry_find chain_find shard_of bucket_of key_hash hash_mix64
old_found = refl

dram_get-dram_put_example :
    ((dram_put true cache request).0 ≡ some kv_eok)
    × ((dram_get true 100 (dram_put true cache request).1 7 0 2 8).0 ≡ kv_eok)
    × ((dram_get true 100 (dram_put true cache request).1 7 0 2 8).1
        ≡ some (record { buf = request.buf; recs = request.recs }))
dram_get-dram_put_example =
    dram_get-dram_put 100 8 cache request cache-IsCache request-IsRequest (omega arith)
      (omega (arith, total_first.2)) (omega (arith, total_first.2))
      (λ old e.
        (let s : some old ≡ some 0 = sym e ∙ old_found in
          let at : old ≡ 0 = cc s in rw at (omega arith)))
