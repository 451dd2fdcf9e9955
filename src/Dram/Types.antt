-- ===== src/Dram/Types.antt =====
-- The data of src/dram.hpp. The heap is the list of the entries in the order of their allocation,
-- and a pointer to an entry is its index; a freed entry stays there, out of reach.
use kvtier.Prelude.{ℕ, ◌+◌, ◌*◌, Bool, false, List, [], Option, none, get_or}
use kvtier.Common.{u32}

abbrev pub kv_dram_n_classes : ℕ
kv_dram_n_classes = 6

abbrev pub kv_dram_n_shards : ℕ
kv_dram_n_shards = 64

abbrev pub kv_dram_shard_buckets : ℕ
kv_dram_shard_buckets = 256

abbrev pub kv_dram_backend_max : ℕ
kv_dram_backend_max = 3

abbrev pub kv_dram_default_entry_max : ℕ
kv_dram_default_entry_max = 8 * 1024 * 1024

pub record DramRec : Type 0 where
  pub layer_id : ℕ
  pub off : ℕ
  pub len : ℕ

-- the memory of an entry: an offset in the arena, or a block that `malloc` gave
pub data Block : Type 0 where
  in_arena : ℕ → Block
  on_heap : Block

pub record DramEntry : Type 0 where
  pub prefix_id : ℕ
  pub group_idx : ℕ
  pub ver : ℕ
  pub expire_ts : ℕ
  pub buf_len : ℕ
  pub n_records : ℕ
  pub external : Bool
  pub visited : Bool
  pub size_class : ℕ
  pub block : Block
  pub recs : List DramRec
  pub buf : List ℕ

-- `queue` runs from `s_head` to `s_tail` along `snext`, a bucket along `hnext`
pub record DramShard : Type 0 where
  pub budget : ℕ
  pub buckets : List (List ℕ)
  pub queue : List ℕ
  pub s_hand : Option ℕ
  pub bytes : ℕ

-- `arena_len` is the length of the mapping less what lies before the arena
pub record DramCache : Type 0 where
  pub budget : ℕ
  pub shard_budget : ℕ
  pub entry_max : ℕ
  pub backend : ℕ
  pub n_shards : ℕ
  pub arena_len : ℕ
  pub bump : ℕ
  pub freelists : List (List ℕ)
  pub hits : ℕ
  pub misses : ℕ
  pub evictions : ℕ
  pub entries : ℕ
  pub bytes : ℕ
  pub shards : List DramShard
  pub heap : List DramEntry

abbrev pub no_entry : DramEntry
no_entry = record {
  prefix_id = 0;
  group_idx = 0;
  ver = 0;
  expire_ts = 0;
  buf_len = 0;
  n_records = 0;
  external = false;
  visited = false;
  size_class = 0;
  block = on_heap;
  recs = [];
  buf = [];
}

abbrev pub no_shard : DramShard
no_shard = record { budget = 0; buckets = []; queue = []; s_hand = none; bytes = 0 }

abbrev pub entry_at : List DramEntry → ℕ → DramEntry
entry_at heap p = get_or heap p no_entry

-- `sizeof(dram_entry)` is 56 and `sizeof(dram_rec)` is 12
-- the size of an entry and what is behind it, as `size_t`
abbrev pub entry_size : ℕ → ℕ → ℕ
entry_size n_records buf_len = 56 + n_records * 12 + buf_len

unfoldable pub entry_total : ℕ → ℕ → ℕ
entry_total n_records buf_len = u32 (entry_size n_records buf_len)

abbrev pub total_at : List DramEntry → ℕ → ℕ
total_at heap p = entry_total (entry_at heap p).n_records (entry_at heap p).buf_len
