-- ===== src/Lib.antt =====
-- kvtier: a tiered cache of key-value groups for language models, in DRAM and on block devices. This
-- library models the parts of the program that decide what stands on a device and what is found
-- there again, and proves what they promise.
--
-- How the parts work together: the cache (src/cache.cpp) cuts its values into chunks (src/chunk.cpp),
-- which a writer places in the open region of a device (src/region.cpp). Each published leaf is
-- logged in the device's journal (src/journal.cpp), whose replay rebuilds the index after a restart;
-- superblock and region headers say what the device holds. The radix tree (src/radix.cpp) maps paths
-- of hashes to nodes, whose hit counts say which prefixes are hot (src/hot.cpp); the values read last
-- stay in the DRAM cache (src/dram.cpp). Evicted prefixes leave tombstones, in a table of
-- src/cache.cpp or in a cuckoo filter (src/cuckoo.cpp); the side table of src/cache.cpp finds a
-- prefix's node. A model profile (src/model_profile.cpp) gives the sizes of all this.
--
-- The files:
--   Prelude, Prelude/*   library names, Boolean tests, lists and integers over native numbers
--   Bits                 lemmas on bit_and and bit_xor
--   Common, Common/*     include/kvtier.h and src/common.hpp: constants, codes, bytes of a field
--   Hash, Crc            src/hash.hpp, src/crc32.hpp
--   Device               the interface of src/device.hpp: `read_page`, `write_page`
--   Region, Region/*     src/region.hpp, src/region.cpp: `sb_load`, `sb_write`, `write_header`, `load`
--   Chunk, Chunk/*       src/chunk.hpp, src/chunk.cpp: `chunk_encode`, `chunk_validate`, the parser
--   Journal, Journal/*   src/journal.hpp, src/journal.cpp: `journal_append` and its callers (Log),
--                        `journal_replay` (Replay)
--   Cuckoo, Cuckoo/*     src/cuckoo.cpp: the filter's operations
--   Cache, Cache/*       src/cache.cpp: side table, tombstones, shapes, live bytes,
--                        `leaf_journal`
--   Probing              the loop of open addressing that src/cache.cpp and src/radix.cpp share
--   Radix, Radix/*       src/radix.hpp, src/radix.cpp: edges (Edges, Table, Overflow,
--                        Add, Node, Migrate, EdgeAdd, Parent), `radix_walk` (Tree, Child, Walk), the
--                        visits and hit counts (Visit, Ascend, Reach)
--   Hot, Hot/*           src/hot.cpp: `hot_check_path`
--   Dram, Dram/*         src/dram.hpp, src/dram.cpp: the data (Types), allocation, queue and
--                        `sieve_evict` (Dram), the calls (Ops), eviction (Queue, Sieve, Rounds,
--                        Evict), `dram_put` and `dram_get` (Stays, Link, Put, Hit, Roundtrip)
--   Gc, Gc/*             src/gc.cpp: the region that `cache_force_free_region` chooses
--   Writer, Writer/*     src/writer.hpp, src/writer.cpp: `mpsc_push` and `mpsc_pop` (Ring: the accesses
--                        one by one; Ring/*: the invariant and what it shows),
--                        `writer_freeze_and_rotate` (Rotate), the batches (Batch), the put contexts
--                        (Ctx); the regions when src/cache.cpp opens a cache again (Reopen)
--   Ckpt, Ckpt/*         src/journal.cpp: `ckpt_load`
--   Metrics, Metrics/*   src/metrics/metrics.cpp: latency histograms
--   ModelProfile, ...    include/model_profile.h, src/model_profile.cpp: sizes, presets, `kv_mp_tune`
-- The modules called Examples apply the theorems to concrete values.
--
-- How the code is rendered: a function that changes an object takes it and returns it; a null pointer
-- is `none` or an empty list; a return code is an integer, with the sign that the source gives it.
-- Unsigned arithmetic that can wrap is taken modulo 2^w. A packed struct is the list of its bytes. The
-- clock, and what the operating system answers to a read or a write, are arguments or fields of
-- `Device`; a failed write may leave anything in its page. A mutex makes an operation atomic. A heap
-- of nodes or entries is a list in the order of allocation, and a pointer is an index. Memory can be
-- had in the radix tree; in the DRAM cache a Boolean argument says whether it can. Where the copy of an
-- entry runs over the end of its block no result is defined, and `dram_put` of the model has none.
--
-- Fuel: `kv_cuckoo_init` doubles at most 32 times, which is enough for 32-bit sizes; `gcd_u64` runs
-- one round more than its second operand; `pow2_floor` makes 33 rounds; a page of the journal takes 64
-- rounds, as a record has at least 64 bytes; a probe goes once round the slots. Insertion into the
-- filter makes the source's 500 kicks, and `sieve_evict` its 4096 rounds. `radix_hit_ascend` takes as
-- many rounds as the tree has nodes, which is enough as a parent is older than its node;
-- `shard_count` halves 64 at most six times. `radix_visit` and `radix_hit_decay` take the number of
-- rounds and of levels as an argument.
--
-- Threads: the ring of a writer is the one place where calls interleave within an operation. A thread
-- that pushes or pops is a place in its program with its locals, and makes one access to shared memory
-- a step; the accesses are sequentially consistent, and a weak compare-exchange may fail without
-- reason. No fuel is needed there: the theorems hold after any number of steps; a call that runs alone
-- makes a fixed number of accesses, and three more for each compare-exchange that fails so.
--
-- Not modelled: what a writer does when a write is complete, the rest of the garbage collection,
-- `ckpt_write` and the bytes of a checkpoint, put, get and eviction of the cache as a whole, the
-- metrics' snapshot and output, io_uring, the presets' names and the config.json reader, adapters,
-- tools, examples and tests. When `cache_force_free_region` drops a region only the live bytes that
-- `cache_drop_region` leaves are in the model, as a parameter; its records in the journal and its
-- effect on the leaves, the DRAM cache and the tombstones are not. The arena of the DRAM cache is mapped by the system.
pub mod Bits
pub mod Cache
pub mod Chunk
pub mod Ckpt
pub mod Common
pub mod Crc
pub mod Cuckoo
pub mod Device
pub mod Dram
pub mod Gc
pub mod Hash
pub mod Hot
pub mod Journal
pub mod Metrics
pub mod ModelProfile
pub mod Prelude
pub mod Probing
pub mod Radix
pub mod Region
pub mod Writer
