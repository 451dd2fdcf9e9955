-- ===== src/Common.antt =====
-- The constants and return codes of include/kvtier.h, and the arithmetic of src/common.hpp.
-- A `uint64_t` or `uint32_t` is a number; what the source lets wrap is taken `% 2 ^ w` here.
pub mod Align
pub mod Bytes
mod Examples
use kvtier.Prelude.{ℕ, ◌+◌, ◌-◌, ◌%◌, ◌^◌, bit_and, Bool, ltb, if◌then◌else◌, ℤ, pos, negsuc}

-- the fixed widths: a value is stored modulo `2 ^ w`
abbrev pub u8 : ℕ → ℕ
u8 n = n % 2 ^ 8

abbrev pub u16 : ℕ → ℕ
u16 n = n % 2 ^ 16

abbrev pub u32 : ℕ → ℕ
u32 n = n % 2 ^ 32

abbrev pub u64 : ℕ → ℕ
u64 n = n % 2 ^ 64

abbrev pub kv_page_size : ℕ
kv_page_size = 4096

abbrev pub kv_chunk_hdr_size : ℕ
kv_chunk_hdr_size = 64

abbrev pub kv_replica_cnt : ℕ
kv_replica_cnt = 2

abbrev pub kv_max_layers_cap : ℕ
kv_max_layers_cap = 256

abbrev pub kv_invalid_dev : ℕ
kv_invalid_dev = 4294967295

abbrev pub kv_sb_magic : ℕ
kv_sb_magic = 0x3143564B

abbrev pub kv_rg_magic : ℕ
kv_rg_magic = 0x4752564B

abbrev pub kv_ck_magic : ℕ
kv_ck_magic = 0x4B43564B

-- `enum { KV_EOK = 0, KV_ENOMEM = -1, ... }`: the constants are already negative
abbrev pub kv_eok : ℤ
kv_eok = pos 0

abbrev pub kv_enomem : ℤ
kv_enomem = negsuc 0

abbrev pub kv_enoent : ℤ
kv_enoent = negsuc 2

abbrev pub kv_ebusy : ℤ
kv_ebusy = negsuc 3

abbrev pub kv_eread : ℤ
kv_eread = negsuc 4

abbrev pub kv_ecrc : ℤ
kv_ecrc = negsuc 6

abbrev pub kv_efull : ℤ
kv_efull = negsuc 7

abbrev pub kv_eio : ℤ
kv_eio = negsuc 8

abbrev pub kv_einval : ℤ
kv_einval = negsuc 10

abbrev pub kv_evicted : ℤ
kv_evicted = negsuc 11

-- `(v + (a - 1)) & ~(a - 1)` over `uint64_t`
pub align_up : ℕ → ℕ → ℕ
align_up v a = bit_and (u64 (v + (a - 1))) (2 ^ 64 - 1 - (a - 1))

pub page_align : ℕ → ℕ
unfolding align_up
page_align v = align_up v kv_page_size

unfoldable pub min_of : ℕ → ℕ → ℕ
min_of a b = if ltb a b then a else b
