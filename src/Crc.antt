-- ===== src/Crc.antt =====
-- src/crc32.hpp: the byte-wise CRC-32 with its table.
pub mod Append
use kvtier.Prelude.{ℕ, zero, suc, ◌/◌, ◌^◌, bit_xor, bit_and, List, [], ◌∷◌, ◌==◌, if◌then◌else◌}

-- one of the eight rounds of `make_crc_table`
crc_round : ℕ → ℕ
crc_round c = if bit_and c 1 == 1 then bit_xor 0xEDB88320 (c / 2) else c / 2

crc_rounds : ℕ → ℕ → ℕ
unfolding crc_round
crc_rounds zero c = c
crc_rounds (suc k) c = crc_rounds k (crc_round c)

-- the entry `crc_table[i]` that `make_crc_table` fills in
unfoldable pub crc_table : ℕ → ℕ
unfolding crc_rounds
crc_table i = crc_rounds 8 i

-- the body of `while (len--)`
crc_byte : ℕ → ℕ → ℕ
unfolding crc_table
crc_byte crc p = bit_xor (crc / 2 ^ 8) (crc_table (bit_and (bit_xor crc p) 0xff))

crc_loop : ℕ → List ℕ → ℕ
unfolding crc_byte
crc_loop crc [] = crc
crc_loop crc (p ∷ ps) = crc_loop (crc_byte crc p) ps

unfoldable pub crc32_partial : ℕ → List ℕ → ℕ
unfolding crc_loop
crc32_partial crc bytes = bit_xor (crc_loop (bit_xor crc 0xFFFFFFFF) bytes) 0xFFFFFFFF

unfoldable pub crc32 : List ℕ → ℕ
unfolding crc32_partial
crc32 bytes = crc32_partial 0 bytes
