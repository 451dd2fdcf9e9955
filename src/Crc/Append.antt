-- ===== src/Crc/Append.antt =====
-- The CRC of a buffer taken in pieces is the CRC of the whole, and is a 32-bit word.
use kvtier.Prelude.{ℕ, zero, suc, ◌/◌, ◌^◌, ◌<◌, ◌≡◌, refl, ap, bit_xor, List, [], ◌∷◌, ◌++◌, arith}
use native.Mathlib.Nat.{mod-eq_of_lt}
use kvtier.Bits.{bit_xor-lt, bit_and_mask, bit_xor_twice}
use kvtier.Crc.{crc_round, crc_rounds, crc_table, crc_byte, crc_loop, crc32_partial}

crc_round-lt : (c : ℕ) → c < 2 ^ 32 → crc_round c < 2 ^ 32
unfolding crc_round
crc_round-lt c h = ground (arith, bit_xor-lt 32 0xEDB88320 (c / 2) (omega arith))

crc_rounds-lt : (k c : ℕ) → c < 2 ^ 32 → crc_rounds k c < 2 ^ 32
unfolding crc_rounds
crc_rounds-lt zero c h = h
crc_rounds-lt (suc k) c h = crc_rounds-lt k (crc_round c) (crc_round-lt c h)

crc_byte-lt : (crc p : ℕ) → crc < 2 ^ 32 → crc_byte crc p < 2 ^ 32
unfolding crc_byte crc_table
crc_byte-lt crc p h =
    bit_xor-lt 32 _ _ (omega arith)
      (crc_rounds-lt 8 _ (omega (arith, bit_and_mask 8 (bit_xor crc p))))

crc_loop-lt : (crc : ℕ) (bytes : List ℕ) → crc < 2 ^ 32 → crc_loop crc bytes < 2 ^ 32
unfolding crc_loop
crc_loop-lt crc [] h = h
crc_loop-lt crc (p ∷ ps) h = crc_loop-lt (crc_byte crc p) ps (crc_byte-lt crc p h)

pub crc32_partial-lt : (crc : ℕ) (bytes : List ℕ) → crc < 2 ^ 32 → crc32_partial crc bytes < 2 ^ 32
unfolding crc32_partial
crc32_partial-lt crc bytes h =
    bit_xor-lt 32 _ _ (crc_loop-lt _ bytes (bit_xor-lt 32 crc _ h (omega arith))) (omega arith)

flip_twice : (s : ℕ) → s < 2 ^ 32 → bit_xor (bit_xor s 0xFFFFFFFF) 0xFFFFFFFF ≡ s
flip_twice s h =
    let once : bit_xor s 0xFFFFFFFF < 2 ^ 32 = bit_xor-lt 32 s 0xFFFFFFFF h (omega arith) in
    let twice : bit_xor (bit_xor s 0xFFFFFFFF) 0xFFFFFFFF < 2 ^ 32 =
      bit_xor-lt 32 (bit_xor s 0xFFFFFFFF) 0xFFFFFFFF once (omega arith) in
    omega (
      arith,
      bit_xor_twice 32 s 0xFFFFFFFF,
      ap (λ (t : ℕ). bit_xor t 0xFFFFFFFF)
          (mod-eq_of_lt {n = bit_xor s 0xFFFFFFFF} {m = 2 ^ 32} once),
    )

crc_loop-append :
    (crc : ℕ) (xs ys : List ℕ) → crc_loop crc (xs ++ ys) ≡ crc_loop (crc_loop crc xs) ys
unfolding crc_loop
crc_loop-append crc [] ys = refl
crc_loop-append crc (x ∷ xs) ys = crc_loop-append (crc_byte crc x) xs ys

-- Continuing a CRC, itself a 32-bit word, over a second piece gives the CRC of the two pieces in
-- one.
pub crc32_partial-append :
    (crc : ℕ) (xs ys : List ℕ)
    → crc < 2 ^ 32
    → crc32_partial (crc32_partial crc xs) ys ≡ crc32_partial crc (xs ++ ys)
unfolding crc32_partial
crc32_partial-append crc xs ys h = rw (
  flip_twice (crc_loop (bit_xor crc 0xFFFFFFFF) xs)
      (crc_loop-lt _ xs (bit_xor-lt 32 crc 0xFFFFFFFF h (omega arith))),
  crc_loop-append (bit_xor crc 0xFFFFFFFF) xs ys,
)
