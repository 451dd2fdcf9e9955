-- ===== src/Hash.antt =====
-- src/hash.hpp: the 64-bit mixer and the two hashes, over `uint64_t` arithmetic that wraps.
use kvtier.Prelude.{ℕ, ◌*◌, ◌/◌, ◌^◌, ◌<◌, bit_xor, bit_and, List, [], ◌∷◌, arith}
use kvtier.Bits.{bit_xor-lt}
use kvtier.Common.{u64}

-- `x ^= x >> k`
abbrev xor_shift : ℕ → ℕ → ℕ
xor_shift k x = bit_xor x (x / 2 ^ k)

unfoldable pub hash_mix64 : ℕ → ℕ
hash_mix64 x =
    let a : ℕ = u64 (xor_shift 30 x * 0xbf58476d1ce4e5b9) in
    let b : ℕ = u64 (xor_shift 27 a * 0x94d049bb133111eb) in xor_shift 31 b

-- one byte of the FNV loop: `h ^= p; h *= 0x100000001b3`
abbrev fnv_byte : ℕ → ℕ → ℕ
fnv_byte h p = u64 (bit_xor h p * 0x100000001b3)

hash64_loop : ℕ → List ℕ → ℕ
hash64_loop h [] = h
hash64_loop h (p ∷ ps) = hash64_loop (fnv_byte h p) ps

unfoldable pub hash64 : List ℕ → ℕ → ℕ
unfolding hash64_loop hash_mix64
hash64 bytes seed = hash_mix64 (hash64_loop (bit_xor 0xcbf29ce484222325 seed) bytes)

-- the four bytes of one token, lowest first
hash_token : ℕ → ℕ → ℕ
hash_token h t =
    let h₀ : ℕ = fnv_byte h (bit_and t 0xff) in
    let h₁ : ℕ = fnv_byte h₀ (bit_and (t / 2 ^ 8) 0xff) in
    let h₂ : ℕ = fnv_byte h₁ (bit_and (t / 2 ^ 16) 0xff) in fnv_byte h₂ (bit_and (t / 2 ^ 24) 0xff)

hash_tokens : ℕ → List ℕ → ℕ
unfolding hash_token
hash_tokens h [] = h
hash_tokens h (t ∷ ts) = hash_tokens (hash_token h t) ts

-- `tokens` are the `n_tokens` tokens of the group
unfoldable pub hash_path : ℕ → List ℕ → ℕ → ℕ
unfolding hash_tokens hash_mix64
hash_path prefix_id tokens group_idx =
    let h₀ : ℕ = bit_xor 0xcbf29ce484222325 prefix_id in
    let h₁ : ℕ = bit_xor (u64 (h₀ * 2)) group_idx in hash_mix64 (hash_tokens h₁ tokens)

-- the mixer's result is a `uint64_t`
pub hash_mix64-lt : (x : ℕ) → hash_mix64 x < 2 ^ 64
unfolding hash_mix64
hash_mix64-lt x =
    let a : ℕ = u64 (xor_shift 30 x * 0xbf58476d1ce4e5b9) in
    let b : ℕ = u64 (xor_shift 27 a * 0x94d049bb133111eb) in
    bit_xor-lt 64 b (b / 2 ^ 31) (omega arith) (omega arith)
