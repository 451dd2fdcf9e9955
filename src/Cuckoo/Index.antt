-- ===== src/Cuckoo/Index.antt =====
-- `alt_index` of src/cuckoo.cpp over a power of two: it stays in range, and is its own inverse.
use native.Mathlib.Nat.{mod-lt, mod-eq_of_lt, one-le-pow}
use kvtier.Prelude.{ℕ, ◌-◌, ◌%◌, ◌^◌, ◌<◌, ◌≡◌, ap, ◌∙◌, bit_and, bit_xor, arith}
use kvtier.Bits.{bit_and_mask, bit_xor_twice}
use kvtier.Hash.{hash_mix64}
use kvtier.Cuckoo.{fp_of, alt_index, first_index}

module _ (k : ℕ) where
  pub mask-lt : (x : ℕ) → bit_and x (2 ^ k - 1) < 2 ^ k
  mask-lt x = omega (arith, bit_and_mask k x, mod-lt x {m = 2 ^ k} (one-le-pow k 2 (omega arith)))

  pub mask_of_lt : (x : ℕ) → x < 2 ^ k → bit_and x (2 ^ k - 1) ≡ x
  mask_of_lt x h = bit_and_mask k x ∙ mod-eq_of_lt h

  pub alt_index-lt : (i fp : ℕ) → alt_index i fp (2 ^ k) < 2 ^ k
  unfolding alt_index
  alt_index-lt i fp = mask-lt (bit_xor i (hash_mix64 fp))

  pub first_index-lt : (key : ℕ) → first_index key (2 ^ k) < 2 ^ k
  unfolding first_index
  first_index-lt key = mask-lt (hash_mix64 key)

  -- Over 2^k buckets, alt_index applied twice with one fingerprint gives back a bucket index in
  -- range.
  pub alt_index_twice : (i fp : ℕ) → i < 2 ^ k → alt_index (alt_index i fp (2 ^ k)) fp (2 ^ k) ≡ i
  unfolding alt_index
  alt_index_twice i fp h =
      let g : ℕ = hash_mix64 fp in
      ap (λ (t : ℕ). bit_and (bit_xor t g) (2 ^ k - 1)) (bit_and_mask k (bit_xor i g))
      ∙ bit_and_mask k (bit_xor (bit_xor i g % 2 ^ k) g)
      ∙ bit_xor_twice k i g
      ∙ mod-eq_of_lt h

-- a fingerprint is a byte other than 0
pub fp_of_bounds : (key : ℕ) → (0 < fp_of key) × (fp_of key < 256)
unfolding fp_of
fp_of_bounds key =
    ground (arith, bit_and_mask 8 (hash_mix64 (bit_xor key 0x9e3779b97f4a7c15) % 2 ^ 32))
