-- ===== src/Common/Bytes.antt =====
-- The bytes of a field of a packed struct. src/common.hpp refuses a host that is not little-endian,
-- so a field of `w` bytes is stored with its lowest byte first.
use native.Mathlib.Nat.{pow-suc}
use kvtier.Prelude.{
  ℕ, zero, suc, ◌+◌, ◌*◌, ◌/◌, ◌%◌, ◌^◌, ◌<◌, ◌≡◌, refl, ap, List, [], ◌∷◌, ◌++◌, arith, length,
  take, drop, drop-append_add,
}

-- the `w` bytes of a field
unfoldable pub le_bytes : ℕ → ℕ → List ℕ
le_bytes zero v = []
le_bytes (suc w) v = v % 256 ∷ le_bytes w (v / 256)

unfoldable pub le_value : List ℕ → ℕ
le_value [] = 0
le_value (b ∷ bs) = b + 256 * le_value bs

-- the field of `w` bytes at offset `off`
unfoldable pub field : List ℕ → ℕ → ℕ → ℕ
field bytes off w = le_value (take w (drop off bytes))

pub length-le_bytes : (w v : ℕ) → length (le_bytes w v) ≡ w
unfolding le_bytes
length-le_bytes zero v = refl
length-le_bytes (suc w) v = omega (arith, length-le_bytes w (v / 256))

-- Reading back a stored field gives the value, if it fits the field.
pub le_value-le_bytes : (w v : ℕ) → v < 256 ^ w → le_value (le_bytes w v) ≡ v
unfolding le_bytes le_value
le_value-le_bytes zero v h = omega arith
le_value-le_bytes (suc w) v h =
    omega (arith, le_value-le_bytes w (v / 256) (omega (arith, pow-suc 256 w)))

-- A field past a prefix is the field of what follows the prefix.
pub field-append :
    (pre bytes : List ℕ) (off k w : ℕ)
    → length pre ≡ off
    → field (pre ++ bytes) (off + k) w ≡ field bytes k w
unfolding field
field-append pre bytes off k w e =
    ap (λ (bs : List ℕ). le_value (take w bs)) (drop-append_add off k pre bytes e)
