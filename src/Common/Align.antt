-- ===== src/Common/Align.antt =====
-- `align_up` of src/common.hpp at the page size.
use native.Mathlib.Nat.{mod-eq_of_lt}
use kvtier.Prelude.{ℕ, ◌+◌, ◌*◌, ◌/◌, ◌%◌, ◌^◌, ◌<◌, ◌≡◌, arith}
use kvtier.Bits.{bit_and_high}
use kvtier.Common.{page_align}

-- Below 2^64 - 4095, page_align rounds up to the next multiple of 4096.
pub page_align_lem : (v : ℕ) → v + 4095 < 2 ^ 64 → page_align v ≡ (v + 4095) / 4096 * 4096
unfolding page_align
page_align_lem v h =
    let e : (v + 4095) % 2 ^ 64 ≡ v + 4095 = mod-eq_of_lt h in
    rw e (omega (arith, bit_and_high 12 52 (v + 4095)))
