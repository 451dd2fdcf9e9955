-- ===== src/Bits.antt =====
-- Bit operations at variables: the step on the lowest digit, masks of ones, and `^` twice.
use Prim.Native.Nat.{digits, bitwise, differ, bit_and-bitwise, bit_xor-bitwise}
use native.Mathlib.Nat.{
  pow-suc, one-le-pow, mod-lt, div-div-eq-div-mul, div-add-mod', mod-eq_of_lt,
  mul-add-mod_self_right,
}
use kvtier.Prelude.{
  ℕ, zero, suc, ◌+◌, ◌-◌, ◌*◌, ◌/◌, ◌%◌, ◌^◌, ◌≤◌, ◌<◌, bit_and, bit_xor, min, ◌≡◌, refl, ap, arith,
}

module _ (rest : ℕ → ℕ) (op : ℕ → ℕ → ℕ) where
  digits-zero : (j k y : ℕ) → digits rest op j 0 y ≡ digits rest op k 0 y
  digits-zero zero zero y = refl
  digits-zero zero (suc k) y = refl
  digits-zero (suc j) zero y = refl
  digits-zero (suc j) (suc k) y = refl

  -- any fuel that bounds the first operand gives the same digits
  digits_enough : (x y : ℕ) {j k : ℕ} → x ≤ j → x ≤ k → digits rest op j x y ≡ digits rest op k x y
  digits_enough zero y {j = j} {k = k} u v = digits-zero j k y
  digits_enough (suc x) y {j = zero} u v = absurd (omega arith)
  digits_enough (suc x) y {j = suc j} {k = zero} u v = absurd (omega arith)
  digits_enough (suc x) y {j = suc j} {k = suc k} u v =
      rw (digits_enough (suc x / 2) (y / 2) {j = j} {k = k} (omega arith) (omega arith))

  bitwise_step :
      (x y : ℕ)
      → bitwise rest op (suc x) y ≡ op (suc x % 2) (y % 2) + 2 * bitwise rest op (suc x / 2) (y / 2)
  bitwise_step x y =
      omega (
        arith,
        digits_enough (suc x / 2) (y / 2) {j = x} {k = suc x / 2} (omega arith) (omega arith),
      )

mod_unique : (m q a r : ℕ) → r < m → a ≡ q * m + r → a % m ≡ r
mod_unique m q a r h e = rw (e, mul-add-mod_self_right q m r) (mod-eq_of_lt h)

pub bit_and-halves : (x y : ℕ) → bit_and x y ≡ min (x % 2) (y % 2) + 2 * bit_and (x / 2) (y / 2)
bit_and-halves zero y = simp bit_and-bitwise (omega arith)
bit_and-halves (suc x) y = simp bit_and-bitwise (bitwise_step (λ _. 0) min x y)

pub bit_xor-halves : (x y : ℕ) → bit_xor x y ≡ differ (x % 2) (y % 2) + 2 * bit_xor (x / 2) (y / 2)
bit_xor-halves zero y = simp bit_xor-bitwise (omega arith)
bit_xor-halves (suc x) y = simp bit_xor-bitwise (bitwise_step (λ d. d) differ x y)

none-bit_and : (y : ℕ) → bit_and 0 y ≡ 0
none-bit_and y = simp bit_and-bitwise (omega arith)

-- the remainder by `2 ^ (k + 1)`, digit by digit
mod_double : (k a : ℕ) → a % 2 ^ suc k ≡ (a / 2) % 2 ^ k * 2 + a % 2
mod_double k a =
    mod_unique (2 ^ suc k) (a / 2 / 2 ^ k) a _
      (omega (
        arith,
        pow-suc 2 k,
        one-le-pow k 2,
        mod-lt (a / 2) {m = 2 ^ k} (one-le-pow k 2 (omega arith)),
      ))
      (omega (arith, div-add-mod' (a / 2) (2 ^ k), ap (λ (t : ℕ). a / 2 / 2 ^ k * t) (pow-suc 2 k)))

-- `x & (2^k - 1)` is the remainder by `2 ^ k`
pub bit_and_mask : (k a : ℕ) → bit_and a (2 ^ k - 1) ≡ a % 2 ^ k
bit_and_mask zero a = and_zero a a (omega arith)
  where
    and_zero : (n a : ℕ) → a ≤ n → bit_and a 0 ≡ a % 1
    and_zero n zero h = omega (arith, none-bit_and 0)
    and_zero zero (suc a) h = absurd (omega arith)
    and_zero (suc n) (suc a) h =
        omega (arith, bit_and-halves (suc a) 0, and_zero n (suc a / 2) (omega arith))
bit_and_mask (suc k) a =
    let e : (2 ^ suc k - 1) / 2 ≡ 2 ^ k - 1 = omega (arith, pow-suc 2 k, one-le-pow k 2) in
    let d : a % 2 ^ suc k ≡ (a / 2) % 2 ^ k * 2 + a % 2 = mod_double k a in
    omega (
      arith,
      pow-suc 2 k,
      one-le-pow k 2,
      bit_and-halves a (2 ^ suc k - 1),
      bit_and_mask k (a / 2),
      rw e at (bit_and-halves a (2 ^ suc k - 1)),
    )

-- a mask of `m` ones above `k` zeros clears the low `k` bits
pub bit_and_high : (k m a : ℕ) → bit_and a ((2 ^ m - 1) * 2 ^ k) ≡ a / 2 ^ k % 2 ^ m * 2 ^ k
bit_and_high zero m a =
    let e : (2 ^ m - 1) * 2 ^ 0 ≡ 2 ^ m - 1 = omega arith in
    let f : a / 2 ^ 0 ≡ a = omega arith in rw (e, f) (omega (arith, bit_and_mask m a))
bit_and_high (suc k) m a =
    let M : ℕ = (2 ^ m - 1) * 2 ^ k in
    let e : (2 ^ m - 1) * 2 ^ suc k ≡ M * 2 =
      omega (arith, ap (λ (t : ℕ). (2 ^ m - 1) * t) (pow-suc 2 k)) in
    let h : M * 2 / 2 ≡ M = omega arith in
    let d : a / 2 ^ suc k ≡ a / 2 / 2 ^ k =
      rw (div-div-eq-div-mul a 2 (2 ^ k)) (ap (λ (t : ℕ). a / t) (omega (arith, pow-suc 2 k))) in
    rw (e, d)
      (omega (
        arith,
        rw h at (bit_and-halves a (M * 2)),
        bit_and_high k m (a / 2),
        ap (λ (t : ℕ). a / 2 / 2 ^ k % 2 ^ m * t) (pow-suc 2 k),
      ))

differ_twice : (a b : ℕ) → differ (differ (a % 2) (b % 2)) (b % 2) ≡ a % 2
differ_twice a b = bits (a % 2) (b % 2) (omega arith) (omega arith)
  where
    bits : (x y : ℕ) → x < 2 → y < 2 → differ (differ x y) y ≡ x
    bits zero zero p q = refl
    bits zero (suc zero) p q = refl
    bits (suc zero) zero p q = refl
    bits (suc zero) (suc zero) p q = refl
    bits x (suc (suc y)) p q = absurd (omega arith)
    bits (suc (suc x)) y p q = absurd (omega arith)

differ-lt : (a b : ℕ) → differ (a % 2) (b % 2) < 2
differ-lt a b = bits (a % 2) (b % 2) (omega arith) (omega arith)
  where
    bits : (x y : ℕ) → x < 2 → y < 2 → differ x y < 2
    bits zero y p q = q
    bits (suc zero) zero p q = omega arith
    bits (suc zero) (suc zero) p q = omega arith
    bits (suc x) (suc (suc y)) p q = absurd (omega arith)
    bits (suc (suc x)) y p q = absurd (omega arith)

bit_xor-half : (x h : ℕ) → bit_xor x h / 2 ≡ bit_xor (x / 2) (h / 2)
bit_xor-half x h = omega (arith, bit_xor-halves x h, differ-lt x h)

bit_xor-odd : (x h : ℕ) → bit_xor x h % 2 ≡ differ (x % 2) (h % 2)
bit_xor-odd x h = omega (arith, bit_xor-halves x h, differ-lt x h)

-- `^` by the same word twice gives back the low bits, also when the result was masked in between
pub bit_xor_twice : (k x h : ℕ) → bit_xor (bit_xor x h % 2 ^ k) h % 2 ^ k ≡ x % 2 ^ k
bit_xor_twice zero x h = omega arith
bit_xor_twice (suc k) x h =
    let y : ℕ = bit_xor (x / 2) (h / 2) in
    let d : ℕ = differ (x % 2) (h % 2) in
    let z : ℕ = y % 2 ^ k * 2 + d in
    let low : bit_xor x h % 2 ^ suc k ≡ z = omega (
      arith,
      mod_double k (bit_xor x h),
      bit_xor-odd x h,
      ap (λ (t : ℕ). t % 2 ^ k) (bit_xor-half x h),
    ) in
    let half : z / 2 ≡ y % 2 ^ k = omega (arith, differ-lt x h) in
    let odd : z % 2 ≡ d = omega (arith, differ-lt x h) in
    rw (low, mod_double k x, mod_double k (bit_xor z h), bit_xor-half z h, half)
      (omega (
        arith,
        bit_xor_twice k (x / 2) (h / 2),
        bit_xor-odd z h,
        ap (λ (t : ℕ). differ t (h % 2)) odd,
        differ_twice x h,
      ))

pub bit_xor-lt : (k a b : ℕ) → a < 2 ^ k → b < 2 ^ k → bit_xor a b < 2 ^ k
bit_xor-lt zero zero zero p q = omega (arith, bit_xor-bitwise 0 0)
bit_xor-lt zero zero (suc b) p q = absurd (omega arith)
bit_xor-lt zero (suc a) b p q = absurd (omega arith)
bit_xor-lt (suc k) a b p q = omega (
  arith,
  pow-suc 2 k,
  bit_xor-halves a b,
  differ-lt a b,
  bit_xor-lt k (a / 2) (b / 2) (omega (arith, pow-suc 2 k)) (omega (arith, pow-suc 2 k)),
)
