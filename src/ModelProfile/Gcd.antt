-- ===== src/ModelProfile/Gcd.antt =====
-- `gcd_u64` of src/model_profile.cpp: the loop ends, and it finds the greatest common divisor.
use Prim.Native.Nat.{◌∣◌}
use native.Mathlib.Nat.{mod-lt, dvd-mod_iff, dvd-zero}
use kvtier.Prelude.{
  ℕ, zero, suc, ◌+◌, ◌%◌, ◌<◌, ◌≡◌, ap, sym, subst, ◌↔◌, ◌==◌, Bool-cases, inl, inr, some, arith,
}
use kvtier.ModelProfile.{gcd_loop, gcd_u64, or_default}

-- the common divisors of both, which are the divisors of `g`
abbrev pub IsGcd : ℕ → ℕ → ℕ → Type 0
IsGcd a b g = (d : ℕ) → (d ∣ g) ↔ ((d ∣ a) × (d ∣ b))

or_default_pos : (a : ℕ) → 0 < a → or_default a 1 ≡ a
or_default_pos a h = ground (arith, h)

divides_zero : (a b : ℕ) → b ≡ 0 → IsGcd a b a
divides_zero a b e d = (λ f. (f, subst (λ (x : ℕ). d ∣ x) (sym e) (dvd-zero d)), λ f. f.0)

divides_mod : (a b g : ℕ) → IsGcd b (a % b) g → IsGcd a b g
divides_mod a b g c d = (
  λ f. let q = (c d).0 f in ((dvd-mod_iff d q.0).0 q.1, q.0),
  λ f. (c d).1 (f.1, (dvd-mod_iff d f.1).1 f.0),
)

gcd_loop-IsGcd :
    (fuel a b : ℕ) → b < fuel → 0 < a + b → (g : ℕ) × (gcd_loop fuel a b ≡ some g) × IsGcd a b g
unfolding gcd_loop
gcd_loop-IsGcd zero a b h n = absurd (omega arith)
gcd_loop-IsGcd (suc fuel) a b h n = elim (Bool-cases (b == 0)) [
  | inl done ↦
      let b0 : b ≡ 0 = ground (arith, done) in
      (a, rw done (ap some (or_default_pos a (omega arith))), divides_zero a b b0)
  | inr more ↦
      let pos : 0 < b = ground (arith, more) in
      let (g, e, c) = gcd_loop-IsGcd fuel b (a % b) (omega (arith, mod-lt a pos)) (omega arith) in
      (g, rw more e, divides_mod a b g c)
]

-- The loop of gcd_u64 ends within its fuel, and a number divides its result exactly when it
-- divides both operands, not both zero.
pub gcd_u64_lem : (a b : ℕ) → 0 < a + b → IsGcd a b (gcd_u64 a b)
unfolding gcd_u64
gcd_u64_lem a b n = let (g, e, c) = gcd_loop-IsGcd (b + 1) a b (omega arith) n in rw (e, gcd_u64) c
