-- ===== src/Probing.antt =====
-- Open addressing: the loop `for (j = start & mask;; j = (j + 1) & mask)` that the side table of
-- src/cache.cpp and the overflow tables of src/radix.cpp share, and where it ends.
use kvtier.Prelude.{
  Option, none, if◌then◌else◌, ◌-◌, ℕ, zero, suc, ◌+◌, ◌-◌, ◌%◌, ◌^◌, ◌≤◌, ◌<◌, ◌≡◌, ◌≢◌, refl, ◌∙◌,
  ap, sym, subst, bit_and, Bool, true, false, some, List, ltb, ltb→lt, length, get_or, set,
  get_or-set_self, get_or-set_ne, ◌⊎◌, Bool-cases, inl, inr, arith,
}
use native.Mathlib.Nat.{mod-lt, one-le-pow, mod-eq_of_lt, mod_self, pow-le-pow_right}
use kvtier.Common.{u32}
use kvtier.Bits.{bit_and_mask}

-- The first slot that passes `stop`, which ends the loop. The source's loop has no end of its own;
-- `fuel` is the number of slots, and `none` means that it went round in vain.
unfoldable pub probe {ℓ} : {A : Type ℓ} → A → (A → Bool) → ℕ → ℕ → ℕ → List A → Option ℕ
probe d stop zero j mask slots = none
probe d stop (suc fuel) j mask slots =
    let rest = probe d stop fuel (bit_and (u32 (j + 1)) mask) mask slots in
    if stop (get_or slots j d) then some j else rest

-- a loop that ends at a slot has found one to stop at
pub probe-stop {ℓ} :
    {A : Type ℓ} (d : A) (stop : A → Bool) (fuel j mask : ℕ) (slots : List A) {i : ℕ}
    → probe d stop fuel j mask slots ≡ some i
    → stop (get_or slots i d) ≡ true
unfolding probe
probe-stop d stop zero j mask slots e = absurd (cc e)
probe-stop d stop (suc fuel) j mask slots {i = i} e = elim (Bool-cases (stop (get_or slots j d))) [
  | inl t ↦
      let e' : some j ≡ some i = rw t at e in
      let at : j ≡ i = cc e' in subst (λ (k : ℕ). stop (get_or slots k d) ≡ true) at t
  | inr t ↦
      let e' : probe d stop fuel (bit_and (u32 (j + 1)) mask) mask slots ≡ some i = rw t at e in
      probe-stop d stop fuel (bit_and (u32 (j + 1)) mask) mask slots e'
]

pub true_≢_false : true ≢ false
true_≢_false e = cc e

-- the loop ends at the same slot when that slot is overwritten by one to stop at
pub probe-set {ℓ} :
    {A : Type ℓ} (d : A) (stop : A → Bool) (fuel j mask : ℕ) (slots : List A) (new : A) {i : ℕ}
    → probe d stop fuel j mask slots ≡ some i
    → i < length slots
    → stop new ≡ true
    → probe d stop fuel j mask (set slots i new) ≡ some i
unfolding probe
probe-set d stop zero j mask slots new e l n = absurd (cc e)
probe-set d stop (suc fuel) j mask slots new {i = i} e l n =
    elim (Bool-cases (stop (get_or slots j d))) [
      | inl t ↦
          let e' : some j ≡ some i = rw t at e in
          let at : i ≡ j = cc e' in
          let g : stop (get_or (set slots i new) j d) ≡ true =
            rw (← at) (rw (get_or-set_self slots i new d l) n) in
          rw g (ap some (sym at))
      | inr t ↦
          let e' : probe d stop fuel (bit_and (u32 (j + 1)) mask) mask slots ≡ some i = rw t at e in
          let hit = probe-stop d stop fuel (bit_and (u32 (j + 1)) mask) mask slots e' in
          let ne : i ≢ j =
            λ at. true_≢_false (sym hit ∙ ap (λ (k : ℕ). stop (get_or slots k d)) at ∙ t) in
          let g : stop (get_or (set slots i new) j d) ≡ false =
            rw (get_or-set_ne slots i j new d ne) t in
          rw g (probe-set d stop fuel (bit_and (u32 (j + 1)) mask) mask slots new e' l n)
    ]

-- the loop's step from slot `j`
pub probe_next :
    (b j : ℕ)
    → b ≤ 31
    → j < 2 ^ b
    → ((j + 1 < 2 ^ b) × (bit_and (u32 (j + 1)) (2 ^ b - 1) ≡ j + 1))
      ⊎ ((j + 1 ≡ 2 ^ b) × (bit_and (u32 (j + 1)) (2 ^ b - 1) ≡ 0))
probe_next b j h l =
    let p : 2 ^ b ≤ 2 ^ 31 = pow-le-pow_right {n = 2} (omega arith) h in
    let x : u32 (j + 1) ≡ j + 1 = mod-eq_of_lt (omega (arith, p, l)) in
    let m : bit_and (u32 (j + 1)) (2 ^ b - 1) ≡ (j + 1) % 2 ^ b =
      bit_and_mask b (u32 (j + 1)) ∙ ap (λ (t : ℕ). t % 2 ^ b) x in
    elim (Bool-cases (ltb (j + 1) (2 ^ b))) [
      | inl c ↦ let lt = ltb→lt (j + 1) (2 ^ b) c in inl (lt, m ∙ mod-eq_of_lt lt)
      | inr c ↦
          let eq : j + 1 ≡ 2 ^ b = ground (arith, c, l) in
          inr (eq, m ∙ ap (λ (t : ℕ). t % 2 ^ b) eq ∙ mod_self (2 ^ b))
    ]

-- from any slot the loop reaches the slot `n` steps on, unless it stops before
pub probe_reaches {ℓ} :
    {A : Type ℓ} (d : A) (stop : A → Bool) (b n fuel j i : ℕ) (slots : List A)
    → b ≤ 31
    → j < 2 ^ b
    → n < fuel
    → ((i ≡ j + n) ⊎ (i + 2 ^ b ≡ j + n))
    → i < 2 ^ b
    → stop (get_or slots i d) ≡ true
    → (r : ℕ) × (probe d stop fuel j (2 ^ b - 1) slots ≡ some r)
unfolding probe
probe_reaches d stop b n zero j i slots h l f w u t = absurd (omega (arith, f))
probe_reaches d stop b zero (suc fuel) j i slots h l f w u t =
    let at : i ≡ j = elim w [ inl a ↦ omega (arith, a) | inr a ↦ absurd (omega (arith, a, l)) ] in
    let g : stop (get_or slots j d) ≡ true = rw (← at) t in (j, rw g refl)
probe_reaches d stop b (suc n) (suc fuel) j i slots h l f w u t =
    elim (Bool-cases (stop (get_or slots j d))) [
      | inl g ↦ (j, rw g refl)
      | inr g ↦ elim (probe_next b j h l) [
        | inl (lt, e) ↦
            let (r, q) =
              probe_reaches d stop b n fuel (j + 1) i slots h lt (omega (arith, f))
                (elim w [ inl a ↦ inl (omega (arith, a)) | inr a ↦ inr (omega (arith, a)) ]) u t in
            (r, rw (g, e) q)
        | inr (eq, e) ↦
            let (r, q) =
              probe_reaches d stop b n fuel 0 i slots h (omega (arith, eq)) (omega (arith, f))
                (elim w [
                  | inl a ↦ absurd (omega (arith, a, eq, u))
                  | inr a ↦ inl (omega (arith, a, eq))
                ])
                u t in
            (r, rw (g, e) q)
      ]
    ]

pub probe-lt {ℓ} :
    {A : Type ℓ} (d : A) (stop : A → Bool) (b fuel j : ℕ) (slots : List A) {i : ℕ}
    → j < 2 ^ b
    → probe d stop fuel j (2 ^ b - 1) slots ≡ some i
    → i < 2 ^ b
unfolding probe
probe-lt d stop b zero j slots l e = absurd (cc e)
probe-lt d stop b (suc fuel) j slots {i = i} l e = elim (Bool-cases (stop (get_or slots j d))) [
  | inl t ↦ let e' : some j ≡ some i = rw t at e in let at : j ≡ i = cc e' in omega (arith, at, l)
  | inr t ↦
      let n = bit_and (u32 (j + 1)) (2 ^ b - 1) in
      let e' : probe d stop fuel n (2 ^ b - 1) slots ≡ some i = rw t at e in
      probe-lt d stop b fuel n slots
        (omega (
          arith,
          bit_and_mask b (u32 (j + 1)),
          mod-lt (u32 (j + 1)) {m = 2 ^ b} (one-le-pow b 2 (omega arith)),
        ))
        e'
]

-- the steps from slot `s` on to slot `i`
pub distance : (s i n : ℕ) → s < n → i < n → (d : ℕ) × (d < n) × ((i ≡ s + d) ⊎ (i + n ≡ s + d))
distance s i n h l = elim (Bool-cases (ltb i s)) [
  | inl c ↦ let lt = ltb→lt i s c in (i + n - s, omega (arith, lt, l), inr (omega (arith, lt, h)))
  | inr c ↦ let ge : s ≤ i = ground (arith, c) in (i - s, omega (arith, l), inl (omega (arith, ge)))
]

-- the loop does not see a write to a slot that it would have stopped at and did not
pub probe-set_ne {ℓ} :
    {A : Type ℓ} (d : A) (stop : A → Bool) (fuel j mask : ℕ) (slots : List A) (new : A) (k : ℕ)
    {i : ℕ}
    → probe d stop fuel j mask slots ≡ some i
    → stop (get_or slots k d) ≡ true
    → k ≢ i
    → probe d stop fuel j mask (set slots k new) ≡ some i
unfolding probe
probe-set_ne d stop zero j mask slots new k e s ne = absurd (cc e)
probe-set_ne d stop (suc fuel) j mask slots new k {i = i} e s ne =
    elim (Bool-cases (stop (get_or slots j d))) [
      | inl t ↦
          let e' : some j ≡ some i = rw t at e in
          let at : i ≡ j = cc e' in
          let g : stop (get_or (set slots k new) j d) ≡ true =
            rw (get_or-set_ne slots k j new d (λ q. ne (q ∙ sym at))) t in
          rw g (ap some (sym at))
      | inr t ↦
          let e' : probe d stop fuel (bit_and (u32 (j + 1)) mask) mask slots ≡ some i = rw t at e in
          let off : k ≢ j =
            λ at. true_≢_false (sym s ∙ ap (λ (m : ℕ). stop (get_or slots m d)) at ∙ t) in
          let g : stop (get_or (set slots k new) j d) ≡ false =
            rw (get_or-set_ne slots k j new d off) t in
          rw g (probe-set_ne d stop fuel (bit_and (u32 (j + 1)) mask) mask slots new k e' s ne)
    ]

-- a loop that stops at fewer slots, the last one included, ends there too
pub probe-fewer {ℓ} :
    {A : Type ℓ} (d : A) (stop fewer : A → Bool) (fuel j mask : ℕ) (slots : List A) {i : ℕ}
    → ((k : ℕ) → fewer (get_or slots k d) ≡ true → stop (get_or slots k d) ≡ true)
    → probe d stop fuel j mask slots ≡ some i
    → fewer (get_or slots i d) ≡ true
    → probe d fewer fuel j mask slots ≡ some i
unfolding probe
probe-fewer d stop fewer zero j mask slots w e f = absurd (cc e)
probe-fewer d stop fewer (suc fuel) j mask slots {i = i} w e f =
    elim (Bool-cases (stop (get_or slots j d))) [
      | inl t ↦
          let e' : some j ≡ some i = rw t at e in
          let at : i ≡ j = cc e' in
          let g : fewer (get_or slots j d) ≡ true = rw (← at) f in rw g (ap some (sym at))
      | inr t ↦
          let e' : probe d stop fuel (bit_and (u32 (j + 1)) mask) mask slots ≡ some i = rw t at e in
          elim (Bool-cases (fewer (get_or slots j d))) [
            | inl g ↦ absurd (true_≢_false (sym (w j g) ∙ t))
            | inr g ↦
                rw g (probe-fewer d stop fewer fuel (bit_and (u32 (j + 1)) mask) mask slots w e' f)
          ]
    ]
