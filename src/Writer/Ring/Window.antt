-- ===== src/Writer/Ring/Window.antt =====
-- Slots of the ring in src/writer.cpp: places less than a round apart have different slots.
use kvtier.Prelude.{
  ℕ, suc, ◌+◌, ◌-◌, ◌*◌, ◌/◌, ◌%◌, ◌^◌, ◌≤◌, ◌<◌, bit_and, ◌≡◌, ◌≢◌, inl, inr, refl, sym, ap, ◌∙◌,
  ◌==◌, ==_iff, ltb, ltb→lt, subst, Bool-cases, arith,
}
use native.Mathlib.Nat.{div-add-mod', mul-le-mul_right, suc-mul, add-mod_right}
use kvtier.Bits.{bit_and_mask}
use kvtier.Writer.Ring.{MpscRing, MpscSlot, slot, put_slot, PushPc, update}

-- quotients that differ put numbers with one remainder a whole `m` apart
quotient_gap : (m a b x y r : ℕ) → x ≡ a * m + r → y ≡ b * m + r → a < b → x + m ≤ y
quotient_gap m a b x y r ex ey l =
    let le : suc a * m ≤ b * m = mul-le-mul_right m l in omega (arith, le, suc-mul a m, ex, ey)

same_of_mod : (m x y : ℕ) → x % m ≡ y % m → x < y + m → y < x + m → x ≡ y
same_of_mod m x y e l u =
    let ex : x ≡ x / m * m + x % m = sym (div-add-mod' x m) in
    let ey : y ≡ y / m * m + x % m =
      sym (div-add-mod' y m) ∙ ap (λ (t : ℕ). y / m * m + t) (sym e) in
    elim (Bool-cases (ltb (x / m) (y / m))) [
      | inl c ↦
          absurd (omega (arith, quotient_gap m (x / m) (y / m) x y (x % m) ex ey (ltb→lt _ _ c)))
      | inr c ↦ elim (Bool-cases (ltb (y / m) (x / m))) [
        | inl d ↦
            absurd (omega (arith, quotient_gap m (y / m) (x / m) y x (x % m) ey ex (ltb→lt _ _ d)))
        | inr d ↦
            let q : x / m ≡ y / m = ground (arith, c, d) in
            ex ∙ ap (λ (t : ℕ). t * m + x % m) q ∙ sym ey
      ]
    ]

-- places less than a round apart in one slot are the same
pub same_slot :
    (p mask x y : ℕ)
    → mask ≡ 2 ^ p - 1
    → x < y + 2 ^ p
    → y < x + 2 ^ p
    → bit_and x mask ≡ bit_and y mask
    → x ≡ y
same_slot p mask x y m l u e =
    let e' : bit_and x (2 ^ p - 1) ≡ bit_and y (2 ^ p - 1) =
      subst (λ (k : ℕ). bit_and x k ≡ bit_and y k) m e in
    same_of_mod (2 ^ p) x y (sym (bit_and_mask p x) ∙ e' ∙ bit_and_mask p y) l u

pub put_slot_self : (q : MpscRing) (x : ℕ) (s : MpscSlot) → slot (put_slot q x s) x ≡ s
put_slot_self q x s = rw ((==_iff (bit_and x q.mask) (bit_and x q.mask)).1 refl) refl

-- a write at a place leaves the slots of the other places of the round
pub put_slot_ne :
    (p : ℕ) (q : MpscRing) (x y : ℕ) (s : MpscSlot)
    → q.mask ≡ 2 ^ p - 1
    → x < y + 2 ^ p
    → y < x + 2 ^ p
    → x ≢ y
    → slot (put_slot q x s) y ≡ slot q y
put_slot_ne p q x y s m l u ne = elim (Bool-cases (bit_and y q.mask == bit_and x q.mask)) [
  | inl t ↦ absurd (ne (same_slot p q.mask x y m l u (sym ((==_iff _ _).0 t))))
  | inr t ↦ rw t refl
]

pub update_self : (f : ℕ → PushPc) (i : ℕ) (c : PushPc) → update f i c i ≡ c
update_self f i c = rw ((==_iff i i).1 refl) refl

pub update_ne : (f : ℕ → PushPc) (i j : ℕ) (c : PushPc) → j ≢ i → update f i c j ≡ f j
update_ne f i j c ne = elim (Bool-cases (j == i)) [
  | inl t ↦ absurd (ne ((==_iff j i).0 t))
  | inr t ↦ rw t refl
]

-- a place a round on has the same slot
pub round_slot :
    (p : ℕ) (q : MpscRing) (x : ℕ)
    → q.mask ≡ 2 ^ p - 1
    → bit_and (x + 2 ^ p) q.mask ≡ bit_and x q.mask
round_slot p q x m =
    subst (λ (k : ℕ). bit_and (x + 2 ^ p) k ≡ bit_and x k) (sym m)
      (bit_and_mask p (x + 2 ^ p) ∙ add-mod_right x (2 ^ p) ∙ sym (bit_and_mask p x))
