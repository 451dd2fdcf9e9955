-- ===== src/Writer/Ring/Queue.antt =====
-- The ring of src/writer.cpp is a bounded queue: what every interleaving of pushes and pops shows.
use kvtier.Prelude.{
  ℕ, zero, suc, ◌+◌, ◌-◌, ◌^◌, ◌≤◌, ◌<◌, bit_and, ◌≡◌, refl, ap, ◌∙◌, subst, inl, inr, true, false,
  Bool-cases, Option, none, some, List, [], ◌∷◌, ltb, ltb→lt, length, length-append, take, arith,
}
use native.Mathlib.Nat.{pow-le-pow_right, mod-eq_of_lt}
use kvtier.Bits.{bit_and_mask}
use kvtier.Writer.Ring.{
  MpscRing, mpsc_init, slot, PushPc, outside, entered, push_step, PopPc, resting, started, System,
  append_some, push_turn, pop_turn, Step, call_push, push, spurious, call_pop, pop, idle_system,
  Reach, start, later,
}
use kvtier.Writer.Ring.Window.{round_slot}
use kvtier.Writer.Ring.Invariant.{place, low, published, pending, Inv}
use kvtier.Writer.Ring.Push.{Inv-move}
use kvtier.Writer.Ring.Steps.{IsSmall, pop-move, push_step-Inv, pop_step-Inv}

unfoldable pub IsSystem : ℕ → System → Type 0
IsSystem p s = Inv p s.ring s.pushers s.popper s.claims s.out

-- what `mpsc_init` makes
abbrev init_ring : ℕ → MpscRing
init_ring p = record {
  slots = λ i. record { seq = i; ptr = 0 };
  mask = 2 ^ p - 1;
  tail = 0;
  head = 0;
}

pub mpsc_init-IsSystem :
    (p : ℕ) (q : MpscRing) → 4 ≤ p → mpsc_init true p ≡ some q → IsSystem p (idle_system q)
unfolding IsSystem mpsc_init
mpsc_init-IsSystem p q four e =
    let c : ltb p 4 ≡ false = ground (arith, four) in
    let e' : some (init_ring p) ≡ some q = rw c at e in
    let r : init_ring p ≡ q = cc e' in
    let two : 2 ^ 4 ≤ 2 ^ p = pow-le-pow_right {n = 2} (omega arith) four in
    subst (λ (x : MpscRing). Inv p x (λ _. outside none) (resting none) [] []) r
      (record {
        window = record {
          two = omega (arith, two);
          masked = refl;
          counted = refl;
          not_empty = omega arith;
          not_over = omega arith;
          spare = λ k l u. bit_and_mask p k ∙ mod-eq_of_lt (omega (arith, u));
        };
        held = λ k l u. absurd (omega arith);
        pushing = λ i. tt;
        unique = λ i j k a b. absurd (cc a);
        popping = tt;
        returned = refl;
      })

Step-IsSystem :
    (p : ℕ) {s t : System} → Step s t → IsSystem p s → IsSmall p (length s.claims) → IsSystem p t
unfolding IsSystem push_turn pop_turn
Step-IsSystem p (call_push i v at) inv small = Inv-move i (entered v) inv (ap place at) refl tt
Step-IsSystem p {s} (push i) inv small =
    push_step-Inv i (s.pushers i) refl inv (omega (arith, small, inv.window.counted))
Step-IsSystem p (spurious i {v} at) inv small = Inv-move i (entered v) inv (ap place at) refl tt
Step-IsSystem p {s} (call_pop {x} at) inv small =
    pop-move (resting x) started
      (subst (λ (c : PopPc). Inv p s.ring s.pushers c s.claims s.out) at inv) refl tt
Step-IsSystem p {s} pop inv small =
    pop_step-Inv s.popper inv (omega (arith, small, inv.window.counted))

append_some-le : (xs : List ℕ) (o : Option ℕ) → length xs ≤ length (append_some xs o)
append_some-le xs none = omega arith
append_some-le xs (some x) = omega (arith, length-append xs (x ∷ []))

claims_grow : {s t : System} → Step s t → length s.claims ≤ length t.claims
unfolding push_turn pop_turn
claims_grow (call_push i v at) = omega arith
claims_grow {s} (push i) = append_some-le s.claims (push_step s.ring (s.pushers i)).2
claims_grow (spurious i at) = omega arith
claims_grow (call_pop at) = omega arith
claims_grow pop = omega arith

pub Reach-IsSystem :
    {p : ℕ} {s : System} → 4 ≤ p → Reach p s → IsSmall p (length s.claims) → IsSystem p s
Reach-IsSystem {p} four (start {q} e) small = mpsc_init-IsSystem p q four e
Reach-IsSystem {p} four (later {s} r st) small =
    let before : IsSmall p (length s.claims) = omega (arith, claims_grow st, small) in
    Step-IsSystem p st (Reach-IsSystem four r before) before

-- The ring is a bounded queue. In every state that interleaved calls of mpsc_push, by any number
-- of threads, and of mpsc_pop, by one, reach from a ring of 2^p slots, p from 4 on, while the
-- counters stay below 2^63: the requests returned by mpsc_pop are the first ones that the pushes
-- gave a place, in that order, and at most 2^p places are taken and not yet free.
pub mpsc_fifo :
    {p : ℕ} {s : System}
    → 4 ≤ p
    → Reach p s
    → length s.claims + 2 ^ p < 2 ^ 63
    → (s.out ≡ take s.ring.head s.claims)
      × (low s.ring.head s.popper ≤ length s.claims)
      × (length s.claims ≤ low s.ring.head s.popper + 2 ^ p)
unfolding IsSystem
mpsc_fifo {p} {s} four r small =
    let inv : Inv p s.ring s.pushers s.popper s.claims s.out = Reach-IsSystem four r small in
    let w = inv.window in
    (inv.returned, omega (arith, w.not_empty, w.counted), omega (arith, w.not_over, w.counted))

-- a place of the window that has the slot of `t`
same_place :
    (p : ℕ) (q : MpscRing) (lo n t : ℕ)
    → q.mask ≡ 2 ^ p - 1
    → 2 ≤ 2 ^ p
    → t < lo + 2 ^ p
    → lo ≤ t + n
    → (k : ℕ) × (lo ≤ k) × (k < lo + 2 ^ p) × (t ≤ k) × (bit_and k q.mask ≡ bit_and t q.mask)
same_place p q lo zero t m two u e = (t, omega (arith, e), u, omega arith, refl)
same_place p q lo (suc n) t m two u e = elim (Bool-cases (ltb t lo)) [
  | inl c ↦
      let l = ltb→lt t lo c in
      let (k, a, b, d, f) =
        same_place p q lo n (t + 2 ^ p) m two (omega (arith, l)) (omega (arith, two, e)) in
      (k, a, b, omega (arith, d), f ∙ round_slot p q t m)
  | inr c ↦ (t, ground (arith, c), u, omega arith, refl)
]

-- the place a round on
pub seq_round :
    (p : ℕ) (q : MpscRing) (t lo : ℕ)
    → q.mask ≡ 2 ^ p - 1
    → t ≡ lo + 2 ^ p
    → (slot q t).seq ≡ (slot q lo).seq
seq_round p q t lo m e =
    ap (λ (j : ℕ). (q.slots j).seq) (ap (λ (n : ℕ). bit_and n q.mask) e ∙ round_slot p q lo m)

-- in the window no slot's number is below its place
pub window_seq :
    {p : ℕ} {q : MpscRing} {f : ℕ → PushPc} {pc : PopPc} {cl out : List ℕ} (k : ℕ)
    → Inv p q f pc cl out
    → low q.head pc ≤ k
    → k < low q.head pc + 2 ^ p
    → k ≤ (slot q k).seq
window_seq {q} k inv l u = elim (Bool-cases (ltb k q.tail)) [
  | inl c ↦ elim (inv.held k l (ltb→lt k q.tail c)) [
    | published a _ ↦ omega (arith, a)
    | pending _ a _ ↦ omega (arith, a)
  ]
  | inr c ↦ omega (arith, inv.window.spare k (ground (arith, c)) u)
]

-- a number is at most one above its place, so that it does not wrap
pub seq_bound :
    {p : ℕ} {q : MpscRing} {f : ℕ → PushPc} {pc : PopPc} {cl out : List ℕ} (t : ℕ)
    → Inv p q f pc cl out
    → t ≤ q.tail
    → (slot q t).seq ≤ q.tail + 2 ^ p
seq_bound {p} {q} {f} {pc} t inv l =
    let lo : ℕ = low q.head pc in
    let w = inv.window in
    let bound : (k : ℕ) → lo ≤ k → k < lo + 2 ^ p → (slot q k).seq ≤ q.tail + 2 ^ p = λ k a b.
      elim (Bool-cases (ltb k q.tail)) [
        | inl c ↦ elim (inv.held k a (ltb→lt k q.tail c)) [
          | published e _ ↦ omega (arith, e, b, w.not_empty)
          | pending _ e _ ↦ omega (arith, e, b, w.not_empty)
        ]
        | inr c ↦ omega (arith, w.spare k (ground (arith, c)) b, b, w.not_empty)
      ] in
    elim (Bool-cases (ltb t (lo + 2 ^ p))) [
      | inl c ↦
          let (k, a, b, d, e) =
            same_place p q lo lo t w.masked w.two (ltb→lt _ _ c) (omega arith) in
          let e' : (slot q k).seq ≡ (slot q t).seq = ap (λ (j : ℕ). (q.slots j).seq) e in
          omega (arith, e', bound k a b)
      | inr c ↦
          let last : t ≡ lo + 2 ^ p = ground (arith, c, l, w.not_over) in
          omega
            (arith, seq_round p q t lo w.masked last, bound lo (omega arith) (omega (arith, w.two)))
    ]

-- a slot whose number is below the place shows a full ring
pub seq_full :
    {p : ℕ} {q : MpscRing} {f : ℕ → PushPc} {pc : PopPc} {cl out : List ℕ} (t : ℕ)
    → Inv p q f pc cl out
    → (slot q t).seq < t
    → low q.head pc + 2 ^ p ≤ t
seq_full {p} {q} {f} {pc} t inv l =
    let lo : ℕ = low q.head pc in
    elim (Bool-cases (ltb t (lo + 2 ^ p))) [
      | inl c ↦
          let (k, a, b, d, e) =
            same_place p q lo lo t inv.window.masked inv.window.two (ltb→lt _ _ c) (omega arith) in
          let e' : (slot q k).seq ≡ (slot q t).seq = ap (λ (j : ℕ). (q.slots j).seq) e in
          absurd (omega (arith, e', l, d, window_seq k inv a b))
      | inr c ↦ ground (arith, c)
    ]
