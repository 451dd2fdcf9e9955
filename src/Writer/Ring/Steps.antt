-- ===== src/Writer/Ring/Steps.antt =====
-- Every access of a push or a pop in src/writer.cpp keeps the invariant of the ring.
use kvtier.Prelude.{
  ℕ, suc, ◌+◌, ◌%◌, ◌^◌, ◌≤◌, ◌<◌, bit_and, ◌≡◌, refl, sym, ap, ◌∙◌, subst, inl, inr, Bool-cases,
  Option, none, some, List, [], ◌∷◌, ◌++◌, ◌==◌, ==_iff, ltb, ltb→lt, arith, neg,
}
use native.Mathlib.Nat.{mod-eq_of_lt}
use kvtier.Common.{u64, kv_eok, kv_efull}
use kvtier.Writer.Ring.{
  MpscSlot, MpscRing, slot, put_slot, diff_negative, PushPc, outside, entered, loaded, ready,
  claimed, written, push_step, PopPc, resting, started, fetched, filled, taken, freed, pop_step,
  update, append_some,
}
use kvtier.Writer.Ring.Window.{put_slot_self, round_slot, update_self}
use kvtier.Writer.Ring.Invariant.{
  place, low, published, pending, IsOwner, IsPush, IsFront, IsPop, IsWindow, Inv,
}
use kvtier.Writer.Ring.Push.{Inv-move, claim-Inv}
use kvtier.Writer.Ring.Write.{write-Inv}
use kvtier.Writer.Ring.Pop.{free-Inv, next-Inv}

-- the counters stay below 2^63, so that no word wraps
abbrev pub IsSmall : ℕ → ℕ → Type 0
IsSmall p n = n + 2 ^ p < 2 ^ 63

pub u64_small : (p n k : ℕ) → IsSmall p n → k ≤ n + 2 ^ p → u64 k ≡ k
u64_small p n k s l = mod-eq_of_lt (omega (arith, s, l))

ltb_add : (a b c : ℕ) → ltb (a + c) (b + c) ≡ ltb a b
ltb_add a b c = ground arith

pub diff_negative_lem : (a b : ℕ) → a < 2 ^ 63 → b < 2 ^ 63 → diff_negative a b ≡ ltb a b
unfolding diff_negative
diff_negative_lem a b la lb =
    let ea : (a + 2 ^ 63) % 2 ^ 64 ≡ a + 2 ^ 63 = mod-eq_of_lt (omega (arith, la)) in
    let eb : (b + 2 ^ 63) % 2 ^ 64 ≡ b + 2 ^ 63 = mod-eq_of_lt (omega (arith, lb)) in
    rw (ea, eb) (ltb_add a b (2 ^ 63))

-- A slot that holds the number of its place is free for it.
seq_room :
    {p : ℕ} {q : MpscRing} {f : ℕ → PushPc} {pc : PopPc} {cl out : List ℕ} (t : ℕ)
    → Inv p q f pc cl out
    → t ≤ q.tail
    → (slot q t).seq ≡ t
    → t < low q.head pc + 2 ^ p
seq_room {p} {q} {f} {pc} {cl} t inv l e =
    let w = inv.window in
    let lo : ℕ = low q.head pc in
    elim (Bool-cases (ltb t (lo + 2 ^ p))) [
      | inl c ↦ ltb→lt _ _ c
      | inr c ↦
          let last : t ≡ lo + 2 ^ p = ground (arith, c, l, w.not_over) in
          let same : (slot q lo).seq ≡ t =
            ap (λ (j : ℕ). (q.slots j).seq)
              (sym (ap (λ (n : ℕ). bit_and n q.mask) last ∙ round_slot p q lo w.masked))
            ∙ e in
          elim (inv.held lo (omega arith) (omega (arith, last, l, w.two))) [
            | published e' _ ↦ omega (arith, same, e', last, w.two)
            | pending _ e' _ ↦ omega (arith, same, e', last, w.two)
          ]
    ]

-- the state that a step of a push leaves
abbrev IsAfterPush :
    ℕ → (ℕ → PushPc) → PopPc → List ℕ → List ℕ → ℕ → MpscRing × PushPc × Option ℕ → Type 0
IsAfterPush p f pc cl out i r = Inv p r.0 (update f i r.1) pc (append_some cl r.2) out

pub push_step-Inv :
    {p : ℕ} {q : MpscRing} {f : ℕ → PushPc} {pc : PopPc} {cl out : List ℕ} (i : ℕ) (c : PushPc)
    → f i ≡ c
    → Inv p q f pc cl out
    → IsSmall p q.tail
    → IsAfterPush p f pc cl out i (push_step q c)
unfolding push_step
push_step-Inv i (outside rc) at inv s = Inv-move i (outside rc) inv (ap place at) refl tt
push_step-Inv i (entered v) at inv s = Inv-move i (loaded v _) inv (ap place at) refl (omega arith)
push_step-Inv {p} {q} {f} {pc} {cl} {out} i (loaded v t) at inv s =
    let here : t ≤ q.tail = subst (IsPush p q (low q.head pc) cl) at (inv.pushing i) in
    elim (Bool-cases ((slot q t).seq == t)) [
      | inl c ↦
          rw c
            (Inv-move i (ready v t) inv (ap place at) refl (seq_room t inv here ((==_iff _ _).0 c)))
      | inr c ↦ elim (Bool-cases (diff_negative (slot q t).seq t)) [
        | inl d ↦ rw (c, d) (Inv-move i (outside (some (neg kv_efull))) inv (ap place at) refl tt)
        | inr d ↦ rw (c, d) (Inv-move i (entered v) inv (ap place at) refl tt)
      ]
    ]
push_step-Inv {p} {q} {f} {pc} {cl} {out} i (ready v t) at inv s =
    let room : t < low q.head pc + 2 ^ p =
      subst (IsPush p q (low q.head pc) cl) at (inv.pushing i) in
    elim (Bool-cases (q.tail == t)) [
      | inl c ↦
          let e : q.tail ≡ t = (==_iff _ _).0 c in
          let u : u64 (t + 1) ≡ q.tail + 1 =
            u64_small p q.tail (t + 1) s (omega (arith, e, inv.window.two))
            ∙ ap (λ (n : ℕ). n + 1) (sym e) in
          rw (c, u)
            (subst
              (λ (n : ℕ).
                Inv p (record q { tail = q.tail + 1 }) (update f i (claimed v n)) pc
                  (cl ++ (v ∷ [])) out)
              e (claim-Inv i v inv (ap place at) (omega (arith, room, e))))
      | inr c ↦ rw c (Inv-move i (entered v) inv (ap place at) refl tt)
    ]
push_step-Inv {p} {q} {f} {pc} {cl} {out} i (claimed v t) at inv s =
    let o : IsOwner q (low q.head pc) cl v t =
      subst (IsPush p q (low q.head pc) cl) at (inv.pushing i) in
    let s' : MpscSlot = record (slot q t) { ptr = v } in
    let e : slot (put_slot q t s') t ≡ s' = put_slot_self q t s' in
    write-Inv i t (written v t) s' inv (ap place at) o.waits (λ k e. cc e)
      (pending i o.waits (ap place (update_self f i (written v t))))
      (
        record {
          above = o.above;
          below = o.below;
          waits = ap (λ (y : MpscSlot). y.seq) e ∙ o.waits;
          same = o.same;
        },
        ap (λ (y : MpscSlot). y.ptr) e,
      )
push_step-Inv {p} {q} {f} {pc} {cl} {out} i (written v t) at inv s =
    let (o, e) : IsOwner q (low q.head pc) cl v t × ((slot q t).ptr ≡ v) =
      subst (IsPush p q (low q.head pc) cl) at (inv.pushing i) in
    let u : u64 (t + 1) ≡ suc t =
      u64_small p q.tail (t + 1) s (omega (arith, o.below)) ∙ omega arith in
    rw u (
      write-Inv i t (outside (some kv_eok)) (record (slot q t) { seq = suc t }) inv (ap place at)
        o.waits (λ k e. absurd (cc e)) (published refl (e ∙ sym o.same)) tt)

-- the state that a step of a pop leaves
abbrev IsAfterPop : ℕ → (ℕ → PushPc) → List ℕ → List ℕ → MpscRing × PopPc × Option ℕ → Type 0
IsAfterPop p f cl out r = Inv p r.0 f r.1 cl (append_some out r.2)

-- the first place of a ring whose slot is published is the front
pub front :
    {p : ℕ} {q : MpscRing} {f : ℕ → PushPc} {cl out : List ℕ} (h : ℕ)
    → Inv p q f (fetched h) cl out
    → (slot q h).seq ≡ suc h
    → IsFront q cl h
front {p} {q} {f} {cl} h inv e =
    let at : h ≡ q.head = inv.popping in
    let w = inv.window in
    let e' : (slot q q.head).seq ≡ suc q.head = subst (λ (n : ℕ). (slot q n).seq ≡ suc n) at e in
    let lower : q.head < q.tail = elim (Bool-cases (ltb q.head q.tail)) [
      | inl c ↦ ltb→lt _ _ c
      | inr c ↦
          let full : q.tail ≤ q.head = ground (arith, c) in
          omega (arith, e', w.spare q.head full (omega (arith, w.two)))
    ] in
    elim (inv.held q.head (omega arith) lower) [
      | published a b ↦ record { at = at; lower = lower; ready_seq = a; ready_ptr = b }
      | pending i a b ↦ absurd (omega (arith, a, e'))
    ]

-- the pop goes on while the ring stays as it is
pub pop-move :
    {p : ℕ} {q : MpscRing} {f : ℕ → PushPc} {cl out : List ℕ} (c c' : PopPc)
    → Inv p q f c cl out
    → low q.head c ≡ low q.head c'
    → IsPop q cl c'
    → Inv p q f c' cl out
pop-move {p} {q} {f} {cl} c c' inv e own = record {
  window = subst (λ (n : ℕ). IsWindow p q n cl) e inv.window;
  held = λ k l u. inv.held k (omega (arith, l, e)) u;
  pushing = λ i. subst (λ (n : ℕ). IsPush p q n cl (f i)) e (inv.pushing i);
  unique = inv.unique;
  popping = own;
  returned = inv.returned;
}

pub pop_step-Inv :
    {p : ℕ} {q : MpscRing} {f : ℕ → PushPc} {cl out : List ℕ} (c : PopPc)
    → Inv p q f c cl out
    → IsSmall p q.tail
    → IsAfterPop p f cl out (pop_step q c)
unfolding pop_step
pop_step-Inv (resting x) inv s = inv
pop_step-Inv {p} {q} started inv s = pop-move started (fetched q.head) inv refl refl
pop_step-Inv {p} {q} (fetched h) inv s =
    let u : u64 (h + 1) ≡ suc h =
      u64_small p q.tail (h + 1) s
        (omega (arith, inv.window.two, inv.window.not_empty, inv.popping))
      ∙ omega arith in
    elim (Bool-cases ((slot q h).seq == u64 (h + 1))) [
      | inl c ↦ rw c (pop-move (fetched h) (filled h) inv refl (front h inv ((==_iff _ _).0 c ∙ u)))
      | inr c ↦ rw c (pop-move (fetched h) (resting none) inv refl tt)
    ]
pop_step-Inv {p} {q} (filled h) inv s =
    let o = inv.popping in
    pop-move (filled h) (taken h (slot q h).ptr) inv refl
      (o, ap (λ (n : ℕ). (slot q n).ptr) o.at ∙ o.ready_ptr)
pop_step-Inv {p} {q} {f} {cl} {out} (taken h x) inv s =
    let (o, e) = inv.popping in
    let w = inv.window in
    let u : u64 (h + q.mask + 1) ≡ h + 2 ^ p =
      u64_small p q.tail (h + q.mask + 1) s (omega (arith, w.masked, w.two, o.at, o.lower))
      ∙ omega (arith, w.masked, w.two) in
    rw u (free-Inv h x inv)
pop_step-Inv {p} {q} {f} {cl} {out} (freed h x) inv s =
    let (at, lower, e) = inv.popping in
    let u : u64 (h + 1) ≡ h + 1 = u64_small p q.tail (h + 1) s (omega (arith, at, lower)) in
    rw u (next-Inv h x inv)
