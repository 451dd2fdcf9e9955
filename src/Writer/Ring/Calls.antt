-- ===== src/Writer/Ring/Calls.antt =====
-- What `mpsc_push` and `mpsc_pop` of src/writer.cpp return, and that a call which no other thread
-- interrupts comes to an end.
use kvtier.Prelude.{
  ℕ, suc, ◌+◌, ◌^◌, ◌≤◌, ◌<◌, ◌≡◌, ◌≢◌, refl, sym, ap, ◌∙◌, subst, ◌⊎◌, inl, inr, true, false,
  Bool-cases, Option, none, some, List, ◌==◌, ==_iff, ltb, ltb→lt, lt→ltb, length, arith, neg,
  if◌then◌else◌, ℤ, zero,
}
use kvtier.Common.{u64, kv_eok, kv_efull}
use kvtier.Writer.Ring.{
  MpscRing, slot, diff_negative, PushPc, outside, entered, loaded, ready, push_step, PopPc, resting,
  fetched, filled, pop_step, System, push_turn, pop_turn, Reach, push_run, push_accesses, weak_step,
  mpsc_push, pop_run, mpsc_pop,
}
use kvtier.Writer.Ring.Window.{update_self}
use kvtier.Writer.Ring.Invariant.{place, low, request, published, pending, IsPush, Inv}
use kvtier.Writer.Ring.Steps.{u64_small, IsSmall, diff_negative_lem}
use kvtier.Writer.Ring.Queue.{IsSystem, Reach-IsSystem, seq_full, seq_round, seq_bound}

-- the test for a full ring, at the place of the push
full_test :
    {p : ℕ} {q : MpscRing} {f : ℕ → PushPc} {pc : PopPc} {cl out : List ℕ} (t : ℕ)
    → Inv p q f pc cl out
    → IsSmall p q.tail
    → t ≤ q.tail
    → diff_negative (slot q t).seq t ≡ true
    → (slot q t).seq < t
full_test {p} {q} t inv s l e =
    let small : (slot q t).seq < 2 ^ 63 = omega (arith, s, seq_bound t inv l) in
    ltb→lt _ _ (sym (diff_negative_lem (slot q t).seq t small (omega (arith, s, l))) ∙ e)

load_full :
    {p : ℕ} {q : MpscRing} {f : ℕ → PushPc} {pc : PopPc} {cl out : List ℕ} (v t : ℕ)
    → Inv p q f pc cl out
    → IsSmall p q.tail
    → t ≤ q.tail
    → (push_step q (loaded v t)).1 ≡ outside (some (neg kv_efull))
    → q.tail ≡ low q.head pc + 2 ^ p
unfolding push_step
load_full {q} v t inv s l e = elim (Bool-cases ((slot q t).seq == t)) [
  | inl c ↦ (let e' : ready v t ≡ outside (some (neg kv_efull)) = rw c at e in absurd (cc e'))
  | inr c ↦ elim (Bool-cases (diff_negative (slot q t).seq t)) [
    | inl d ↦ omega (arith, seq_full t inv (full_test t inv s l d), inv.window.not_over, l)
    | inr d ↦
        (let e' : entered v ≡ outside (some (neg kv_efull)) = rw (c, d) at e in absurd (cc e'))
  ]
]

-- Where a push answers -KV_EFULL at its load of the slot's number, in a state that interleaved
-- calls reach, all 2^p places are taken and not yet free at that moment, for p from 4 on and
-- counters below 2^63.
pub mpsc_push_full :
    {p i v t : ℕ} {s : System}
    → 4 ≤ p
    → Reach p s
    → length s.claims + 2 ^ p < 2 ^ 63
    → s.pushers i ≡ loaded v t
    → (push_turn s i).pushers i ≡ outside (some (neg kv_efull))
    → length s.claims ≡ low s.ring.head s.popper + 2 ^ p
unfolding IsSystem push_turn
mpsc_push_full {p} {i} {v} {t} {s} four r small at e =
    let inv : Inv p s.ring s.pushers s.popper s.claims s.out = Reach-IsSystem four r small in
    let n = inv.window.counted in
    let here : t ≤ s.ring.tail =
      subst (IsPush p s.ring (low s.ring.head s.popper) s.claims) at (inv.pushing i) in
    let e' : (push_step s.ring (s.pushers i)).1 ≡ outside (some (neg kv_efull)) =
      sym (update_self s.pushers i (push_step s.ring (s.pushers i)).1) ∙ e in
    omega (arith, n, load_full v t inv (omega (arith, n, small)) here (rw at at e'))

null_load :
    {p : ℕ} {q : MpscRing} {f : ℕ → PushPc} {cl out : List ℕ} (h : ℕ)
    → Inv p q f (fetched h) cl out
    → IsSmall p q.tail
    → (pop_step q (fetched h)).1 ≡ resting none
    → (length cl ≡ q.head) ⊎ ((i : ℕ) × (place (f i) ≡ some q.head))
unfolding pop_step
null_load {p} {q} {f} {cl} h inv s e =
    let w = inv.window in
    let at : h ≡ q.head = inv.popping in
    elim (Bool-cases ((slot q h).seq == u64 (h + 1))) [
      | inl c ↦ (let e' : filled h ≡ resting none = rw c at e in absurd (cc e'))
      | inr c ↦ elim (Bool-cases (ltb q.head q.tail)) [
        | inl d ↦
            let l = ltb→lt q.head q.tail d in
            elim (inv.held q.head (omega arith) l) [
              | published a _ ↦
                  let u : u64 (h + 1) ≡ suc q.head =
                    u64_small p q.tail (h + 1) s (omega (arith, at, l)) ∙ omega (arith, at) in
                  let a' : (slot q h).seq ≡ u64 (h + 1) =
                    ap (λ (n : ℕ). (slot q n).seq) at ∙ a ∙ sym u in
                  absurd (cc (c, (==_iff (slot q h).seq (u64 (h + 1))).1 a'))
              | pending i _ o ↦ inr (i, o)
            ]
        | inr d ↦ inl (ground (arith, d, w.not_empty, w.counted))
      ]
    ]

-- Where mpsc_pop answers nullptr, in a state that interleaved calls reach, every request that
-- has a place has been returned, or a push has the first place and has not yet published its
-- request, for p from 4 on and counters below 2^63.
pub mpsc_pop_null :
    {p h : ℕ} {s : System}
    → 4 ≤ p
    → Reach p s
    → length s.claims + 2 ^ p < 2 ^ 63
    → s.popper ≡ fetched h
    → (pop_turn s).popper ≡ resting none
    → (length s.claims ≡ s.ring.head) ⊎ ((i : ℕ) × (place (s.pushers i) ≡ some s.ring.head))
unfolding IsSystem pop_turn
mpsc_pop_null {p} {h} {s} four r small at e =
    null_load h
      (subst (λ (c : PopPc). Inv p s.ring s.pushers c s.claims s.out) at
        (Reach-IsSystem four r small))
      (omega (arith, small, (Reach-IsSystem four r small).window.counted)) (rw at at e)

-- a call that has returned does nothing more
push_run-outside :
    (n fails : ℕ) (q : MpscRing) (rc : Option ℤ) → (push_run n fails q (outside rc)).1 ≡ outside rc
unfolding push_run weak_step push_step
push_run-outside zero fails q rc = refl
push_run-outside (suc n) zero q rc = push_run-outside n zero q rc
push_run-outside (suc n) (suc fails) q rc = push_run-outside n (suc fails) q rc

-- the three accesses of a compare-exchange that fails without reason
push_again :
    (n fails : ℕ) (q : MpscRing) (v : ℕ)
    → ((slot q q.tail).seq == q.tail) ≡ true
    → push_run (suc (suc (suc n))) (suc fails) q (entered v) ≡ push_run n fails q (entered v)
unfolding push_run weak_step push_step
push_again n fails q v room = rw room refl

push_full :
    (n fails : ℕ) (q : MpscRing) (v : ℕ)
    → ((slot q q.tail).seq == q.tail) ≡ false
    → diff_negative (slot q q.tail).seq q.tail ≡ true
    → push_run (suc (suc n)) fails q (entered v)
      ≡ push_run n fails q (outside (some (neg kv_efull)))
unfolding push_run weak_step push_step
push_full n zero q v ne less = rw (ne, less) refl
push_full n (suc fails) q v ne less = rw (ne, less) refl

-- a push into a free slot
push_free :
    (fails : ℕ) (q : MpscRing) (v : ℕ)
    → ((slot q q.tail).seq == q.tail) ≡ true
    → (push_run (push_accesses fails) fails q (entered v)).1 ≡ outside (some kv_eok)
unfolding push_run weak_step push_step
push_free zero q v room =
    let here : (q.tail == q.tail) ≡ true = (==_iff _ _).1 refl in rw (room, here) refl
push_free (suc fails) q v room =
    ap (λ (x : MpscRing × PushPc). x.1) (push_again (push_accesses fails) fails q v room)
    ∙ push_free fails q v room

at_least_two : (fails : ℕ) → (n : ℕ) × (push_accesses fails ≡ suc (suc n))
at_least_two zero = (3, refl)
at_least_two (suc fails) = (suc (push_accesses fails), refl)

push_refused :
    (fails : ℕ) (q : MpscRing) (v : ℕ)
    → ((slot q q.tail).seq == q.tail) ≡ false
    → diff_negative (slot q q.tail).seq q.tail ≡ true
    → (push_run (push_accesses fails) fails q (entered v)).1 ≡ outside (some (neg kv_efull))
push_refused fails q v ne less =
    let (n, e) = at_least_two fails in
    ap (λ (m : ℕ). (push_run m fails q (entered v)).1) e
    ∙ ap (λ (x : MpscRing × PushPc). x.1) (push_full n fails q v ne less)
    ∙ push_run-outside n fails q (some (neg kv_efull))

push_alone :
    {p : ℕ} {q : MpscRing} {f : ℕ → PushPc} {pc : PopPc} {cl out : List ℕ} (fails v : ℕ)
    → Inv p q f pc cl out
    → IsSmall p q.tail
    → (mpsc_push fails q v).1
      ≡ outside (some (if ltb q.tail (low q.head pc + 2 ^ p) then kv_eok else neg kv_efull))
unfolding mpsc_push
push_alone {p} {q} {f} {pc} fails v inv s =
    let w = inv.window in
    let lo : ℕ = low q.head pc in
    elim (Bool-cases (ltb q.tail (lo + 2 ^ p))) [
      | inl c ↦
          let room : ((slot q q.tail).seq == q.tail) ≡ true =
            (==_iff _ _).1 (w.spare q.tail (omega arith) (ltb→lt _ _ c)) in
          rw c (push_free fails q v room)
      | inr c ↦
          let last : q.tail ≡ lo + 2 ^ p = ground (arith, c, w.not_over) in
          let round = seq_round p q q.tail lo w.masked last in
          let less : (slot q q.tail).seq < q.tail =
            elim (inv.held lo (omega arith) (omega (arith, last, w.two))) [
              | published e _ ↦ omega (arith, round, e, last, w.two)
              | pending _ e _ ↦ omega (arith, round, e, last, w.two)
            ] in
          let ne : ((slot q q.tail).seq == q.tail) ≡ false = ground (arith, less) in
          let neg : diff_negative (slot q q.tail).seq q.tail ≡ true =
            diff_negative_lem _ _ (omega (arith, less, s)) (omega (arith, s)) ∙ lt→ltb _ _ less in
          rw c (push_refused fails q v ne neg)
    ]

-- In every state that interleaved calls reach, a push that no other thread interrupts ends,
-- wherever the other threads stand, and however often its compare-exchange fails without reason:
-- within five accesses and three more for each such failure, with KV_EOK if fewer than 2^p
-- places are taken and not yet free, and with -KV_EFULL otherwise, for p from 4 on and counters
-- below 2^63.
pub mpsc_push_alone :
    {p : ℕ} {s : System} (fails v : ℕ)
    → 4 ≤ p
    → Reach p s
    → length s.claims + 2 ^ p < 2 ^ 63
    → (mpsc_push fails s.ring v).1
      ≡ outside (
          some (
            if ltb (length s.claims) (low s.ring.head s.popper + 2 ^ p)
            then kv_eok
            else neg kv_efull))
unfolding IsSystem
mpsc_push_alone {p} {s} fails v four r small =
    let inv : Inv p s.ring s.pushers s.popper s.claims s.out = Reach-IsSystem four r small in
    rw (sym inv.window.counted) (push_alone fails v inv (omega (arith, small, inv.window.counted)))

-- In every state that interleaved calls reach in which no mpsc_pop is under way, fewer requests
-- were returned than have a place, and no push has the first of the places left without having
-- published its request: an mpsc_pop that no other thread interrupts ends within five accesses,
-- with the request of that place, for p from 4 on and counters below 2^63.
pub mpsc_pop_alone :
    {p : ℕ} {s : System} {x : Option ℕ}
    → 4 ≤ p
    → Reach p s
    → length s.claims + 2 ^ p < 2 ^ 63
    → s.popper ≡ resting x
    → s.ring.head < length s.claims
    → ((i : ℕ) → place (s.pushers i) ≢ some s.ring.head)
    → (mpsc_pop s.ring).1 ≡ resting (some (request s.claims s.ring.head))
unfolding IsSystem mpsc_pop pop_run pop_step
mpsc_pop_alone {p} {s} {x} four r small at l free =
    let inv : Inv p s.ring s.pushers (resting x) s.claims s.out =
      subst (λ (c : PopPc). Inv p s.ring s.pushers c s.claims s.out) at
        (Reach-IsSystem four r small) in
    let w = inv.window in
    let h : ℕ = s.ring.head in
    elim (inv.held h (omega arith) (omega (arith, l, w.counted))) [
      | published a b ↦
          let u : u64 (h + 1) ≡ suc h =
            u64_small p s.ring.tail (h + 1) (omega (arith, small, w.counted))
              (omega (arith, l, w.counted))
            ∙ omega arith in
          let c : ((slot s.ring h).seq == u64 (h + 1)) ≡ true = (==_iff _ _).1 (a ∙ sym u) in
          rw (c, b) refl
      | pending i _ o ↦ absurd (free i o)
    ]
