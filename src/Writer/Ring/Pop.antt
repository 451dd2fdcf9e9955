-- ===== src/Writer/Ring/Pop.antt =====
-- `mpsc_pop` of src/writer.cpp keeps the invariant of the ring: it frees the first slot, then moves
-- the head.
use kvtier.Prelude.{
  ℕ, suc, ◌+◌, ◌^◌, ◌≤◌, ◌<◌, ◌≡◌, ◌≢◌, sym, ap, ◌∙◌, subst, some, List, [], ◌∷◌, ◌++◌, take,
  take-suc, arith, ℕ_discrete,
}
use kvtier.Writer.Ring.{
  MpscSlot, MpscRing, slot, put_slot, PushPc, outside, entered, loaded, ready, claimed, written,
  resting, taken, freed,
}
use kvtier.Writer.Ring.Window.{put_slot_self, round_slot}
use kvtier.Writer.Ring.Invariant.{Held, IsOwner, IsPush, IsFront, IsWindow, Inv}
use kvtier.Writer.Ring.Write.{other_slot}

-- the window without its first place, whose slot is free again
abbrev pub free_ring : ℕ → MpscRing → ℕ → MpscRing
free_ring p q h = put_slot q h (record (slot q h) { seq = h + 2 ^ p })

module _ (p : ℕ) (q : MpscRing) (cl : List ℕ) (h : ℕ) (w : IsWindow p q h cl)
    (o : IsFront q cl h) where
  freed_slot : (k : ℕ) → h < k → k < h + 2 ^ p → slot (free_ring p q h) k ≡ slot q k
  freed_slot k l u =
      other_slot p q h cl h _ w (omega arith) (omega (arith, o.at, o.lower)) k (omega arith) u
        (λ e. omega (arith, e, l))

  freed_spare : (k : ℕ) → q.tail ≤ k → k < suc h + 2 ^ p → (slot (free_ring p q h) k).seq ≡ k
  freed_spare k l u = elim (ℕ_discrete k (h + 2 ^ p)) [
    | yes e ↦ subst (λ (n : ℕ). (slot (free_ring p q h) n).seq ≡ n) (sym e) last
    | no ne ↦
        let l' : h < k = omega (arith, o.at, o.lower, l) in
        let u' : k < h + 2 ^ p = omega (arith, u, ne) in
        ap (λ (y : MpscSlot). y.seq) (freed_slot k l' u') ∙ w.spare k l u'
  ]
    where
      last : (slot (free_ring p q h) (h + 2 ^ p)).seq ≡ h + 2 ^ p
      last =
          ap (λ (j : ℕ). ((free_ring p q h).slots j).seq) (round_slot p q h w.masked)
          ∙ ap (λ (y : MpscSlot). y.seq) (put_slot_self q h (record (slot q h) { seq = h + 2 ^ p }))

  freed-IsWindow : IsWindow p (free_ring p q h) (suc h) cl
  freed-IsWindow = record {
    two = w.two;
    masked = w.masked;
    counted = w.counted;
    not_empty = omega (arith, o.at, o.lower);
    not_over = omega (arith, w.not_over);
    spare = freed_spare;
  }

  -- the first slot is published, so no push owns it
  freed-IsOwner :
      (v t : ℕ) → IsOwner q h cl v t → (h < t) × IsOwner (free_ring p q h) (suc h) cl v t
  freed-IsOwner v t x =
      let front : (slot q h).seq ≡ suc h =
        subst (λ (n : ℕ). (slot q n).seq ≡ suc n) (sym o.at) o.ready_seq in
      let ne : h ≢ t = λ e. omega (arith, front, e, ap (λ (n : ℕ). (slot q n).seq) e, x.waits) in
      let l : h < t = omega (arith, ne, x.above) in
      (
        l,
        record {
          above = omega (arith, l);
          below = x.below;
          waits =
              ap (λ (y : MpscSlot). y.seq) (freed_slot t l (omega (arith, x.below, w.not_over)))
              ∙ x.waits;
          same = x.same;
        },
      )

  freed-IsPush : (c : PushPc) → IsPush p q h cl c → IsPush p (free_ring p q h) (suc h) cl c
  freed-IsPush (outside r) x = tt
  freed-IsPush (entered v) x = tt
  freed-IsPush (loaded v t) x = x
  freed-IsPush (ready v t) x = omega (arith, x)
  freed-IsPush (claimed v t) x = (freed-IsOwner v t x).1
  freed-IsPush (written v t) (x, e) =
      let (l, y) = freed-IsOwner v t x in
      (y, ap (λ (z : MpscSlot). z.ptr) (freed_slot t l (omega (arith, x.below, w.not_over))) ∙ e)

pub free-Inv :
    {p : ℕ} {q : MpscRing} {f : ℕ → PushPc} {cl out : List ℕ} (h x : ℕ)
    → Inv p q f (taken h x) cl out
    → Inv p (free_ring p q h) f (freed h x) cl out
free-Inv {p} {q} {f} {cl} h x inv =
    let (o, e) = inv.popping in
    let w : IsWindow p q h cl = subst (λ (n : ℕ). IsWindow p q n cl) (sym o.at) inv.window in
    record {
      window = freed-IsWindow p q cl h w o;
      held = λ k l u.
          subst (Held f cl k)
            (sym (freed_slot p q cl h w o k (omega (arith, l)) (omega (arith, u, w.not_over))))
            (inv.held k (omega (arith, l, o.at)) u);
      pushing = λ i.
          freed-IsPush p q cl h w o (f i)
            (subst (λ (n : ℕ). IsPush p q n cl (f i)) (sym o.at) (inv.pushing i));
      unique = inv.unique;
      popping = (o.at, o.lower, e);
      returned = inv.returned;
    }

-- the head moves past the place that is free again
abbrev pub next_ring : MpscRing → ℕ → MpscRing
next_ring q h = record q { head = h + 1 }

next-IsPush :
    (p : ℕ) (q : MpscRing) (h : ℕ) (cl : List ℕ) (c : PushPc)
    → IsPush p q (suc h) cl c
    → IsPush p (next_ring q h) (h + 1) cl c
next-IsPush p q h cl (outside r) x = tt
next-IsPush p q h cl (entered v) x = tt
next-IsPush p q h cl (loaded v t) x = x
next-IsPush p q h cl (ready v t) x = omega (arith, x)
next-IsPush p q h cl (claimed v t) x = record {
  above = omega (arith, x.above);
  below = x.below;
  waits = x.waits;
  same = x.same;
}
next-IsPush p q h cl (written v t) (x, e) =
    (record { above = omega (arith, x.above); below = x.below; waits = x.waits; same = x.same }, e)

pub next-Inv :
    {p : ℕ} {q : MpscRing} {f : ℕ → PushPc} {cl out : List ℕ} (h x : ℕ)
    → Inv p q f (freed h x) cl out
    → Inv p (next_ring q h) f (resting (some x)) cl (out ++ (x ∷ []))
next-Inv {p} {q} {f} {cl} {out} h x inv =
    let (at, lower, same) = inv.popping in
    let w = inv.window in
    let s : suc h ≡ h + 1 = omega arith in
    record {
      window = record {
        two = w.two;
        masked = w.masked;
        counted = w.counted;
        not_empty = omega (arith, w.not_empty);
        not_over = omega (arith, w.not_over);
        spare = λ k l u. w.spare k l (omega (arith, u));
      };
      held = λ k l u. inv.held k (omega (arith, l)) u;
      pushing = λ i. next-IsPush p q h cl (f i) (inv.pushing i);
      unique = inv.unique;
      popping = tt;
      returned =
          ap (λ (l : List ℕ). l ++ (x ∷ [])) inv.returned
          ∙ ap (λ (y : ℕ). take q.head cl ++ (y ∷ [])) same
          ∙ sym (take-suc q.head cl 0 (omega (arith, lower, w.counted)))
          ∙ ap (λ (n : ℕ). take n cl) {x = suc q.head} (omega (arith, at));
    }
