-- ===== src/Writer/Ring/Write.antt =====
-- The stores of src/writer.cpp to a slot of the ring: a push fills its own slot, a pop frees the
-- first one.
use kvtier.Prelude.{
  ℕ, ◌+◌, ◌^◌, ◌≤◌, ◌<◌, ◌≡◌, ◌≢◌, refl, sym, ap, ◌∙◌, subst, some, List, arith, ℕ_discrete,
}
use kvtier.Writer.Ring.{
  MpscSlot, MpscRing, slot, put_slot, PushPc, outside, entered, loaded, ready, claimed, written,
  PopPc, resting, started, fetched, filled, taken, freed, update,
}
use kvtier.Writer.Ring.Window.{put_slot_self, put_slot_ne}
use kvtier.Writer.Ring.Invariant.{place, low, Held, IsOwner, IsPush, IsFront, IsPop, IsWindow, Inv}
use kvtier.Writer.Ring.Push.{update_all, Held-update, place_unique, place_below}

module _ (p : ℕ) (q : MpscRing) (lo : ℕ) (cl : List ℕ) (t : ℕ) (s : MpscSlot)
    (w : IsWindow p q lo cl) (above : lo ≤ t) (below : t < q.tail) where
  pub other_slot : (k : ℕ) → lo ≤ k → k < lo + 2 ^ p → t ≢ k → slot (put_slot q t s) k ≡ slot q k
  other_slot k l u ne =
      put_slot_ne p q t k s w.masked (omega (arith, below, w.not_over, l)) (omega (arith, above, u))
        ne

  write-IsOwner : (v k : ℕ) → t ≢ k → IsOwner q lo cl v k → IsOwner (put_slot q t s) lo cl v k
  write-IsOwner v k ne o = record {
    above = o.above;
    below = o.below;
    waits =
        ap (λ (x : MpscSlot). x.seq) (other_slot k o.above (omega (arith, o.below, w.not_over)) ne)
        ∙ o.waits;
    same = o.same;
  }

  write-IsPush :
      (c : PushPc) → place c ≢ some t → IsPush p q lo cl c → IsPush p (put_slot q t s) lo cl c
  write-IsPush (outside r) ne o = tt
  write-IsPush (entered x) ne o = tt
  write-IsPush (loaded x k) ne o = o
  write-IsPush (ready x k) ne o = o
  write-IsPush (claimed x k) ne o = write-IsOwner x k (λ e. ne (ap some (sym e))) o
  write-IsPush (written x k) ne (o, e) =
      let ne' : t ≢ k = λ h. ne (ap some (sym h)) in
      (
        write-IsOwner x k ne' o,
        ap (λ (y : MpscSlot). y.ptr) (other_slot k o.above (omega (arith, o.below, w.not_over)) ne')
            ∙ e,
      )

  write-IsFront :
      (h : ℕ) → lo ≡ q.head → t ≢ q.head → IsFront q cl h → IsFront (put_slot q t s) cl h
  write-IsFront h l ne o =
      let e =
        other_slot q.head (omega (arith, l)) (omega (arith, above, below, w.not_over, l, o.lower))
          ne in
      record {
        at = o.at;
        lower = o.lower;
        ready_seq = ap (λ (y : MpscSlot). y.seq) e ∙ o.ready_seq;
        ready_ptr = ap (λ (y : MpscSlot). y.ptr) e ∙ o.ready_ptr;
      }

not_front :
    (q : MpscRing) (cl : List ℕ) (h t : ℕ) → (slot q t).seq ≡ t → IsFront q cl h → t ≢ q.head
not_front q cl h t waits o e =
    let a : (slot q q.head).seq ≡ t = subst (λ (n : ℕ). (slot q n).seq ≡ t) e waits in
    omega (arith, a, e, o.ready_seq)

write-IsPop :
    (p : ℕ) (q : MpscRing) (cl : List ℕ) (t : ℕ) (s : MpscSlot) (pop : PopPc)
    → IsWindow p q (low q.head pop) cl
    → low q.head pop ≤ t
    → t < q.tail
    → (slot q t).seq ≡ t
    → IsPop q cl pop
    → IsPop (put_slot q t s) cl pop
write-IsPop p q cl t s (resting r) w a b e o = tt
write-IsPop p q cl t s started w a b e o = tt
write-IsPop p q cl t s (fetched h) w a b e o = o
write-IsPop p q cl t s (filled h) w a b e o =
    write-IsFront p q q.head cl t s w a b h refl (not_front q cl h t e o) o
write-IsPop p q cl t s (taken h x) w a b e (o, y) =
    (write-IsFront p q q.head cl t s w a b h refl (not_front q cl h t e o) o, y)
write-IsPop p q cl t s (freed h x) w a b e o = o

-- the owner of place `t` stores to its slot
pub write-Inv :
    {p : ℕ} {q : MpscRing} {f : ℕ → PushPc} {pop : PopPc} {cl out : List ℕ} (i t : ℕ) (c : PushPc)
    (s : MpscSlot)
    → Inv p q f pop cl out
    → place (f i) ≡ some t
    → (slot q t).seq ≡ t
    → ((k : ℕ) → place c ≡ some k → t ≡ k)
    → Held (update f i c) cl t s
    → IsPush p (put_slot q t s) (low q.head pop) cl c
    → Inv p (put_slot q t s) (update f i c) pop cl out
write-Inv {p} {q} {f} {pop} {cl} i t c s inv mine waits only new own =
    let lo : ℕ = low q.head pop in
    let w = inv.window in
    let (above, below) = place_below p q lo cl (f i) t (inv.pushing i) mine in
    let other : (j : ℕ) → j ≢ i → place (f j) ≢ some t = λ j ne e. ne (inv.unique j i t e mine) in
    record {
      window = record {
        two = w.two;
        masked = w.masked;
        counted = w.counted;
        not_empty = w.not_empty;
        not_over = w.not_over;
        spare = λ k l u.
            ap (λ (y : MpscSlot). y.seq)
              (other_slot p q lo cl t s w above below k (omega (arith, l, w.not_empty)) u
                (λ e. omega (arith, e, l, below)))
            ∙ w.spare k l u;
      };
      held = λ k l u. elim (ℕ_discrete t k) [
        | yes e ↦
            subst (λ (n : ℕ). Held (update f i c) cl n (slot (put_slot q t s) n)) e
              (subst (Held (update f i c) cl t) (sym (put_slot_self q t s)) new)
        | no ne ↦
            subst (Held (update f i c) cl k)
              (sym (other_slot p q lo cl t s w above below k l (omega (arith, u, w.not_over)) ne))
              (Held-update f i c cl k (slot q k)
                (λ e. ne (let e' : some t ≡ some k = sym mine ∙ e in cc e')) (inv.held k l u))
      ];
      pushing =
          update_all (IsPush p (put_slot q t s) lo cl) f i c own
            (λ j ne. write-IsPush p q lo cl t s w above below (f j) (other j ne) (inv.pushing j));
      unique =
          place_unique f i c (λ j k ne e o. other j ne (o ∙ ap some (sym (only k e)))) inv.unique;
      popping = write-IsPop p q cl t s pop w above below waits inv.popping;
      returned = inv.returned;
    }
