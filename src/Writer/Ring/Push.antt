-- ===== src/Writer/Ring/Push.antt =====
-- `mpsc_push` of src/writer.cpp keeps the invariant of the ring: the accesses one by one.
use kvtier.Prelude.{
  ℕ, ◌+◌, ◌^◌, ◌≤◌, ◌<◌, ◌≡◌, ◌≢◌, sym, ap, ◌∙◌, subst, none, some, List, [], ◌∷◌, ◌++◌, length,
  length-append, get_or-append_left, get_or-append_last, take-append_le, arith, ℕ_discrete,
}
use kvtier.Writer.Ring.{
  MpscSlot, MpscRing, slot, PushPc, outside, entered, loaded, ready, claimed, written, PopPc,
  resting, started, fetched, filled, taken, freed, update,
}
use kvtier.Writer.Ring.Window.{update_self, update_ne}
use kvtier.Writer.Ring.Invariant.{
  place, low, request, Held, published, pending, IsOwner, IsPush, IsFront, IsPop, Inv,
}

-- pushes other than `i` keep what holds of each of them
pub update_all :
    (P : PushPc → Type 0) (f : ℕ → PushPc) (i : ℕ) (c : PushPc)
    → P c
    → ((j : ℕ) → j ≢ i → P (f j))
    → (j : ℕ) → P (update f i c j)
update_all P f i c own others j = elim (ℕ_discrete j i) [
  | yes e ↦ subst (λ (n : ℕ). P (update f i c n)) (sym e) (subst P (sym (update_self f i c)) own)
  | no ne ↦ subst P (sym (update_ne f i j c ne)) (others j ne)
]

-- an owner of a place other than the one that changes is still its owner
pub Held-update :
    (f : ℕ → PushPc) (i : ℕ) (c : PushPc) (cl : List ℕ) (k : ℕ) (s : MpscSlot)
    → place (f i) ≢ some k
    → Held f cl k s
    → Held (update f i c) cl k s
Held-update f i c cl k s ne (published e w) = published e w
Held-update f i c cl k s ne (pending j e o) =
    pending j e
      (ap place (update_ne f i j c (λ h. ne (ap (λ (n : ℕ). place (f n)) (sym h) ∙ o))) ∙ o)

pub place_unique :
    (f : ℕ → PushPc) (i : ℕ) (c : PushPc)
    → ((j k : ℕ) → j ≢ i → place c ≡ some k → place (f j) ≢ some k)
    → ((a b k : ℕ) → place (f a) ≡ some k → place (f b) ≡ some k → a ≡ b)
    → (a b k : ℕ) → place (update f i c a) ≡ some k
    → place (update f i c b) ≡ some k
    → a ≡ b
place_unique f i c new old a b k ea eb = elim (ℕ_discrete a i) [
  | yes x ↦ elim (ℕ_discrete b i) [
    | yes y ↦ x ∙ sym y
    | no y ↦ absurd (new b k y (sym (at a x) ∙ ea) (sym (off b y) ∙ eb))
  ]
  | no x ↦ elim (ℕ_discrete b i) [
    | yes y ↦ absurd (new a k x (sym (at b y) ∙ eb) (sym (off a x) ∙ ea))
    | no y ↦ old a b k (sym (off a x) ∙ ea) (sym (off b y) ∙ eb)
  ]
]
  where
    at : (n : ℕ) → n ≡ i → place (update f i c n) ≡ place c
    at n e = ap (λ (m : ℕ). place (update f i c m)) e ∙ ap place (update_self f i c)

    off : (n : ℕ) → n ≢ i → place (update f i c n) ≡ place (f n)
    off n ne = ap place (update_ne f i n c ne)

-- a push without a place goes where it has none either
pub Inv-move :
    {p : ℕ} {q : MpscRing} {f : ℕ → PushPc} {pop : PopPc} {cl out : List ℕ} (i : ℕ) (c : PushPc)
    → Inv p q f pop cl out
    → place (f i) ≡ none
    → place c ≡ none
    → IsPush p q (low q.head pop) cl c
    → Inv p q (update f i c) pop cl out
Inv-move {p} {q} {f} {pop} {cl} i c inv free free' own = record {
  window = inv.window;
  held = λ k l u. Held-update f i c cl k (slot q k) (λ e. cc (free, e)) (inv.held k l u);
  pushing = update_all (IsPush p q (low q.head pop) cl) f i c own (λ j _. inv.pushing j);
  unique = place_unique f i c (λ j k _ e. absurd (cc (free', e))) inv.unique;
  popping = inv.popping;
  returned = inv.returned;
}

-- the compare-exchange: the tail moves, and the request joins the queue
abbrev claim_ring : MpscRing → MpscRing
claim_ring q = record q { tail = q.tail + 1 }

module _ (q : MpscRing) (cl : List ℕ) (v : ℕ) (n : q.tail ≡ length cl) where
  old_request : (k : ℕ) → k < q.tail → request (cl ++ (v ∷ [])) k ≡ request cl k
  old_request k l = get_or-append_left cl (v ∷ []) k 0 (omega (arith, l, n))

  claim-Held :
      (f : ℕ → PushPc) (k : ℕ) (s : MpscSlot)
      → k < q.tail
      → Held f cl k s
      → Held f (cl ++ (v ∷ [])) k s
  claim-Held f k s l (published e o) = published e (o ∙ sym (old_request k l))
  claim-Held f k s l (pending j e o) = pending j e o

  claim-IsOwner :
      {lo : ℕ} (x t : ℕ) → IsOwner q lo cl x t → IsOwner (claim_ring q) lo (cl ++ (v ∷ [])) x t
  claim-IsOwner x t o = record {
    above = o.above;
    below = omega (arith, o.below);
    waits = o.waits;
    same = old_request t o.below ∙ o.same;
  }

  claim-IsPush :
      (p lo : ℕ) (c : PushPc) → IsPush p q lo cl c → IsPush p (claim_ring q) lo (cl ++ (v ∷ [])) c
  claim-IsPush p lo (outside r) o = tt
  claim-IsPush p lo (entered x) o = tt
  claim-IsPush p lo (loaded x t) o = omega (arith, o)
  claim-IsPush p lo (ready x t) o = o
  claim-IsPush p lo (claimed x t) o = claim-IsOwner x t o
  claim-IsPush p lo (written x t) (o, e) = (claim-IsOwner x t o, e)

  claim-IsFront : (h : ℕ) → IsFront q cl h → IsFront (claim_ring q) (cl ++ (v ∷ [])) h
  claim-IsFront h o = record {
    at = o.at;
    lower = omega (arith, o.lower);
    ready_seq = o.ready_seq;
    ready_ptr = o.ready_ptr ∙ sym (old_request q.head o.lower);
  }

  claim-IsPop : (c : PopPc) → IsPop q cl c → IsPop (claim_ring q) (cl ++ (v ∷ [])) c
  claim-IsPop (resting r) o = tt
  claim-IsPop started o = tt
  claim-IsPop (fetched h) o = o
  claim-IsPop (filled h) o = claim-IsFront h o
  claim-IsPop (taken h x) (o, e) = (claim-IsFront h o, e ∙ sym (old_request q.head o.lower))
  claim-IsPop (freed h x) (a, l, e) = (a, omega (arith, l), e ∙ sym (old_request q.head l))

-- a place that is taken lies below the tail
pub place_below :
    (p : ℕ) (q : MpscRing) (lo : ℕ) (cl : List ℕ) (c : PushPc) (k : ℕ)
    → IsPush p q lo cl c
    → place c ≡ some k
    → (lo ≤ k) × (k < q.tail)
place_below p q lo cl (outside r) k o e = absurd (cc e)
place_below p q lo cl (entered x) k o e = absurd (cc e)
place_below p q lo cl (loaded x t) k o e = absurd (cc e)
place_below p q lo cl (ready x t) k o e = absurd (cc e)
place_below p q lo cl (claimed x t) k o e =
    let e' : t ≡ k = cc e in (omega (arith, o.above, e'), omega (arith, o.below, e'))
place_below p q lo cl (written x t) k (o, _) e =
    let e' : t ≡ k = cc e in (omega (arith, o.above, e'), omega (arith, o.below, e'))

pub low-le : (q : MpscRing) (cl : List ℕ) (pop : PopPc) → IsPop q cl pop → q.head ≤ low q.head pop
low-le q cl (resting r) o = omega arith
low-le q cl started o = omega arith
low-le q cl (fetched h) o = omega arith
low-le q cl (filled h) o = omega arith
low-le q cl (taken h x) o = omega arith
low-le q cl (freed h x) (a, _, _) = omega (arith, a)

pub claim-Inv :
    {p : ℕ} {q : MpscRing} {f : ℕ → PushPc} {pop : PopPc} {cl out : List ℕ} (i v : ℕ)
    → Inv p q f pop cl out
    → place (f i) ≡ none
    → q.tail < low q.head pop + 2 ^ p
    → Inv p (claim_ring q) (update f i (claimed v q.tail)) pop (cl ++ (v ∷ [])) out
claim-Inv {p} {q} {f} {pop} {cl} i v inv free room =
    let w = inv.window in
    let last : request (cl ++ (v ∷ [])) q.tail ≡ v =
      ap (request (cl ++ (v ∷ []))) w.counted ∙ get_or-append_last cl v 0 in
    let waits : (slot q q.tail).seq ≡ q.tail = w.spare q.tail (omega arith) room in
    let head : q.head ≤ length cl =
      omega (arith, low-le q cl pop inv.popping, w.not_empty, w.counted) in
    record {
      window = record {
        two = w.two;
        masked = w.masked;
        counted = omega (arith, length-append cl (v ∷ []), w.counted);
        not_empty = omega (arith, w.not_empty);
        not_over = omega (arith, room);
        spare = λ k l u. w.spare k (omega arith) u;
      };
      held = λ k l u. elim (ℕ_discrete k q.tail) [
        | yes e ↦
            pending i (ap (λ (n : ℕ). (slot q n).seq) e ∙ waits ∙ sym e)
              (ap place (update_self f i (claimed v q.tail)) ∙ ap some (sym e))
        | no ne ↦
            let below : k < q.tail = omega (arith, ne, u) in
            Held-update f i (claimed v q.tail) (cl ++ (v ∷ [])) k (slot q k) (λ e. cc (free, e))
              (claim-Held q cl v w.counted f k (slot q k) below (inv.held k l below))
      ];
      pushing =
          update_all (IsPush p (claim_ring q) (low q.head pop) (cl ++ (v ∷ []))) f i
            (claimed v q.tail)
            (record { above = w.not_empty; below = omega arith; waits = waits; same = last })
            (λ j _. claim-IsPush q cl v w.counted p (low q.head pop) (f j) (inv.pushing j));
      unique =
          place_unique f i (claimed v q.tail)
            (λ j k _ e o.
              let e' : q.tail ≡ k = cc e in
              omega (arith, e', (place_below p q (low q.head pop) cl (f j) k (inv.pushing j) o).1))
            inv.unique;
      popping = claim-IsPop q cl v w.counted pop inv.popping;
      returned = inv.returned ∙ sym (take-append_le q.head cl (v ∷ []) head);
    }
