-- ===== src/Writer/Ring/Invariant.antt =====
-- What the ring of src/writer.cpp keeps between the accesses of its threads.
use kvtier.Prelude.{
  ℕ, suc, ◌+◌, ◌-◌, ◌^◌, ◌≤◌, ◌<◌, ◌≡◌, Option, none, some, List, length, get_or, take,
}
use kvtier.Writer.Ring.{
  MpscSlot, MpscRing, slot, PushPc, loaded, ready, claimed, written, PopPc, fetched, filled, taken,
  freed,
}

-- the place that a push has and has not yet published
abbrev pub place : PushPc → Option ℕ
place (claimed _ t) = some t
place (written _ t) = some t
place _ = none

-- the place from which on slots are not yet free again
abbrev pub low : ℕ → PopPc → ℕ
low head (freed h _) = suc h
low head _ = head

-- the request at a place
abbrev pub request : List ℕ → ℕ → ℕ
request claims k = get_or claims k 0

-- A slot of a place that is taken: published, or still owned by the push that took it.
pub data Held (pushers : ℕ → PushPc) (claims : List ℕ) (k : ℕ) (s : MpscSlot) : Type 0 where
  published : s.seq ≡ suc k → s.ptr ≡ request claims k → Held pushers claims k s
  pending : (i : ℕ) → s.seq ≡ k → place (pushers i) ≡ some k → Held pushers claims k s

-- the owner of a place: the slot waits for it
pub record IsOwner (q : MpscRing) (lo : ℕ) (claims : List ℕ) (v t : ℕ) : Type 0 where
  pub above : lo ≤ t
  pub below : t < q.tail
  pub waits : (slot q t).seq ≡ t
  pub same : request claims t ≡ v

-- What the locals of a thread that pushes say about the ring.
abbrev pub IsPush : (p : ℕ) → MpscRing → ℕ → List ℕ → PushPc → Type 0
IsPush p q lo claims (loaded v t) = t ≤ q.tail
IsPush p q lo claims (ready v t) = t < lo + 2 ^ p
IsPush p q lo claims (claimed v t) = IsOwner q lo claims v t
IsPush p q lo claims (written v t) = IsOwner q lo claims v t × ((slot q t).ptr ≡ v)
IsPush p q lo claims _ = Unit

-- The first place is published, and `h` is it.
pub record IsFront (q : MpscRing) (claims : List ℕ) (h : ℕ) : Type 0 where
  pub at : h ≡ q.head
  pub lower : q.head < q.tail
  pub ready_seq : (slot q q.head).seq ≡ suc q.head
  pub ready_ptr : (slot q q.head).ptr ≡ request claims q.head

abbrev pub IsPop : MpscRing → List ℕ → PopPc → Type 0
IsPop q claims (fetched h) = h ≡ q.head
IsPop q claims (filled h) = IsFront q claims h
IsPop q claims (taken h x) = IsFront q claims h × (x ≡ request claims q.head)
IsPop q claims (freed h x) = (h ≡ q.head) × (q.head < q.tail) × (x ≡ request claims q.head)
IsPop q claims _ = Unit

-- the ring alone: the window of places, and the slots of those that are free
pub record IsWindow (p : ℕ) (q : MpscRing) (lo : ℕ) (claims : List ℕ) : Type 0 where
  pub two : 2 ≤ 2 ^ p
  pub masked : q.mask ≡ 2 ^ p - 1
  pub counted : q.tail ≡ length claims
  pub not_empty : lo ≤ q.tail
  pub not_over : q.tail ≤ lo + 2 ^ p
  pub spare : (k : ℕ) → q.tail ≤ k → k < lo + 2 ^ p → (slot q k).seq ≡ k

pub record Inv (p : ℕ) (q : MpscRing) (pushers : ℕ → PushPc) (popper : PopPc) (claims out : List ℕ)
    : Type 0 where
  pub window : IsWindow p q (low q.head popper) claims
  pub held : (k : ℕ) → low q.head popper ≤ k → k < q.tail → Held pushers claims k (slot q k)
  pub pushing : (i : ℕ) → IsPush p q (low q.head popper) claims (pushers i)
  pub unique : (i j k : ℕ) → place (pushers i) ≡ some k → place (pushers j) ≡ some k → i ≡ j
  pub popping : IsPop q claims popper
  pub returned : out ≡ take q.head claims
