-- ===== src/Writer/Ring.antt =====
-- The ring of src/writer.cpp: `kv_mpsc_ring`, and `mpsc_push` and `mpsc_pop` as threads that make
-- one access to shared memory a step. Any number of threads push, one pops, in any order; the
-- accesses are taken to be sequentially consistent. A request is a number.
pub mod Window
pub mod Invariant
pub mod Push
pub mod Write
pub mod Pop
pub mod Steps
pub mod Queue
pub mod Calls
use kvtier.Prelude.{
  ℕ, zero, suc, ◌+◌, ◌-◌, ◌%◌, ◌^◌, bit_and, ◌≡◌, Bool, true, Option, none, some, List, [], ◌∷◌,
  ◌++◌, ◌==◌, ltb, not, if◌then◌else◌, ℤ, neg,
}
use kvtier.Common.{u64, kv_eok, kv_efull}

pub record MpscSlot : Type 0 where
  pub seq : ℕ
  pub ptr : ℕ

-- `slots` from the index: an index is masked, so never out of range
pub record MpscRing : Type 0 where
  pub slots : ℕ → MpscSlot
  pub mask : ℕ
  pub tail : ℕ
  pub head : ℕ

-- `calloc` is whether it gave memory
unfoldable pub mpsc_init : (calloc : Bool) → (power : ℕ) → Option MpscRing
mpsc_init calloc power =
    let power' = if ltb power 4 then 4 else power in
    if calloc
    then some (record {
      slots = λ i. record { seq = i; ptr = 0 };
      mask = 2 ^ power' - 1;
      tail = 0;
      head = 0;
    })
    else none

-- `&q->slots[x & q->mask]`
abbrev pub slot : MpscRing → ℕ → MpscSlot
slot q x = q.slots (bit_and x q.mask)

abbrev pub put_slot : MpscRing → ℕ → MpscSlot → MpscRing
put_slot q x s = record q { slots = λ j. if j == bit_and x q.mask then s else q.slots j }

-- the difference of two words as `int64_t` is negative, where it does not overflow
unfoldable pub diff_negative : ℕ → ℕ → Bool
diff_negative a b = ltb ((a + 2 ^ 63) % 2 ^ 64) ((b + 2 ^ 63) % 2 ^ 64)

-- Where a call of `mpsc_push(q, ptr)` stands, with its locals.
pub data PushPc : Type 0 where
  outside : (rc : Option ℤ) → PushPc  -- with the result of the last call
  entered : (ptr : ℕ) → PushPc  -- before the load of `tail`
  loaded : (ptr tail : ℕ) → PushPc  -- before the load of `seq`
  ready : (ptr tail : ℕ) → PushPc  -- before the compare-exchange
  claimed : (ptr tail : ℕ) → PushPc  -- before the store of `ptr`
  written : (ptr tail : ℕ) → PushPc  -- before the store of `seq`

-- One access, and the request that it gives a place in the queue. A compare-exchange that fails
-- without reason is a step of the system.
unfoldable pub push_step : MpscRing → PushPc → MpscRing × PushPc × Option ℕ
push_step q (outside rc) = (q, outside rc, none)
push_step q (entered v) = (q, loaded v q.tail, none)
push_step q (loaded v t) =
    if (slot q t).seq == t
    then (q, ready v t, none)
    else if diff_negative (slot q t).seq t
    then (q, outside (some (neg kv_efull)), none)
    else (q, entered v, none)
push_step q (ready v t) =
    if q.tail == t
    then (record q { tail = u64 (t + 1) }, claimed v t, some v)
    else (q, entered v, none)
push_step q (claimed v t) = (put_slot q t (record (slot q t) { ptr = v }), written v t, none)
push_step q (written v t) =
    (put_slot q t (record (slot q t) { seq = u64 (t + 1) }), outside (some kv_eok), none)

-- Where `mpsc_pop` stands.
pub data PopPc : Type 0 where
  resting : (result : Option ℕ) → PopPc  -- `none` is `nullptr`
  started : PopPc  -- before the load of `head`
  fetched : (head : ℕ) → PopPc  -- before the load of `seq`
  filled : (head : ℕ) → PopPc  -- before the load of `ptr`
  taken : (head ptr : ℕ) → PopPc  -- before the store of `seq`
  freed : (head ptr : ℕ) → PopPc  -- before the store of `head`

-- One access, and the request that the call returns with.
unfoldable pub pop_step : MpscRing → PopPc → MpscRing × PopPc × Option ℕ
pop_step q (resting x) = (q, resting x, none)
pop_step q started = (q, fetched q.head, none)
pop_step q (fetched h) =
    if not ((slot q h).seq == u64 (h + 1)) then (q, resting none, none) else (q, filled h, none)
pop_step q (filled h) = (q, taken h (slot q h).ptr, none)
pop_step q (taken h x) =
    (put_slot q h (record (slot q h) { seq = u64 (h + q.mask + 1) }), freed h x, none)
pop_step q (freed h x) = (record q { head = u64 (h + 1) }, resting (some x), some x)

-- `pushers` from the thread; `claims` and `out` record the requests in the order of their places
-- and in the order of their return
pub record System : Type 0 where
  pub ring : MpscRing
  pub pushers : ℕ → PushPc
  pub popper : PopPc
  pub claims : List ℕ
  pub out : List ℕ

abbrev pub update : (ℕ → PushPc) → ℕ → PushPc → ℕ → PushPc
update f i p j = if j == i then p else f j

abbrev pub append_some : List ℕ → Option ℕ → List ℕ
append_some xs none = xs
append_some xs (some x) = xs ++ (x ∷ [])

unfoldable pub push_turn : System → ℕ → System
push_turn s i =
    let (q, p, claim) = push_step s.ring (s.pushers i) in
    record s { ring = q; pushers = update s.pushers i p; claims = append_some s.claims claim }

unfoldable pub pop_turn : System → System
pop_turn s =
    let (q, p, x) = pop_step s.ring s.popper in
    record s { ring = q; popper = p; out = append_some s.out x }

pub data Step (s : System) : System → Type 0 where
  call_push :
      (i v : ℕ) {rc : Option ℤ}
      → s.pushers i ≡ outside rc
      → Step s (record s { pushers = update s.pushers i (entered v) })
  push : (i : ℕ) → Step s (push_turn s i)
  spurious :
      (i : ℕ) {v t : ℕ}
      → s.pushers i ≡ ready v t
      → Step s (record s { pushers = update s.pushers i (entered v) })
  call_pop : {x : Option ℕ} → s.popper ≡ resting x → Step s (record s { popper = started })
  pop : Step s (pop_turn s)

abbrev pub idle_system : MpscRing → System
idle_system q = record {
  ring = q;
  pushers = λ _. outside none;
  popper = resting none;
  claims = [];
  out = [];
}

-- the states after `mpsc_init` with power `p`
pub data Reach (p : ℕ) : System → Type 0 where
  start : {q : MpscRing} → mpsc_init true p ≡ some q → Reach p (idle_system q)
  later : {s t : System} → Reach p s → Step s t → Reach p t

-- one access of a push whose next `fails` compare-exchanges fail without reason
unfoldable pub weak_step : (fails : ℕ) → MpscRing → PushPc → ℕ × MpscRing × PushPc
weak_step (suc fails) q (ready v t) = (fails, q, entered v)
weak_step fails q c = let (q', c', _) = push_step q c in (fails, q', c')

-- a call of `mpsc_push` that no other thread interrupts: `n` accesses of it
unfoldable pub push_run : ℕ → ℕ → MpscRing → PushPc → MpscRing × PushPc
push_run zero fails q c = (q, c)
push_run (suc n) fails q c = let (fails', q', c') = weak_step fails q c in push_run n fails' q' c'

-- five accesses, and three more for each failure
abbrev pub push_accesses : ℕ → ℕ
push_accesses zero = 5
push_accesses (suc fails) = suc (suc (suc (push_accesses fails)))

unfoldable pub mpsc_push : (fails : ℕ) → MpscRing → ℕ → MpscRing × PushPc
mpsc_push fails q v = push_run (push_accesses fails) fails q (entered v)

unfoldable pub pop_run : ℕ → MpscRing → PopPc → MpscRing × PopPc
pop_run zero q c = (q, c)
pop_run (suc n) q c = let (q', c', _) = pop_step q c in pop_run n q' c'

unfoldable pub mpsc_pop : MpscRing → MpscRing × PopPc
mpsc_pop q = pop_run 5 q started
