-- ===== src/Dram/Sieve.antt =====
-- `sieve_evict` of src/dram.cpp: it keeps a shard well formed and brings it within its budget.
use kvtier.Prelude.{
  ℕ, ◌+◌, ◌*◌, ◌^◌, ◌<◌, ◌≤◌, ◌≡◌, ◌≢◌, refl, ◌∙◌, ap, sym, subst, true, false, none, some, List,
  [], ◌∷◌, ◌==◌, ==_iff, if◌then◌else◌, ltb, inl, inr, Bool-cases, Option-cases, length, get_or,
  arith,
}
use kvtier.Common.{u64}
use kvtier.Dram.Types.{
  DramEntry, DramShard, DramCache, Block, in_arena, on_heap, entry_at, entry_total, total_at,
}
use kvtier.Dram.{snext, unlink, sub64, class_free, entry_free, sieve_at, is_empty}
use kvtier.Dram.Queue.{
  Mem, NoDup, sum_of, unlink-Mem, unlink-NoDup, sum_of-unlink, snext-Mem, snext_ne, snext_last,
}

abbrev pub queue_bytes : List DramEntry → List ℕ → ℕ
queue_bytes heap queue = sum_of (total_at heap) queue

-- A shard the program keeps: no entry is on the queue twice, each is allocated, the hand is on the
-- queue or null, and `bytes` is the sum of the entries' sizes, as a `uint64_t`.
pub record IsShard (heap : List DramEntry) (sh : DramShard) : Type 0 where
  pub nodup : NoDup sh.queue
  pub allocated : (p : ℕ) → Mem p sh.queue → p < length heap
  pub hand : (h : ℕ) → sh.s_hand ≡ some h → Mem h sh.queue
  pub bytes : sh.bytes ≡ u64 (queue_bytes heap sh.queue)

-- the rounds that an entry may take: one to clear `visited`, one to leave
abbrev pub weight : List DramEntry → ℕ → ℕ
weight heap p = if (entry_at heap p).visited then 2 else 1

abbrev pub flag : ℕ → ℕ → ℕ
flag e protect = if e == protect then 1 else 0

-- a bound on the rounds left
abbrev pub rounds : DramCache → DramShard → ℕ → ℕ
rounds d sh protect = 2 * sum_of (weight d.heap) sh.queue + flag (sieve_at sh) protect

pub record IsRound (d : DramCache) (sh : DramShard) (protect : ℕ) (r : DramCache × DramShard)
    : Type 0 where
  pub shard : IsShard r.0.heap r.1
  pub budget : r.1.budget ≡ sh.budget
  pub keeps : Mem protect r.1.queue
  pub total : (q : ℕ) → total_at r.0.heap q ≡ total_at d.heap q
  pub less : queue_bytes r.0.heap r.1.queue ≤ queue_bytes d.heap sh.queue
  pub fewer : rounds r.0 r.1 protect < rounds d sh protect

head-Mem : (xs : List ℕ) → is_empty xs ≡ false → Mem (get_or xs 0 0) xs
head-Mem [] n = absurd (cc n)
head-Mem (x ∷ xs) n = inl refl

pub sieve_at-Mem :
    (heap : List DramEntry) (sh : DramShard)
    → IsShard heap sh
    → is_empty sh.queue ≡ false
    → Mem (sieve_at sh) sh.queue
unfolding sieve_at
sieve_at-Mem heap sh w n = elim (Option-cases sh.s_hand) [
  | inr (h, e) ↦ rw e (w.hand h e)
  | inl e ↦ rw e (head-Mem sh.queue n)
]

head_other :
    (protect : ℕ) (xs : List ℕ)
    → Mem protect xs
    → unlink protect xs ≢ []
    → snext protect xs ≡ none
    → get_or xs 0 0 ≢ protect
unfolding unlink
head_other protect [] m ne e q = absurd m
head_other protect (x ∷ xs) m ne e q =
    let e' : snext protect (protect ∷ xs) ≡ none =
      subst (λ (y : ℕ). snext protect (y ∷ xs) ≡ none) q e in
    let none_left : xs ≡ [] = snext_last protect xs e' in
    let t : (x == protect) ≡ true = (==_iff x protect).1 q in ne (rw t none_left)

-- the hand after the protected entry is at another one, if there is one
next_other :
    (protect : ℕ) (sh : DramShard)
    → NoDup sh.queue
    → Mem protect sh.queue
    → unlink protect sh.queue ≢ []
    → sieve_at (record sh { s_hand = snext protect sh.queue }) ≢ protect
unfolding sieve_at
next_other protect sh w m ne = elim (Option-cases (snext protect sh.queue)) [
  | inr (y, e) ↦ rw e (λ q. snext_ne protect y sh.queue w e (sym q))
  | inl e ↦ rw e (head_other protect sh.queue m ne e)
]

pub flag-le : (e protect : ℕ) → flag e protect ≤ 1
flag-le e protect = elim (Bool-cases (e == protect)) [
  | inl t ↦ rw t (omega arith)
  | inr t ↦ rw t (omega arith)
]

class_free-heap : (d : DramCache) (b : Block) (cls : ℕ) → (class_free d b cls).heap ≡ d.heap
unfolding class_free
class_free-heap d (in_arena p) cls = elim (Bool-cases (ltb cls 6)) [
  | inl t ↦ rw t refl
  | inr t ↦ rw t refl
]
class_free-heap d on_heap cls = refl

pub entry_free-heap : (d : DramCache) (sh : DramShard) (p : ℕ) → (entry_free d sh p).0.heap ≡ d.heap
unfolding entry_free
entry_free-heap d sh p =
    let e = entry_at d.heap p in
    let total = entry_total e.n_records e.buf_len in
    let d' = record d { bytes = sub64 d.bytes total; entries = sub64 d.entries 1 } in
    elim (Bool-cases e.external) [
      | inl t ↦ rw t refl
      | inr t ↦ rw t (class_free-heap d' e.block e.size_class)
    ]

pub sub64-u64 : (a b : ℕ) → b < 2 ^ 32 → sub64 (u64 (b + a)) b ≡ u64 a
sub64-u64 a b l = omega (arith, l)

pub total_at-lt : (heap : List DramEntry) (p : ℕ) → total_at heap p < 2 ^ 32
unfolding entry_total
total_at-lt heap p = omega arith

-- what the shard is without an entry of its queue
pub IsShard-unlink :
    (heap : List DramEntry) (sh new : DramShard) (e : ℕ)
    → IsShard heap sh
    → Mem e sh.queue
    → new.queue ≡ unlink e sh.queue
    → ((h : ℕ) → new.s_hand ≡ some h → Mem h (unlink e sh.queue))
    → new.bytes ≡ sub64 sh.bytes (total_at heap e)
    → IsShard heap new
IsShard-unlink heap sh new e w m q h b = record {
  nodup = rw q (unlink-NoDup e sh.queue w.nodup);
  allocated = λ p n. w.allocated p (unlink-Mem e p sh.queue (rw q at n));
  hand = λ k n. rw q (h k n);
  bytes =
      b
      ∙ ap (λ (x : ℕ). sub64 x (total_at heap e))
          (w.bytes ∙ ap u64 (sum_of-unlink (total_at heap) e sh.queue m))
      ∙ sub64-u64 (queue_bytes heap (unlink e sh.queue)) (total_at heap e) (total_at-lt heap e)
      ∙ ap (λ (x : List ℕ). u64 (queue_bytes heap x)) (sym q);
}

pub skip-IsRound :
    (d : DramCache) (sh : DramShard) (protect : ℕ)
    → IsShard d.heap sh
    → Mem protect sh.queue
    → total_at d.heap protect < queue_bytes d.heap sh.queue
    → sieve_at sh ≡ protect
    → IsRound d sh protect (d, record sh { s_hand = snext (sieve_at sh) sh.queue })
skip-IsRound d sh protect w m l e =
    let more : unlink protect sh.queue ≢ [] = λ z.
      (let s = sum_of-unlink (total_at d.heap) protect sh.queue m in
        let z' = ap (sum_of (total_at d.heap)) z in omega (arith, s, z', l)) in
    let off = next_other protect sh w.nodup m more in
    let t : (sieve_at sh == protect) ≡ true = (==_iff (sieve_at sh) protect).1 e in
    let sh' = record sh { s_hand = snext (sieve_at sh) sh.queue } in
    let f : (sieve_at sh' == protect) ≡ false = elim (Bool-cases (sieve_at sh' == protect)) [
      | inl a ↦ absurd (off (rw e at ((==_iff (sieve_at sh') protect).0 a)))
      | inr a ↦ a
    ] in
    record {
      shard = record {
        nodup = w.nodup;
        allocated = w.allocated;
        hand = λ h q. snext-Mem (sieve_at sh) h sh.queue q;
        bytes = w.bytes;
      };
      budget = refl;
      keeps = m;
      total = λ q. refl;
      less = omega arith;
      fewer = rw (t, f) (omega arith);
    }
